-- ===== src/Prelude/Dict.antt =====
-- A dict, or an SQL table with a primary key, as an association list.
use mathlib.Core.Path.{◌≡◌, refl, subst}
use mathlib.Core.Bool.{Bool, true, false}
use mathlib.Core.Option.{Option, none, some}
use mathlib.Core.Option
use mathlib.Core.List.{List, [], ◌∷◌}
use native.Mathlib.Omega.{arith}
use joinmarket_clientserver.Prelude.Tests.{if◌then◌else◌, Eq, ◌==◌}
use joinmarket_clientserver.Prelude.Lists.{contains, Distinct, All}

abbrev pub Dict : Type 0 → Type 0 → Type 0
Dict K V = List (K × V)

abbrev pub keys : {K V : Type 0} → Dict K V → List K
keys [] = []
keys ((k, v) ∷ d) = k ∷ keys d

abbrev pub values : {K V : Type 0} → Dict K V → List V
values [] = []
values ((k, v) ∷ d) = v ∷ values d

-- A test on the value that a key is bound to.
abbrev pub holds : {V : Type 0} → (V → Bool) → Option V → Bool
holds p none = false
holds p (some v) = p v

module _ {K V : Type 0} ⦃e : Eq K⦄ where
  unfoldable pub lookup : K → Dict K V → Option V
  lookup k [] = none
  lookup k ((j, v) ∷ d) = if j == k then some v else lookup k d

  -- `d[k] = v`, or an SQL upsert
  unfoldable pub insert : K → V → Dict K V → Dict K V
  insert k v [] = (k, v) ∷ []
  insert k v ((j, w) ∷ d) = if j == k then (j, v) ∷ d else (j, w) ∷ insert k v d

  -- `del d[k]`
  unfoldable pub erase : K → Dict K V → Dict K V
  erase k [] = []
  erase k ((j, w) ∷ d) = if j == k then d else (j, w) ∷ erase k d

  -- `UPDATE ... WHERE key = k`
  unfoldable pub update : K → (V → V) → Dict K V → Dict K V
  update k f [] = []
  update k f ((j, w) ∷ d) = if j == k then (j, f w) ∷ d else (j, w) ∷ update k f d

  pub lookup-insert :
      (k j : K) (v : V) (d : Dict K V)
      → lookup j (insert k v d) ≡ (if k == j then some v else lookup j d)
  unfolding lookup insert
  lookup-insert k j v [] = refl
  lookup-insert k j v ((i, w) ∷ d) = ground (arith, lookup-insert k j v d)

  pub lookup-insert_self : (k : K) (v : V) (d : Dict K V) → lookup k (insert k v d) ≡ some v
  lookup-insert_self k v d = ground (arith, lookup-insert k k v d)

  pub lookup-update :
      (k j : K) (f : V → V) (d : Dict K V)
      → lookup j (update k f d) ≡ (if k == j then Option.map f (lookup j d) else lookup j d)
  unfolding lookup update
  lookup-update k j f [] = ground arith
  lookup-update k j f ((i, w) ∷ d) = ground (arith, lookup-update k j f d)

  -- a key is listed exactly when it is found
  pub contains-keys :
      (k : K) (d : Dict K V)
      → contains k (keys d) ≡ elim (lookup k d) [ none ↦ false | some _ ↦ true ]
  unfolding lookup
  contains-keys k [] = refl
  contains-keys k ((i, w) ∷ d) = ground (arith, contains-keys k d)

  pub contains-keys-insert :
      (k j : K) (v : V) (d : Dict K V) → contains j (keys (insert k v d)) ≡ contains j (k ∷ keys d)
  unfolding insert
  contains-keys-insert k j v [] = refl
  contains-keys-insert k j v ((i, w) ∷ d) = ground (arith, contains-keys-insert k j v d)

  pub insert-Distinct :
      (k : K) (v : V) (d : Dict K V) → Distinct (keys d) → Distinct (keys (insert k v d))
  unfolding insert
  insert-Distinct k v [] h = (refl, tt)
  insert-Distinct k v ((i, w) ∷ d) h =
      ground (arith, insert-Distinct k v d h.1, contains-keys-insert k i v d)

  pub keys-update : (k : K) (f : V → V) (d : Dict K V) → keys (update k f d) ≡ keys d
  unfolding update
  keys-update k f [] = refl
  keys-update k f ((i, w) ∷ d) = ground (arith, keys-update k f d)

  pub lookup-erase :
      (k j : K) (d : Dict K V)
      → Distinct (keys d)
      → lookup j (erase k d) ≡ (if k == j then none else lookup j d)
  unfolding lookup erase
  lookup-erase k j [] h = ground arith
  lookup-erase k j ((i, w) ∷ d) h = ground (arith, lookup-erase k j d h.1, contains-keys j d)

  contains-keys-erase :
      (k j : K) (d : Dict K V) → contains j (keys d) ≡ false → contains j (keys (erase k d)) ≡ false
  unfolding erase
  contains-keys-erase k j [] h = refl
  contains-keys-erase k j ((i, w) ∷ d) h = ground (arith, contains-keys-erase k j d)

  pub erase-Distinct : (k : K) (d : Dict K V) → Distinct (keys d) → Distinct (keys (erase k d))
  unfolding erase
  erase-Distinct k [] h = tt
  erase-Distinct k ((i, w) ∷ d) h =
      ground (arith, erase-Distinct k d h.1, contains-keys-erase k i d)

  pub All-insert :
      (P : V → Type 0) (k : K) (v : V) (d : Dict K V)
      → P v
      → All P (values d)
      → All P (values (insert k v d))
  unfolding insert
  All-insert P k v [] p h = (p, tt)
  All-insert P k v ((i, w) ∷ d) p h = ground (arith, All-insert P k v d p h.1)

  pub All-update :
      (P : V → Type 0) (k : K) (f : V → V) (d : Dict K V)
      → ((v : V) → P v → P (f v))
      → All P (values d)
      → All P (values (update k f d))
  unfolding update
  All-update P k f [] p h = tt
  All-update P k f ((i, w) ∷ d) p h = ground (arith, p w, All-update P k f d p h.1)

  pub All-erase :
      (P : V → Type 0) (k : K) (d : Dict K V) → All P (values d) → All P (values (erase k d))
  unfolding erase
  All-erase P k [] h = tt
  All-erase P k ((i, w) ∷ d) h = ground (arith, All-erase P k d h.1)

  pub All-lookup :
      (P : V → Type 0) (k : K) (d : Dict K V) {v : V} → All P (values d) → lookup k d ≡ some v → P v
  unfolding lookup
  All-lookup P k [] h q = cc
  All-lookup P k ((i, w) ∷ d) {v} h q = elim (e.dec i k) [
    | yes p ↦ subst P (ground arith) h.0
    | no p ↦ All-lookup P k d {v = v} h.1 (ground arith)
  ]
