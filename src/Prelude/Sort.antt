-- ===== src/Prelude/Sort.antt =====
-- Python's `sorted`: a stable sort, here by insertion.
use mathlib.Core.Path.{◌≡◌, refl}
use mathlib.Core.Bool.{Bool}
use mathlib.Core.List.{List, [], ◌∷◌}
use native.Mathlib.Omega.{arith}
use joinmarket_clientserver.Prelude.Tests.{if◌then◌else◌, Eq}
use joinmarket_clientserver.Prelude.Lists.{contains, Distinct, All}

module _ {ℓ} {A : Type ℓ} (before : A → A → Bool) where
  unfoldable pub insert_sorted : A → List A → List A
  insert_sorted x [] = x ∷ []
  insert_sorted x (y ∷ ys) = if before x y then x ∷ y ∷ ys else y ∷ insert_sorted x ys

  -- elements that are equal in the order keep their places
  unfoldable pub sort : List A → List A
  unfolding insert_sorted
  sort [] = []
  sort (x ∷ xs) = insert_sorted x (sort xs)

  insert_sorted-All {κ} :
      (P : A → Type κ) (x : A) (xs : List A) → P x → All P xs → All P (insert_sorted x xs)
  unfolding insert_sorted
  insert_sorted-All P x [] p h = (p, tt)
  insert_sorted-All P x (y ∷ ys) p h = ground (arith, insert_sorted-All P x ys p)

  pub sort-All {κ} : (P : A → Type κ) (xs : List A) → All P xs → All P (sort xs)
  unfolding sort
  sort-All P [] h = tt
  sort-All P (x ∷ xs) h = insert_sorted-All P x (sort xs) h.0 (sort-All P xs h.1)

module _ {ℓ} {A : Type ℓ} ⦃e : Eq A⦄ (before : A → A → Bool) where
  contains-insert_sorted :
      (a x : A) (xs : List A) → contains a (insert_sorted before x xs) ≡ contains a (x ∷ xs)
  unfolding insert_sorted
  contains-insert_sorted a x [] = refl
  contains-insert_sorted a x (y ∷ ys) = ground (arith, contains-insert_sorted a x ys)

  insert_sorted-Distinct :
      (x : A) (xs : List A) → Distinct (x ∷ xs) → Distinct (insert_sorted before x xs)
  unfolding insert_sorted
  insert_sorted-Distinct x [] h = h
  insert_sorted-Distinct x (y ∷ ys) h =
      ground (arith, insert_sorted-Distinct x ys, contains-insert_sorted y x ys)

  pub contains-sort : (a : A) (xs : List A) → contains a (sort before xs) ≡ contains a xs
  unfolding sort
  contains-sort a [] = refl
  contains-sort a (x ∷ xs) =
      ground (arith, contains-insert_sorted a x (sort before xs), contains-sort a xs)

  pub sort-Distinct : (xs : List A) → Distinct xs → Distinct (sort before xs)
  unfolding sort
  sort-Distinct [] h = tt
  sort-Distinct (x ∷ xs) h =
      insert_sorted-Distinct x (sort before xs)
        (ground (arith, contains-sort x xs), sort-Distinct xs h.1)
