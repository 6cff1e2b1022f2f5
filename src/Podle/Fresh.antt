-- ===== src/Podle/Fresh.antt =====
-- No commitment is given out twice: `generate_podle` over a sequence of requests.
use Prim.Native.Nat.{min}
use mathlib.Core.Path.{subst}
use joinmarket_clientserver.Maker.Verify.{Outpoint}
use joinmarket_clientserver.Podle.State.{generate, Curve, get_nums, Podle}
use joinmarket_clientserver.Podle.Commitments.{
  tries_below, remove_external, Commitments, Sourced, update_used, get_podle_tries, External,
  commitment_of, Nonces, give, get_external_tries, sourced, Reveal, external_at, raised,
  unavailable, external_podle, revealed, turn, generate_podle, from_external,
}
use native.Mathlib.Decide.{ℕ_discrete}
use joinmarket_clientserver.Prelude.Dict.{holds, Dict, lookup}
use joinmarket_clientserver.Prelude.Text.{Text, text_eq, is_empty}
use joinmarket_clientserver.Prelude.{
  ◌>>=◌, List, Option, [], ap, arith, contains, keep, none, refl, some, suc, true, zero, ℕ, ◌<◌,
  ◌∷◌, ◌≡◌, ◌≤◌, not, sym, contains-dedup, false, length, ◌++◌, ◌==◌, ◌||◌, ◌∙◌, pair_eq, ℕ_eq,
  Bool, Bool-cases, inl, inr, leb, Option-cases, if◌then◌else◌,
}

-- The commitment for an index, which does not depend on the nonce.
abbrev made : Curve → ℕ → ℕ → Option Text
made c index priv = do J ← get_nums c index; P2 ← c.multiply priv J; some (c.sha256 P2)

-- if there is a proof, it is for that commitment
abbrev Makes : Option Text → Option Podle → Type 0
Makes m none = Unit
Makes m (some p) = m ≡ some p.commitment

Makes-bind :
    {A : Type 0} (m : Option Text) (o : Option A) (f : A → Option Podle)
    → ((a : A) → Makes m (f a))
    → Makes m (o >>= f)
Makes-bind m none f h = tt
Makes-bind m (some a) f h = h a

Makes-bind_both :
    {A : Type 0} (o : Option A) (g : A → Option Text) (f : A → Option Podle)
    → ((a : A) → Makes (g a) (f a))
    → Makes (o >>= g) (o >>= f)
Makes-bind_both none g f h = tt
Makes-bind_both (some a) g f h = h a

generate-Makes :
    (c : Curve) (k index : ℕ) (u : Outpoint) (priv : ℕ)
    → Makes (made c index priv) (generate c k index u priv)
unfolding generate
generate-Makes c k index u priv = Makes-bind _ (c.public_key priv) _ (λ P.
    Makes-bind_both (get_nums c index) _ _ (λ J. Makes-bind _ (c.public_key k) _ (λ KG.
      Makes-bind _ (c.multiply k J) _
        (λ KJ. Makes-bind_both (c.multiply priv J) _ _ (λ P2. refl)))))

-- the tries that are left have commitments that were not used
tries_below-unused :
    (commitment : ℕ → Option Text) (used : List Text) (n t i : ℕ)
    → tries_below commitment used n ≡ some t
    → t ≤ i
    → i < n
    → holds (λ c. not (contains c used)) (commitment i) ≡ true
unfolding tries_below
tries_below-unused commitment used zero t i h l b = ground arith
tries_below-unused commitment used (suc n) t i h l b = elim (ℕ_discrete i n) [
  | yes q ↦
      subst (λ j. holds (λ c. not (contains c used)) (commitment j) ≡ true) (sym q) (ground arith)
  | no d ↦ ground (arith, tries_below-unused commitment used n t i)
]

tries_below-bound :
    (commitment : ℕ → Option Text) (used : List Text) (n t : ℕ)
    → tries_below commitment used n ≡ some t
    → t ≤ n
unfolding tries_below
tries_below-bound commitment used zero t h = ground arith
tries_below-bound commitment used (suc n) t h =
    ground (arith, tries_below-bound commitment used n t)

keep_all : {A : Type 0} (xs : List A) → keep (λ x. true) xs ≡ xs
keep_all [] = refl
keep_all (x ∷ xs) = ap (λ ys. x ∷ ys) (keep_all xs)

remove_external_id : (u : Outpoint) (s : Commitments) → remove_external u s ≡ s
unfolding remove_external
remove_external_id u s = ap (λ d. record s { external = d }) (keep_all s.external)

abbrev IsDigest : Option Text → Type 0
IsDigest none = Unit
IsDigest (some c) = is_empty c ≡ false

-- sha256 gives 32 bytes
abbrev pub HasDigests : Curve → Type 0
HasDigests c = (x : Text) → is_empty (c.sha256 x) ≡ false

IsDigest-bind :
    {A : Type 0} (o : Option A) (f : A → Option Text)
    → ((a : A) → IsDigest (f a))
    → IsDigest (o >>= f)
IsDigest-bind none f h = tt
IsDigest-bind (some a) f h = h a

made-IsDigest : (c : Curve) → HasDigests c → (index priv : ℕ) → IsDigest (made c index priv)
made-IsDigest c d index priv =
    IsDigest-bind (get_nums c index) _ (λ J. IsDigest-bind (c.multiply priv J) _ (λ P2. d P2))

-- A proof that may be given out.
abbrev IsReady : Commitments → Option Podle → Type 0
IsReady s none = Unit
IsReady s (some p) = (contains p.commitment s.used ≡ false) × (is_empty p.commitment ≡ false)

-- A proof that is given out has a new commitment, which is used from then on.
abbrev pub IsNew : Commitments → Commitments × Sourced → Type 0
IsNew s (s', raised) = s' ≡ s
IsNew s (s', unavailable) = s' ≡ s
IsNew s (s', sourced p) =
    (contains p.commitment s.used ≡ false)
    × ((x : Text) → contains x s'.used ≡ (x == p.commitment || contains x s.used))
    × (s'.external ≡ s.external)

contains-snoc :
    (x c : Text) (xs : List Text) → contains x (xs ++ c ∷ []) ≡ (x == c || contains x xs)
contains-snoc x c [] = refl
contains-snoc x c (y ∷ ys) = ground (arith, contains-snoc x c ys)

give-IsNew : (o : Option Podle) (s : Commitments) → IsReady s o → IsNew s (give o s)
unfolding update_used
give-IsNew none s h = refl
give-IsNew (some p) s h = rw h.1 (
  h.0,
  (λ x. contains-dedup x (s.used ++ p.commitment ∷ []) ∙ contains-snoc x p.commitment s.used),
  refl,
)

-- The proofs of one coin for one index have the same commitment.
same_commitment :
    (m : Option Text) (o o' : Option Podle) (s : Commitments)
    → IsDigest m
    → Makes m o
    → Makes m o'
    → holds (λ c. not (contains c s.used)) (commitment_of o) ≡ true
    → IsReady s o'
same_commitment m o none s d h h' f = tt
same_commitment m none (some q) s d h h' f = ground arith
same_commitment none (some p) (some q) s d h h' f = ground arith
same_commitment (some x) (some p) (some q) s d h h' f = (ground arith, ground arith)

own-IsReady :
    (c : Curve) (nonces : Nonces) (u : Outpoint) (priv max_tries t : ℕ) (s : Commitments)
    → HasDigests c
    → get_podle_tries c nonces u priv max_tries s ≡ some t
    → t < max_tries
    → IsReady s (generate c (nonces.given u) t u priv)
unfolding get_podle_tries
own-IsReady c nonces u priv max_tries t s d h b =
    same_commitment (made c t priv) (generate c (nonces.tried u t) t u priv) _ s
      (made-IsDigest c d t priv) (generate-Makes c (nonces.tried u t) t u priv)
      (generate-Makes c (nonces.given u) t u priv)
      (tries_below-unused _ s.used max_tries t t h (omega arith) b)

-- The indices of an entry are those below its length.
abbrev pub IsIndexedEntry : External → Type 0
IsIndexedEntry ec = (i : ℕ) (r : Reveal) → lookup i ec.reveal ≡ some r → i < length ec.reveal

abbrev pub IsIndexed : Dict Outpoint External → Type 0
IsIndexed external =
    (u : Outpoint) (ec : External) → lookup u external ≡ some ec → IsIndexedEntry ec

reveal-IsReady :
    (c : Curve) (u : Outpoint) (ec : External) (s : Commitments)
    → HasDigests c
    → (o : Option Reveal)
    → holds (λ c. not (contains c s.used)) (commitment_of (o >>= revealed c u ec)) ≡ true
    → IsReady s (o >>= revealed c u ec)
reveal-IsReady c u ec s d none f = tt
reveal-IsReady c u ec s d (some r) f = go (is_empty r.P2) f
  where
    p : Podle
    p = record { u = u; P = ec.P; P2 = r.P2; s = r.s; e = r.e; commitment = c.sha256 r.P2 }

    go :
        (b : Bool)
        → holds (λ c. not (contains c s.used)) (commitment_of (if b then none else some p)) ≡ true
        → IsReady s (if b then none else some p)
    go true h = tt
    go false h = (ground (arith, h), d r.P2)

below_min : (t n m : ℕ) → t < n → t < m → t < min n m
below_min t n m h h' = omega arith

external-IsReady :
    (c : Curve) (u : Outpoint) (max_tries t : ℕ) (o : Option External) (s : Commitments)
    → HasDigests c
    → IsIndexed s.external
    → lookup u s.external ≡ o
    → get_external_tries c u max_tries o s.used ≡ some t
    → t < max_tries
    → IsReady s (external_at c u o t)
unfolding get_external_tries external_podle
external-IsReady c u max_tries t none s d w l h b = tt
external-IsReady c u max_tries t (some ec) s d w l h b = elim (Option-cases (lookup t ec.reveal)) [
  | inl e ↦ rw e tt
  | inr (r, e) ↦ reveal-IsReady c u ec s d (lookup t ec.reveal) (
      tries_below-unused _ s.used _ t t h (omega arith)
        (below_min t (length ec.reveal) max_tries (w u ec l t r e) b))
]

turn-IsNew :
    (max_tries : ℕ) (o : Option ℕ) (proof : ℕ → Option Podle) (s : Commitments)
    (rest : Commitments × Sourced)
    → IsNew s rest
    → ((t : ℕ) → o ≡ some t → t < max_tries → IsReady s (proof t))
    → IsNew s (turn max_tries o proof s rest)
turn-IsNew max_tries none proof s rest h f = refl
turn-IsNew max_tries (some t) proof s rest h f = elim (Bool-cases (leb max_tries t)) [
  | inl q ↦ rw q h
  | inr q ↦ rw q (give-IsNew (proof t) s (f t refl (ground arith)))
]

from_external-IsNew :
    (c : Curve) (max_tries : ℕ) (us : List Outpoint) (s : Commitments)
    → HasDigests c
    → IsIndexed s.external
    → IsNew s (from_external c max_tries s us s)
unfolding from_external
from_external-IsNew c max_tries [] s d w = refl
from_external-IsNew c max_tries (u ∷ us) s d w =
    turn-IsNew max_tries _ _ s _
      (rw (remove_external_id u s) (from_external-IsNew c max_tries us s d w))
      (λ t q b. external-IsReady c u max_tries t (lookup u s.external) s d w refl q b)

-- Whatever the wallet's and the external coins, `generate_podle` gives out a proof whose commitment was
-- not used, and stores it, or it changes nothing.
pub generate_podle-IsNew :
    (c : Curve) (nonces : Nonces) (max_tries : ℕ) (allow_external : List Outpoint)
    (pairs : List (ℕ × Outpoint)) (s : Commitments)
    → HasDigests c
    → IsIndexed s.external
    → IsNew s (generate_podle c nonces max_tries allow_external pairs s)
unfolding generate_podle
generate_podle-IsNew c nonces max_tries allow_external [] s d w =
    from_external-IsNew c max_tries allow_external s d w
generate_podle-IsNew c nonces max_tries allow_external ((priv, u) ∷ pairs) s d w =
    turn-IsNew max_tries _ _ s _
      (generate_podle-IsNew c nonces max_tries allow_external pairs s d w)
      (λ t q b. own-IsReady c nonces u priv max_tries t s d q b)
