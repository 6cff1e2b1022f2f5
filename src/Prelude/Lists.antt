-- ===== src/Prelude/Lists.antt =====
-- Lists measured by native numbers, and predicates on their elements.
use mathlib.Core.Option.{Option, some, none}
use Prim.Native.Nat.{ℕ, suc, ◌+◌}
use mathlib.Core.Path.{◌≡◌, refl, ap}
use mathlib.Core.Bool.{Bool, true, false, ◌||◌, ◌&&◌}
use mathlib.Core.List.{List, [], ◌∷◌, ◌++◌}
use mathlib.Core.Logic.{◌⊎◌, inl, inr}
use native.Mathlib.Omega.{arith}
use joinmarket_clientserver.Prelude.Tests.{if◌then◌else◌, Eq, ◌==◌}

module _ {ℓ} {A : Type ℓ} where
  abbrev pub length : List A → ℕ
  length [] = 0
  length (x ∷ xs) = suc (length xs)

  -- `[x for x in xs if p(x)]`
  abbrev pub keep : (A → Bool) → List A → List A
  keep p [] = []
  keep p (x ∷ xs) = if p x then x ∷ keep p xs else keep p xs

  -- every element passes the test
  abbrev pub every : (A → Bool) → List A → Bool
  every p [] = true
  every p (x ∷ xs) = p x && every p xs

  -- some element passes the test
  abbrev pub some_of : (A → Bool) → List A → Bool
  some_of p [] = false
  some_of p (x ∷ xs) = p x || some_of p xs

  pub length-append : (xs ys : List A) → length (xs ++ ys) ≡ length xs + length ys
  length-append [] ys = omega arith
  length-append (x ∷ xs) ys = omega (arith, length-append xs ys)

module _ {ℓ} {A : Type ℓ} ⦃e : Eq A⦄ where
  -- `x in xs`
  abbrev pub contains : A → List A → Bool
  contains x [] = false
  contains x (y ∷ ys) = (x == y) || contains x ys

  -- the distinct elements, as `set(xs)` keeps them
  abbrev pub dedup : List A → List A
  dedup [] = []
  dedup (x ∷ xs) = if contains x (dedup xs) then dedup xs else x ∷ dedup xs

  abbrev pub Distinct : List A → Type 0
  Distinct [] = Unit {0}
  Distinct (x ∷ xs) = (contains x xs ≡ false) × Distinct xs

  pub contains-dedup : (x : A) (xs : List A) → contains x (dedup xs) ≡ contains x xs
  contains-dedup x [] = refl
  contains-dedup x (y ∷ ys) = ground (arith, contains-dedup x ys, contains-dedup y ys)

  pub dedup-Distinct : (xs : List A) → Distinct (dedup xs)
  dedup-Distinct [] = tt
  dedup-Distinct (x ∷ xs) = ground (arith, dedup-Distinct xs)

-- A predicate on every element.
abbrev pub All {ℓ κ} : {A : Type ℓ} → (A → Type κ) → List A → Type κ
All P [] = Unit
All P (x ∷ xs) = P x × All P xs

-- `x` is one of the elements.
abbrev pub In : {A : Type 0} → A → List A → Type 0
In x [] = ⊥
In x (y ∷ ys) = (x ≡ y) ⊎ In x ys

pub All-In : {A : Type 0} (P : A → Type 0) (x : A) (xs : List A) → All P xs → In x xs → P x
All-In P x [] h m = absurd m
All-In P x (y ∷ ys) h (inl e) = rw e h.0
All-In P x (y ∷ ys) h (inr m) = All-In P x ys h.1 m

pub All-weaken :
    {A : Type 0} (P Q : A → Type 0) (xs : List A) → ((x : A) → P x → Q x) → All P xs → All Q xs
All-weaken P Q [] f h = tt
All-weaken P Q (x ∷ xs) f h = (f x h.0, All-weaken P Q xs f h.1)

pub All-append :
    {A : Type 0} (P : A → Type 0) (xs ys : List A) → All P xs → All P ys → All P (xs ++ ys)
All-append P [] ys h k = k
All-append P (x ∷ xs) ys h k = (h.0, All-append P xs ys h.1 k)

pub In-append_left : {A : Type 0} (x : A) (xs ys : List A) → In x xs → In x (xs ++ ys)
In-append_left x [] ys m = absurd m
In-append_left x (z ∷ xs) ys (inl e) = inl e
In-append_left x (z ∷ xs) ys (inr m) = inr (In-append_left x xs ys m)

pub In-append_right : {A : Type 0} (x : A) (xs ys : List A) → In x ys → In x (xs ++ ys)
In-append_right x [] ys m = m
In-append_right x (z ∷ xs) ys m = inr (In-append_right x xs ys m)

pub In-keep :
    {A : Type 0} (p : A → Bool) (x : A) (xs : List A) → p x ≡ true → In x xs → In x (keep p xs)
In-keep p x [] h m = m
In-keep p x (y ∷ ys) h (inl e) = rw (← e, h) (inl refl)
In-keep p x (y ∷ ys) h (inr m) =
    elim (p y) as (λ b. In x (if b then y ∷ keep p ys else keep p ys)) [
      | true ↦ inr (In-keep p x ys h m)
      | false ↦ In-keep p x ys h m
    ]

pub contains-keep :
    {A : Type 0} ⦃e : Eq A⦄ (p : A → Bool) (x : A) (xs : List A)
    → contains x (keep p xs) ≡ (p x && contains x xs)
contains-keep p x [] = ground arith
contains-keep p x (y ∷ ys) = ground (arith, contains-keep p x ys, ap p)

pub All-keep {ℓ κ} :
    {A : Type ℓ} (P : A → Type κ) (p : A → Bool) (xs : List A) → All P xs → All P (keep p xs)
All-keep P p [] h = tt
All-keep P p (x ∷ xs) h = ground (arith, All-keep P p xs h.1)

pub keep-Distinct :
    {A : Type 0} ⦃e : Eq A⦄ (p : A → Bool) (xs : List A) → Distinct xs → Distinct (keep p xs)
keep-Distinct p [] d = tt
keep-Distinct p (x ∷ xs) d = ground (arith, keep-Distinct p xs d.1, contains-keep p x xs)

-- a chain of results that may be missing
infixl 1 ◌>>=◌
abbrev pub ◌>>=◌ : {A B : Type 0} → Option A → (A → Option B) → Option B
none >>= f = none
(some a) >>= f = f a
