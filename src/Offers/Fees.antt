-- ===== src/Offers/Fees.antt =====
-- What a maker charges: `calc_cj_fee` of jmclient/support.py. An amount is a natural number of
-- satoshis. A fee is a decimal number as Python's `Decimal` reads it from the offer's string; a product
-- is rounded to the 28 digits of Python's default context.
use mathlib.Core.Option
use native.Mathlib.Nat.{le_refl, pow-suc}
use mathlib.Core.Path.{subst}
use native.Mathlib.Decide.{dec_lt, ℕ_discrete}
use joinmarket_clientserver.Prelude.Text.{Text, codes, text_eq}
use joinmarket_clientserver.Prelude.{
  Bool, Option, [], contains, if◌then◌else◌, ltb, negsuc, none, pos, some, sub_ℕ, suc, ℕ, ℤ, ◌%◌,
  ◌*◌, ◌+◌, ◌/◌, ◌<◌, ◌==◌, ◌^◌, ◌∷◌, ◌≤◌, ℕ_eq, Bool-cases, arith, inl, inr, ◌≡◌, false, refl,
  true, zero, leb, ◌-◌, ap, ◌∙◌,
}

pub record Decimal : Type 0 where
  pub coefficient : ℤ
  pub places : ℕ

-- `n / p` rounded to the nearest integer, a half to the even one (ROUND_HALF_EVEN).
unfoldable pub round_half_even : ℕ → ℕ → ℕ
round_half_even n p =
    let q : ℕ = n / p in
    if ltb (2 * (n % p)) p then q else if ltb p (2 * (n % p)) then q + 1 else q + q % 2

-- The smallest `k` from the given one on for which `n` has at most `28 + k` digits; `n` as fuel is
-- enough, since `n < 10 ** n`.
unfoldable pub excess_digits : ℕ → ℕ → ℕ → ℕ
excess_digits zero k n = k
excess_digits (suc fuel) k n = elim (ltb n (10 ^ (28 + k))) [
  | true ↦ k
  | false ↦ excess_digits fuel (k + 1) n
]

-- `n * 10 ** k / 10 ** places` rounded to an integer.
unfoldable pub quantized : ℕ → ℕ → ℕ → ℕ
unfolding round_half_even
quantized n k places =
    if leb k places then round_half_even n (10 ^ (places - k)) else n * 10 ^ (k - places)

-- `(Decimal(n, places) * Decimal(amount)).quantize(Decimal(1))`: the product is rounded to 28 digits,
-- and `quantize` raises InvalidOperation where its result has more.
unfoldable pub product_rounded : ℕ → ℕ → ℕ → Option ℕ
unfolding excess_digits quantized
product_rounded n amount places =
    let product = n * amount in
    let k = excess_digits product 0 product in
    let rounded = quantized (round_half_even product (10 ^ k)) k places in
    if ltb rounded (10 ^ 28) then some rounded else none

-- `int((d * Decimal(amount)).quantize(Decimal(1)))`
unfoldable pub times_rounded : Decimal → ℕ → Option ℤ
unfolding product_rounded
times_rounded d amount = elim d.coefficient [
  | pos n ↦ Option.map pos (product_rounded n amount d.places)
  | negsuc n ↦ Option.map (sub_ℕ 0) (product_rounded (suc n) amount d.places)
]

-- `int(text)`, where `ValueError` is `none`
unfoldable pub to_int : Decimal → Option ℤ
to_int d = if d.places == 0 then some d.coefficient else none

unfoldable pub is_absolute : Text → Bool
is_absolute t = contains t (codes "sw0absoffer" ∷ codes "swabsoffer" ∷ codes "absoffer" ∷ [])

unfoldable pub is_relative : Text → Bool
is_relative t = contains t (codes "sw0reloffer" ∷ codes "swreloffer" ∷ codes "reloffer" ∷ [])

-- The fee of an offer; `none` is an exception: an unknown type, an absolute fee that is no integer, or
-- a product that is too large.
unfoldable pub calc_cj_fee : Text → Decimal → ℕ → Option ℤ
unfolding is_absolute is_relative to_int times_rounded
calc_cj_fee ordertype cjfee cj_amount =
    if is_absolute ordertype
    then to_int cjfee
    else if is_relative ordertype
    then times_rounded cjfee cj_amount
    else none

-- The quotient, or one more, is near enough if the remainder says so.
stay_near :
    (n p q r : ℕ)
    → p * q + r ≡ n
    → 2 * r ≤ p
    → (2 * (p * q) ≤ 2 * n + p) × (2 * n ≤ 2 * (p * q) + p)
stay_near n p q r e h = omega arith

step_near :
    (n p q r : ℕ)
    → p * q + r ≡ n
    → r < p
    → p ≤ 2 * r
    → (2 * (p * (q + 1)) ≤ 2 * n + p) × (2 * n ≤ 2 * (p * (q + 1)) + p)
step_near n p q r e b h = omega arith

-- Rounding lands at most half a unit away from the exact quotient.
pub round_half_even_bounds :
    (n p : ℕ)
    → 0 < p
    → (2 * (p * round_half_even n p) ≤ 2 * n + p) × (2 * n ≤ 2 * (p * round_half_even n p) + p)
unfolding round_half_even
round_half_even_bounds n p h =
    let e : (p * (n / p) + n % p ≡ n) = grind arith in
    let b : (n % p < p) = grind arith in
    elim (Bool-cases (ltb (2 * (n % p)) p)) [
      | inl below ↦ rw below (stay_near n p (n / p) (n % p) e (ground arith))
      | inr nearly ↦ elim (Bool-cases (ltb p (2 * (n % p)))) [
        | inl above ↦ rw (nearly, above) (step_near n p (n / p) (n % p) e b (ground arith))
        | inr half ↦ elim (dec_lt 0 (n / p % 2)) [
          | yes odd ↦
              let o : (n / p % 2 ≡ 1) = omega arith in
              rw (nearly, half, o) (step_near n p (n / p) (n % p) e b (ground arith))
          | no even ↦
              let z : (n / p % 2 ≡ 0) = omega arith in
              rw (nearly, half, z)
                (subst (λ (q : ℕ). (2 * (p * q) ≤ 2 * n + p) × (2 * n ≤ 2 * (p * q) + p))
                  (omega arith) (stay_near n p (n / p) (n % p) e (ground arith)))
        ]
      ]
    ]

-- A larger amount is never rounded to a smaller fee.
round_half_even_mono : (n m p : ℕ) → 0 < p → n ≤ m → round_half_even n p ≤ round_half_even m p
round_half_even_mono n m p h le = elim (ℕ_discrete n m) [
  | yes e ↦ rw e (le_refl (round_half_even m p))
  | no ne ↦
      apart p (round_half_even n p) (round_half_even m p)
        (omega (arith, (round_half_even_bounds n p h).0, (round_half_even_bounds m p h).1))
]
  where
    apart : (k a b : ℕ) → 2 * (k * a) < 2 * (k * b) + 2 * k → a ≤ b
    apart k a b lt = grind arith

pow_pos : (k : ℕ) → 0 < 10 ^ k
pow_pos zero = omega arith
pow_pos (suc k) = omega (arith, pow_pos k, pow-suc 10 k)

-- Up to 28 digits nothing is rounded before.
excess_digits-none : (fuel n : ℕ) → n < 10 ^ 28 → excess_digits fuel 0 n ≡ 0
unfolding excess_digits
excess_digits-none zero n h = refl
excess_digits-none (suc fuel) n h = ground (arith, h)

round_half_even-one : (n : ℕ) → round_half_even n 1 ≡ n
round_half_even-one n =
    let near = round_half_even_bounds n 1 (omega arith) in omega (arith, near.0, near.1)

-- Rounding a quotient does not exceed the dividend.
round_half_even-le : (n p : ℕ) → 0 < p → round_half_even n p ≤ n
round_half_even-le n p h = small p (round_half_even n p) n h (round_half_even_bounds n p h).0
  where
    grow : (p n : ℕ) → 0 < p → n ≤ p * n
    grow p n h = grind arith

    scale : (p a b : ℕ) → a ≤ b → p * a ≤ p * b
    scale p a b le = grind arith

    next : (p n : ℕ) → p * (n + 1) ≡ p * n + p
    next p n = grind arith

    small : (p r n : ℕ) → 0 < p → 2 * (p * r) ≤ 2 * n + p → r ≤ n
    small p r n h le = elim (dec_lt n r) [
      | no b ↦ omega (arith, b)
      | yes b ↦
          absurd (omega (arith, le, h, grow p n h, next p n, scale p (n + 1) r (omega (arith, b))))
    ]

-- A result of at most 28 digits.
abbrev fitting : ℕ → Option ℕ
fitting n = if ltb n (10 ^ 28) then some n else none

fitting-some : (n : ℕ) → n < 10 ^ 28 → fitting n ≡ some n
fitting-some n h = ground (arith, h)

quantized-none : (n places : ℕ) → quantized n 0 places ≡ round_half_even n (10 ^ places)
unfolding quantized
quantized-none n places = ground arith

product_rounded-exact :
    (n amount places : ℕ)
    → n * amount < 10 ^ 28
    → product_rounded n amount places ≡ some (round_half_even (n * amount) (10 ^ places))
unfolding product_rounded
product_rounded-exact n amount places h =
    let product : ℕ = n * amount in
    let le = round_half_even-le product (10 ^ places) (pow_pos places) in
    ap (λ k. fitting (quantized (round_half_even product (10 ^ k)) k places))
      (excess_digits-none product product h)
    ∙ ap fitting (
        ap (λ m. quantized m 0 places) (round_half_even-one product)
        ∙ quantized-none product places)
    ∙ fitting-some (round_half_even product (10 ^ places)) (omega (arith, le, h))

-- The fee of a relative offer with the fraction `n / 10 ** places` is the nearest integer to that
-- fraction of the amount, if the product of `n` and the amount has at most 28 digits: twice the
-- difference is at most one unit.
pub calc_cj_fee-nearest :
    (ordertype : Text) (n places amount : ℕ)
    → is_absolute ordertype ≡ false
    → is_relative ordertype ≡ true
    → n * amount < 10 ^ 28
    → (f : ℕ) × (calc_cj_fee ordertype (record { coefficient = pos n; places = places }) amount
        ≡ some (pos f))
      × (2 * (10 ^ places * f) ≤ 2 * (n * amount) + 10 ^ places)
      × (2 * (n * amount) ≤ 2 * (10 ^ places * f) + 10 ^ places)
unfolding calc_cj_fee times_rounded
calc_cj_fee-nearest ordertype n places amount a r b =
    let near = round_half_even_bounds (n * amount) (10 ^ places) (pow_pos places) in
    (
      round_half_even (n * amount) (10 ^ places),
      rw (a, r, product_rounded-exact n amount places b) refl,
      near.0,
      near.1,
    )
