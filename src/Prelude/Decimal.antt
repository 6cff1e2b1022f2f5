-- ===== src/Prelude/Decimal.antt =====
-- `str` of a natural number, and `int` of a text in ASCII digits.
-- The number's digits in front of the text.
use native.Mathlib.Omega.{arith}
use mathlib.Core.List.{[], ◌∷◌, reverse, reverse-cons, reverse-reverse}
use joinmarket_clientserver.Prelude.Lists.{All-append}
use mathlib.Core.Option.{Option, some, none}
use Prim.Native.Nat.{ℕ, zero, suc, ◌≤◌, ◌+◌, ◌-◌, ◌*◌, ◌/◌, ◌%◌}
use mathlib.Core.Path.{refl, ◌≡◌}
use mathlib.Core.Bool.{Bool, false, true, ◌&&◌}
use mathlib.Core.Option
use joinmarket_clientserver.Prelude.Int.{negsuc, pos, ℤ}
use joinmarket_clientserver.Prelude.Tests.{if◌then◌else◌, leb, ◌==◌, ℕ_eq}
use joinmarket_clientserver.Prelude.Text.{Text, strip, is_space, lstrip}
use joinmarket_clientserver.Prelude.Split.{Lacks}
use joinmarket_clientserver.Prelude.Lists.{All, All-weaken}

unfoldable pub digits : ℕ → ℕ → Text → Text
digits zero n out = out
digits (suc fuel) n out = elim (n == 0) [
  | true ↦ out
  | false ↦ digits fuel (n / 10) ((48 + n % 10) ∷ out)
]

-- `str(n)`: a round for each digit, so that `n` rounds are enough.
unfoldable pub str : ℕ → Text
unfolding digits
str n = if n == 0 then 48 ∷ [] else digits n n []

abbrev pub is_digit : ℕ → Bool
is_digit c = leb 48 c && leb c 57

-- The digits that are left to read, with the number so far and whether a digit stands before them:
-- one underscore may stand between two digits.
unfoldable pub scan : Bool → ℕ → Text → Option ℕ
scan after n [] = if after then some n else none
scan after n (c ∷ s) = elim (is_digit c) [
  | true ↦ scan true (n * 10 + (c - 48)) s
  | false ↦ elim (c == 95 && after) [ true ↦ scan false n s | false ↦ none ]
]

abbrev pub negate : ℕ → ℤ
negate zero = pos 0
negate (suc n) = negsuc n

unfoldable pub signed : Text → Option ℤ
unfolding scan
signed [] = none
signed (c ∷ s) =
    if c == 45
    then Option.map negate (scan false 0 s)
    else Option.map pos (if c == 43 then scan false 0 s else scan false 0 (c ∷ s))

-- `int(s)`; none where it raises ValueError. Digits outside ASCII are not read.
unfoldable pub int : Text → Option ℤ
unfolding signed strip
int s = signed (strip s)

-- What is no space, no command prefix and no sign.
abbrev pub Digits : Text → Type 0
Digits s = All (λ c. is_digit c ≡ true) s

digits-Digits : (fuel n : ℕ) (out : Text) → Digits out → Digits (digits fuel n out)
unfolding digits
digits-Digits zero n out h = h
digits-Digits (suc fuel) n out h = ground (arith, digits-Digits fuel (n / 10) ((48 + n % 10) ∷ out))

pub str-Digits : (n : ℕ) → Digits (str n)
unfolding str
str-Digits n = ground (arith, digits-Digits n n [])

pub Digits-Lacks : (sep : ℕ) (s : Text) → is_digit sep ≡ false → Digits s → Lacks sep s
Digits-Lacks sep s q h =
    All-weaken (λ c. is_digit c ≡ true) (λ c. (c == sep) ≡ false) s (λ c p. grind arith) h

scan-digits :
    (fuel n : ℕ) (b : Bool) (out : Text)
    → n ≤ fuel
    → scan b 0 (digits fuel n out) ≡ (if n == 0 then scan b 0 out else scan true n out)
unfolding scan digits
scan-digits zero n b out h = ground arith
scan-digits (suc fuel) n b out h = ground (arith, scan-digits fuel (n / 10) b ((48 + n % 10) ∷ out))

scan-str : (n : ℕ) → scan false 0 (str n) ≡ some n
unfolding str scan
scan-str n = ground (arith, scan-digits n n false [])

reverse-Digits : (s : Text) → Digits s → Digits (reverse s)
reverse-Digits [] h = tt
reverse-Digits (c ∷ s) h =
    let parts =
      All-append (λ c. is_digit c ≡ true) (reverse s) (c ∷ []) (reverse-Digits s h.1) (h.0, tt) in
    rw (reverse-cons c s) parts

lstrip-Digits : (s : Text) → Digits s → lstrip s ≡ s
unfolding lstrip is_space
lstrip-Digits [] h = refl
lstrip-Digits (c ∷ s) h = grind (arith, h.0)

strip-Digits : (s : Text) → Digits s → strip s ≡ s
unfolding strip
strip-Digits s h =
    rw (lstrip-Digits s h) (rw (lstrip-Digits (reverse s) (reverse-Digits s h)) (reverse-reverse s))

signed-Digits : (s : Text) (n : ℕ) → Digits s → scan false 0 s ≡ some n → signed s ≡ some (pos n)
unfolding signed scan
signed-Digits [] n h q = cc
signed-Digits (c ∷ s) n h q = ground (arith, h.0, q)

-- `int(str(n))` is `n`.
pub int-str : (n : ℕ) → int (str n) ≡ some (pos n)
unfolding int
int-str n =
    rw (strip-Digits (str n) (str-Digits n)) (signed-Digits (str n) n (str-Digits n) (scan-str n))
