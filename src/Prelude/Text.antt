-- ===== src/Prelude/Text.antt =====
-- Python strings as lists of code points: comparison, `strip` and `splitlines`.
use Prim.Native.Nat.{ℕ}
use Prim.Native.Char.{code}
use Prim.Native.String.{String}
use mathlib.Core.Bool.{Bool, true, false, ◌||◌, ◌&&◌}
use mathlib.Core.Path.{◌≡◌, refl}
use mathlib.Core.List.{List, [], ◌∷◌, reverse}
use native.Mathlib.Omega.{arith}
use native.Mathlib.Decide.{ℕ_discrete}
use joinmarket_clientserver.Prelude.Tests.{ltb, leb, if◌then◌else◌, Eq, ◌==◌, ℕ_eq}

abbrev pub Text : Type 0
Text = List ℕ

-- The code points of a literal.
abbrev pub codes : String → Text
codes String.[] = []
codes (String.◌∷◌ c s) = code c ∷ codes s

-- What decides the heads and the tails decides the lists.
cons_dec {ℓ} :
    {A : Type ℓ} {x y : A} {xs ys : List A} → Dec (x ≡ y) → Dec (xs ≡ ys) → Dec (x ∷ xs ≡ y ∷ ys)
cons_dec (yes p) (yes q) = yes (cc)
cons_dec (yes p) (no q) = no (λ h. q (cc))
cons_dec (no p) d = no (λ h. p (cc))

unfoldable pub text_discrete : Discrete Text
unfolding cons_dec ℕ_discrete
text_discrete [] [] = yes refl
text_discrete [] (y ∷ ys) = no (λ h. cc)
text_discrete (x ∷ xs) [] = no (λ h. cc)
text_discrete (x ∷ xs) (y ∷ ys) = cons_dec (ℕ_discrete x y) (text_discrete xs ys)

instance abbrev pub text_eq : Eq Text
text_eq = record { dec = text_discrete }

abbrev pub is_empty : Text → Bool
is_empty [] = true
is_empty (c ∷ s) = false

-- `a <= b` on strings: by code points, from the left.
unfoldable pub text_leb : Text → Text → Bool
text_leb [] b = true
text_leb (x ∷ a) [] = false
text_leb (x ∷ a) (y ∷ b) = ltb x y || (x == y && text_leb a b)

-- The code points that `str.strip` removes.
unfoldable pub is_space : ℕ → Bool
is_space c =
    (leb 9 c && leb c 13)
    || (leb 28 c && leb c 32)
    || c == 0x85
    || c == 0xa0
    || c == 0x1680
    || (leb 0x2000 c && leb c 0x200a)
    || c == 0x2028
    || c == 0x2029
    || c == 0x202f
    || c == 0x205f
    || c == 0x3000

unfoldable pub lstrip : Text → Text
unfolding is_space
lstrip [] = []
lstrip (c ∷ s) = if is_space c then lstrip s else c ∷ s

unfoldable pub strip : Text → Text
unfolding lstrip
strip s = reverse (lstrip (reverse (lstrip s)))

-- The code points at which `str.splitlines` breaks. It takes a carriage return with the line feed
-- behind it as one break.
unfoldable pub is_line_break : ℕ → Bool
is_line_break c =
    (leb 10 c && leb c 13) || (leb 28 c && leb c 30) || c == 0x85 || c == 0x2028 || c == 0x2029

-- The line that stands first, read up to `line`, and the rest.
unfoldable pub splitlines_from : Text → Text → List Text
unfolding is_line_break
splitlines_from [] [] = []
splitlines_from line [] = reverse line ∷ []
splitlines_from line (c ∷ []) =
    if is_line_break c then reverse line ∷ [] else reverse (c ∷ line) ∷ []
splitlines_from line (c ∷ d ∷ s) =
    let more = splitlines_from (c ∷ line) (d ∷ s) in
    let after_both = reverse line ∷ splitlines_from [] s in
    let after_one = reverse line ∷ splitlines_from [] (d ∷ s) in
    if is_line_break c then if c == 13 && d == 10 then after_both else after_one else more

unfoldable pub splitlines : Text → List Text
unfolding splitlines_from
splitlines = splitlines_from []

-- `s.replace(a, b)` for single code points.
unfoldable pub replace_code : ℕ → ℕ → Text → Text
replace_code a b [] = []
replace_code a b (c ∷ s) = (if c == a then b else c) ∷ replace_code a b s

pub text_leb_total : (a b : Text) → (text_leb a b || text_leb b a) ≡ true
unfolding text_leb
text_leb_total [] b = refl
text_leb_total (x ∷ a) [] = refl
text_leb_total (x ∷ a) (y ∷ b) = ground (arith, text_leb_total a b)

pub text_leb_trans :
    (a b c : Text) → text_leb a b ≡ true → text_leb b c ≡ true → text_leb a c ≡ true
unfolding text_leb
text_leb_trans [] b c p q = refl
text_leb_trans (x ∷ a) [] c p q = cc
text_leb_trans (x ∷ a) (y ∷ b) [] p q = cc
text_leb_trans (x ∷ a) (y ∷ b) (z ∷ c) p q = ground (arith, text_leb_trans a b c)
