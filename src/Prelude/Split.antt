-- ===== src/Prelude/Split.antt =====
-- `str.split` by one character and `str.join`.
use mathlib.Core.Bool.{false}
use native.Mathlib.Omega.{arith}
use mathlib.Core.Path.{refl, ◌≡◌, ◌∙◌, ap}
use Prim.Native.Nat.{ℕ}
use mathlib.Core.List.{List, ◌∷◌, ◌++◌, []}
use joinmarket_clientserver.Prelude.Text.{Text}
use joinmarket_clientserver.Prelude.Lists.{All}
use joinmarket_clientserver.Prelude.Tests.{==_refl, if◌then◌else◌, ◌==◌, ℕ_eq}

-- a character before the first part
abbrev attach : ℕ → List Text → List Text
attach c [] = (c ∷ []) ∷ []
attach c (p ∷ ps) = (c ∷ p) ∷ ps

unfoldable pub split : Text → ℕ → List Text
split [] sep = [] ∷ []
split (c ∷ s) sep = if c == sep then [] ∷ split s sep else attach c (split s sep)

unfoldable pub join : List Text → ℕ → Text
join [] sep = []
join (p ∷ []) sep = p
join (p ∷ q ∷ ps) sep = p ++ sep ∷ join (q ∷ ps) sep

-- `''.join(lines)`, and lists one behind the other.
unfoldable pub concat {ℓ} : {A : Type ℓ} → List (List A) → List A
concat [] = []
concat (line ∷ lines) = line ++ concat lines

-- The text has no such character.
abbrev pub Lacks : ℕ → Text → Type 0
Lacks sep s = All (λ c. (c == sep) ≡ false) s

pub split-append : (p s : Text) (sep : ℕ) → Lacks sep p → split (p ++ sep ∷ s) sep ≡ p ∷ split s sep
unfolding split
split-append [] s sep h = ground (arith, ==_refl sep)
split-append (c ∷ p) s sep h = ground (arith, split-append p s sep h.1, h.0)

pub split_one : (p : Text) (sep : ℕ) → Lacks sep p → split p sep ≡ p ∷ []
unfolding split
split_one [] sep h = refl
split_one (c ∷ p) sep h = ground (arith, split_one p sep h.1, h.0)

-- Parts without the separator are what the joined text is split into.
pub split-join :
    (p : Text) (ps : List Text) (sep : ℕ)
    → All (Lacks sep) (p ∷ ps)
    → split (join (p ∷ ps) sep) sep ≡ p ∷ ps
unfolding join
split-join p [] sep h = split_one p sep h.0
split-join p (q ∷ ps) sep h =
    split-append p (join (q ∷ ps) sep) sep h.0 ∙ ap (λ r. p ∷ r) (split-join q ps sep h.1)
