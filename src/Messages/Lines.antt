-- ===== src/Messages/Lines.antt =====
-- Which characters the texts of orders do not have.
use mathlib.Core.List.{append-nil}
use native.Mathlib.Decide.{ℕ_discrete}
-- A text without spaces and command prefixes, which can be a chunk of a command.
use mathlib.Core.Path.{subst}
use joinmarket_clientserver.Messages.Commands.{command_prefix, offername_list, space}
use joinmarket_clientserver.Prelude.Text.{Text, text_eq}
use joinmarket_clientserver.Messages.Orders.{Order, order_command, order_parts}
use joinmarket_clientserver.Prelude.Split.{concat}
use joinmarket_clientserver.Prelude.Split.{Lacks, join, split, split-append, split-join, split_one}
use joinmarket_clientserver.Prelude.Decimal.{Digits-Lacks, str, str-Digits}
use joinmarket_clientserver.Prelude.{
  ==_iff, All, All-append, Bool-cases, List, [], ap, arith, contains, false, inl, inr, map, refl,
  sym, true, ℕ, ◌++◌, ◌==◌, ◌∙◌, ◌∷◌, ◌≡◌, ℕ_eq, All-weaken,
}

abbrev pub IsChunk : Text → Type 0
IsChunk s = Lacks space s × Lacks command_prefix s

pub str-IsChunk : (n : ℕ) → IsChunk (str n)
str-IsChunk n = (
  Digits-Lacks space (str n) refl (str-Digits n),
  Digits-Lacks command_prefix (str n) refl (str-Digits n),
)

-- What holds for all members of a list holds for one that it contains.
pub All-contains :
    (P : Text → Type 0) (x : Text) (xs : List Text) → All P xs → contains x xs ≡ true → P x
All-contains P x [] h q = absurd (cc)
All-contains P x (y ∷ ys) h q = elim (Bool-cases (y == x)) [
  | inl e ↦ subst P ((==_iff y x).0 e) h.0
  | inr n ↦ All-contains P x ys h.1 (ground (arith, n, q))
]

pub offername-IsChunk : (s : Text) → contains s offername_list ≡ true → IsChunk s
offername-IsChunk s q = All-contains IsChunk s offername_list (ground arith) q

-- An order that can be sent: its type is one of the protocol's, and its fee is printed without spaces
-- and command prefixes.
abbrev pub IsSendable : Order → Type 0
IsSendable o = (contains o.ordertype offername_list ≡ true) × IsChunk o.cjfee

pub Lacks-join :
    (c sep : ℕ) (p : Text) (ps : List Text)
    → (sep == c) ≡ false
    → All (Lacks c) (p ∷ ps)
    → Lacks c (join (p ∷ ps) sep)
unfolding join
Lacks-join c sep p [] n h = h.0
Lacks-join c sep p (q ∷ ps) n h =
    All-append (λ x. (x == c) ≡ false) p (sep ∷ join (q ∷ ps) sep) h.0
      (n, Lacks-join c sep q ps n h.1)

order_parts-IsChunk : (o : Order) → IsSendable o → All IsChunk (order_parts o)
order_parts-IsChunk o h = (
  offername-IsChunk o.ordertype h.0,
  (
    str-IsChunk o.oid,
    (str-IsChunk o.minsize, (str-IsChunk o.maxsize, (str-IsChunk o.txfee, (h.1, tt)))),
  ),
)

pub split-order_command : (o : Order) → IsSendable o → split (order_command o) space ≡ order_parts o
unfolding order_command
split-order_command o h =
    split-join o.ordertype (str o.oid ∷ str o.minsize ∷ str o.maxsize ∷ str o.txfee ∷ o.cjfee ∷ [])
      space
      (All-weaken IsChunk (Lacks space) (order_parts o) (λ s p. p.0) (order_parts-IsChunk o h))

pub order_command-Lacks : (o : Order) → IsSendable o → Lacks command_prefix (order_command o)
unfolding order_command ℕ_discrete
order_command-Lacks o h =
    Lacks-join command_prefix space o.ordertype
      (str o.oid ∷ str o.minsize ∷ str o.maxsize ∷ str o.txfee ∷ o.cjfee ∷ []) refl
      (All-weaken IsChunk (Lacks command_prefix) (order_parts o) (λ s p. p.1)
        (order_parts-IsChunk o h))

-- The commands that prefixed texts without other prefixes are split into.
pub split-concat :
    {A : Type 0} (text : A → Text) (x : A) (xs : List A)
    → All (λ y. Lacks command_prefix (text y)) (x ∷ xs)
    → split (text x ++ concat (map (λ y. command_prefix ∷ text y) xs)) command_prefix
      ≡ map text (x ∷ xs)
unfolding concat
split-concat text x [] h =
    subst (λ s. split s command_prefix ≡ text x ∷ []) (sym (append-nil (text x)))
      (split_one (text x) command_prefix h.0)
split-concat text x (y ∷ xs) h =
    split-append (text x) (text y ++ concat (map (λ z. command_prefix ∷ text z) xs)) command_prefix
      h.0
    ∙ ap (λ r. text x ∷ r) (split-concat text y xs h.1)
