-- ===== src/Messages/CancelTrip.antt =====
-- Cancellations in a public message are read back.
use native.Mathlib.Decide.{ℕ_discrete}
use joinmarket_clientserver.Messages.Lines.{str-IsChunk}
use joinmarket_clientserver.Prelude.Decimal.{int-str, str}
use joinmarket_clientserver.Messages.Commands.{command_prefix, space}
use joinmarket_clientserver.Messages.Orders.{cancel_command, cancel_orders}
use joinmarket_clientserver.Prelude.Split.{concat}
use joinmarket_clientserver.Prelude.Text.{Text, codes, text_discrete, text_eq}
use joinmarket_clientserver.Messages.Receive.{
  Call, Hooks, call, cancel_step, cancelled_oid, check_for_commitments, check_for_orders, chunk,
  on_pubmsg, order_cancel, order_cancel_hook, public_chunks, public_command,
}
use joinmarket_clientserver.Prelude.{
  All, All-append, List, Option, [], ap, false, map, pos, refl, some, ℕ, ◌++◌, ◌==◌, ◌∙◌, ◌∷◌, ◌≡◌,
  ℕ_eq,
}
use joinmarket_clientserver.Prelude.Split.{Lacks, split, split-join, join}
use joinmarket_clientserver.Messages.PublicTrip.{first_calls, IsRead, on_pubmsg-commands}

cancel_command-Lacks : (oid : ℕ) → Lacks command_prefix (cancel_command oid)
unfolding cancel_command ℕ_discrete
cancel_command-Lacks oid =
    All-append (λ c. (c == command_prefix) ≡ false) (codes "cancel ") (str oid)
      (refl, (refl, (refl, (refl, (refl, (refl, (refl, tt))))))) (str-IsChunk oid).1

split-cancel_command : (oid : ℕ) → split (cancel_command oid) space ≡ codes "cancel" ∷ str oid ∷ []
unfolding cancel_command ℕ_discrete join
split-cancel_command oid =
    split-join (codes "cancel") (str oid ∷ []) space
      ((refl, (refl, (refl, (refl, (refl, (refl, tt)))))), ((str-IsChunk oid).0, tt))

cancel_command-other : (oid : ℕ) → (cancel_command oid == codes "orderbook") ≡ false
unfolding cancel_command text_discrete ℕ_discrete
cancel_command-other oid = refl

abbrev pub cancel_calls : Hooks → Text → Option Text → ℕ → List Call
cancel_calls hooks nick directory oid =
    call hooks order_cancel_hook (order_cancel nick (pos oid) directory)

cancel_step-str :
    (hooks : Hooks) (nick : Text) (directory : Option Text) (oid : ℕ)
    → cancel_step hooks nick (codes "cancel" ∷ str oid ∷ []) directory
      ≡ (cancel_calls hooks nick directory oid, false)
unfolding cancel_step cancelled_oid chunk
cancel_step-str hooks nick directory oid = rw (int-str oid) refl

public_chunks-cancel :
    (hooks : Hooks) (nick : Text) (directory : Option Text) (oid : ℕ)
    → public_chunks hooks nick directory (codes "cancel" ∷ str oid ∷ [])
      ≡ cancel_step hooks nick (codes "cancel" ∷ str oid ∷ []) directory
unfolding public_chunks check_for_orders check_for_commitments text_discrete ℕ_discrete
public_chunks-cancel hooks nick directory oid = refl

public_command-cancel :
    (hooks : Hooks) (nick : Text) (directory : Option Text) (oid : ℕ)
    → public_command hooks nick directory (cancel_command oid)
      ≡ (cancel_calls hooks nick directory oid, false)
unfolding public_command
public_command-cancel hooks nick directory oid =
    ap (public_chunks hooks nick directory) (split-cancel_command oid)
    ∙ public_chunks-cancel hooks nick directory oid
    ∙ cancel_step-str hooks nick directory oid

-- The message of `cancel_orders` is read as a cancellation of each of its offers.
pub on_pubmsg-cancel_orders :
    (hooks : Hooks) (nick : Text) (directory : Option Text) (oid : ℕ) (oids : List ℕ)
    → on_pubmsg hooks nick (cancel_orders (oid ∷ oids)) directory
      ≡ some (
          first_calls hooks nick (cancel_orders (oid ∷ oids)) directory
          ++ concat (map (cancel_calls hooks nick directory) (oid ∷ oids)))
unfolding cancel_orders
on_pubmsg-cancel_orders hooks nick directory oid oids =
    on_pubmsg-commands hooks nick directory cancel_command (cancel_calls hooks nick directory) oid
      oids (All_of (oid ∷ oids))
  where
    All_of :
        (xs : List ℕ)
        → All (IsRead hooks nick directory cancel_command (cancel_calls hooks nick directory)) xs
    All_of [] = tt
    All_of (x ∷ xs) = (
      (
        cancel_command-Lacks x,
        cancel_command-other x,
        public_command-cancel hooks nick directory x,
      ),
      All_of xs,
    )
