-- ===== src/Messages/PublicTrip.antt =====
-- Orderlines in a public message are read back.
use joinmarket_clientserver.Prelude.Split.{Lacks, split}
use mathlib.Core.List.{append-nil}
-- The line that a channel passes on for an offer that a nick has sent.
use native.Mathlib.Decide.{ℕ_discrete}
use joinmarket_clientserver.Prelude.Decimal.{str}
use joinmarket_clientserver.Messages.Commands.{
  commitment_broadcast_list, offername_list, command_prefix, space,
}
use joinmarket_clientserver.Prelude.Text.{Text, codes, text_discrete, text_eq}
use joinmarket_clientserver.Messages.Orders.{Order, order_command, make_orderlines, order_parts}
use joinmarket_clientserver.Prelude.Split.{concat}
use joinmarket_clientserver.Prelude.{
  List, Option, contains, false, refl, true, ◌++◌, ◌==◌, ◌≡◌, ==_iff, All, All-weaken, Bool-cases,
  [], ap, inl, inr, map, some, sym, ◌∙◌, ◌∷◌, ℕ_eq, Bool, none, arith,
}
use joinmarket_clientserver.Messages.Receive.{
  Call, Hooks, OrderLine, call, check_for_commitments, check_for_orders, chunk, message_seen,
  message_trigger, nick_seen, order_line, order_seen, order_seen_hook, public_command,
  pubmsg_trigger, Step, count, on_pubmsg, run_commands, public_chunks,
}
use joinmarket_clientserver.Messages.Lines.{
  All-contains, IsSendable, split-order_command, order_command-Lacks, split-concat,
}

abbrev pub line_of : Text → Order → OrderLine
line_of nick o = record {
  counterparty = nick;
  oid = str o.oid;
  ordertype = o.ordertype;
  minsize = str o.minsize;
  maxsize = str o.maxsize;
  txfee = str o.txfee;
  cjfee = o.cjfee;
}

-- What `on_pubmsg` calls before it reads a message.
abbrev pub first_calls : Hooks → Text → Text → Option Text → List Call
first_calls hooks nick message directory =
    call hooks message_trigger (message_seen true nick message directory)
    ++ call hooks pubmsg_trigger (nick_seen nick)

-- An offer's type is no other command.
offername-other :
    (s : Text)
    → contains s offername_list ≡ true
    → (contains s commitment_broadcast_list ≡ false)
      × ((s == codes "cancel") ≡ false)
      × ((s == codes "orderbook") ≡ false)
unfolding text_discrete ℕ_discrete
offername-other s q =
    All-contains
      (λ s.
        (contains s commitment_broadcast_list ≡ false)
        × ((s == codes "cancel") ≡ false)
        × ((s == codes "orderbook") ≡ false))
      s offername_list
      (
        (refl, refl, refl),
        (
          (refl, refl, refl),
          (
            (refl, refl, refl),
            ((refl, refl, refl), ((refl, refl, refl), ((refl, refl, refl), tt))),
          ),
        ),
      )
      q

pub check_for_orders-order_parts :
    (hooks : Hooks) (nick : Text) (directory : Option Text) (o : Order)
    → IsSendable o
    → check_for_orders hooks nick (order_parts o) directory
      ≡ some (call hooks order_seen_hook (order_seen (line_of nick o) directory))
unfolding check_for_orders order_line chunk
check_for_orders-order_parts hooks nick directory o h = rw (h.0) refl

pub check_for_commitments-order_parts :
    (hooks : Hooks) (nick : Text) (is_private : Bool) (o : Order)
    → IsSendable o
    → check_for_commitments hooks nick (order_parts o) is_private ≡ none
unfolding check_for_commitments
check_for_commitments-order_parts hooks nick is_private o h =
    rw ((offername-other o.ordertype h.0).0) refl

public_command-order :
    (hooks : Hooks) (nick : Text) (directory : Option Text) (o : Order)
    → IsSendable o
    → public_command hooks nick directory (order_command o)
      ≡ (call hooks order_seen_hook (order_seen (line_of nick o) directory), false)
unfolding public_command public_chunks
public_command-order hooks nick directory o h =
    let others = offername-other o.ordertype h.0 in
    ap (public_chunks hooks nick directory) (split-order_command o h)
    ∙ ground (
      arith,
      check_for_orders-order_parts hooks nick directory o h,
      check_for_commitments-order_parts hooks nick false o h,
      others.1,
      others.2,
      append-nil (call hooks order_seen_hook (order_seen (line_of nick o) directory)),
    )

-- Each command that is run without a return adds its calls.
pub run_commands-map :
    {A : Type 0} (step : Text → Step) (text : A → Text) (calls : A → List Call) (xs : List A)
    → All (λ x. step (text x) ≡ (calls x, false)) xs
    → run_commands step (map text xs) ≡ concat (map calls xs)
unfolding run_commands concat
run_commands-map step text calls [] h = refl
run_commands-map step text calls (x ∷ xs) h =
    rw (h.0) (ap (λ r. calls x ++ r) (run_commands-map step text calls xs h.1))

count-map :
    {A : Type 0} (command : Text) (text : A → Text) (xs : List A)
    → All (λ x. (text x == command) ≡ false) xs
    → count command (map text xs) ≡ 0
count-map command text [] h = refl
count-map command text (x ∷ xs) h = rw (h.0) (count-map command text xs h.1)

-- A message of commands that are each read without a return is read whole.
module _ {A : Type 0} (hooks : Hooks) (nick : Text) (directory : Option Text) (text : A → Text)
    (calls : A → List Call) where
  abbrev pub IsRead : A → Type 0
  IsRead x =
      Lacks command_prefix (text x)
      × ((text x == codes "orderbook") ≡ false)
      × (public_command hooks nick directory (text x) ≡ (calls x, false))

  pub on_pubmsg-commands :
      (x : A) (xs : List A)
      → All IsRead (x ∷ xs)
      → on_pubmsg hooks nick (concat (map (λ y. command_prefix ∷ text y) (x ∷ xs))) directory
        ≡ some (
            first_calls hooks nick (concat (map (λ y. command_prefix ∷ text y) (x ∷ xs))) directory
            ++ concat (map calls (x ∷ xs)))
  unfolding on_pubmsg concat ℕ_discrete
  on_pubmsg-commands x xs h =
      rw
        (split-concat text x xs
          (All-weaken IsRead (λ y. Lacks command_prefix (text y)) (x ∷ xs) (λ y p. p.0) h))
        (rw
          (count-map (codes "orderbook") text (x ∷ xs) (
            All-weaken IsRead (λ y. (text y == codes "orderbook") ≡ false) (x ∷ xs) (λ y p. p.1) h))
          (rw
            (run_commands-map (public_command hooks nick directory) text calls (x ∷ xs) (
              All-weaken IsRead
                (λ y. public_command hooks nick directory (text y) ≡ (calls y, false)) (x ∷ xs)
                (λ y p. p.2) h))
            refl))

order_command-other : (o : Order) → IsSendable o → (order_command o == codes "orderbook") ≡ false
unfolding split ℕ_discrete
order_command-other o h = elim (Bool-cases (order_command o == codes "orderbook")) [
  | inr n ↦ n
  | inl e ↦
      let parts : order_parts o ≡ split (codes "orderbook") space =
        sym (split-order_command o h)
        ∙ ap (λ s. split s space) ((==_iff (order_command o) (codes "orderbook")).0 e) in
      absurd (cc)
]

abbrev pub order_calls : Hooks → Text → Option Text → Order → List Call
order_calls hooks nick directory o =
    call hooks order_seen_hook (order_seen (line_of nick o) directory)

-- The orderlines of offers, sent as one public message, are read as these offers in their order.
pub on_pubmsg-make_orderlines :
    (hooks : Hooks) (nick : Text) (directory : Option Text) (o : Order) (orders : List Order)
    → All IsSendable (o ∷ orders)
    → on_pubmsg hooks nick (concat (make_orderlines (o ∷ orders))) directory
      ≡ some (
          first_calls hooks nick (concat (make_orderlines (o ∷ orders))) directory
          ++ concat (map (order_calls hooks nick directory) (o ∷ orders)))
unfolding make_orderlines
on_pubmsg-make_orderlines hooks nick directory o orders h =
    on_pubmsg-commands hooks nick directory order_command (order_calls hooks nick directory) o
      orders
      (All-weaken IsSendable
        (IsRead hooks nick directory order_command (order_calls hooks nick directory)) (o ∷ orders)
        (λ x p. (
          order_command-Lacks x p,
          order_command-other x p,
          public_command-order hooks nick directory x p,
        ))
        h)
