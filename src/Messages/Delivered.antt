-- ===== src/Messages/Delivered.antt =====
-- What the book of offers does with the calls of a channel: the callbacks that `set_msgchan` of
use joinmarket_clientserver.Orderbook.Events.{on_fidelity_bond_seen}
-- jmdaemon/orderbookwatch.py registers.
-- The order that `on_order_seen` gets: its fields as the `int` calls there read them. The fee that
-- `str(Decimal(cjfee))` makes is a parameter.
use joinmarket_clientserver.Orderbook.Peers.{on_message_seen}
use joinmarket_clientserver.Orderbook.Announce.{on_order_seen-visible}
use joinmarket_clientserver.Orderbook.Prune.{prune_sources}
use joinmarket_clientserver.Orderbook.Visible.{visible_orderbook}
use joinmarket_clientserver.Prelude.Dict.{lookup}
use joinmarket_clientserver.Messages.PublicTrip.{
  first_calls, line_of, on_pubmsg-make_orderlines, order_calls,
}
use joinmarket_clientserver.Messages.Lines.{IsSendable}
use joinmarket_clientserver.Orderbook.State.{Settings, Fee, Book, OrderRow, mark_dirty}
use joinmarket_clientserver.Orderbook.Events.{
  on_order_cancel, on_order_seen, SeenOrder, stored_fee, max_oid, checked_row, max_amount,
  checked_order, valid_oid,
}
use joinmarket_clientserver.Prelude.Decimal.{int, int-str}
use joinmarket_clientserver.Prelude.Text.{Text, is_empty, text_eq}
use joinmarket_clientserver.Messages.Orders.{Order, make_orderlines}
use joinmarket_clientserver.Prelude.Split.{concat}
use joinmarket_clientserver.Prelude.{
  List, Option, [], arith, false, ltb_ℤ, none, pos, refl, some, ℤ, ◌++◌, ◌∷◌, ◌≡◌, ◌≤◌, Bool, ap,
  if◌then◌else◌, map, negsuc, true, ◌∙◌, pair_eq, ℕ_eq,
}
use joinmarket_clientserver.Messages.Receive.{
  Call, OrderLine, message_seen, order_seen, Hooks, fidelity_bond_seen, on_pubmsg, order_cancel,
  order_seen_hook,
}

abbrev pub seen_order : (Text → Option Text) → OrderLine → SeenOrder
seen_order to_decimal line = record {
  counterparty = line.counterparty;
  oid = int line.oid;
  ordertype = line.ordertype;
  minsize = int line.minsize;
  maxsize = int line.maxsize;
  txfee = int line.txfee;
  fee_as_int = int line.cjfee;
  fee_as_decimal = to_decimal line.cjfee;
}

abbrev pub directory_of : Option Text → Text
directory_of none = []
directory_of (some d) = d

-- What the book of offers takes from elsewhere: the initial refresh ids, `str(Decimal(cjfee))`, the
-- check of bonds and the nick of the channel.
pub record Watch : Type 0 where
  pub settings : Settings
  pub refresh_ids : Text → Text
  pub to_decimal : Text → Option Text
  pub is_sane : Text → Bool
  pub taker_nick : Text

-- No offer has a negative `oid`, so that its cancellation finds no rows.
unfoldable pub cancel_none : Settings → Text → ℤ → Book → Book
unfolding prune_sources
cancel_none st directory now s =
    if is_empty directory
    then mark_dirty s
    else prune_sources now st.grace_seconds st.retention_seconds (mark_dirty s)

unfoldable pub deliver : Watch → ℤ → Call → Book → Book
unfolding on_order_seen on_order_cancel on_message_seen on_fidelity_bond_seen cancel_none
deliver w now (order_seen line d) s =
    (on_order_seen w.settings w.refresh_ids (seen_order w.to_decimal line) (directory_of d) now s).0
deliver w now (message_seen is_pubmsg nick message d) s = on_message_seen is_pubmsg message d now s
deliver w now (order_cancel nick (pos oid) d) s =
    on_order_cancel w.settings nick oid (directory_of d) now s
deliver w now (order_cancel nick (negsuc n) d) s = cancel_none w.settings (directory_of d) now s
deliver w now (fidelity_bond_seen nick bond_type proof d) s =
    (on_fidelity_bond_seen w.is_sane w.refresh_ids w.taker_nick nick proof (directory_of d) now s).0
deliver w now c s = s

unfoldable pub deliver_all : Watch → ℤ → List Call → Book → Book
unfolding deliver
deliver_all w now [] s = s
deliver_all w now (c ∷ calls) s = deliver_all w now calls (deliver w now c s)

deliver_all-append :
    (w : Watch) (now : ℤ) (xs ys : List Call) (s : Book)
    → deliver_all w now (xs ++ ys) s ≡ deliver_all w now ys (deliver_all w now xs s)
unfolding deliver_all
deliver_all-append w now [] ys s = refl
deliver_all-append w now (x ∷ xs) ys s = deliver_all-append w now xs ys (deliver w now x s)

abbrev pub row_of : Order → Fee → OrderRow
row_of o fee = record {
  ordertype = o.ordertype;
  minsize = pos o.minsize;
  maxsize = pos o.maxsize;
  txfee = pos o.txfee;
  cjfee = fee;
}

-- An order that the checks of the book let pass as it is.
pub record Fits (st : Settings) (o : Order) : Type 0 where
  pub oid : ltb_ℤ max_oid (pos o.oid) ≡ false
  pub dust : ltb_ℤ (pos o.minsize) st.dust_threshold ≡ false
  pub sizes : o.minsize ≤ o.maxsize
  pub amount : ltb_ℤ max_amount (pos o.maxsize) ≡ false

checked_row-row_of :
    (st : Settings) (o : Order) (e : SeenOrder) (fee : Fee)
    → Fits st o
    → e.ordertype ≡ o.ordertype
    → stored_fee e ≡ some fee
    → checked_row st e (pos o.minsize) (pos o.maxsize) (pos o.txfee) ≡ some (row_of o fee)
checked_row-row_of st o e fee h t q = ground (arith, h.oid, h.dust, h.sizes, h.amount, t, q)

checked_order-row_of :
    (st : Settings) (o : Order) (e : SeenOrder) (fee : Fee)
    → Fits st o
    → e.ordertype ≡ o.ordertype
    → e.minsize ≡ some (pos o.minsize)
    → e.maxsize ≡ some (pos o.maxsize)
    → e.txfee ≡ some (pos o.txfee)
    → stored_fee e ≡ some fee
    → checked_order st e ≡ some (row_of o fee)
unfolding checked_order
checked_order-row_of st o e fee h t a b c q =
    ground (arith, a, b, c, checked_row-row_of st o e fee h t q)

deliver-visible :
    (w : Watch) (now : ℤ) (nick : Text) (o : Order) (fee : Fee) (d : Text) (s : Book)
    → is_empty d ≡ false
    → Fits w.settings o
    → stored_fee (seen_order w.to_decimal (line_of nick o)) ≡ some fee
    → lookup
        (nick, o.oid)
        (visible_orderbook (deliver w now (order_seen (line_of nick o) (some d)) s))
      ≡ some (row_of o fee)
unfolding deliver
deliver-visible w now nick o fee d s q h f =
    let e : SeenOrder = seen_order w.to_decimal (line_of nick o) in
    on_order_seen-visible w.settings w.refresh_ids e d now s o.oid (row_of o fee) q
      (ap valid_oid (int-str o.oid) ∙ rw (h.oid) refl)
      (checked_order-row_of w.settings o e fee h refl (int-str o.minsize) (int-str o.maxsize)
        (int-str o.txfee) f)

deliver_all-visible :
    (hooks : Hooks) (w : Watch) (now : ℤ) (nick : Text) (o : Order) (fee : Fee) (d : Text)
    (s : Book) (before : List Call)
    → hooks order_seen_hook ≡ true
    → is_empty d ≡ false
    → Fits w.settings o
    → stored_fee (seen_order w.to_decimal (line_of nick o)) ≡ some fee
    → lookup
        (nick, o.oid)
        (visible_orderbook
          (deliver_all w now (before ++ concat (map (order_calls hooks nick (some d)) (o ∷ []))) s))
      ≡ some (row_of o fee)
unfolding deliver_all concat
deliver_all-visible hooks w now nick o fee d s before r q h f =
    rw (deliver_all-append w now before (concat (map (order_calls hooks nick (some d)) (o ∷ []))) s)
      (rw (r) (deliver-visible w now nick o fee d (deliver_all w now before s) q h f))

-- An offer that a maker announces in a public message, and that passes the checks of the book, is
-- visible in the book of whoever receives the message from a directory, with the numbers that were
-- sent.
pub announced-visible :
    (hooks : Hooks) (w : Watch) (now : ℤ) (nick : Text) (o : Order) (fee : Fee) (d : Text)
    (s : Book)
    → hooks order_seen_hook ≡ true
    → IsSendable o
    → is_empty d ≡ false
    → Fits w.settings o
    → stored_fee (seen_order w.to_decimal (line_of nick o)) ≡ some fee
    → (calls : List Call) × (on_pubmsg hooks nick (concat (make_orderlines (o ∷ []))) (some d)
        ≡ some calls)
      × (lookup (nick, o.oid) (visible_orderbook (deliver_all w now calls s)) ≡ some (row_of o fee))
announced-visible hooks w now nick o fee d s r p q h f =
    let before = first_calls hooks nick (concat (make_orderlines (o ∷ []))) (some d) in
    (
      before ++ concat (map (order_calls hooks nick (some d)) (o ∷ [])),
      on_pubmsg-make_orderlines hooks nick (some d) o [] (p, tt),
      deliver_all-visible hooks w now nick o fee d s before r q h f,
    )
