-- ===== src/Orderbook/Bounds.antt =====
-- No history of events brings an offer into the book that fails the checks of `on_order_seen`.
use joinmarket_clientserver.Orderbook.Steps.{
  order_cancel-IsValid, store_order-IsValid, drop_order-IsValid, bond_seen-IsValid,
  nick_leave-IsValid, connected-IsValid, set_fields-IsValid, message_seen-IsValid, stale-IsValid,
  read-IsValid,
}
use joinmarket_clientserver.Orderbook.Peers.{
  record_directory_disconnected, record_orderbook_request, record_successful_refresh,
  with_disconnect, with_request, with_refresh,
}
use joinmarket_clientserver.Prelude.Text.{Text, text_eq}
use joinmarket_clientserver.Orderbook.Events.{
  SeenOrder, checked_order, drop_order, valid_oid, checked_row, on_order_seen, on_disconnect,
  settle_order, seen_with_oid,
}
use joinmarket_clientserver.Orderbook.Invariant.{IsValid, RowIsValid}
use joinmarket_clientserver.Orderbook.History.{
  FitsKey, prune_sources-IsValid, run, apply, Event, order_seen, order_cancel, bond_seen,
  nick_leave, directory_connected, directory_disconnected, orderbook_request, successful_refresh,
  message_seen, pruned, pruned_stale, rows_read, all_disconnected,
}
use joinmarket_clientserver.Orderbook.State.{OrderKey, OrderRow, Settings, Book}
use joinmarket_clientserver.Prelude.{
  Option, arith, negsuc, none, pos, some, ℕ, ℤ, ◌≡◌, pair_eq, ℕ_eq, List, [], ◌∷◌, refl,
}

checked_row-Valid :
    (st : Settings) (o : SeenOrder) (minsize maxsize txfee : ℤ) (row : OrderRow)
    → checked_row st o minsize maxsize txfee ≡ some row
    → RowIsValid st.dust_threshold row
checked_row-Valid st o minsize maxsize txfee row h = ground arith

pub checked_order-Valid :
    (st : Settings) (o : SeenOrder) (row : OrderRow)
    → checked_order st o ≡ some row
    → RowIsValid st.dust_threshold row
unfolding checked_order
checked_order-Valid st o row h = go o.minsize o.maxsize o.txfee h
  where
    go :
        (a b c : Option ℤ)
        → elim a [
          | none ↦ none
          | some minsize ↦ elim b [
            | none ↦ none
            | some maxsize ↦ elim c [
              | none ↦ none
              | some txfee ↦ checked_row st o minsize maxsize txfee
            ]
          ]
        ]
          ≡ some row
        → RowIsValid st.dust_threshold row
    go none b c e = absurd (cc)
    go (some minsize) none c e = absurd (cc)
    go (some minsize) (some maxsize) none e = absurd (cc)
    go (some minsize) (some maxsize) (some txfee) e =
        checked_row-Valid st o minsize maxsize txfee row e

valid_oid-Fits :
    (oid : Option ℤ) (n : ℕ) (maker : Text) → valid_oid oid ≡ some n → FitsKey (maker, n)
valid_oid-Fits none n maker h = absurd (cc)
valid_oid-Fits (some (negsuc k)) n maker h = absurd (cc)
valid_oid-Fits (some (pos k)) n maker h = ground arith

settle_order-IsValid :
    (dust : ℤ) (ids : Text → Text) (k : OrderKey) (d : Text) (now : ℤ) (r : Option OrderRow)
    (s : Book)
    → FitsKey k
    → ((row : OrderRow) → r ≡ some row → RowIsValid dust row)
    → IsValid dust s
    → IsValid dust (settle_order ids k d now r s).0
unfolding settle_order
settle_order-IsValid dust ids k d now none s f g v = v
settle_order-IsValid dust ids k d now (some row) s f g v =
    store_order-IsValid dust ids k d now row s f (g row refl) v

seen_with_oid-IsValid :
    (st : Settings) (ids : Text → Text) (o : SeenOrder) (d : Text) (now : ℤ) (oid : Option ℕ)
    (s : Book)
    → ((n : ℕ) → oid ≡ some n → FitsKey (o.counterparty, n))
    → IsValid st.dust_threshold s
    → IsValid st.dust_threshold (seen_with_oid st ids o d now oid s).0
unfolding seen_with_oid
seen_with_oid-IsValid st ids o d now none s f v = v
seen_with_oid-IsValid st ids o d now (some n) s f v =
    settle_order-IsValid st.dust_threshold ids (o.counterparty, n) d now (checked_order st o)
      (drop_order st (o.counterparty, n) d now s) (f n refl) (checked_order-Valid st o)
      (drop_order-IsValid st.dust_threshold st (o.counterparty, n) d now s v)

order_seen-IsValid :
    (st : Settings) (ids : Text → Text) (o : SeenOrder) (d : Text) (now : ℤ) (s : Book)
    → IsValid st.dust_threshold s
    → IsValid st.dust_threshold (on_order_seen st ids o d now s).0
unfolding on_order_seen
order_seen-IsValid st ids o d now s v =
    seen_with_oid-IsValid st ids o d now (valid_oid o.oid) s
      (λ n q. valid_oid-Fits o.oid n o.counterparty q) v

pub apply-IsValid :
    (st : Settings) (event : Event) (s : Book)
    → IsValid st.dust_threshold s
    → IsValid st.dust_threshold (apply st event s)
unfolding apply record_directory_disconnected record_orderbook_request record_successful_refresh
    on_disconnect
apply-IsValid st (order_seen ids o d now) s v = order_seen-IsValid st ids o d now s v
apply-IsValid st (order_cancel maker oid d now) s v =
    order_cancel-IsValid st.dust_threshold st maker oid d now s v
apply-IsValid st (bond_seen sane ids taker nick proof d now) s v =
    bond_seen-IsValid st.dust_threshold sane ids taker nick proof d now s v
apply-IsValid st (nick_leave nick d now) s v =
    nick_leave-IsValid st.dust_threshold st nick d now s v
apply-IsValid st all_disconnected s v = record {
  orders = (tt, tt, tt);
  bonds = tt;
  order_sources = (tt, tt);
  bond_sources = (tt, tt);
}
apply-IsValid st (directory_connected d now) s v = connected-IsValid st.dust_threshold d now s v
apply-IsValid st (directory_disconnected d now) s v =
    set_fields-IsValid st.dust_threshold d (with_disconnect now) s v
apply-IsValid st (orderbook_request d refresh_id now) s v =
    set_fields-IsValid st.dust_threshold d (with_request refresh_id now) s v
apply-IsValid st (successful_refresh d refresh_id now) s v =
    set_fields-IsValid st.dust_threshold d (with_refresh refresh_id now) s v
apply-IsValid st (message_seen is_pubmsg message d now) s v =
    message_seen-IsValid st.dust_threshold is_pubmsg message d now s v
apply-IsValid st (pruned now grace retention) s v =
    prune_sources-IsValid st.dust_threshold now grace retention s v
apply-IsValid st (pruned_stale offer_ttl bond_ttl now) s v =
    stale-IsValid st.dust_threshold st offer_ttl bond_ttl now s v
apply-IsValid st (rows_read now) s v = read-IsValid st.dust_threshold now s v

-- From a valid book any sequence of events leads to a valid book, where the numbers of offers are plain
-- numerals: each offer, bond and source has one row; the offers passed the checks of their `oid`,
-- sizes, dust threshold and contribution to the transaction fee; and a source is active exactly while
-- it has no time at which it became inactive.
pub run-orderbook-IsValid :
    (st : Settings) (events : List Event) (s : Book)
    → IsValid st.dust_threshold s
    → IsValid st.dust_threshold (run st events s)
unfolding run
run-orderbook-IsValid st [] s v = v
run-orderbook-IsValid st (event ∷ events) s v =
    run-orderbook-IsValid st events (apply st event s) (apply-IsValid st event s v)
