-- ===== src/Orderbook/History.antt =====
-- Histories of the book: the events as data, and the invariant along them.
use joinmarket_clientserver.Orderbook.Visible.{refresh_visibility_cache}
use joinmarket_clientserver.Orderbook.Prune.{
  prune_bond, prune_bonds, prune_order, prune_orders, prune_orphan_bond_sources,
  prune_orphan_order_sources, prune_sources, prune_stale_sources, to_prune,
}
use joinmarket_clientserver.Orderbook.Peers.{
  on_message_seen, record_directory_connected, record_directory_disconnected,
  record_orderbook_request, record_successful_refresh,
}
use joinmarket_clientserver.Prelude.Text.{Text, text_eq}
use joinmarket_clientserver.Orderbook.Events.{
  SeenOrder, erase_maker, max_oid, on_disconnect, on_fidelity_bond_seen, on_nick_leave,
  on_order_cancel, on_order_seen,
}
use joinmarket_clientserver.Orderbook.Invariant.{
  IsValid, OrdersAreValid, RowIsValid, delete_orphans-Valid,
}
use joinmarket_clientserver.Orderbook.State.{Book, OrderKey, OrderRow, Settings}
use joinmarket_clientserver.Prelude.Dict.{
  All-erase, All-insert, Dict, erase, erase-Distinct, insert, insert-Distinct, keys,
}
use joinmarket_clientserver.Prelude.{
  All, Bool, Bool-cases, List, Option, [], arith, contains, false, inl, inr, ltb_ℤ, pos, refl, ℕ, ℤ,
  ◌∷◌, ◌≡◌, pair_eq, ℕ_eq,
}

-- What happens to the book; a time stands last.
pub data Event : Type 0 where
  order_seen : (Text → Text) → SeenOrder → Text → ℤ → Event
  order_cancel : Text → ℕ → Text → ℤ → Event
  bond_seen : (Text → Bool) → (Text → Text) → Text → Text → Text → Text → ℤ → Event
  nick_leave : Text → Text → ℤ → Event
  all_disconnected : Event
  directory_connected : Text → ℤ → Event
  directory_disconnected : Text → ℤ → Event
  orderbook_request : Text → Option Text → ℤ → Event
  successful_refresh : Text → Option Text → ℤ → Event
  message_seen : Bool → Text → Option Text → ℤ → Event
  pruned : ℤ → ℤ → ℤ → Event
  pruned_stale : ℤ → ℤ → ℤ → Event
  rows_read : ℤ → Event

unfoldable pub apply : Settings → Event → Book → Book
unfolding on_order_seen on_order_cancel on_fidelity_bond_seen on_nick_leave on_disconnect
    record_directory_connected record_directory_disconnected record_orderbook_request
    record_successful_refresh on_message_seen prune_sources prune_stale_sources
    refresh_visibility_cache
apply st (order_seen ids o d now) s = (on_order_seen st ids o d now s).0
apply st (order_cancel maker oid d now) s = on_order_cancel st maker oid d now s
apply st (bond_seen sane ids taker nick proof d now) s =
    (on_fidelity_bond_seen sane ids taker nick proof d now s).0
apply st (nick_leave nick d now) s = on_nick_leave st nick d now s
apply st all_disconnected s = on_disconnect s
apply st (directory_connected d now) s = record_directory_connected d now s
apply st (directory_disconnected d now) s = record_directory_disconnected d now s
apply st (orderbook_request d refresh_id now) s = record_orderbook_request d refresh_id now s
apply st (successful_refresh d refresh_id now) s = record_successful_refresh d refresh_id now s
apply st (message_seen is_pubmsg message d now) s = on_message_seen is_pubmsg message d now s
apply st (pruned now grace retention) s = prune_sources now grace retention s
apply st (pruned_stale offer_ttl bond_ttl now) s = prune_stale_sources st offer_ttl bond_ttl now s
apply st (rows_read now) s = refresh_visibility_cache now s

unfoldable pub run : Settings → List Event → Book → Book
unfolding apply
run st [] s = s
run st (event ∷ events) s = run st events (apply st event s)

-- The offers.
abbrev pub FitsKey : OrderKey → Type 0
FitsKey k = ltb_ℤ max_oid (pos k.1) ≡ false

module _ (dust : ℤ) where
  keys-erase-All :
      (k : OrderKey) (t : Dict OrderKey OrderRow)
      → All FitsKey (keys t)
      → All FitsKey (keys (erase k t))
  unfolding erase
  keys-erase-All k [] h = tt
  keys-erase-All k ((j, row) ∷ t) h = ground (arith, keys-erase-All k t h.1)

  keys-insert-All :
      (k : OrderKey) (row : OrderRow) (t : Dict OrderKey OrderRow)
      → FitsKey k
      → All FitsKey (keys t)
      → All FitsKey (keys (insert k row t))
  unfolding insert
  keys-insert-All k row [] f h = (f, tt)
  keys-insert-All k row ((j, r) ∷ t) f h = ground (arith, keys-insert-All k row t f h.1)

  pub erase-Valid :
      (k : OrderKey) (t : Dict OrderKey OrderRow)
      → OrdersAreValid dust t
      → OrdersAreValid dust (erase k t)
  erase-Valid k t v =
      (erase-Distinct k t v.0, All-erase (RowIsValid dust) k t v.1, keys-erase-All k t v.2)

  pub insert-Valid :
      (k : OrderKey) (row : OrderRow) (t : Dict OrderKey OrderRow)
      → FitsKey k
      → RowIsValid dust row
      → OrdersAreValid dust t
      → OrdersAreValid dust (insert k row t)
  insert-Valid k row t f r v = (
    insert-Distinct k row t v.0,
    All-insert (RowIsValid dust) k row t r v.1,
    keys-insert-All k row t f v.2,
  )

  contains-erase_maker :
      (nick : Text) (t : Dict OrderKey OrderRow) (j : OrderKey)
      → contains j (keys t) ≡ false
      → contains j (keys (erase_maker nick t)) ≡ false
  unfolding erase_maker
  contains-erase_maker nick [] j h = refl
  contains-erase_maker nick (((maker, oid), row) ∷ t) j h =
      ground (arith, contains-erase_maker nick t j)

  pub erase_maker-Valid :
      (nick : Text) (t : Dict OrderKey OrderRow)
      → OrdersAreValid dust t
      → OrdersAreValid dust (erase_maker nick t)
  unfolding erase_maker
  erase_maker-Valid nick [] v = v
  erase_maker-Valid nick (((maker, oid), row) ∷ t) v = ground (
    arith,
    erase_maker-Valid nick t (v.0.1, v.1.1, v.2.1),
    contains-erase_maker nick t (maker, oid),
  )

  pub prune_order-IsValid :
      (k : OrderKey) (now grace : ℤ) (s : Book)
      → IsValid dust s
      → IsValid dust (prune_order k now grace s)
  unfolding prune_order
  prune_order-IsValid k now grace s v =
      elim (Bool-cases (to_prune k now grace s.orderbook_sources)) [
        | inl q ↦ rw q (record {
          orders = erase-Valid k s.orderbook v.orders;
          bonds = v.bonds;
          order_sources = v.order_sources;
          bond_sources = v.bond_sources;
        })
        | inr q ↦ rw q v
      ]

  prune_bond-IsValid :
      (nick : Text) (now grace : ℤ) (s : Book)
      → IsValid dust s
      → IsValid dust (prune_bond nick now grace s)
  unfolding prune_bond
  prune_bond-IsValid nick now grace s v =
      elim (Bool-cases (to_prune nick now grace s.fidelitybond_sources)) [
        | inl q ↦ rw q (record {
          orders = v.orders;
          bonds = erase-Distinct nick s.fidelitybonds v.bonds;
          order_sources = v.order_sources;
          bond_sources = v.bond_sources;
        })
        | inr q ↦ rw q v
      ]

  prune_orders-IsValid :
      (ks : List OrderKey) (now grace : ℤ) (s : Book)
      → IsValid dust s
      → IsValid dust (prune_orders ks now grace s)
  unfolding prune_orders
  prune_orders-IsValid [] now grace s v = v
  prune_orders-IsValid (k ∷ ks) now grace s v =
      prune_orders-IsValid ks now grace (prune_order k now grace s)
        (prune_order-IsValid k now grace s v)

  prune_bonds-IsValid :
      (nicks : List Text) (now grace : ℤ) (s : Book)
      → IsValid dust s
      → IsValid dust (prune_bonds nicks now grace s)
  unfolding prune_bonds
  prune_bonds-IsValid [] now grace s v = v
  prune_bonds-IsValid (nick ∷ nicks) now grace s v =
      prune_bonds-IsValid nicks now grace (prune_bond nick now grace s)
        (prune_bond-IsValid nick now grace s v)

  pub prune_orphan_order_sources-IsValid :
      (now retention : ℤ) (s : Book)
      → IsValid dust s
      → IsValid dust (prune_orphan_order_sources now retention s)
  unfolding prune_orphan_order_sources
  prune_orphan_order_sources-IsValid now retention s v = record {
    orders = v.orders;
    bonds = v.bonds;
    order_sources =
        delete_orphans-Valid now retention s.orderbook s.orderbook_sources v.order_sources;
    bond_sources = v.bond_sources;
  }

  prune_orphan_bond_sources-IsValid :
      (now retention : ℤ) (s : Book)
      → IsValid dust s
      → IsValid dust (prune_orphan_bond_sources now retention s)
  unfolding prune_orphan_bond_sources
  prune_orphan_bond_sources-IsValid now retention s v = record {
    orders = v.orders;
    bonds = v.bonds;
    order_sources = v.order_sources;
    bond_sources =
        delete_orphans-Valid now retention s.fidelitybonds s.fidelitybond_sources v.bond_sources;
  }

  pub prune_sources-IsValid :
      (now grace retention : ℤ) (s : Book)
      → IsValid dust s
      → IsValid dust (prune_sources now grace retention s)
  unfolding prune_sources
  prune_sources-IsValid now grace retention s v =
      let offers = prune_orders (keys s.orderbook) now grace s in
      let bonds = prune_bonds (keys offers.fidelitybonds) now grace offers in
      prune_orphan_bond_sources-IsValid now retention
        (prune_orphan_order_sources now retention bonds)
        (prune_orphan_order_sources-IsValid now retention bonds (
          prune_bonds-IsValid (keys offers.fidelitybonds) now grace offers
            (prune_orders-IsValid (keys s.orderbook) now grace s v)))
