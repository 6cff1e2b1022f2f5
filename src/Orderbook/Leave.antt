-- ===== src/Orderbook/Leave.antt =====
-- What a nick offered through a directory that it left is not visible, unless another directory has
-- it.
use joinmarket_clientserver.Orderbook.Prune.{
  prune_bonds, prune_orders, prune_bond, prune_order, prune_sources, prune_orphan_order_sources,
  prune_orphan_bond_sources, delete_orphans,
}
use joinmarket_clientserver.Orderbook.Visible.{has_connected_source, visible_orderbook}
use joinmarket_clientserver.Orderbook.Peers.{status_of}
use joinmarket_clientserver.Orderbook.Sources.{
  exists_where, update_where, delete_where, deactivated, last_alive,
}
use joinmarket_clientserver.Prelude.Text.{Text, is_empty, text_eq}
use joinmarket_clientserver.Orderbook.Events.{erase_maker, on_nick_leave}
use joinmarket_clientserver.Prelude.Dict.{Dict, lookup, keys}
use joinmarket_clientserver.Orderbook.State.{
  Book, OrderRow, Peers, Settings, Sources, is_connected, Source, OrderKey,
}
use joinmarket_clientserver.Prelude.{
  Bool, List, [], ap, arith, false, none, refl, some, true, ℕ, ℤ, ◌&&◌, ◌==◌, ◌∷◌, ◌≡◌, pair_eq,
  ℕ_eq, not, ==_iff, contains, leb_ℤ, pos, ◌-ℤ◌, ◌||◌, ℤ_eq,
}
use joinmarket_clientserver.Orderbook.Announce.{lookup-visible_rows}

-- Departures.
module _ {K : Type 0} where
  exists_where-delete :
      (p q : K → Text → Source → Bool) (t : Sources K)
      → exists_where p (delete_where q t) ≡ true
      → exists_where p t ≡ true
  unfolding exists_where delete_where
  exists_where-delete p q [] h = h
  exists_where-delete p q (((k, d), r) ∷ t) h = ground (arith, exists_where-delete p q t)

-- Another directory that is connected announces the offer actively.
unfoldable pub announced_elsewhere : Text → ℕ → Text → Book → Bool
unfolding exists_where
announced_elsewhere nick oid directory s =
    exists_where
      (λ k d r.
        k == (nick, oid)
        && r.active
        && is_connected (status_of d s.directory_peers)
        && not (d == directory))
      s.orderbook_sources

-- Orders of one key are of one maker.
same_maker :
    (maker nick : Text) (n oid : ℕ)
    → (◌==◌ {A = OrderKey} (maker, n) (nick, oid)) ≡ true
    → (maker == nick) ≡ true
same_maker maker nick n oid h =
    (==_iff maker nick).1
      (ap (λ (k : OrderKey). k.0) ((==_iff {A = OrderKey} (maker, n) (nick, oid)).0 h))

left-elsewhere :
    (peers : Peers) (nick : Text) (oid : ℕ) (directory : Text) (now : ℤ) (t : Sources OrderKey)
    → has_connected_source peers
        (nick, oid)
        (update_where (λ j d r. j.0 == nick && d == directory && r.active) (deactivated now) t)
      ≡ true
    → exists_where
        (λ k d r.
          k == (nick, oid) && r.active && is_connected (status_of d peers) && not (d == directory))
        t
      ≡ true
unfolding has_connected_source exists_where update_where
left-elsewhere peers nick oid directory now [] h = h
left-elsewhere peers nick oid directory now ((((maker, n), d), r) ∷ t) h =
    ground (arith, left-elsewhere peers nick oid directory now t, same_maker maker nick n oid)

prune_order-sources :
    (k : OrderKey) (now grace : ℤ) (s : Book)
    → ((prune_order k now grace s).orderbook_sources ≡ s.orderbook_sources)
      × ((prune_order k now grace s).directory_peers ≡ s.directory_peers)
unfolding prune_order
prune_order-sources k now grace s = ground arith

prune_orders-sources :
    (ks : List OrderKey) (now grace : ℤ) (s : Book)
    → ((prune_orders ks now grace s).orderbook_sources ≡ s.orderbook_sources)
      × ((prune_orders ks now grace s).directory_peers ≡ s.directory_peers)
unfolding prune_orders
prune_orders-sources [] now grace s = (refl, refl)
prune_orders-sources (k ∷ ks) now grace s = ground (
  arith,
  prune_orders-sources ks now grace (prune_order k now grace s),
  prune_order-sources k now grace s,
)

prune_bond-sources :
    (k : Text) (now grace : ℤ) (s : Book)
    → ((prune_bond k now grace s).orderbook_sources ≡ s.orderbook_sources)
      × ((prune_bond k now grace s).directory_peers ≡ s.directory_peers)
unfolding prune_bond
prune_bond-sources k now grace s = ground arith

prune_bonds-sources :
    (ks : List Text) (now grace : ℤ) (s : Book)
    → ((prune_bonds ks now grace s).orderbook_sources ≡ s.orderbook_sources)
      × ((prune_bonds ks now grace s).directory_peers ≡ s.directory_peers)
unfolding prune_bonds
prune_bonds-sources [] now grace s = (refl, refl)
prune_bonds-sources (k ∷ ks) now grace s = ground (
  arith,
  prune_bonds-sources ks now grace (prune_bond k now grace s),
  prune_bond-sources k now grace s,
)

-- Pruning makes no source.
prune_sources-has :
    (now grace retention : ℤ) (s : Book) (k : OrderKey)
    → has_connected_source
        (prune_sources now grace retention s).directory_peers
        k
        (prune_sources now grace retention s).orderbook_sources
      ≡ true
    → has_connected_source s.directory_peers k s.orderbook_sources ≡ true
unfolding prune_sources prune_orphan_order_sources prune_orphan_bond_sources delete_orphans
    has_connected_source
prune_sources-has now grace retention s k h =
    let offers = prune_orders (keys s.orderbook) now grace s in
    let bonds = prune_bonds (keys offers.fidelitybonds) now grace offers in
    let a = prune_orders-sources (keys s.orderbook) now grace s in
    let b = prune_bonds-sources (keys offers.fidelitybonds) now grace offers in
    ground (
      arith,
      h,
      a,
      b,
      exists_where-delete
          (λ j d r. j == k && r.active && is_connected (status_of d bonds.directory_peers))
          (λ j d r.
            not (contains j (keys bonds.orderbook))
            && (retention == pos 0 || leb_ℤ retention (now -ℤ last_alive r)))
          bonds.orderbook_sources,
    )

lookup-erase_maker :
    (nick : Text) (oid : ℕ) (t : Dict OrderKey OrderRow)
    → lookup (nick, oid) (erase_maker nick t) ≡ none
unfolding erase_maker lookup
lookup-erase_maker nick oid [] = refl
lookup-erase_maker nick oid (((maker, n), row) ∷ t) =
    ground (arith, lookup-erase_maker nick oid t, same_maker maker nick n oid)

leave_directory :
    (st : Settings) (nick : Text) (oid : ℕ) (d : Text) (now : ℤ) (s : Book) (row : OrderRow)
    → is_empty d ≡ false
    → lookup (nick, oid) (visible_orderbook (on_nick_leave st nick d now s)) ≡ some row
    → announced_elsewhere nick oid d s ≡ true
unfolding on_nick_leave visible_orderbook announced_elsewhere
leave_directory st nick oid d now s row q h =
    let left : Book = record s {
      orderbook_sources =
          update_where (λ j c r. j.0 == nick && c == d && r.active) (deactivated now)
            s.orderbook_sources;
      fidelitybond_sources =
          update_where (λ j c r. j == nick && c == d && r.active) (deactivated now)
            s.fidelitybond_sources;
    } in
    let pruned_book : Book = prune_sources now st.grace_seconds st.retention_seconds left in
    ground (
      arith,
      q,
      lookup-visible_rows pruned_book.directory_peers pruned_book.orderbook_sources
          pruned_book.orderbook (nick, oid),
      prune_sources-has now st.grace_seconds st.retention_seconds left (nick, oid),
      left-elsewhere s.directory_peers nick oid d now s.orderbook_sources,
    )

-- After a nick has left a directory, an offer of it is visible only if another directory that is
-- connected announces it actively; after it has left for good, none of its offers is visible.
pub on_nick_leave-gone :
    (st : Settings) (nick : Text) (oid : ℕ) (d : Text) (now : ℤ) (s : Book)
    → ((row : OrderRow)
        → is_empty d ≡ false
        → lookup (nick, oid) (visible_orderbook (on_nick_leave st nick d now s)) ≡ some row
        → announced_elsewhere nick oid d s ≡ true)
      × (lookup (nick, oid) (visible_orderbook (on_nick_leave st nick [] now s)) ≡ none)
on_nick_leave-gone st nick oid d now s = (
  λ row q h. leave_directory st nick oid d now s row q h,
  unfold on_nick_leave visible_orderbook in
      ground (
        arith,
        lookup-visible_rows s.directory_peers
            (delete_where (λ j c r. j.0 == nick) s.orderbook_sources) (erase_maker nick s.orderbook)
            (nick, oid),
        lookup-erase_maker nick oid s.orderbook,
      ),
)
