-- ===== src/Orderbook/CacheSteps.antt =====
-- The steps of the book keep the caches as the views, or mark them.
use joinmarket_clientserver.Orderbook.History.{Event, order_seen}
use joinmarket_clientserver.Orderbook.Events.{
  seen_with_oid, store_order, drop_order, SeenOrder, checked_order, settle_order,
}
use joinmarket_clientserver.Orderbook.Visible.{visible_fidelitybonds, visible_orderbook}
use joinmarket_clientserver.Orderbook.Peers.{
  ensure_directory_peer, status_of, set_directory_peer_fields,
}
use joinmarket_clientserver.Orderbook.Sources.{deactivate_source}
use joinmarket_clientserver.Orderbook.Prune.{
  prune_orders, prune_order, prune_bonds, prune_orphan_bond_sources, prune_sources, prune_bond,
  prune_orphan_order_sources, to_prune,
}
use joinmarket_clientserver.Prelude.Text.{Text, text_eq, is_empty}
use joinmarket_clientserver.Prelude.Dict.{keys, update}
use joinmarket_clientserver.Orderbook.State.{
  Book, DirectoryPeer, Peers, same_connection, OrderKey, Settings, OrderRow,
}
use joinmarket_clientserver.Prelude.{
  Bool, Bool-cases, [], arith, false, inl, inr, not, refl, true, ℤ, ◌||◌, ◌∷◌, ◌≡◌, ◌⊎◌, ℤ_eq, List,
  Option, none, some, sym, ◌∙◌, pair_eq, ℕ_eq, ℕ, ◌≢◌,
}
use joinmarket_clientserver.Orderbook.Cache.{
  IsExact, SameConnections, visible_rows-peers, visible_rows-orphans, status_of-ensure,
  status_of-update, CachesMatch,
}

-- The steps of the book.
prune_order-IsExact :
    (k : OrderKey) (now grace : ℤ) (s : Book) → IsExact s → IsExact (prune_order k now grace s)
unfolding prune_order
prune_order-IsExact k now grace s v = elim (Bool-cases (to_prune k now grace s.orderbook_sources)) [
  | inl q ↦ rw q (inl refl)
  | inr q ↦ rw q v
]

prune_bond-IsExact :
    (nick : Text) (now grace : ℤ) (s : Book) → IsExact s → IsExact (prune_bond nick now grace s)
unfolding prune_bond
prune_bond-IsExact nick now grace s v =
    elim (Bool-cases (to_prune nick now grace s.fidelitybond_sources)) [
      | inl q ↦ rw q (inl refl)
      | inr q ↦ rw q v
    ]

prune_orders-IsExact :
    (ks : List OrderKey) (now grace : ℤ) (s : Book)
    → IsExact s
    → IsExact (prune_orders ks now grace s)
unfolding prune_orders
prune_orders-IsExact [] now grace s v = v
prune_orders-IsExact (k ∷ ks) now grace s v =
    prune_orders-IsExact ks now grace (prune_order k now grace s)
      (prune_order-IsExact k now grace s v)

prune_bonds-IsExact :
    (ks : List Text) (now grace : ℤ) (s : Book) → IsExact s → IsExact (prune_bonds ks now grace s)
unfolding prune_bonds
prune_bonds-IsExact [] now grace s v = v
prune_bonds-IsExact (k ∷ ks) now grace s v =
    prune_bonds-IsExact ks now grace (prune_bond k now grace s) (prune_bond-IsExact k now grace s v)

orphan_orders-IsExact :
    (now retention : ℤ) (s : Book)
    → IsExact s
    → IsExact (prune_orphan_order_sources now retention s)
unfolding prune_orphan_order_sources visible_orderbook visible_fidelitybonds
orphan_orders-IsExact now retention s (inl q) = inl q
orphan_orders-IsExact now retention s (inr m) = inr (record {
  offers =
      m.offers
      ∙ sym (visible_rows-orphans s.directory_peers now retention s.orderbook_sources s.orderbook);
  bonds = m.bonds;
})

orphan_bonds-IsExact :
    (now retention : ℤ) (s : Book) → IsExact s → IsExact (prune_orphan_bond_sources now retention s)
unfolding prune_orphan_bond_sources visible_orderbook visible_fidelitybonds
orphan_bonds-IsExact now retention s (inl q) = inl q
orphan_bonds-IsExact now retention s (inr m) = inr (record {
  offers = m.offers;
  bonds =
      m.bonds
      ∙ sym (
          visible_rows-orphans s.directory_peers now retention s.fidelitybond_sources
            s.fidelitybonds);
})

pub prune_sources-IsExact :
    (now grace retention : ℤ) (s : Book) → IsExact s → IsExact (prune_sources now grace retention s)
unfolding prune_sources
prune_sources-IsExact now grace retention s v =
    let offers = prune_orders (keys s.orderbook) now grace s in
    let bonds = prune_bonds (keys offers.fidelitybonds) now grace offers in
    orphan_bonds-IsExact now retention (prune_orphan_order_sources now retention bonds) (
      orphan_orders-IsExact now retention bonds (
        prune_bonds-IsExact (keys offers.fidelitybonds) now grace offers
          (prune_orders-IsExact (keys s.orderbook) now grace s v)))

-- The tables of directories have the same connections, and all else is the same.
peers-CachesMatch :
    (p : Peers) (dirty : Bool) (s : Book)
    → SameConnections s.directory_peers p
    → CachesMatch s
    → CachesMatch (record s { directory_peers = p; visibility_cache_dirty = dirty })
unfolding visible_orderbook visible_fidelitybonds
peers-CachesMatch p dirty s h m = record {
  offers = m.offers ∙ visible_rows-peers s.directory_peers p s.orderbook_sources s.orderbook h;
  bonds = m.bonds ∙ visible_rows-peers s.directory_peers p s.fidelitybond_sources s.fidelitybonds h;
}

pub peers-IsExact :
    (p : Peers) (s : Book)
    → SameConnections s.directory_peers p
    → IsExact s
    → IsExact (record s { directory_peers = p })
peers-IsExact p s h (inl q) = inl q
peers-IsExact p s h (inr m) = inr (peers-CachesMatch p s.visibility_cache_dirty s h m)

pub set_fields-IsExact :
    (d : Text) (f : DirectoryPeer → DirectoryPeer) (s : Book)
    → IsExact s
    → IsExact (set_directory_peer_fields d f s)
unfolding set_directory_peer_fields
set_fields-IsExact d f s v =
    let there : Peers = ensure_directory_peer d s.directory_peers in
    let set : Peers = update d f there in
    elim (Bool-cases (is_empty d)) [
      | inl q ↦ rw q v
      | inr q ↦ rw q (
          go (same_connection (status_of d set) (status_of d there)) v (λ same c.
            sym (status_of-update d c f there same ∙ status_of-ensure d c s.directory_peers)))
    ]
  where
    go :
        (same : Bool)
        → IsExact s
        → (same ≡ true
            → SameConnections s.directory_peers
                (update d f (ensure_directory_peer d s.directory_peers)))
        → IsExact (record s {
          directory_peers = update d f (ensure_directory_peer d s.directory_peers);
          visibility_cache_dirty = s.visibility_cache_dirty || not same;
        })
    go true (inl w) h = inl (ground arith)
    go true (inr m) h = inr (
        peers-CachesMatch (update d f (ensure_directory_peer d s.directory_peers))
          (s.visibility_cache_dirty || not true) s (h refl) m)
    go false w h = inl (ground arith)

drop_order-IsExact :
    (st : Settings) (k : OrderKey) (d : Text) (now : ℤ) (s : Book)
    → is_empty d ≡ false
    → IsExact (drop_order st k d now s)
unfolding drop_order
drop_order-IsExact st k d now s q = rw q (
    orphan_orders-IsExact now st.retention_seconds
      (prune_order k now st.grace_seconds (record s {
        orderbook_sources = deactivate_source k d now s.orderbook_sources;
        visibility_cache_dirty = true;
      }))
      (prune_order-IsExact k now st.grace_seconds
        (record s {
          orderbook_sources = deactivate_source k d now s.orderbook_sources;
          visibility_cache_dirty = true;
        })
        (inl refl)))

store_order-IsExact :
    (ids : Text → Text) (k : OrderKey) (d : Text) (now : ℤ) (row : OrderRow) (s : Book)
    → IsExact (store_order ids k d now row s)
unfolding store_order
store_order-IsExact ids k d now row s = inl (ground arith)

-- An offer without a directory passes the checks, if its `oid` does.
abbrev pub PassesChecks : Settings → Event → Type 0
PassesChecks st (order_seen ids o d now) = (is_empty d ≡ false) ⊎ (checked_order st o ≢ none)
PassesChecks st _ = Unit

pub order_seen-IsExact :
    (st : Settings) (ids : Text → Text) (o : SeenOrder) (d : Text) (now : ℤ) (oid : Option ℕ)
    (s : Book)
    → (is_empty d ≡ false) ⊎ (checked_order st o ≢ none)
    → IsExact s
    → IsExact (seen_with_oid st ids o d now oid s).0
unfolding seen_with_oid
order_seen-IsExact st ids o d now none s p v = v
order_seen-IsExact st ids o d now (some oid) s p v =
    go (checked_order st o) (elim p [ inl q ↦ inl q | inr f ↦ inr f ])
  where
    go :
        (r : Option OrderRow)
        → (is_empty d ≡ false) ⊎ (r ≢ none)
        → IsExact
            (settle_order ids
              (o.counterparty, oid)
              d
              now
              r
              (drop_order st (o.counterparty, oid) d now s)).0
    go none (inl q) = unfold settle_order in drop_order-IsExact st (o.counterparty, oid) d now s q
    go none (inr f) = absurd (f refl)
    go (some row) q =
        unfold settle_order in
        store_order-IsExact ids (o.counterparty, oid) d now row
          (drop_order st (o.counterparty, oid) d now s)
