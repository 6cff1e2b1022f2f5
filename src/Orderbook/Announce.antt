-- ===== src/Orderbook/Announce.antt =====
-- Which offers are visible: a valid offer of a directory is.
use mathlib.Core.Path.{subst}
use joinmarket_clientserver.Orderbook.Visible.{
  has_connected_source, visible_orderbook, visible_rows,
}
use joinmarket_clientserver.Orderbook.Peers.{
  ensure_directory_peer, get_or_create_refresh_id, new_directory_peer, record_directory_response,
  set_directory_peer_fields, status_of, with_response,
}
use joinmarket_clientserver.Orderbook.Sources.{
  active_directories, exists_where, refresh_active_sources, refresh_directories, update_where,
  upsert_source,
}
use joinmarket_clientserver.Prelude.Text.{Text, is_empty, text_eq}
use joinmarket_clientserver.Orderbook.Events.{
  SeenOrder, checked_order, on_order_seen, seen_with_oid, settle_order, store_order, valid_oid,
  drop_order,
}
use joinmarket_clientserver.Orderbook.Cache.{
  SameConnections, has_connected_source-peers, status_of-ensure,
}
use joinmarket_clientserver.Prelude.Dict.{Dict, insert, lookup, lookup-insert_self, lookup-update}
use joinmarket_clientserver.Orderbook.State.{
  Book, OrderRow, Peers, Settings, Sources, connected, is_connected, Source, OrderKey,
}
use joinmarket_clientserver.Prelude.{
  ==_refl, Bool, Eq, List, [], ap, arith, false, if◌then◌else◌, none, refl, some, true, ℕ, ℤ, ◌&&◌,
  ◌==◌, ◌∙◌, ◌∷◌, ◌≡◌, pair_eq, ℕ_eq, sym, ℤ_eq,
}

get_or_create-SameConnections :
    (ids : Text → Text) (d : Text) (peers : Peers)
    → SameConnections (get_or_create_refresh_id ids d peers).0 peers
unfolding get_or_create_refresh_id
get_or_create-SameConnections ids d peers c = ground (
  arith,
  status_of-ensure d c peers,
  lookup-update d c (λ q. record q { last_refresh_id = some (ids d) })
      (ensure_directory_peer d peers),
)

module _ {K : Type 0} ⦃e : Eq K⦄ where
  pub lookup-visible_rows :
      {V : Type 0} (peers : Peers) (t : Sources K) (rows : Dict K V) (k : K)
      → lookup k (visible_rows peers t rows)
        ≡ (if has_connected_source peers k t then lookup k rows else none)
  unfolding visible_rows lookup
  lookup-visible_rows peers t [] k = ground arith
  lookup-visible_rows peers t ((j, row) ∷ rows) k = elim (e.dec j k) [
    | yes q ↦
        ground
          (arith, lookup-visible_rows peers t rows k, ap (λ i. has_connected_source peers i t) q)
    | no q ↦ ground (arith, lookup-visible_rows peers t rows k)
  ]

  -- A change that leaves `active` alone is not seen.
  has_connected_source-update :
      (peers : Peers) (k : K) (p : K → Text → Source → Bool) (f : Source → Source) (t : Sources K)
      → ((r : Source) → (f r).active ≡ r.active)
      → has_connected_source peers k (update_where p f t) ≡ has_connected_source peers k t
  unfolding has_connected_source exists_where update_where
  has_connected_source-update peers k p f [] h = refl
  has_connected_source-update peers k p f (((j, d), r) ∷ t) h =
      ground (arith, has_connected_source-update peers k p f t h, h r)

  refresh_directories-has :
      (ids : Text → Text) (k j : K) (now : ℤ) (ds : List Text) (peers : Peers) (t : Sources K)
      → has_connected_source
          (refresh_directories ids k now ds peers t).0
          j
          (refresh_directories ids k now ds peers t).1
        ≡ has_connected_source peers j t
  unfolding refresh_directories
  refresh_directories-has ids k j now [] peers t = refl
  refresh_directories-has ids k j now (d ∷ ds) peers t =
      let found = get_or_create_refresh_id ids d peers in
      refresh_directories-has ids k j now ds found.0 (
        update_where (λ i c r. i == k && c == d && r.active)
          (λ r. record r { last_seen_at = now; last_refresh_id = found.1; inactive_at = none }) t)
      ∙ (has_connected_source-update found.0 j (λ i c r. i == k && c == d && r.active)
            (λ r. record r { last_seen_at = now; last_refresh_id = found.1; inactive_at = none }) t
            (λ r. refl)
          ∙ has_connected_source-peers found.0 peers j t
              (get_or_create-SameConnections ids d peers))

  has_connected_source-insert :
      (peers : Peers) (k : K) (d : Text) (row : Source) (t : Sources K)
      → row.active ≡ true
      → is_connected (status_of d peers) ≡ true
      → has_connected_source peers k (insert (k, d) row t) ≡ true
  unfolding has_connected_source exists_where insert
  has_connected_source-insert peers k d row [] a c = ground (arith, ==_refl k)
  has_connected_source-insert peers k d row (((j, b), r) ∷ t) a c =
      ground (arith, has_connected_source-insert peers k d row t a c, ==_refl k)

  upsert_source-has :
      (ids : Text → Text) (k : K) (d : Text) (now : ℤ) (peers : Peers) (t : Sources K)
      → is_connected (status_of d peers) ≡ true
      → has_connected_source
          (upsert_source ids k d now peers t).0
          k
          (upsert_source ids k d now peers t).1
        ≡ true
  unfolding upsert_source refresh_active_sources
  upsert_source-has ids k d now peers t c =
      let found = get_or_create_refresh_id ids d peers in
      let row : Source = record {
        first_seen_at = elim (lookup (k, d) t) [ none ↦ now | some r ↦ r.first_seen_at ];
        last_seen_at = now;
        last_refresh_id = found.1;
        active = true;
        inactive_at = none;
      } in
      refresh_directories-has ids k k now (active_directories k (insert (k, d) row t)) found.0
        (insert (k, d) row t)
      ∙ has_connected_source-insert found.0 k d row t refl
          (rw (get_or_create-SameConnections ids d peers d) c)

-- A directory that answers is connected.
response-status :
    (d : Text) (now : ℤ) (s : Book)
    → is_empty d ≡ false
    → status_of d (record_directory_response d now s).directory_peers ≡ connected
unfolding record_directory_response set_directory_peer_fields ensure_directory_peer
response-status d now s q = ground (
  arith,
  q,
  lookup-update d d (with_response now) s.directory_peers,
  lookup-update d d (with_response now) (insert d new_directory_peer s.directory_peers),
  lookup-insert_self d new_directory_peer s.directory_peers,
  ==_refl d,
)

store_order-visible :
    (ids : Text → Text) (k : OrderKey) (d : Text) (now : ℤ) (row : OrderRow) (s : Book)
    → is_empty d ≡ false
    → lookup k (visible_orderbook (store_order ids k d now row s)) ≡ some row
unfolding store_order visible_orderbook
store_order-visible ids k d now row s q =
    let told : Book = record_directory_response d now s in
    let up = upsert_source ids k d now told.directory_peers told.orderbook_sources in
    ground (
      arith,
      q,
      lookup-visible_rows up.0 up.1 (insert k row told.orderbook) k,
      upsert_source-has ids k d now told.directory_peers told.orderbook_sources
          (rw (response-status d now s q) refl),
      lookup-insert_self k row told.orderbook,
    )

-- An offer with a valid `oid` that passes the checks is visible as it is stored once a directory has
-- announced it.
pub on_order_seen-visible :
    (st : Settings) (ids : Text → Text) (o : SeenOrder) (d : Text) (now : ℤ) (s : Book) (oid : ℕ)
    (row : OrderRow)
    → is_empty d ≡ false
    → valid_oid o.oid ≡ some oid
    → checked_order st o ≡ some row
    → lookup (o.counterparty, oid) (visible_orderbook (on_order_seen st ids o d now s).0) ≡ some row
unfolding on_order_seen seen_with_oid settle_order
on_order_seen-visible st ids o d now s oid row q n r =
    let stored =
      store_order-visible ids (o.counterparty, oid) d now row
        (drop_order st (o.counterparty, oid) d now s) q in
    subst
      (λ x.
        lookup (o.counterparty, oid) (visible_orderbook (seen_with_oid st ids o d now x s).0)
        ≡ some row)
      (sym n)
      (subst
        (λ x.
          lookup (o.counterparty, oid)
            (visible_orderbook
              (settle_order ids (o.counterparty, oid) d now x
                (drop_order st (o.counterparty, oid) d now s)).0)
          ≡ some row)
        (sym r) stored)
