-- ===== src/Orderbook/Cache.antt =====
-- The caches of the visible rows are as the views, unless they are marked as stale: what the views
-- read.
use mathlib.Core.Option
use joinmarket_clientserver.Orderbook.Visible.{
  has_connected_source, visible_fidelitybonds, visible_orderbook, visible_rows,
}
use joinmarket_clientserver.Orderbook.Peers.{ensure_directory_peer, status_of, new_directory_peer}
use joinmarket_clientserver.Orderbook.Sources.{
  deactivated, delete_where, exists_where, last_alive, update_where,
}
use joinmarket_clientserver.Orderbook.Prune.{any_stale, deactivate_stale, delete_orphans, is_stale}
use joinmarket_clientserver.Prelude.Text.{Text, text_eq}
use joinmarket_clientserver.Prelude.Dict.{Dict, keys, lookup-insert, update, lookup, lookup-update}
use joinmarket_clientserver.Orderbook.State.{
  connected, disconnected, Book, DirectoryPeer, Peers, Source, Sources, is_connected,
  same_connection, Connection, unknown,
}
use joinmarket_clientserver.Prelude.{
  ==_refl, Bool, Bool-cases, Eq, [], ap, arith, contains, false, inl, inr, leb_ℤ, ltb_ℤ, not, pos,
  refl, true, ℤ, ◌&&◌, ◌-ℤ◌, ◌==◌, ◌||◌, ◌∷◌, ◌≡◌, ◌⊎◌, ℤ_eq, Option, if◌then◌else◌, none, some,
  pair_eq, ℕ_eq,
}

-- What the caches hold when they are not marked.
pub record CachesMatch (s : Book) : Type 0 where
  pub offers : s.visible_orderbook_cache ≡ visible_orderbook s
  pub bonds : s.visible_fidelitybond_cache ≡ visible_fidelitybonds s

abbrev pub IsExact : Book → Type 0
IsExact s = (s.visibility_cache_dirty ≡ true) ⊎ CachesMatch s

-- Two tables of directories with the same connections.
abbrev pub SameConnections : Peers → Peers → Type 0
SameConnections p q = (d : Text) → status_of d p ≡ status_of d q

module _ {K : Type 0} ⦃e : Eq K⦄ where
  pub has_connected_source-peers :
      (p q : Peers) (k : K) (t : Sources K)
      → SameConnections p q
      → has_connected_source p k t ≡ has_connected_source q k t
  unfolding has_connected_source exists_where
  has_connected_source-peers p q k [] h = refl
  has_connected_source-peers p q k (((j, d), r) ∷ t) h =
      let rest = has_connected_source-peers p q k t h in
      λ i. (j == k && r.active && is_connected (h d i)) || rest i

  pub visible_rows-peers :
      {V : Type 0} (p q : Peers) (t : Sources K) (rows : Dict K V)
      → SameConnections p q
      → visible_rows p t rows ≡ visible_rows q t rows
  unfolding visible_rows
  visible_rows-peers p q t [] h = refl
  visible_rows-peers p q t ((k, row) ∷ rows) h =
      ground (arith, has_connected_source-peers p q k t h, visible_rows-peers p q t rows h)

  -- A source of another key is not asked for.
  has_connected_source-delete :
      (peers : Peers) (k : K) (f : K → Text → Source → Bool) (t : Sources K)
      → ((d : Text) (r : Source) → f k d r ≡ false)
      → has_connected_source peers k (delete_where f t) ≡ has_connected_source peers k t
  unfolding has_connected_source exists_where delete_where
  has_connected_source-delete peers k f [] h = refl
  has_connected_source-delete peers k f (((j, d), r) ∷ t) h = elim (e.dec j k) [
    | yes q ↦
        let g : (f j d r ≡ false) = rw q (h d r) in
        rw g (
          ap (λ b. (j == k && r.active && is_connected (status_of d peers)) || b)
            (has_connected_source-delete peers k f t h))
    | no q ↦ ground (arith, has_connected_source-delete peers k f t h)
  ]

  visible_rows-delete :
      {V : Type 0} (peers : Peers) (f : K → Text → Source → Bool) (t : Sources K) (rows : Dict K V)
      → ((k : K) → contains k (keys rows) ≡ true → (d : Text) (r : Source) → f k d r ≡ false)
      → visible_rows peers (delete_where f t) rows ≡ visible_rows peers t rows
  unfolding visible_rows
  visible_rows-delete peers f t [] h = refl
  visible_rows-delete peers f t ((k, row) ∷ rows) h = ground (
    arith,
    has_connected_source-delete peers k f t (h k (ground (arith, ==_refl k))),
    visible_rows-delete peers f t rows (λ j c. h j (ground (arith, c))),
  )

  pub visible_rows-orphans :
      {V : Type 0} (peers : Peers) (now retention : ℤ) (t : Sources K) (rows : Dict K V)
      → visible_rows peers (delete_orphans now retention rows t) rows ≡ visible_rows peers t rows
  unfolding delete_orphans
  visible_rows-orphans peers now retention t rows = elim (Bool-cases (ltb_ℤ retention (pos 0))) [
    | inl q ↦ rw q refl
    | inr q ↦ rw q (
        visible_rows-delete peers
          (λ k d r.
            not (contains k (keys rows))
            && (retention == pos 0 || leb_ℤ retention (now -ℤ last_alive r)))
          t rows (λ k c d r. rw c refl))
  ]

  -- Without a stale source, nothing is deactivated.
  update_where_none :
      (p : K → Text → Source → Bool) (f : Source → Source) (t : Sources K)
      → exists_where p t ≡ false
      → update_where p f t ≡ t
  unfolding update_where exists_where
  update_where_none p f [] h = refl
  update_where_none p f (((k, d), r) ∷ t) h = ground (arith, update_where_none p f t)

  pub deactivate_stale_none :
      (now ttl : ℤ) (t : Sources K) → any_stale now ttl t ≡ false → deactivate_stale now ttl t ≡ t
  unfolding deactivate_stale
  deactivate_stale_none now ttl t h =
      ground (arith, update_where_none (λ k d r. is_stale now ttl r) (deactivated now) t)

-- The directories.
pub status_of-ensure :
    (d c : Text) (peers : Peers) → status_of c (ensure_directory_peer d peers) ≡ status_of c peers
unfolding ensure_directory_peer
status_of-ensure d c peers = ground (arith, lookup-insert d c new_directory_peer peers)

same_connection_eq : (a b : Connection) → same_connection a b ≡ true → a ≡ b
same_connection_eq unknown unknown h = refl
same_connection_eq unknown connected h = absurd (cc)
same_connection_eq unknown disconnected h = absurd (cc)
same_connection_eq connected unknown h = absurd (cc)
same_connection_eq connected connected h = refl
same_connection_eq connected disconnected h = absurd (cc)
same_connection_eq disconnected unknown h = absurd (cc)
same_connection_eq disconnected connected h = absurd (cc)
same_connection_eq disconnected disconnected h = refl

pub status_of-update :
    (d c : Text) (f : DirectoryPeer → DirectoryPeer) (peers : Peers)
    → same_connection (status_of d (update d f peers)) (status_of d peers) ≡ true
    → status_of c (update d f peers) ≡ status_of c peers
status_of-update d c f peers h = ground (
  arith,
  lookup-update d c f peers,
  lookup-update d d f peers,
  ==_refl d,
  same_connection_eq (status_of d (update d f peers)) (status_of d peers) h,
)

pub update-SameConnections :
    (d : Text) (f : DirectoryPeer → DirectoryPeer) (peers : Peers)
    → ((p : DirectoryPeer) → (f p).status ≡ p.status)
    → SameConnections peers (update d f peers)
update-SameConnections d f peers h c =
    rw (status_of, lookup-update d c f peers) (go (lookup c peers))
  where
    status : Option DirectoryPeer → Connection
    status o = elim o [ none ↦ unknown | some p ↦ p.status ]

    go : (o : Option DirectoryPeer) → status o ≡ status (if d == c then Option.map f o else o)
    go none = ground arith
    go (some p) = ground (arith, h p)
