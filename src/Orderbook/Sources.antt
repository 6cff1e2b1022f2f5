-- ===== src/Orderbook/Sources.antt =====
-- The rows of `orderbook_sources` and `fidelitybond_sources`: what they say of an order or a bond,
-- and how they change. Both tables are treated alike, so each query is defined once for any key `K`.
use joinmarket_clientserver.Prelude.Dict.{insert, lookup}
use joinmarket_clientserver.Orderbook.Peers.{get_or_create_refresh_id}
use joinmarket_clientserver.Prelude.Text.{Text, text_eq}
use joinmarket_clientserver.Orderbook.State.{Peers, Source, Sources}
use joinmarket_clientserver.Prelude.{
  Bool, Eq, List, Option, [], false, if◌then◌else◌, ltb_ℤ, none, some, true, ℤ, ◌&&◌, ◌==◌, ◌||◌,
  ◌∷◌, pair_eq,
}

-- `COALESCE(inactive_at, last_seen_at, first_seen_at, 0)`
abbrev pub last_alive : Source → ℤ
last_alive r = elim r.inactive_at [ none ↦ r.last_seen_at | some at ↦ at ]

-- `active=0, inactive_at=COALESCE(inactive_at, ?)`
abbrev pub deactivated : ℤ → Source → Source
deactivated now r = record r {
  active = false;
  inactive_at = elim r.inactive_at [ none ↦ some now | some at ↦ some at ];
}

abbrev latest : ℤ → Option ℤ → Option ℤ
latest at none = some at
latest at (some other) = if ltb_ℤ other at then some at else some other

module _ {K : Type 0} where
  -- `UPDATE ... WHERE p`
  unfoldable pub update_where :
      (K → Text → Source → Bool) → (Source → Source) → Sources K → Sources K
  update_where p f [] = []
  update_where p f (((k, d), r) ∷ t) = ((k, d), if p k d r then f r else r) ∷ update_where p f t

  -- `DELETE ... WHERE p`
  unfoldable pub delete_where : (K → Text → Source → Bool) → Sources K → Sources K
  delete_where p [] = []
  delete_where p (((k, d), r) ∷ t) =
      if p k d r then delete_where p t else ((k, d), r) ∷ delete_where p t

  -- `SELECT 1 ... WHERE p LIMIT 1`
  unfoldable pub exists_where : (K → Text → Source → Bool) → Sources K → Bool
  exists_where p [] = false
  exists_where p (((k, d), r) ∷ t) = p k d r || exists_where p t

module _ {K : Type 0} ⦃e : Eq K⦄ where
  unfoldable pub deactivate_source : K → Text → ℤ → Sources K → Sources K
  unfolding update_where
  deactivate_source k d now t = update_where (λ j c r. j == k && c == d) (deactivated now) t

  unfoldable pub has_active_source : K → Sources K → Bool
  unfolding exists_where
  has_active_source k t = exists_where (λ j d r. j == k && r.active) t

  unfoldable pub has_any_source : K → Sources K → Bool
  unfolding exists_where
  has_any_source k t = exists_where (λ j d r. j == k) t

  -- `MAX(...)` over the sources of `k`
  unfoldable pub latest_inactive_at : K → Sources K → Option ℤ
  latest_inactive_at k [] = none
  latest_inactive_at k (((j, d), r) ∷ t) =
      if j == k then latest (last_alive r) (latest_inactive_at k t) else latest_inactive_at k t

  -- the directories of the active sources of `k`
  unfoldable pub active_directories : K → Sources K → List Text
  active_directories k [] = []
  active_directories k (((j, d), r) ∷ t) =
      if j == k && r.active then d ∷ active_directories k t else active_directories k t

  -- the loop of `_refresh_active_order_sources_locked`
  unfoldable pub refresh_directories :
      (Text → Text) → K → ℤ → List Text → Peers → Sources K → Peers × Sources K
  unfolding get_or_create_refresh_id update_where
  refresh_directories ids k now [] peers t = (peers, t)
  refresh_directories ids k now (d ∷ ds) peers t =
      let found = get_or_create_refresh_id ids d peers in
      refresh_directories ids k now ds found.0 (
        update_where (λ j c r. j == k && c == d && r.active)
          (λ r. record r { last_seen_at = now; last_refresh_id = found.1; inactive_at = none }) t)

  unfoldable pub refresh_active_sources :
      (Text → Text) → K → ℤ → Peers → Sources K → Peers × Sources K
  unfolding refresh_directories active_directories
  refresh_active_sources ids k now peers t =
      refresh_directories ids k now (active_directories k t) peers t

  -- `_upsert_order_source_locked`
  unfoldable pub upsert_source :
      (Text → Text) → K → Text → ℤ → Peers → Sources K → Peers × Sources K
  unfolding get_or_create_refresh_id refresh_active_sources
  upsert_source ids k d now peers t =
      let found = get_or_create_refresh_id ids d peers in
      refresh_active_sources ids k now found.0 (
        insert (k, d)
          (record {
            first_seen_at = elim (lookup (k, d) t) [ none ↦ now | some r ↦ r.first_seen_at ];
            last_seen_at = now;
            last_refresh_id = found.1;
            active = true;
            inactive_at = none;
          })
          t)
