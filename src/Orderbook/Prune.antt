-- ===== src/Orderbook/Prune.antt =====
-- How offers and bonds that no source keeps active leave the book, and how sources without an offer
-- or a bond leave their tables: the prune methods of `OrderbookWatch`.
use joinmarket_clientserver.Orderbook.Sources.{
  deactivated, delete_where, exists_where, has_active_source, has_any_source, last_alive,
  latest_inactive_at, update_where,
}
use joinmarket_clientserver.Prelude.Text.{Text, is_empty, text_eq}
use joinmarket_clientserver.Prelude.Dict.{Dict, erase, keys}
use joinmarket_clientserver.Prelude.{
  Bool, Eq, List, Option, [], contains, if◌then◌else◌, leb_ℤ, ltb_ℤ, none, not, pos, some, some_of,
  true, ℤ, ◌&&◌, ◌-ℤ◌, ◌==◌, ◌||◌, ◌∷◌, ℤ_eq, pair_eq, ℕ_eq,
}
use joinmarket_clientserver.Orderbook.State.{Book, OrderKey, Settings, Source, Sources}

unfoldable pub should_prune_inactive : ℤ → Option ℤ → ℤ → Bool
unfolding ◌-ℤ◌
should_prune_inactive now inactive_at grace_seconds =
    if ltb_ℤ grace_seconds (pos 0) then true else elim inactive_at [
      | none ↦ grace_seconds == pos 0
      | some at ↦ leb_ℤ grace_seconds (now -ℤ at)
    ]

-- The three checks before a row is deleted.
unfoldable pub to_prune : {K : Type 0} ⦃e : Eq K⦄ → K → ℤ → ℤ → Sources K → Bool
unfolding has_any_source has_active_source latest_inactive_at should_prune_inactive
to_prune k now grace_seconds t =
    has_any_source k t
    && not (has_active_source k t)
    && should_prune_inactive now (latest_inactive_at k t) grace_seconds

unfoldable pub prune_order : OrderKey → ℤ → ℤ → Book → Book
unfolding to_prune
prune_order k now grace_seconds s =
    if to_prune k now grace_seconds s.orderbook_sources
    then record s { orderbook = erase k s.orderbook; visibility_cache_dirty = true }
    else s

unfoldable pub prune_bond : Text → ℤ → ℤ → Book → Book
unfolding to_prune
prune_bond nick now grace_seconds s =
    if to_prune nick now grace_seconds s.fidelitybond_sources
    then record s { fidelitybonds = erase nick s.fidelitybonds; visibility_cache_dirty = true }
    else s

unfoldable pub prune_orders : List OrderKey → ℤ → ℤ → Book → Book
unfolding prune_order
prune_orders [] now grace_seconds s = s
prune_orders (k ∷ ks) now grace_seconds s =
    prune_orders ks now grace_seconds (prune_order k now grace_seconds s)

unfoldable pub prune_bonds : List Text → ℤ → ℤ → Book → Book
unfolding prune_bond
prune_bonds [] now grace_seconds s = s
prune_bonds (nick ∷ nicks) now grace_seconds s =
    prune_bonds nicks now grace_seconds (prune_bond nick now grace_seconds s)

-- The sources that have been without an offer or a bond for long enough.
unfoldable pub delete_orphans : {K V : Type 0} ⦃e : Eq K⦄ → ℤ → ℤ → Dict K V → Sources K → Sources K
unfolding delete_where ◌-ℤ◌
delete_orphans now retention_seconds rows t =
    if ltb_ℤ retention_seconds (pos 0)
    then t
    else delete_where
        (λ k d r.
          not (contains k (keys rows))
          && (retention_seconds == pos 0 || leb_ℤ retention_seconds (now -ℤ last_alive r)))
        t

unfoldable pub prune_orphan_order_sources : ℤ → ℤ → Book → Book
unfolding delete_orphans
prune_orphan_order_sources now retention_seconds s = record s {
  orderbook_sources = delete_orphans now retention_seconds s.orderbook s.orderbook_sources;
}

unfoldable pub prune_orphan_bond_sources : ℤ → ℤ → Book → Book
unfolding delete_orphans
prune_orphan_bond_sources now retention_seconds s = record s {
  fidelitybond_sources =
      delete_orphans now retention_seconds s.fidelitybonds s.fidelitybond_sources;
}

-- `prune_sources`
unfoldable pub prune_sources : ℤ → ℤ → ℤ → Book → Book
unfolding prune_orders prune_bonds prune_orphan_order_sources prune_orphan_bond_sources
prune_sources now grace_seconds retention_seconds s =
    let offers = prune_orders (keys s.orderbook) now grace_seconds s in
    let bonds = prune_bonds (keys offers.fidelitybonds) now grace_seconds offers in
    prune_orphan_bond_sources now retention_seconds
      (prune_orphan_order_sources now retention_seconds bonds)

-- `prune_unseen_sources_for_directories`
unfoldable pub prune_unseen_sources : Settings → List Text → ℤ → Book → Book
unfolding prune_sources
prune_unseen_sources st directories now s =
    if some_of (λ d. not (is_empty d)) directories
    then prune_sources now st.grace_seconds st.retention_seconds s
    else s

abbrev pub is_stale : ℤ → ℤ → Source → Bool
is_stale now ttl r = r.active && ltb_ℤ r.last_seen_at (now -ℤ ttl)

-- The sources not seen for the time to live become inactive, if that time is positive.
unfoldable pub deactivate_stale : {K : Type 0} → ℤ → ℤ → Sources K → Sources K
unfolding update_where ◌-ℤ◌
deactivate_stale now ttl t =
    if ltb_ℤ (pos 0) ttl then update_where (λ k d r. is_stale now ttl r) (deactivated now) t else t

abbrev pub any_stale : {K : Type 0} → ℤ → ℤ → Sources K → Bool
any_stale now ttl t = ltb_ℤ (pos 0) ttl && exists_where (λ k d r. is_stale now ttl r) t

unfoldable pub prune_stale_sources : Settings → ℤ → ℤ → ℤ → Book → Book
unfolding deactivate_stale prune_sources exists_where
prune_stale_sources st offer_ttl bond_ttl now s =
    let dirty =
      any_stale now offer_ttl s.orderbook_sources
      || any_stale now bond_ttl s.fidelitybond_sources in
    let pruned = prune_sources now st.grace_seconds st.retention_seconds (record s {
      orderbook_sources = deactivate_stale now offer_ttl s.orderbook_sources;
      fidelitybond_sources = deactivate_stale now bond_ttl s.fidelitybond_sources;
    }) in
    record pruned { visibility_cache_dirty = pruned.visibility_cache_dirty || dirty }

-- `_delete_order_if_no_sources_locked` and its like for bonds
unfoldable pub delete_order_if_no_sources : OrderKey → Book → Book
unfolding has_any_source
delete_order_if_no_sources k s =
    if has_any_source k s.orderbook_sources
    then s
    else record s { orderbook = erase k s.orderbook; visibility_cache_dirty = true }

unfoldable pub delete_bond_if_no_sources : Text → Book → Book
unfolding has_any_source
delete_bond_if_no_sources nick s =
    if has_any_source nick s.fidelitybond_sources
    then s
    else record s { fidelitybonds = erase nick s.fidelitybonds; visibility_cache_dirty = true }
