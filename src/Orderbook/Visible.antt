-- ===== src/Orderbook/Visible.antt =====
-- What a reader of the book sees: the views `visible_orderbook` and `visible_fidelitybonds`, their
-- caches, and the sizes of the directories.
use joinmarket_clientserver.Refresh.Selection.{Liquidity}
use joinmarket_clientserver.Orderbook.Peers.{status_of}
use joinmarket_clientserver.Orderbook.Sources.{exists_where}
use joinmarket_clientserver.Prelude.Text.{Text, text_eq}
use joinmarket_clientserver.Prelude.Dict.{Dict}
use joinmarket_clientserver.Prelude.{
  Bool, Eq, [], false, if◌then◌else◌, some, suc, ℕ, ℤ, ◌&&◌, ◌==◌, ◌∷◌, pair_eq, ℕ_eq, List, dedup,
  map, ◌++◌,
}
use joinmarket_clientserver.Orderbook.State.{
  Bond, Book, OrderKey, OrderRow, Peers, Sources, is_connected,
}

-- `dp.status = 'connected' AND os.active = 1`, for a source of `k`
unfoldable pub has_connected_source : {K : Type 0} ⦃e : Eq K⦄ → Peers → K → Sources K → Bool
unfolding exists_where
has_connected_source peers k t =
    exists_where (λ j d r. j == k && r.active && is_connected (status_of d peers)) t

unfoldable pub visible_rows : {K V : Type 0} ⦃e : Eq K⦄ → Peers → Sources K → Dict K V → Dict K V
unfolding has_connected_source
visible_rows peers t [] = []
visible_rows peers t ((k, row) ∷ rows) =
    if has_connected_source peers k t
    then (k, row) ∷ visible_rows peers t rows
    else visible_rows peers t rows

unfoldable pub visible_orderbook : Book → Dict OrderKey OrderRow
unfolding visible_rows
visible_orderbook s = visible_rows s.directory_peers s.orderbook_sources s.orderbook

unfoldable pub visible_fidelitybonds : Book → Dict Text Bond
unfolding visible_rows
visible_fidelitybonds s = visible_rows s.directory_peers s.fidelitybond_sources s.fidelitybonds

unfoldable pub refresh_visibility_cache : ℤ → Book → Book
unfolding visible_orderbook visible_fidelitybonds
refresh_visibility_cache now s =
    if s.visibility_cache_dirty
    then record s {
      visible_orderbook_cache = visible_orderbook s;
      visible_fidelitybond_cache = visible_fidelitybonds s;
      visibility_cache_dirty = false;
      visibility_cache_updated_at = some now;
    }
    else s

unfoldable pub get_visible_orderbook_rows : ℤ → Book → Book × Dict OrderKey OrderRow
unfolding refresh_visibility_cache
get_visible_orderbook_rows now s =
    let fresh = refresh_visibility_cache now s in (fresh, fresh.visible_orderbook_cache)

unfoldable pub get_visible_fidelitybond_rows : ℤ → Book → Book × Dict Text Bond
unfolding refresh_visibility_cache
get_visible_fidelitybond_rows now s =
    let fresh = refresh_visibility_cache now s in (fresh, fresh.visible_fidelitybond_cache)

-- `SELECT directory, COUNT(*) ... WHERE active=1`: the active sources of one directory
unfoldable pub active_size : {K : Type 0} → Text → Sources K → ℕ
active_size d [] = 0
active_size d (((k, c), r) ∷ t) =
    if c == d && r.active then suc (active_size d t) else active_size d t

abbrev directories_of : {K : Type 0} → Sources K → List Text
directories_of [] = []
directories_of (((k, d), r) ∷ t) = if r.active then d ∷ directories_of t else directories_of t

-- `get_directory_runtime_liquidity`: the sizes of the connected directories, or, if none is given, of
-- those with an active source.
unfoldable pub get_directory_runtime_liquidity : List Text → Book → List Liquidity
unfolding active_size
get_directory_runtime_liquidity connected_directories s =
    let named = dedup connected_directories in
    let found =
      dedup (directories_of s.orderbook_sources ++ directories_of s.fidelitybond_sources) in
    map
      (λ d. record {
        directory = d;
        orderbook_size = active_size d s.orderbook_sources;
        fidelitybond_size = active_size d s.fidelitybond_sources;
      })
      (elim named [ [] ↦ found | d ∷ ds ↦ d ∷ ds ])
