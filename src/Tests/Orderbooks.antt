-- ===== src/Tests/Orderbooks.antt =====
-- Runs of the book of offers, and its theorems at concrete inputs.
use joinmarket_clientserver.Orderbook.Prune.{prune_order}
use joinmarket_clientserver.Orderbook.Prune.{to_prune}
use joinmarket_clientserver.Orderbook.Prune.{prune_orphan_order_sources}
use joinmarket_clientserver.Orderbook.Prune.{delete_orphans}
use joinmarket_clientserver.Orderbook.Visible.{refresh_visibility_cache}
use joinmarket_clientserver.Orderbook.Visible.{visible_rows}
use joinmarket_clientserver.Orderbook.Visible.{has_connected_source}
use joinmarket_clientserver.Orderbook.Sources.{
  has_any_source, has_active_source, exists_where, delete_where, upsert_source,
  refresh_active_sources, refresh_directories, active_directories, deactivate_source, update_where,
}
use joinmarket_clientserver.Orderbook.Peers.{
  record_directory_response, set_directory_peer_fields, ensure_directory_peer,
  get_or_create_refresh_id,
}
use native.Mathlib.Decide.{ℕ_discrete}
use joinmarket_clientserver.Offers.Fees.{is_absolute}
use joinmarket_clientserver.Orderbook.Bounds.{run-orderbook-IsValid}
use joinmarket_clientserver.Prelude.Dict.{lookup, erase, insert, update}
use joinmarket_clientserver.Orderbook.Exact.{get_visible_orderbook_rows-exact}
use joinmarket_clientserver.Orderbook.Visible.{
  get_visible_fidelitybond_rows, get_visible_orderbook_rows, visible_fidelitybonds,
  visible_orderbook,
}
use joinmarket_clientserver.Orderbook.Announce.{on_order_seen-visible}
use joinmarket_clientserver.Orderbook.Leave.{announced_elsewhere, on_nick_leave-gone}
use joinmarket_clientserver.Prelude.Text.{Text, codes, is_empty, text_discrete, text_eq}
use joinmarket_clientserver.Orderbook.Events.{
  SeenOrder, checked_order, on_nick_leave, on_order_seen, stored_fee, seen_with_oid, settle_order,
  drop_order, store_order,
}
use joinmarket_clientserver.Orderbook.State.{OrderRow, Settings, empty_book, integer}
use joinmarket_clientserver.Prelude.{
  List, [], false, inl, length, negsuc, none, pos, refl, some, true, ℕ, ◌∷◌, ◌≡◌, pair_eq, ℕ_eq,
  pair_dec, ◌-ℤ◌,
}
use joinmarket_clientserver.Orderbook.Invariant.{IsValid}
use joinmarket_clientserver.Orderbook.History.{Event, nick_leave, order_seen, rows_read, run, apply}

abbrev settings : Settings
settings = record {
  grace_seconds = negsuc 0;
  retention_seconds = pos 0;
  dust_threshold = pos 27300;
}

abbrev refresh_ids : Text → Text
refresh_ids d = d

abbrev dn : Text
dn = codes "dn1"

abbrev maker : Text
maker = codes "J5maker"

abbrev offer_of : ℕ → ℕ → SeenOrder
offer_of minsize maxsize = record {
  counterparty = maker;
  oid = some (pos 0);
  ordertype = codes "sw0absoffer";
  minsize = some (pos minsize);
  maxsize = some (pos maxsize);
  txfee = some (pos 0);
  fee_as_int = some (pos 250);
  fee_as_decimal = some (codes "250");
}

-- Seen through a directory, read, and then broken and repeated without a directory.
abbrev ghost_history : List Event
ghost_history =
    order_seen refresh_ids (offer_of 30000 90000) dn (pos 10)
    ∷ rows_read (pos 11)
    ∷ order_seen refresh_ids (offer_of 90000 30000) [] (pos 12)
    ∷ []

-- The offer is gone from the table, and still in the rows that a reader gets.
ghost_test :
    (length (visible_orderbook (run settings ghost_history empty_book)) ≡ 0)
    × (length (get_visible_orderbook_rows (pos 13) (run settings ghost_history empty_book)).1 ≡ 1)
unfolding run apply on_order_seen seen_with_oid settle_order drop_order store_order checked_order
    stored_fee is_absolute record_directory_response set_directory_peer_fields ensure_directory_peer
    upsert_source refresh_active_sources refresh_directories active_directories
    get_or_create_refresh_id deactivate_source update_where prune_order to_prune has_any_source
    has_active_source exists_where prune_orphan_order_sources delete_orphans delete_where
    get_visible_orderbook_rows refresh_visibility_cache visible_orderbook visible_fidelitybonds
    visible_rows has_connected_source lookup insert update erase pair_dec text_discrete ℕ_discrete
    ◌-ℤ◌
ghost_test = (refl, refl)

empty_book-IsValid : IsValid settings.dust_threshold empty_book
empty_book-IsValid = record {
  orders = (tt, tt, tt);
  bonds = tt;
  order_sources = (tt, tt);
  bond_sources = (tt, tt);
}

run-orderbook-IsValid_example :
    IsValid settings.dust_threshold (run settings ghost_history empty_book)
run-orderbook-IsValid_example =
    run-orderbook-IsValid settings ghost_history empty_book empty_book-IsValid

abbrev good_history : List Event
good_history =
    order_seen refresh_ids (offer_of 30000 90000) dn (pos 10)
    ∷ rows_read (pos 11)
    ∷ nick_leave maker dn (pos 12)
    ∷ []

get_visible_orderbook_rows-exact_example :
    ((get_visible_orderbook_rows (pos 13) (run settings good_history empty_book)).1
      ≡ visible_orderbook (run settings good_history empty_book))
    × ((get_visible_fidelitybond_rows (pos 13) (run settings good_history empty_book)).1
        ≡ visible_fidelitybonds (run settings good_history empty_book))
get_visible_orderbook_rows-exact_example =
    get_visible_orderbook_rows-exact settings good_history (pos 13) (inl refl, (tt, (tt, tt)))

abbrev stored_row : OrderRow
stored_row = record {
  ordertype = codes "sw0absoffer";
  minsize = pos 30000;
  maxsize = pos 90000;
  txfee = pos 0;
  cjfee = integer (pos 250);
}

on_order_seen-visible_example :
    lookup
      (maker, 0)
      (visible_orderbook
        (on_order_seen settings refresh_ids (offer_of 30000 90000) dn (pos 10) empty_book).0)
    ≡ some stored_row
unfolding checked_order stored_fee is_absolute text_discrete
on_order_seen-visible_example =
    on_order_seen-visible settings refresh_ids (offer_of 30000 90000) dn (pos 10) empty_book 0
      stored_row refl refl refl

on_nick_leave-gone_example :
    ((row : OrderRow)
      → is_empty dn ≡ false
      → lookup
          (maker, 0)
          (visible_orderbook (
            on_nick_leave settings maker dn
              (pos 12)
              (on_order_seen settings refresh_ids (offer_of 30000 90000) dn (pos 10) empty_book).0))
        ≡ some row
      → announced_elsewhere maker 0 dn
          (on_order_seen settings refresh_ids (offer_of 30000 90000) dn (pos 10) empty_book).0
        ≡ true)
    × (lookup
          (maker, 0)
          (visible_orderbook (
            on_nick_leave settings maker []
              (pos 12)
              (on_order_seen settings refresh_ids (offer_of 30000 90000) dn (pos 10) empty_book).0))
        ≡ none)
on_nick_leave-gone_example =
    on_nick_leave-gone settings maker 0 dn (pos 12)
      (on_order_seen settings refresh_ids (offer_of 30000 90000) dn (pos 10) empty_book).0
