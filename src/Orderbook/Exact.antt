-- ===== src/Orderbook/Exact.antt =====
-- Readers of the book see what the views show, whatever happened before.
use joinmarket_clientserver.Prelude.Dict.{update}
use mathlib.Core.Path.{subst}
use joinmarket_clientserver.Orderbook.Events.{
  on_disconnect, on_fidelity_bond_seen, on_nick_leave, on_order_cancel, on_order_seen, valid_oid,
}
use joinmarket_clientserver.Orderbook.Visible.{
  get_visible_fidelitybond_rows, get_visible_orderbook_rows, refresh_visibility_cache,
  visible_fidelitybonds, visible_orderbook,
}
use joinmarket_clientserver.Orderbook.Peers.{
  ensure_directory_peer, on_message_seen, pubmsg_has_orderbook_request, record_directory_connected,
  record_directory_disconnected, record_directory_message, record_orderbook_request,
  record_successful_refresh, set_directory_peer_fields, with_connect, with_message, with_disconnect,
  with_request, with_count, with_refresh,
}
use joinmarket_clientserver.Orderbook.Sources.{deactivate_source}
use joinmarket_clientserver.Orderbook.Prune.{
  any_stale, deactivate_stale, prune_sources, prune_stale_sources,
}
use joinmarket_clientserver.Prelude.Text.{Text, is_empty, text_eq}
use joinmarket_clientserver.Orderbook.Cache.{
  IsExact, deactivate_stale_none, status_of-ensure, update-SameConnections,
}
use joinmarket_clientserver.Orderbook.CacheSteps.{
  PassesChecks, order_seen-IsExact, peers-IsExact, prune_sources-IsExact, set_fields-IsExact,
}
use joinmarket_clientserver.Orderbook.History.{
  Event, all_disconnected, apply, bond_seen, directory_connected, directory_disconnected,
  message_seen, nick_leave, order_cancel, order_seen, orderbook_request, pruned, pruned_stale,
  rows_read, run, successful_refresh,
}
use joinmarket_clientserver.Orderbook.State.{Settings, empty_book, Book}
use joinmarket_clientserver.Prelude.{
  All, Bool, Bool-cases, List, [], arith, false, if◌then◌else◌, inl, inr, none, refl, some, sym,
  true, ℕ, ℤ, ◌&&◌, ◌||◌, ◌∷◌, ◌≡◌, pair_eq, ℕ_eq,
}

stale-IsExact :
    (st : Settings) (offer_ttl bond_ttl now : ℤ) (s : Book)
    → IsExact s
    → IsExact (prune_stale_sources st offer_ttl bond_ttl now s)
unfolding prune_stale_sources visible_orderbook visible_fidelitybonds
stale-IsExact st offer_ttl bond_ttl now s v =
    elim (Bool-cases (
      any_stale now offer_ttl s.orderbook_sources
      || any_stale now bond_ttl s.fidelitybond_sources)) [
        | inl dirty ↦ inl (ground (arith, dirty))
        | inr clean ↦
            (let same : Book = record s {
              orderbook_sources = deactivate_stale now offer_ttl s.orderbook_sources;
              fidelitybond_sources = deactivate_stale now bond_ttl s.fidelitybond_sources;
            } in
              let e : (same ≡ s) = λ i. record s {
                orderbook_sources =
                    deactivate_stale_none now offer_ttl s.orderbook_sources (ground (arith, clean))
                      i;
                fidelitybond_sources =
                    deactivate_stale_none now bond_ttl s.fidelitybond_sources
                      (ground (arith, clean)) i;
              } in
              let u : IsExact (prune_sources now st.grace_seconds st.retention_seconds same) =
                prune_sources-IsExact now st.grace_seconds st.retention_seconds same
                  (subst IsExact (sym e) v) in
              kept (prune_sources now st.grace_seconds st.retention_seconds same)
                (any_stale now offer_ttl s.orderbook_sources
                  || any_stale now bond_ttl s.fidelitybond_sources)
                clean u)
      ]
  where
    kept :
        (t : Book) (b : Bool)
        → b ≡ false
        → IsExact t
        → IsExact (record t { visibility_cache_dirty = t.visibility_cache_dirty || b })
    kept t true h w = absurd (cc)
    kept t false h (inl q) = inl (ground arith)
    kept t false h (inr m) = inr (record { offers = m.offers; bonds = m.bonds })

message-IsExact :
    (is_pubmsg : Bool) (message d : Text) (now : ℤ) (s : Book)
    → IsExact s
    → IsExact (record_directory_message d is_pubmsg message now s)
unfolding record_directory_message
message-IsExact is_pubmsg message d now s v =
    let request : Bool = is_pubmsg && pubmsg_has_orderbook_request message in
    let seen : Book = set_directory_peer_fields d (with_message is_pubmsg request now) s in
    peers-IsExact (update d (with_count request) seen.directory_peers) seen
      (update-SameConnections d (with_count request) seen.directory_peers (λ p. refl))
      (set_fields-IsExact d (with_message is_pubmsg request now) s v)

if_IsExact : (b : Bool) (s t : Book) → IsExact s → IsExact t → IsExact (if b then s else t)
if_IsExact true s t v w = v
if_IsExact false s t v w = w

bond_seen-IsExact :
    (sane : Text → Bool) (ids : Text → Text) (taker nick proof d : Text) (now : ℤ) (s : Book)
    → IsExact s
    → IsExact (on_fidelity_bond_seen sane ids taker nick proof d now s).0
unfolding on_fidelity_bond_seen
bond_seen-IsExact sane ids taker nick proof d now s v = elim (Bool-cases (sane proof)) [
  | inl q ↦ inl (ground (arith, q))
  | inr q ↦ rw q v
]

connected-IsExact :
    (d : Text) (now : ℤ) (s : Book) → IsExact s → IsExact (record_directory_connected d now s)
unfolding record_directory_connected
connected-IsExact d now s v =
    set_fields-IsExact d (with_connect now)
      (record s { directory_peers = ensure_directory_peer d s.directory_peers })
      (peers-IsExact (ensure_directory_peer d s.directory_peers) s
        (λ c. sym (status_of-ensure d c s.directory_peers)) v)

cancel-IsExact :
    (st : Settings) (maker : Text) (oid : ℕ) (d : Text) (now : ℤ) (s : Book)
    → IsExact (on_order_cancel st maker oid d now s)
unfolding on_order_cancel
cancel-IsExact st maker oid d now s = elim (Bool-cases (is_empty d)) [
  | inl q ↦ inl (ground (arith, q))
  | inr q ↦ rw q (
      prune_sources-IsExact now st.grace_seconds st.retention_seconds
        (record s {
          orderbook_sources = deactivate_source (maker, oid) d now s.orderbook_sources;
          visibility_cache_dirty = true;
        })
        (inl refl))
]

refresh-IsExact : (now : ℤ) (s : Book) → IsExact s → IsExact (refresh_visibility_cache now s)
unfolding refresh_visibility_cache visible_orderbook visible_fidelitybonds
refresh-IsExact now s v =
    go s.visibility_cache_dirty (λ q. inr (record { offers = refl; bonds = refl })) v
  where
    fresh : Book
    fresh = record s {
      visible_orderbook_cache = visible_orderbook s;
      visible_fidelitybond_cache = visible_fidelitybonds s;
      visibility_cache_dirty = false;
      visibility_cache_updated_at = some now;
    }

    go : (b : Bool) → (b ≡ true → IsExact fresh) → IsExact s → IsExact (if b then fresh else s)
    go true f w = f refl
    go false f w = w

pub apply-IsExact :
    (st : Settings) (event : Event) (s : Book)
    → PassesChecks st event
    → IsExact s
    → IsExact (apply st event s)
unfolding apply record_directory_disconnected record_orderbook_request record_successful_refresh
    on_disconnect on_message_seen on_order_seen
apply-IsExact st (order_seen ids o d now) s p v =
    order_seen-IsExact st ids o d now (valid_oid o.oid) s p v
apply-IsExact st (order_cancel maker oid d now) s p v = cancel-IsExact st maker oid d now s
apply-IsExact st (bond_seen sane ids taker nick proof d now) s p v =
    bond_seen-IsExact sane ids taker nick proof d now s v
apply-IsExact st (nick_leave nick d now) s p v = inl (unfold on_nick_leave in ground arith)
apply-IsExact st all_disconnected s p v = inl refl
apply-IsExact st (directory_connected d now) s p v = connected-IsExact d now s v
apply-IsExact st (directory_disconnected d now) s p v =
    set_fields-IsExact d (with_disconnect now) s v
apply-IsExact st (orderbook_request d refresh_id now) s p v =
    set_fields-IsExact d (with_request refresh_id now) s v
apply-IsExact st (successful_refresh d refresh_id now) s p v =
    set_fields-IsExact d (with_refresh refresh_id now) s v
apply-IsExact st (message_seen is_pubmsg message none now) s p v = v
apply-IsExact st (message_seen is_pubmsg message (some d) now) s p v =
    if_IsExact (is_empty d) s (record_directory_message d is_pubmsg message now s) v
      (message-IsExact is_pubmsg message d now s v)
apply-IsExact st (pruned now grace retention) s p v = prune_sources-IsExact now grace retention s v
apply-IsExact st (pruned_stale offer_ttl bond_ttl now) s p v =
    stale-IsExact st offer_ttl bond_ttl now s v
apply-IsExact st (rows_read now) s p v = refresh-IsExact now s v

run-IsExact :
    (st : Settings) (events : List Event) (s : Book)
    → All (PassesChecks st) events
    → IsExact s
    → IsExact (run st events s)
unfolding run
run-IsExact st [] s p v = v
run-IsExact st (event ∷ events) s p v =
    run-IsExact st events (apply st event s) p.1 (apply-IsExact st event s p.0 v)

-- After any history of a new book in which the offers without a directory pass the checks, the rows
-- that a reader gets, of offers and of bonds, are those of the views.
pub get_visible_orderbook_rows-exact :
    (st : Settings) (events : List Event) (now : ℤ)
    → All (PassesChecks st) events
    → ((get_visible_orderbook_rows now (run st events empty_book)).1
        ≡ visible_orderbook (run st events empty_book))
      × ((get_visible_fidelitybond_rows now (run st events empty_book)).1
          ≡ visible_fidelitybonds (run st events empty_book))
unfolding get_visible_orderbook_rows get_visible_fidelitybond_rows refresh_visibility_cache
get_visible_orderbook_rows-exact st events now p =
    read (run st events empty_book) (run-IsExact st events empty_book p (inl refl))
  where
    read :
        (s : Book)
        → IsExact s
        → ((get_visible_orderbook_rows now s).1 ≡ visible_orderbook s)
          × ((get_visible_fidelitybond_rows now s).1 ≡ visible_fidelitybonds s)
    read s (inl q) = ground (arith, q)
    read s (inr m) = ground (arith, m.offers, m.bonds)
