-- ===== src/Orderbook/Steps.antt =====
-- The invariant of the book is kept by each event, and by the steps that an event is made of.
use joinmarket_clientserver.Orderbook.Visible.{refresh_visibility_cache}
use joinmarket_clientserver.Prelude.Dict.{erase-Distinct, insert-Distinct}
use joinmarket_clientserver.Orderbook.Peers.{
  record_directory_response, set_directory_peer_fields, on_message_seen, record_directory_message,
  pubmsg_has_orderbook_request, record_directory_connected, ensure_directory_peer, with_message,
  with_response, with_connect,
}
use joinmarket_clientserver.Orderbook.Prune.{
  prune_order, prune_stale_sources, deactivate_stale, prune_sources,
}
use joinmarket_clientserver.Orderbook.Sources.{deactivate_source, update_where, deactivated}
use joinmarket_clientserver.Prelude.Text.{Text, is_empty, text_eq}
use joinmarket_clientserver.Orderbook.Events.{
  drop_order, store_order, on_nick_leave, on_fidelity_bond_seen, on_order_cancel,
}
use joinmarket_clientserver.Orderbook.Invariant.{
  IsValid, RowIsValid, deactivate_source-Valid, upsert_source-Valid, delete_where-Valid,
  deactivate_stale-Valid, update_where-Valid,
}
use joinmarket_clientserver.Orderbook.History.{
  FitsKey, erase-Valid, insert-Valid, prune_order-IsValid, prune_orphan_order_sources-IsValid,
  prune_sources-IsValid, erase_maker-Valid,
}
use joinmarket_clientserver.Orderbook.State.{
  DirectoryPeer, OrderKey, OrderRow, Settings, Book, Bond,
}
use joinmarket_clientserver.Prelude.{
  Bool-cases, Option, arith, inl, inr, none, some, true, ℕ, ℤ, pair_eq, ℕ_eq, Bool, false,
  if◌then◌else◌, not, ◌&&◌, ◌==◌,
}

module _ (dust : ℤ) where
  -- the directories' rows are no part of the invariant
  pub set_fields-IsValid :
      (d : Text) (f : DirectoryPeer → DirectoryPeer) (s : Book)
      → IsValid dust s
      → IsValid dust (set_directory_peer_fields d f s)
  unfolding set_directory_peer_fields
  set_fields-IsValid d f s v = elim (Bool-cases (is_empty d)) [
    | inl q ↦ rw q v
    | inr q ↦ rw q (record {
      orders = v.orders;
      bonds = v.bonds;
      order_sources = v.order_sources;
      bond_sources = v.bond_sources;
    })
  ]

  if_IsValid :
      (b : Bool) {s t : Book} → IsValid dust s → IsValid dust t → IsValid dust (if b then s else t)
  if_IsValid true v w = v
  if_IsValid false v w = w

  pub response-IsValid :
      (d : Text) (now : ℤ) (s : Book)
      → IsValid dust s
      → IsValid dust (record_directory_response d now s)
  unfolding record_directory_response
  response-IsValid d now s v = set_fields-IsValid d (with_response now) s v

  pub drop_order-IsValid :
      (st : Settings) (k : OrderKey) (d : Text) (now : ℤ) (s : Book)
      → IsValid dust s
      → IsValid dust (drop_order st k d now s)
  unfolding drop_order
  drop_order-IsValid st k d now s v =
      let deactivated_book : Book = record s {
        orderbook_sources = deactivate_source k d now s.orderbook_sources;
        visibility_cache_dirty = true;
      } in
      elim (Bool-cases (is_empty d)) [
        | inl q ↦ rw q (record {
          orders = erase-Valid dust k s.orderbook v.orders;
          bonds = v.bonds;
          order_sources = v.order_sources;
          bond_sources = v.bond_sources;
        })
        | inr q ↦ rw q (
            prune_orphan_order_sources-IsValid dust now st.retention_seconds
              (prune_order k now st.grace_seconds deactivated_book)
              (prune_order-IsValid dust k now st.grace_seconds deactivated_book (record {
                orders = v.orders;
                bonds = v.bonds;
                order_sources = deactivate_source-Valid k d now s.orderbook_sources v.order_sources;
                bond_sources = v.bond_sources;
              })))
      ]

  pub store_order-IsValid :
      (ids : Text → Text) (k : OrderKey) (d : Text) (now : ℤ) (row : OrderRow) (s : Book)
      → FitsKey k
      → RowIsValid dust row
      → IsValid dust s
      → IsValid dust (store_order ids k d now row s)
  unfolding store_order
  store_order-IsValid ids k d now row s f r v =
      let told : Book = record_directory_response d now s in
      let w : IsValid dust told = response-IsValid d now s v in
      if_IsValid (is_empty d)
        (record {
          orders = insert-Valid dust k row s.orderbook f r v.orders;
          bonds = v.bonds;
          order_sources = v.order_sources;
          bond_sources = v.bond_sources;
        })
        (record {
          orders = insert-Valid dust k row told.orderbook f r w.orders;
          bonds = w.bonds;
          order_sources =
              upsert_source-Valid ids k d now told.directory_peers told.orderbook_sources
                w.order_sources;
          bond_sources = w.bond_sources;
        })

  if_told :
      (b : Bool) (x y : Book × Bool)
      → IsValid dust x.0
      → IsValid dust y.0
      → IsValid dust (if b then x else y).0
  if_told true x y v w = v
  if_told false x y v w = w

  pub bond_seen-IsValid :
      (sane : Text → Bool) (ids : Text → Text) (taker nick proof d : Text) (now : ℤ) (s : Book)
      → IsValid dust s
      → IsValid dust (on_fidelity_bond_seen sane ids taker nick proof d now s).0
  unfolding on_fidelity_bond_seen
  bond_seen-IsValid sane ids taker nick proof d now s v =
      let told : Book = record_directory_response d now s in
      let w : IsValid dust told = response-IsValid d now s v in
      let bond : Bond = record { takernick = taker; proof = proof } in
      if_told (not (sane proof)) _ _ v (
        if_told (is_empty d) _ _
          (record {
            orders = v.orders;
            bonds = insert-Distinct nick bond s.fidelitybonds v.bonds;
            order_sources = v.order_sources;
            bond_sources = v.bond_sources;
          })
          (record {
            orders = w.orders;
            bonds = insert-Distinct nick bond told.fidelitybonds w.bonds;
            order_sources = w.order_sources;
            bond_sources =
                upsert_source-Valid ids nick d now told.directory_peers told.fidelitybond_sources
                  w.bond_sources;
          }))

  pub order_cancel-IsValid :
      (st : Settings) (maker : Text) (oid : ℕ) (d : Text) (now : ℤ) (s : Book)
      → IsValid dust s
      → IsValid dust (on_order_cancel st maker oid d now s)
  unfolding on_order_cancel
  order_cancel-IsValid st maker oid d now s v =
      if_IsValid (is_empty d)
        (record {
          orders = erase-Valid dust (maker, oid) s.orderbook v.orders;
          bonds = v.bonds;
          order_sources =
              delete_where-Valid (λ j c r. j == (maker, oid)) s.orderbook_sources v.order_sources;
          bond_sources = v.bond_sources;
        })
        (prune_sources-IsValid dust now st.grace_seconds st.retention_seconds
          (record s {
            orderbook_sources = deactivate_source (maker, oid) d now s.orderbook_sources;
            visibility_cache_dirty = true;
          })
          (record {
            orders = v.orders;
            bonds = v.bonds;
            order_sources =
                deactivate_source-Valid (maker, oid) d now s.orderbook_sources v.order_sources;
            bond_sources = v.bond_sources;
          }))

  pub nick_leave-IsValid :
      (st : Settings) (nick d : Text) (now : ℤ) (s : Book)
      → IsValid dust s
      → IsValid dust (on_nick_leave st nick d now s)
  unfolding on_nick_leave
  nick_leave-IsValid st nick d now s v =
      let left : Book = record s {
        orderbook_sources =
            update_where (λ j c r. j.0 == nick && c == d && r.active) (deactivated now)
              s.orderbook_sources;
        fidelitybond_sources =
            update_where (λ j c r. j == nick && c == d && r.active) (deactivated now)
              s.fidelitybond_sources;
      } in
      let w : IsValid dust left = record {
        orders = v.orders;
        bonds = v.bonds;
        order_sources =
            update_where-Valid (λ j c r. j.0 == nick && c == d && r.active) (deactivated now)
              s.orderbook_sources (λ j c r p h. ground arith) v.order_sources;
        bond_sources =
            update_where-Valid (λ j c r. j == nick && c == d && r.active) (deactivated now)
              s.fidelitybond_sources (λ j c r p h. ground arith) v.bond_sources;
      } in
      let pruned_book : Book = prune_sources now st.grace_seconds st.retention_seconds left in
      let u : IsValid dust pruned_book =
        prune_sources-IsValid dust now st.grace_seconds st.retention_seconds left w in
      if_IsValid (is_empty d)
        (record {
          orders = erase_maker-Valid dust nick s.orderbook v.orders;
          bonds = erase-Distinct nick s.fidelitybonds v.bonds;
          order_sources =
              delete_where-Valid (λ j c r. j.0 == nick) s.orderbook_sources v.order_sources;
          bond_sources =
              delete_where-Valid (λ j c r. j == nick) s.fidelitybond_sources v.bond_sources;
        })
        (record {
          orders = u.orders;
          bonds = u.bonds;
          order_sources = u.order_sources;
          bond_sources = u.bond_sources;
        })

  pub stale-IsValid :
      (st : Settings) (offer_ttl bond_ttl now : ℤ) (s : Book)
      → IsValid dust s
      → IsValid dust (prune_stale_sources st offer_ttl bond_ttl now s)
  unfolding prune_stale_sources
  stale-IsValid st offer_ttl bond_ttl now s v =
      let u =
        prune_sources-IsValid dust now st.grace_seconds st.retention_seconds
          (record s {
            orderbook_sources = deactivate_stale now offer_ttl s.orderbook_sources;
            fidelitybond_sources = deactivate_stale now bond_ttl s.fidelitybond_sources;
          })
          (record {
            orders = v.orders;
            bonds = v.bonds;
            order_sources =
                deactivate_stale-Valid now offer_ttl s.orderbook_sources v.order_sources;
            bond_sources =
                deactivate_stale-Valid now bond_ttl s.fidelitybond_sources v.bond_sources;
          }) in
      record {
        orders = u.orders;
        bonds = u.bonds;
        order_sources = u.order_sources;
        bond_sources = u.bond_sources;
      }

  pub message-IsValid :
      (is_pubmsg : Bool) (message d : Text) (now : ℤ) (s : Book)
      → IsValid dust s
      → IsValid dust (record_directory_message d is_pubmsg message now s)
  unfolding record_directory_message
  message-IsValid is_pubmsg message d now s v =
      let request : Bool = is_pubmsg && pubmsg_has_orderbook_request message in
      let w = set_fields-IsValid d (with_message is_pubmsg request now) s v in
      record {
        orders = w.orders;
        bonds = w.bonds;
        order_sources = w.order_sources;
        bond_sources = w.bond_sources;
      }

  pub message_seen-IsValid :
      (is_pubmsg : Bool) (message : Text) (d : Option Text) (now : ℤ) (s : Book)
      → IsValid dust s
      → IsValid dust (on_message_seen is_pubmsg message d now s)
  unfolding on_message_seen
  message_seen-IsValid is_pubmsg message none now s v = v
  message_seen-IsValid is_pubmsg message (some d) now s v =
      if_IsValid (is_empty d) v (message-IsValid is_pubmsg message d now s v)

  pub connected-IsValid :
      (d : Text) (now : ℤ) (s : Book)
      → IsValid dust s
      → IsValid dust (record_directory_connected d now s)
  unfolding record_directory_connected
  connected-IsValid d now s v =
      set_fields-IsValid d (with_connect now)
        (record s { directory_peers = ensure_directory_peer d s.directory_peers })
        (record {
          orders = v.orders;
          bonds = v.bonds;
          order_sources = v.order_sources;
          bond_sources = v.bond_sources;
        })

  pub read-IsValid :
      (now : ℤ) (s : Book) → IsValid dust s → IsValid dust (refresh_visibility_cache now s)
  unfolding refresh_visibility_cache
  read-IsValid now s v =
      if_IsValid s.visibility_cache_dirty
        (record {
          orders = v.orders;
          bonds = v.bonds;
          order_sources = v.order_sources;
          bond_sources = v.bond_sources;
        })
        v
