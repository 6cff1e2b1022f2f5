-- ===== src/Orderbook/Events.antt =====
-- What the message channels tell the book: offers, cancellations, bonds, departures and
-- disconnections; the `on_...` methods of `OrderbookWatch`.
use mathlib.Core.Option
use joinmarket_clientserver.Offers.Fees.{is_absolute}
use joinmarket_clientserver.Orderbook.Peers.{record_directory_response}
use joinmarket_clientserver.Orderbook.Prune.{prune_order, prune_orphan_order_sources, prune_sources}
use joinmarket_clientserver.Orderbook.Sources.{
  deactivate_source, deactivated, delete_where, update_where, upsert_source,
}
use joinmarket_clientserver.Prelude.Text.{Text, is_empty, text_eq}
use joinmarket_clientserver.Prelude.Dict.{Dict, erase, insert}
use joinmarket_clientserver.Prelude.{
  Bool, Option, [], false, if◌then◌else◌, ltb_ℤ, negsuc, none, not, pos, some, true, ℕ, ℤ, ◌&&◌,
  ◌==◌, ◌∷◌, pair_eq, ℕ_eq,
}
use joinmarket_clientserver.Orderbook.State.{
  Book, Fee, OrderRow, Settings, decimal, integer, mark_dirty, OrderKey,
}

-- An offer as it arrives. A number is what Python's `int` makes of the field, none if it raises; the
-- table gets the field itself, which its INTEGER column turns into that number if it is a plain
-- numeral (not so `1_000`, which `int` reads and SQLite keeps as a text: left out); the fee is what `int` makes of it, and the text that `str(Decimal(...))` makes of it.
pub record SeenOrder : Type 0 where
  pub counterparty : Text
  pub oid : Option ℤ
  pub ordertype : Text
  pub minsize : Option ℤ
  pub maxsize : Option ℤ
  pub txfee : Option ℤ
  pub fee_as_int : Option ℤ
  pub fee_as_decimal : Option Text

-- `sys.maxsize`, and 21 million bitcoins in satoshis
abbrev pub max_oid : ℤ
max_oid = pos 9_223_372_036_854_775_807

abbrev pub max_amount : ℤ
max_amount = pos 2_100_000_000_000_000

-- The key of the offer; none if its `oid` is refused.
abbrev pub valid_oid : Option ℤ → Option ℕ
valid_oid none = none
valid_oid (some (negsuc n)) = none
valid_oid (some (pos n)) = if ltb_ℤ max_oid (pos n) then none else some n

abbrev pub in_range : ℤ → ℤ → ℤ → Bool
in_range low high x = not (ltb_ℤ x low) && not (ltb_ℤ high x)

-- `cjfee`, as it is stored; none if it is refused.
unfoldable pub stored_fee : SeenOrder → Option Fee
unfolding is_absolute
stored_fee o =
    if is_absolute o.ordertype
    then Option.map integer o.fee_as_int
    else Option.map decimal o.fee_as_decimal

-- The smaller size is raised to the dust threshold.
abbrev capped : ℤ → ℤ → ℤ
capped dust_threshold minsize = if ltb_ℤ minsize dust_threshold then dust_threshold else minsize

abbrev pub checked_row : Settings → SeenOrder → ℤ → ℤ → ℤ → Option OrderRow
checked_row st o minsize maxsize txfee =
    if in_range (pos 0) max_amount minsize
      && in_range (pos 0) max_amount maxsize
      && not (ltb_ℤ txfee (pos 0))
      && not (ltb_ℤ maxsize (capped st.dust_threshold minsize))
    then Option.map
        (λ cjfee. record {
          ordertype = o.ordertype;
          minsize = capped st.dust_threshold minsize;
          maxsize = maxsize;
          txfee = txfee;
          cjfee = cjfee;
        })
        (stored_fee o)
    else none

-- The checks of `on_order_seen` behind that of the `oid`, in their order: the row that is stored.
unfoldable pub checked_order : Settings → SeenOrder → Option OrderRow
unfolding stored_fee
checked_order st o = elim o.minsize [
  | none ↦ none
  | some minsize ↦ elim o.maxsize [
    | none ↦ none
    | some maxsize ↦ elim o.txfee [
      | none ↦ none
      | some txfee ↦ checked_row st o minsize maxsize txfee
    ]
  ]
]

-- An earlier offer of that key is taken out before the checks.
unfoldable pub drop_order : Settings → OrderKey → Text → ℤ → Book → Book
unfolding deactivate_source prune_order prune_orphan_order_sources
drop_order st k directory now s =
    if is_empty directory
    then record s { orderbook = erase k s.orderbook }
    else prune_orphan_order_sources now st.retention_seconds (
        prune_order k now st.grace_seconds (record s {
          orderbook_sources = deactivate_source k directory now s.orderbook_sources;
          visibility_cache_dirty = true;
        }))

unfoldable pub store_order : (Text → Text) → OrderKey → Text → ℤ → OrderRow → Book → Book
unfolding record_directory_response upsert_source
store_order ids k directory now row s =
    if is_empty directory
    then record s { orderbook = insert k row s.orderbook; visibility_cache_dirty = true }
    else (let told = record_directory_response directory now s in
        let up = upsert_source ids k directory now told.directory_peers told.orderbook_sources in
        record told {
          directory_peers = up.0;
          orderbook_sources = up.1;
          orderbook = insert k row told.orderbook;
          visibility_cache_dirty = true;
        })

-- What the checks came to: the earlier offer is gone already, and the row is stored if there is one.
unfoldable pub settle_order :
    (Text → Text) → OrderKey → Text → ℤ → Option OrderRow → Book → Book × Bool
unfolding store_order
settle_order ids k directory now none s = (s, false)
settle_order ids k directory now (some row) s =
    (store_order ids k directory now row s, not (is_empty directory))

unfoldable pub seen_with_oid :
    Settings → (Text → Text) → SeenOrder → Text → ℤ → Option ℕ → Book → Book × Bool
unfolding drop_order checked_order settle_order
seen_with_oid st ids o directory now none s = (s, false)
seen_with_oid st ids o directory now (some oid) s =
    let k : OrderKey = (o.counterparty, oid) in
    settle_order ids k directory now (checked_order st o) (drop_order st k directory now s)

-- `on_order_seen`, with the empty text for no directory. The second component tells whether
-- `on_valid_orderbook_response` is called for the directory.
unfoldable pub on_order_seen : Settings → (Text → Text) → SeenOrder → Text → ℤ → Book → Book × Bool
unfolding seen_with_oid
on_order_seen st ids o directory now s = seen_with_oid st ids o directory now (valid_oid o.oid) s

unfoldable pub on_order_cancel : Settings → Text → ℕ → Text → ℤ → Book → Book
unfolding deactivate_source prune_sources delete_where
on_order_cancel st counterparty oid directory now s =
    let k : OrderKey = (counterparty, oid) in
    if is_empty directory
    then record s {
      orderbook_sources = delete_where (λ j d r. j == k) s.orderbook_sources;
      orderbook = erase k s.orderbook;
      visibility_cache_dirty = true;
    }
    else prune_sources now st.grace_seconds st.retention_seconds (record s {
      orderbook_sources = deactivate_source k directory now s.orderbook_sources;
      visibility_cache_dirty = true;
    })

-- `on_fidelity_bond_seen`; `sane` is what `fidelity_bond_sanity_check` says of the proof.
unfoldable pub on_fidelity_bond_seen :
    (Text → Bool) → (Text → Text) → Text → Text → Text → Text → ℤ → Book → Book × Bool
unfolding record_directory_response upsert_source
on_fidelity_bond_seen sane ids taker_nick nick proof directory now s =
    if not (sane proof)
    then (s, false)
    else if is_empty directory
    then (
      record s {
        fidelitybonds =
            insert nick (record { takernick = taker_nick; proof = proof }) s.fidelitybonds;
        visibility_cache_dirty = true;
      },
      false,
    )
    else (let told = record_directory_response directory now s in
        let up =
          upsert_source ids nick directory now told.directory_peers told.fidelitybond_sources in
        (
          record told {
            directory_peers = up.0;
            fidelitybond_sources = up.1;
            fidelitybonds =
                insert nick (record { takernick = taker_nick; proof = proof }) told.fidelitybonds;
            visibility_cache_dirty = true;
          },
          true,
        ))

-- `DELETE FROM orderbook WHERE counterparty=?`
unfoldable pub erase_maker : Text → Dict OrderKey OrderRow → Dict OrderKey OrderRow
erase_maker nick [] = []
erase_maker nick (((maker, oid), row) ∷ t) =
    if maker == nick then erase_maker nick t else ((maker, oid), row) ∷ erase_maker nick t

unfoldable pub on_nick_leave : Settings → Text → Text → ℤ → Book → Book
unfolding update_where delete_where prune_sources erase_maker
on_nick_leave st nick directory now s =
    if is_empty directory
    then record s {
      orderbook_sources = delete_where (λ j d r. j.0 == nick) s.orderbook_sources;
      fidelitybond_sources = delete_where (λ j d r. j == nick) s.fidelitybond_sources;
      orderbook = erase_maker nick s.orderbook;
      fidelitybonds = erase nick s.fidelitybonds;
      visibility_cache_dirty = true;
    }
    else mark_dirty (
        prune_sources now st.grace_seconds st.retention_seconds (record s {
          orderbook_sources =
              update_where (λ j d r. j.0 == nick && d == directory && r.active) (deactivated now)
                s.orderbook_sources;
          fidelitybond_sources =
              update_where (λ j d r. j == nick && d == directory && r.active) (deactivated now)
                s.fidelitybond_sources;
        }))

unfoldable pub on_disconnect : Book → Book
on_disconnect s = record s {
  orderbook = [];
  fidelitybonds = [];
  orderbook_sources = [];
  fidelitybond_sources = [];
  visibility_cache_dirty = true;
}
