-- ===== src/Orderbook/State.antt =====
-- The tables of `OrderbookWatch` of jmdaemon/orderbookwatch.py: the offers and fidelity bonds of
-- makers, the directories that announced each, and what is known of the directories. A time is an
-- integer of seconds.
use joinmarket_clientserver.Prelude.Text.{Text}
use joinmarket_clientserver.Prelude.Dict.{Dict}
use joinmarket_clientserver.Prelude.{Bool, Option, [], false, none, true, ℕ, ℤ}

-- `counterparty` and `oid`
abbrev pub OrderKey : Type 0
OrderKey = Text × ℕ

-- `str(Decimal(cjfee))`: of an integer for an absolute offer, and else of the text that was parsed
pub data Fee : Type 0 where
  integer : ℤ → Fee
  decimal : Text → Fee

pub record OrderRow : Type 0 where
  pub ordertype : Text
  pub minsize : ℤ
  pub maxsize : ℤ
  pub txfee : ℤ
  pub cjfee : Fee

pub record Bond : Type 0 where
  pub takernick : Text
  pub proof : Text

-- A row of `orderbook_sources` or `fidelitybond_sources`, without its key. The times of the first
-- and the last sight are never NULL.
pub record Source : Type 0 where
  pub first_seen_at : ℤ
  pub last_seen_at : ℤ
  pub last_refresh_id : Text
  pub active : Bool
  pub inactive_at : Option ℤ

-- The sources of what has the key `k`, by `k` and the directory.
abbrev pub Sources : Type 0 → Type 0
Sources K = Dict (K × Text) Source

pub data Connection : Type 0 where
  unknown : Connection
  connected : Connection
  disconnected : Connection

-- A row of `directory_peers`.
pub record DirectoryPeer : Type 0 where
  pub first_connected_at : Option ℤ
  pub last_connected_at : Option ℤ
  pub last_disconnected_at : Option ℤ
  pub last_seen_at : Option ℤ
  pub last_message_at : Option ℤ
  pub last_pubmsg_at : Option ℤ
  pub last_orderbook_request_seen_at : Option ℤ
  pub last_orderbook_request_at : Option ℤ
  pub last_orderbook_response_at : Option ℤ
  pub last_successful_refresh_at : Option ℤ
  pub last_refresh_id : Option Text
  pub rx_message_count : ℕ
  pub orderbook_request_rx_count : ℕ
  pub last_non_orderbook_message_at : Option ℤ
  pub status : Connection

abbrev pub Peers : Type 0
Peers = Dict Text DirectoryPeer

pub record Book : Type 0 where
  pub orderbook : Dict OrderKey OrderRow
  pub fidelitybonds : Dict Text Bond
  pub orderbook_sources : Sources OrderKey
  pub fidelitybond_sources : Sources Text
  pub directory_peers : Peers
  pub visible_orderbook_cache : Dict OrderKey OrderRow
  pub visible_fidelitybond_cache : Dict Text Bond
  pub visibility_cache_dirty : Bool
  pub visibility_cache_updated_at : Option ℤ

-- `source_inactive_grace_seconds`, `orphan_source_retention_seconds` and `dust_threshold`
pub record Settings : Type 0 where
  pub grace_seconds : ℤ
  pub retention_seconds : ℤ
  pub dust_threshold : ℤ

abbrev pub same_connection : Connection → Connection → Bool
same_connection unknown unknown = true
same_connection connected connected = true
same_connection disconnected disconnected = true
same_connection _ _ = false

abbrev pub is_connected : Connection → Bool
is_connected connected = true
is_connected _ = false

-- `set_msgchan`
abbrev pub empty_book : Book
empty_book = record {
  orderbook = [];
  fidelitybonds = [];
  orderbook_sources = [];
  fidelitybond_sources = [];
  directory_peers = [];
  visible_orderbook_cache = [];
  visible_fidelitybond_cache = [];
  visibility_cache_dirty = true;
  visibility_cache_updated_at = none;
}

abbrev pub mark_dirty : Book → Book
mark_dirty s = record s { visibility_cache_dirty = true }
