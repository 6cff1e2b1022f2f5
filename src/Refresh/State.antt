-- ===== src/Refresh/State.antt =====
-- The table `directory_peers_refresh` of `RefreshStateStore` (jmdaemon/orderbookwatch.py): when each
-- directory node was asked for its orderbook, and what it answered. A row is a record, a NULL is
-- `none`, and a flag is a Boolean. SQLite's integer columns are read as unbounded integers, and the
-- counters, which start at 0 and only grow or are set to 0, as natural numbers.
use joinmarket_clientserver.Prelude.{ℕ, Bool, true, false, Option, none, some, ℤ, pos, ℤ_eq, ℕ_eq}
use joinmarket_clientserver.Prelude.Dict.{Dict}
use joinmarket_clientserver.Prelude.Text.{Text}

pub record Peer : Type 0 where
  pub need_refresh : Bool
  pub cooldown_time : ℤ
  pub current_refresh_id : Option Text
  pub offer_count : ℕ
  pub fidelitybond_count : ℕ
  pub last_request_at : Option ℤ
  pub last_response_at : Option ℤ
  pub last_successful_refresh_at : Option ℤ
  pub last_connected_at : Option ℤ
  pub last_disconnected_at : Option ℤ
  pub request_count : ℕ
  pub response_count : ℕ
  pub consecutive_missing_count : ℕ
  pub last_missing_accounted_request_at : Option ℤ
  pub updated_at : Option ℤ

abbrev pub Table : Type 0
Table = Dict Text Peer

-- What the schema's defaults give a row that `_ensure_directory_locked` inserts.
abbrev pub new_peer : ℤ → Peer
new_peer now = record {
  need_refresh = true;
  cooldown_time = pos 0;
  current_refresh_id = none;
  offer_count = 0;
  fidelitybond_count = 0;
  last_request_at = none;
  last_response_at = none;
  last_successful_refresh_at = none;
  last_connected_at = none;
  last_disconnected_at = none;
  request_count = 0;
  response_count = 0;
  consecutive_missing_count = 0;
  last_missing_accounted_request_at = none;
  updated_at = some now;
}

abbrev pub is_none {ℓ} : {A : Type ℓ} → Option A → Bool
is_none none = true
is_none (some a) = false

-- `COALESCE(o, d)`
abbrev pub coalesce {ℓ} : {A : Type ℓ} → Option A → A → A
coalesce none d = d
coalesce (some a) d = a
