-- ===== src/Penalty/State.antt =====
-- The tables and the policy of `MakerPenaltyStore` (jmclient/maker_penalty_store.py). The table
-- `maker_penalties` is a dict from nicks to rows, `maker_penalty_events` the list of its rows, oldest
-- first. SQLite's integer columns are read as unbounded integers.
use joinmarket_clientserver.Prelude.{
  Bool, false, Option, none, some, List, [], ◌∷◌, ◌==◌, ℤ, pos, ℕ_eq,
}
use joinmarket_clientserver.Prelude.Dict.{Dict}
use joinmarket_clientserver.Prelude.Text.{Text}

pub record Row : Type 0 where
  pub cooldown_until : ℤ
  pub cooldown_count : ℤ
  pub cooldown_window_start : ℤ
  pub banned : Bool
  pub banned_until : ℤ
  pub ban_reason : Text
  pub last_stage : Text
  pub last_attempt_id : Text
  pub last_event_at : ℤ
  pub updated_at : ℤ

pub data EventType : Type 0 where
  cooldown soft_failure ban unban : EventType

pub record Event : Type 0 where
  pub nick : Text
  pub event_type : EventType
  pub stage : Text
  pub attempt_id : Text
  pub created_at : ℤ
  pub details : Text

pub record Store : Type 0 where
  pub penalties : Dict Text Row
  pub events : List Event

abbrev pub empty_store : Store
empty_store = record { penalties = []; events = [] }

-- Section POLICY: `none` where the option is missing or is no integer. `ban_file` is the content of
-- the configured file, `none` where none is configured or it cannot be read.
pub record Policy : Type 0 where
  pub cooldown_seconds : Option ℤ
  pub ban_threshold : Option ℤ
  pub ban_window_seconds : Option ℤ
  pub auto_ban_seconds : Option ℤ
  pub ban_list : Text
  pub ban_file : Option Text

abbrev pub config_getint : Option ℤ → ℤ → ℤ
config_getint none default = default
config_getint (some v) default = v

abbrev pub starts_with_hash : Text → Bool
starts_with_hash [] = false
starts_with_hash (c ∷ s) = c == b'#'

-- The options as `record_stage2_cooldown` reads them, with its defaults.
abbrev pub cooldown_seconds : Policy → ℤ
cooldown_seconds p = config_getint p.cooldown_seconds (pos 3600)

abbrev pub ban_threshold : Policy → ℤ
ban_threshold p = config_getint p.ban_threshold (pos 3)

abbrev pub ban_window : Policy → ℤ
ban_window p = config_getint p.ban_window_seconds (pos 604800)

abbrev pub auto_ban : Policy → ℤ
auto_ban p = config_getint p.auto_ban_seconds (pos 0)
