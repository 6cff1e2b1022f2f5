-- ===== src/Refresh/Updates.antt =====
-- What `RefreshStateStore` writes. Each method is one transaction, so one function on the table; it
-- takes the time that `_now` returns. First what it does to the directory's row, then the method.
use joinmarket_clientserver.Prelude.{
  ℕ, ◌+◌, Bool, true, false, none, some, List, [], ◌∷◌, if◌then◌else◌, ◌==◌, ℤ, ◌+ℤ◌, ◌-ℤ◌, ltb_ℤ,
  ℤ_eq, ℕ_eq, ◌&&◌, ◌||◌, not, keep,
}
use joinmarket_clientserver.Prelude.Dict.{lookup, insert, update}
use joinmarket_clientserver.Prelude.Text.{is_empty, Text, text_eq}
use joinmarket_clientserver.Refresh.State.{Peer, Table, new_peer, is_none, coalesce}

-- A row that was never asked but holds the result of a refresh is reset.
abbrev pub migrate_peer : ℤ → Peer → Peer
migrate_peer now r =
    if is_none r.last_request_at
      && (not r.need_refresh
          || not (is_none r.current_refresh_id)
          || not (r.offer_count == 0)
          || not (r.fidelitybond_count == 0)
          || not (is_none r.last_successful_refresh_at))
    then record r {
      need_refresh = true;
      current_refresh_id = none;
      offer_count = 0;
      fidelitybond_count = 0;
      last_successful_refresh_at = none;
      last_missing_accounted_request_at = none;
      updated_at = some now;
    }
    else r

unfoldable pub migrate : ℤ → Table → Table
migrate now [] = []
migrate now ((d, r) ∷ t) = (d, migrate_peer now r) ∷ migrate now t

-- `INSERT OR IGNORE`
unfoldable pub ensure_directory : Text → ℤ → Table → Table
ensure_directory d now t = elim (lookup d t) [ none ↦ insert d (new_peer now) t | some _ ↦ t ]

-- The row of the directory is made if it is missing, and then updated.
unfoldable pub touch : Text → ℤ → (Peer → Peer) → Table → Table
unfolding ensure_directory
touch d now f t = update d f (ensure_directory d now t)

abbrev pub connected_peer : Bool → ℤ → Peer → Peer
connected_peer mark_need_refresh now r = record r {
  last_connected_at = some now;
  updated_at = some now;
  need_refresh = if mark_need_refresh then true else r.need_refresh;
}

unfoldable pub mark_connected : Text → Bool → ℤ → Table → Table
unfolding touch
mark_connected d mark_need_refresh now t =
    if is_empty d then t else touch d now (connected_peer mark_need_refresh now) t

abbrev pub disconnected_peer : ℤ → Peer → Peer
disconnected_peer now r = record r { last_disconnected_at = some now; updated_at = some now }

unfoldable pub mark_disconnected : Text → ℤ → Table → Table
unfolding touch
mark_disconnected d now t = if is_empty d then t else touch d now (disconnected_peer now) t

-- A directory is due if it never answered a request, or not for `target_seconds`.
abbrev pub due_peer : ℤ → Bool → ℤ → Peer → Peer
due_peer target_seconds reset_fresh now r =
    let fresh_value : Bool = if reset_fresh then false else r.need_refresh in
    record r {
      last_connected_at = some (coalesce r.last_connected_at now);
      need_refresh = elim r.last_successful_refresh_at [
        | none ↦ true
        | some at ↦ if ltb_ℤ target_seconds (now -ℤ at) then true else fresh_value
      ];
      updated_at = some now;
    }

-- `for directory in directories: touch(directory)`
unfoldable pub touch_all : List Text → ℤ → (Peer → Peer) → Table → Table
unfolding touch
touch_all [] now f t = t
touch_all (d ∷ ds) now f t = touch_all ds now f (touch d now f t)

-- `[d for d in directories if d]`
abbrev pub filled : List Text → List Text
filled = keep (λ d. not (is_empty d))

unfoldable pub mark_due_connected_directories : List Text → ℤ → Bool → ℤ → Table → Table
unfolding touch_all
mark_due_connected_directories ds target_seconds reset_fresh now t =
    touch_all (filled ds) now (due_peer target_seconds reset_fresh now) t

abbrev pub wanted_peer : ℤ → Peer → Peer
wanted_peer now r = record r { need_refresh = true; updated_at = some now }

unfoldable pub mark_need_refresh : List Text → ℤ → Table → Table
unfolding touch_all
mark_need_refresh ds now t = touch_all (filled ds) now (wanted_peer now) t

-- The last request of this row has been counted as missing already.
abbrev pub is_accounted : Peer → ℤ → Bool
is_accounted r request = elim r.last_missing_accounted_request_at [
  | none ↦ false
  | some at ↦ at == request
]

-- `_account_missing_generation_locked`: a request that had no answer is counted, once.
abbrev pub account_missing : ℤ → Peer → Peer
account_missing now r = elim r.last_request_at [
  | none ↦ r
  | some request ↦
      if is_accounted r request || not (r.offer_count + r.fidelitybond_count == 0)
      then r
      else record r {
        consecutive_missing_count = r.consecutive_missing_count + 1;
        last_missing_accounted_request_at = some request;
        updated_at = some now;
      }
]

abbrev pub requested_peer : Text → ℤ → ℤ → Peer → Peer
requested_peer refresh_id cooldown_seconds now r = record r {
  need_refresh = false;
  cooldown_time = now +ℤ cooldown_seconds;
  current_refresh_id = some refresh_id;
  offer_count = 0;
  fidelitybond_count = 0;
  last_request_at = some now;
  request_count = r.request_count + 1;
  updated_at = some now;
}

abbrev pub next_request : Text → ℤ → ℤ → Peer → Peer
next_request refresh_id cooldown_seconds now r =
    requested_peer refresh_id cooldown_seconds now (account_missing now r)

unfoldable pub record_request : Text → Text → ℤ → ℤ → Table → Table
unfolding touch
record_request d refresh_id cooldown_seconds now t =
    touch d now (next_request refresh_id cooldown_seconds now) t

abbrev pub failed_peer : ℤ → Peer → Peer
failed_peer now r = record r {
  need_refresh = true;
  current_refresh_id = none;
  offer_count = 0;
  fidelitybond_count = 0;
  updated_at = some now;
}

abbrev pub next_failure : ℤ → Peer → Peer
next_failure now r = failed_peer now (account_missing now r)

unfoldable pub record_request_send_failure : Text → ℤ → Table → Table
unfolding touch
record_request_send_failure d now t = touch d now (next_failure now) t

-- The strings that callers pass as `response_type`.
pub data ResponseType : Type 0 where
  offer fidelitybond other : ResponseType

abbrev pub offer_increment : ResponseType → ℕ
offer_increment ResponseType.offer = 1
offer_increment _ = 0

abbrev pub fidelitybond_increment : ResponseType → ℕ
fidelitybond_increment ResponseType.fidelitybond = 1
fidelitybond_increment _ = 0

-- There is a request to which an answer can belong.
abbrev pub has_current_request : Peer → Bool
has_current_request r =
    elim r.current_refresh_id [ none ↦ false | some refresh_id ↦ not (is_empty refresh_id) ]
    && not (is_none r.last_request_at)

-- No success has been noted since that request.
abbrev pub awaits_first : Peer → Bool
awaits_first r = elim r.last_successful_refresh_at [
  | none ↦ true
  | some success ↦ elim r.last_request_at [ none ↦ false | some request ↦ ltb_ℤ success request ]
]

abbrev pub answered_peer : ResponseType → ℤ → Peer → Peer
answered_peer kind now r =
    if has_current_request r && awaits_first r
    then record r {
      last_response_at = some now;
      last_successful_refresh_at = some now;
      need_refresh = false;
      offer_count = r.offer_count + offer_increment kind;
      fidelitybond_count = r.fidelitybond_count + fidelitybond_increment kind;
      response_count = r.response_count + 1;
      consecutive_missing_count = 0;
      last_missing_accounted_request_at = none;
      updated_at = some now;
    }
    else if has_current_request r
    then record r {
      last_response_at = some now;
      offer_count = r.offer_count + offer_increment kind;
      fidelitybond_count = r.fidelitybond_count + fidelitybond_increment kind;
      response_count = r.response_count + 1;
      updated_at = some now;
    }
    else record r {
      last_response_at = some now;
      response_count = r.response_count + 1;
      updated_at = some now;
    }

unfoldable pub record_response : Text → ResponseType → ℤ → Table → Table
unfolding touch
record_response d kind now t = if is_empty d then t else touch d now (answered_peer kind now) t
