-- ===== src/Refresh/Invariant.antt =====
-- What every history of calls keeps true of the refresh store's rows.
use joinmarket_clientserver.Refresh.Rows.{
  touch_all-Distinct, touch-Distinct, touch-All, touch_all-All, keys-migrate, migrate-All,
}
use joinmarket_clientserver.Refresh.Updates.{
  mark_connected, ResponseType, mark_disconnected, touch, connected_peer, account_missing,
  migrate_peer, record_request, answered_peer, is_accounted, touch_all,
  mark_due_connected_directories, disconnected_peer, due_peer, mark_need_refresh,
  record_request_send_failure, wanted_peer, record_response, migrate, next_failure, next_request,
  filled,
}
use joinmarket_clientserver.Refresh.State.{Table, Peer, new_peer, is_none}
use joinmarket_clientserver.Prelude.Dict.{keys, values}
use joinmarket_clientserver.Prelude.Text.{Text, is_empty, text_eq}
use joinmarket_clientserver.Prelude.{
  All, Bool, Bool-cases, Distinct, List, [], arith, if◌then◌else◌, inl, inr, none, not, some, true,
  ℕ, ℤ, ◌+◌, ◌==◌, ◌||◌, ◌∷◌, ◌≡◌, ◌≤◌, ℕ_eq, ltb,
}

-- The calls that change the table, as data.
pub data Op : Type 0 where
  connected : Text → Bool → ℤ → Op
  disconnected : Text → ℤ → Op
  due_connected : List Text → ℤ → Bool → ℤ → Op
  wanted : List Text → ℤ → Op
  request : Text → Text → ℤ → ℤ → Op
  send_failure : Text → ℤ → Op
  response : Text → ResponseType → ℤ → Op
  reopened : ℤ → Op

unfoldable pub apply : Op → Table → Table
unfolding mark_connected mark_disconnected mark_due_connected_directories mark_need_refresh
    record_request record_request_send_failure record_response migrate
apply (connected d mark now) t = mark_connected d mark now t
apply (disconnected d now) t = mark_disconnected d now t
apply (due_connected ds target_seconds reset_fresh now) t =
    mark_due_connected_directories ds target_seconds reset_fresh now t
apply (wanted ds now) t = mark_need_refresh ds now t
apply (request d refresh_id cooldown_seconds now) t =
    record_request d refresh_id cooldown_seconds now t
apply (send_failure d now) t = record_request_send_failure d now t
apply (response d kind now) t = record_response d kind now t
apply (reopened now) t = migrate now t

unfoldable pub run : List Op → Table → Table
unfolding apply
run [] t = t
run (op ∷ ops) t = run ops (apply op t)

-- 1 if the last request has not been counted as missing.
abbrev pub uncounted : Peer → ℕ
uncounted r = elim r.last_request_at [ none ↦ 0 | some at ↦ if is_accounted r at then 0 else 1 ]

-- Without a current refresh no answers are counted; what was never asked has no current refresh; what
-- was asked has a request counted; and each missing answer, and the last request if it is not counted yet, has a request of its own.
pub record PeerIsValid (r : Peer) : Type 0 where
  pub idle :
      (not (is_none r.current_refresh_id) || r.offer_count + r.fidelitybond_count == 0) ≡ true
  pub asked : (not (is_none r.last_request_at) || is_none r.current_refresh_id) ≡ true
  pub requested : (is_none r.last_request_at || ltb 0 r.request_count) ≡ true
  pub counted : r.consecutive_missing_count + uncounted r ≤ r.request_count

pub record IsValid (t : Table) : Type 0 where
  pub distinct : Distinct (keys t)
  pub rows : All PeerIsValid (values t)

new_peer-IsValid : (now : ℤ) → PeerIsValid (new_peer now)
new_peer-IsValid now = ground arith

account_missing-IsValid : (now : ℤ) (r : Peer) → PeerIsValid r → PeerIsValid (account_missing now r)
account_missing-IsValid now r v = ground arith

answered_peer-IsValid :
    (kind : ResponseType) (now : ℤ) (r : Peer)
    → PeerIsValid r
    → PeerIsValid (answered_peer kind now r)
answered_peer-IsValid kind now r v = ground arith

requested_peer-IsValid :
    (refresh_id : Text) (cooldown_seconds now : ℤ) (r : Peer)
    → PeerIsValid r
    → PeerIsValid (next_request refresh_id cooldown_seconds now r)
requested_peer-IsValid refresh_id cooldown_seconds now r v = ground arith

failed_peer-IsValid : (now : ℤ) (r : Peer) → PeerIsValid r → PeerIsValid (next_failure now r)
failed_peer-IsValid now r v = ground arith

migrate_peer-IsValid : (now : ℤ) (r : Peer) → PeerIsValid r → PeerIsValid (migrate_peer now r)
migrate_peer-IsValid now r v = ground arith

touch-IsValid :
    (d : Text) (now : ℤ) (f : Peer → Peer) (t : Table)
    → ((r : Peer) → PeerIsValid r → PeerIsValid (f r))
    → IsValid t
    → IsValid (touch d now f t)
touch-IsValid d now f t keeps v = record {
  distinct = touch-Distinct d now f t v.distinct;
  rows = touch-All PeerIsValid d now f t (new_peer-IsValid now) keeps v.rows;
}

touch_all-IsValid :
    (ds : List Text) (now : ℤ) (f : Peer → Peer) (t : Table)
    → ((r : Peer) → PeerIsValid r → PeerIsValid (f r))
    → IsValid t
    → IsValid (touch_all ds now f t)
touch_all-IsValid ds now f t keeps v = record {
  distinct = touch_all-Distinct ds now f t v.distinct;
  rows = touch_all-All PeerIsValid ds now f t (new_peer-IsValid now) keeps v.rows;
}

-- A call without a directory does nothing.
unless_empty :
    (d : Text) (t u : Table) → IsValid t → IsValid u → IsValid (if is_empty d then t else u)
unless_empty d t u v w = elim (Bool-cases (is_empty d)) [ inl e ↦ rw e v | inr e ↦ rw e w ]

pub apply-IsValid : (op : Op) (t : Table) → IsValid t → IsValid (apply op t)
unfolding apply
apply-IsValid (connected d mark now) t v =
    unless_empty d t (touch d now (connected_peer mark now) t) v
      (touch-IsValid d now (connected_peer mark now) t (λ r h. ground arith) v)
apply-IsValid (disconnected d now) t v =
    unless_empty d t (touch d now (disconnected_peer now) t) v
      (touch-IsValid d now (disconnected_peer now) t (λ r h. ground arith) v)
apply-IsValid (due_connected ds target_seconds reset_fresh now) t v =
    touch_all-IsValid (filled ds) now (due_peer target_seconds reset_fresh now) t
      (λ r h. ground arith) v
apply-IsValid (wanted ds now) t v =
    touch_all-IsValid (filled ds) now (wanted_peer now) t (λ r h. ground arith) v
apply-IsValid (request d refresh_id cooldown_seconds now) t v =
    touch-IsValid d now (next_request refresh_id cooldown_seconds now) t
      (requested_peer-IsValid refresh_id cooldown_seconds now) v
apply-IsValid (send_failure d now) t v =
    touch-IsValid d now (next_failure now) t (failed_peer-IsValid now) v
apply-IsValid (response d kind now) t v =
    unless_empty d t (touch d now (answered_peer kind now) t) v
      (touch-IsValid d now (answered_peer kind now) t (answered_peer-IsValid kind now) v)
apply-IsValid (reopened now) t v = record {
  distinct = rw (keys-migrate now t) v.distinct;
  rows = migrate-All PeerIsValid now t (migrate_peer-IsValid now) v.rows;
}

-- From a valid table any sequence of calls leads to a valid table.
pub run-refresh-IsValid : (ops : List Op) (t : Table) → IsValid t → IsValid (run ops t)
unfolding run
run-refresh-IsValid [] t v = v
run-refresh-IsValid (op ∷ ops) t v = run-refresh-IsValid ops (apply op t) (apply-IsValid op t v)

pub record_request-IsValid :
    (d refresh_id : Text) (cooldown_seconds now : ℤ) (t : Table)
    → IsValid t
    → IsValid (record_request d refresh_id cooldown_seconds now t)
unfolding apply
record_request-IsValid d refresh_id cooldown_seconds now t v =
    apply-IsValid (request d refresh_id cooldown_seconds now) t v
