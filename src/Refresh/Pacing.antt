-- ===== src/Refresh/Pacing.antt =====
-- A directory that was asked is not asked again before its cooldown is over.
use mathlib.Core.Option
use joinmarket_clientserver.Refresh.Choice.{IsCandidate, select_next_refresh-IsCandidate}
use joinmarket_clientserver.Refresh.Selection.{Liquidity, Candidate, select_next_refresh}
use joinmarket_clientserver.Refresh.Rows.{lookup-touch, lookup-migrate}
use joinmarket_clientserver.Refresh.Updates.{
  touch_all, touch, connected_peer, disconnected_peer, due_peer, wanted_peer, answered_peer,
  record_request, migrate_peer, next_failure, next_request, filled,
}
use joinmarket_clientserver.Refresh.Invariant.{
  Op, run, apply, IsValid, record_request-IsValid, run-refresh-IsValid,
}
use joinmarket_clientserver.Refresh.State.{Table, Peer, coalesce, new_peer}
use mathlib.Core.Path.{subst}
use joinmarket_clientserver.Prelude.Dict.{lookup}
use joinmarket_clientserver.Prelude.Text.{Text, is_empty, text_eq}
use joinmarket_clientserver.Prelude.{
  ==_refl, All, Bool, Bool-cases, List, Option, [], arith, false, if◌then◌else◌, inl, inr, none,
  refl, some, ℤ, ◌+ℤ◌, ◌==◌, ◌∷◌, ◌≡◌, ◌≢◌, ◌≤ℤ◌,
}

-- No call of the history asks `d`.
unfoldable pub asks : Text → Op → Bool
asks d (Op.request j refresh_id cooldown_seconds now) = j == d
asks d _ = false

-- The row of `d`, and its cooldown as it was.
abbrev Paced : ℤ → Option Peer → Type 0
Paced until none = ⊥
Paced until (some r) = r.cooldown_time ≡ until

touch-Paced :
    (until : ℤ) (d j : Text) (now : ℤ) (f : Peer → Peer) (t : Table)
    → ((r : Peer) → (f r).cooldown_time ≡ r.cooldown_time)
    → Paced until (lookup d t)
    → Paced until (lookup d (touch j now f t))
touch-Paced until d j now f t keeps h = rw (lookup-touch j now f d t) (go (lookup d t) h)
  where
    go :
        (o : Option Peer)
        → Paced until o
        → Paced until (if j == d then some (f (coalesce o (new_peer now))) else o)
    go none p = absurd p
    go (some r) p = ground (arith, keeps r)

touch_all-Paced :
    (until : ℤ) (d : Text) (ds : List Text) (now : ℤ) (f : Peer → Peer) (t : Table)
    → ((r : Peer) → (f r).cooldown_time ≡ r.cooldown_time)
    → Paced until (lookup d t)
    → Paced until (lookup d (touch_all ds now f t))
unfolding touch_all
touch_all-Paced until d [] now f t keeps h = h
touch_all-Paced until d (j ∷ ds) now f t keeps h =
    touch_all-Paced until d ds now f (touch j now f t) keeps (touch-Paced until d j now f t keeps h)

unless_empty :
    (until : ℤ) (d j : Text) (t u : Table)
    → Paced until (lookup d t)
    → Paced until (lookup d u)
    → Paced until (lookup d (if is_empty j then t else u))
unless_empty until d j t u v w = elim (Bool-cases (is_empty j)) [ inl e ↦ rw e v | inr e ↦ rw e w ]

apply-Paced :
    (until : ℤ) (d : Text) (op : Op) (t : Table)
    → asks d op ≡ false
    → Paced until (lookup d t)
    → Paced until (lookup d (apply op t))
unfolding apply asks
apply-Paced until d (Op.connected j mark now) t a h =
    unless_empty until d j t (touch j now (connected_peer mark now) t) h
      (touch-Paced until d j now (connected_peer mark now) t (λ r. refl) h)
apply-Paced until d (Op.disconnected j now) t a h =
    unless_empty until d j t (touch j now (disconnected_peer now) t) h
      (touch-Paced until d j now (disconnected_peer now) t (λ r. refl) h)
apply-Paced until d (Op.due_connected js target_seconds reset_fresh now) t a h =
    touch_all-Paced until d (filled js) now (due_peer target_seconds reset_fresh now) t (λ r. refl)
      h
apply-Paced until d (Op.wanted js now) t a h =
    touch_all-Paced until d (filled js) now (wanted_peer now) t (λ r. refl) h
apply-Paced until d (Op.request j refresh_id cooldown_seconds now) t a h =
    rw (lookup-touch j now (next_request refresh_id cooldown_seconds now) d t, a) h
apply-Paced until d (Op.send_failure j now) t a h =
    touch-Paced until d j now (next_failure now) t (λ r. ground arith) h
apply-Paced until d (Op.response j kind now) t a h =
    unless_empty until d j t (touch j now (answered_peer kind now) t) h
      (touch-Paced until d j now (answered_peer kind now) t (λ r. ground arith) h)
apply-Paced until d (Op.reopened now) t a h = rw (lookup-migrate now d t) (go (lookup d t) h)
  where
    go : (o : Option Peer) → Paced until o → Paced until (Option.map (migrate_peer now) o)
    go none p = absurd p
    go (some r) p = ground arith

run-Paced :
    (until : ℤ) (d : Text) (ops : List Op) (t : Table)
    → All (λ op. asks d op ≡ false) ops
    → Paced until (lookup d t)
    → Paced until (lookup d (run ops t))
unfolding run
run-Paced until d [] t a h = h
run-Paced until d (op ∷ ops) t a h =
    run-Paced until d ops (apply op t) a.1 (apply-Paced until d op t a.0 h)

-- After a request to `d` at `now`, and any calls that hold no further request to `d`, the directory
-- that is picked at a time up to `now + cooldown_seconds` is not `d`.
pub record_request-paced :
    (d refresh_id : Text) (cooldown_seconds now later : ℤ) (ops : List Op) (t : Table)
    (ls : List Liquidity) (c : Candidate)
    → IsValid t
    → All (λ op. asks d op ≡ false) ops
    → later ≤ℤ now +ℤ cooldown_seconds
    → select_next_refresh ls later (run ops (record_request d refresh_id cooldown_seconds now t))
      ≡ some c
    → c.runtime.directory ≢ d
record_request-paced d refresh_id cooldown_seconds now later ops t ls c v quiet early picked same =
    let t1 : Table = record_request d refresh_id cooldown_seconds now t in
    let v1 : IsValid t1 = record_request-IsValid d refresh_id cooldown_seconds now t v in
    let paced : Paced (now +ℤ cooldown_seconds) (lookup d (run ops t1)) =
      run-Paced (now +ℤ cooldown_seconds) d ops t1 quiet (
        unfold record_request in
        rw (lookup-touch d now (next_request refresh_id cooldown_seconds now) d t, ==_refl d)
          refl) in
    let i : IsCandidate later (run ops t1) c =
      select_next_refresh-IsCandidate ls later (run ops t1) c
        (run-refresh-IsValid ops t1 v1).distinct picked in
    let e : (lookup d (run ops t1) ≡ some c.peer) =
      subst (λ j. lookup j (run ops t1) ≡ some c.peer) same i.found in
    let q : (c.peer.cooldown_time ≡ now +ℤ cooldown_seconds) =
      subst (Paced (now +ℤ cooldown_seconds)) e paced in
    absurd (ground (arith, i.due))
