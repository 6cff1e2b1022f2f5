-- ===== src/Tests/Refreshes.antt =====
-- The refresh store at concrete inputs.
use native.Mathlib.Decide.{ℕ_discrete}
use joinmarket_clientserver.Refresh.Missing.{
  missing_of, record_request-answered, record_request-unanswered,
}
use joinmarket_clientserver.Prelude.Dict.{insert, lookup, update}
use joinmarket_clientserver.Refresh.Pacing.{asks, record_request-paced}
use joinmarket_clientserver.Prelude.{
  [], arith, inl, pos, refl, some, true, ◌+ℤ◌, ◌+◌, ◌∷◌, ◌≡◌, ◌≢◌, ltb_ℤ,
}
use joinmarket_clientserver.Prelude.Text.{Text, codes, text_discrete, text_eq}
use joinmarket_clientserver.Refresh.Updates.{
  ResponseType, mark_need_refresh, next_request, record_request, record_response, wanted_peer,
}
use joinmarket_clientserver.Refresh.State.{Peer, Table, new_peer}
use joinmarket_clientserver.Refresh.Invariant.{IsValid, Op, run, run-refresh-IsValid}
use joinmarket_clientserver.Refresh.Choice.{select_next_refresh-first, IsBefore}
use joinmarket_clientserver.Refresh.Selection.{Candidate, Liquidity, select_next_refresh}

abbrev onion : Text
onion = codes "onion"

abbrev asked_once : Table
asked_once = record_request onion (codes "r1") (pos 60) (pos 1000) []

abbrev reachable : Liquidity
reachable = record { directory = onion; orderbook_size = 5; fidelitybond_size = 1 }

empty-IsValid : IsValid []
empty-IsValid = record { distinct = tt; rows = tt }

run-refresh-IsValid_example : IsValid (
    run
      (Op.request onion (codes "r1") (pos 60) (pos 1000)
        ∷ Op.response onion ResponseType.offer (pos 1001)
        ∷ [])
      [])
run-refresh-IsValid_example =
    run-refresh-IsValid
      (Op.request onion (codes "r1") (pos 60) (pos 1000)
        ∷ Op.response onion ResponseType.offer (pos 1001)
        ∷ [])
      [] empty-IsValid

-- A directory that was wanted again, and its row.
abbrev wanted_again : Table
wanted_again = mark_need_refresh (onion ∷ []) (pos 1010) asked_once

abbrev wanted_row : Peer
wanted_row =
    wanted_peer (pos 1010) (next_request (codes "r1") (pos 60) (pos 1000) (new_peer (pos 1000)))

select_next_refresh_run :
    select_next_refresh (reachable ∷ []) (pos 1061) wanted_again
    ≡ some (record { peer = wanted_row; runtime = reachable })
unfolding select_next_refresh mark_need_refresh record_request lookup insert update text_discrete
    ℕ_discrete ◌+ℤ◌
select_next_refresh_run = refl

select_next_refresh-first_example :
    (c : Candidate) × (select_next_refresh (reachable ∷ []) (pos 1061) wanted_again ≡ some c)
    × (lookup c.runtime.directory wanted_again ≡ some c.peer)
    × (c.peer.need_refresh ≡ true)
    × (ltb_ℤ c.peer.cooldown_time (pos 1061) ≡ true)
    × IsBefore c (record { peer = wanted_row; runtime = reachable })
unfolding mark_need_refresh record_request lookup insert update text_discrete ℕ_discrete ◌+ℤ◌
select_next_refresh-first_example =
    select_next_refresh-first (reachable ∷ []) (pos 1061) wanted_again reachable wanted_row
      (refl, tt) (inl refl) refl refl refl refl

record_request-unanswered_example :
    missing_of onion (record_request onion (codes "r2") (pos 60) (pos 2000) asked_once)
    ≡ missing_of onion asked_once + 1
unfolding record_request lookup insert update text_discrete ℕ_discrete ◌+ℤ◌
record_request-unanswered_example =
    record_request-unanswered onion (codes "r1") (codes "r2") (pos 60) (pos 1000) (pos 60)
      (pos 2000) [] refl

record_request-answered_example :
    missing_of onion (
      record_request onion
        (codes "r2")
        (pos 60)
        (pos 2000)
        (record_response onion ResponseType.offer (pos 1003) asked_once))
    ≡ 0
unfolding record_request lookup insert update text_discrete ℕ_discrete ◌+ℤ◌
record_request-answered_example =
    record_request-answered onion (codes "r1") (codes "r2") (pos 60) (pos 1000) (pos 60) (pos 1003)
      (pos 2000) ResponseType.offer [] refl refl refl refl

abbrev elsewhere : Text
elsewhere = codes "elsewhere"

-- Another directory is picked in the meantime.
abbrev two : Table
two = run (Op.wanted (onion ∷ elsewhere ∷ []) (pos 1010) ∷ []) asked_once

abbrev other_liquidity : Liquidity
other_liquidity = record { directory = elsewhere; orderbook_size = 0; fidelitybond_size = 0 }

abbrev other_candidate : Candidate
other_candidate = record {
  peer = wanted_peer (pos 1010) (new_peer (pos 1010));
  runtime = other_liquidity;
}

two_run :
    select_next_refresh (reachable ∷ other_liquidity ∷ []) (pos 1060) two ≡ some other_candidate
unfolding select_next_refresh run record_request lookup insert update text_discrete ℕ_discrete ◌+ℤ◌
two_run = refl

record_request-paced_example : elsewhere ≢ onion
unfolding ◌+ℤ◌ asks
record_request-paced_example =
    record_request-paced onion (codes "r1") (pos 60) (pos 1000) (pos 1060)
      (Op.wanted (onion ∷ elsewhere ∷ []) (pos 1010) ∷ []) [] (reachable ∷ other_liquidity ∷ [])
      other_candidate empty-IsValid (refl, tt) (omega arith) two_run
