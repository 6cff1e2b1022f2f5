-- ===== src/Refresh/Missing.antt =====
-- How requests without an answer are counted.
use joinmarket_clientserver.Refresh.Rows.{lookup-touch}
use joinmarket_clientserver.Prelude.Dict.{holds, lookup}
use joinmarket_clientserver.Prelude.{arith, false, none, not, some, true, ℕ, ℤ, ◌+◌, ◌≡◌}
use joinmarket_clientserver.Prelude.Text.{Text, is_empty, text_eq}
use joinmarket_clientserver.Refresh.State.{Table}
use joinmarket_clientserver.Refresh.Updates.{
  ResponseType, answered_peer, awaits_first, fidelitybond_increment, is_accounted, next_request,
  offer_increment, record_request, record_response, touch,
}

-- `consecutive_missing_count` of the row of `d`.
abbrev pub missing_of : Text → Table → ℕ
missing_of d t = elim (lookup d t) [ none ↦ 0 | some r ↦ r.consecutive_missing_count ]

-- A request at `now` that no answer follows is counted as missing by the next request, whenever that
-- is, provided that no request of that very second was counted before.
pub record_request-unanswered :
    (d id1 id2 : Text) (c1 now c2 later : ℤ) (t : Table)
    → holds (λ r. not (is_accounted r now)) (lookup d (record_request d id1 c1 now t)) ≡ true
    → missing_of d (record_request d id2 c2 later (record_request d id1 c1 now t))
      ≡ missing_of d (record_request d id1 c1 now t) + 1
unfolding record_request
record_request-unanswered d id1 id2 c1 now c2 later t h = ground (
  arith,
  lookup-touch d later (next_request id2 c2 later) d (touch d now (next_request id1 c1 now) t),
  lookup-touch d now (next_request id1 c1 now) d t,
)

-- A request with a non-empty id to a named directory, that is followed by an offer or a fidelity bond
-- before a success of that second or later was noted, leaves no missing answers for the next request.
pub record_request-answered :
    (d id1 id2 : Text) (c1 now c2 at later : ℤ) (kind : ResponseType) (t : Table)
    → is_empty d ≡ false
    → is_empty id1 ≡ false
    → offer_increment kind + fidelitybond_increment kind ≡ 1
    → holds awaits_first (lookup d (record_request d id1 c1 now t)) ≡ true
    → missing_of d
        (record_request d id2 c2 later (record_response d kind at (record_request d id1 c1 now t)))
      ≡ 0
unfolding record_request record_response
record_request-answered d id1 id2 c1 now c2 at later kind t filled_d filled_id answer first =
    rw filled_d (
      ground (
        arith,
        lookup-touch d later (next_request id2 c2 later) d
            (touch d at (answered_peer kind at) (touch d now (next_request id1 c1 now) t)),
        lookup-touch d at (answered_peer kind at) d (touch d now (next_request id1 c1 now) t),
        lookup-touch d now (next_request id1 c1 now) d t,
      ))
