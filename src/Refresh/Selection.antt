-- ===== src/Refresh/Selection.antt =====
-- `RefreshStateStore.select_next_refresh`: which directory is asked next.
use joinmarket_clientserver.Prelude.{
  ℕ, Bool, Option, none, some, List, [], ◌∷◌, ◌++◌, if◌then◌else◌, ◌==◌, ℤ, pos, ltb, ltb_ℤ, ℤ_eq,
  ℕ_eq, ◌&&◌, ◌||◌, not, keep,
}
use joinmarket_clientserver.Prelude.Text.{Text, text_eq, text_leb, is_empty}
use joinmarket_clientserver.Refresh.State.{Peer, Table, coalesce}

-- A row of the argument `runtime_liquidity`, its missing sizes read as 0.
pub record Liquidity : Type 0 where
  pub directory : Text
  pub orderbook_size : ℕ
  pub fidelitybond_size : ℕ

-- A row of the join of the table with that argument.
pub record Candidate : Type 0 where
  pub peer : Peer
  pub runtime : Liquidity

abbrev pub is_due : ℤ → Peer → Bool
is_due now r = r.need_refresh && ltb_ℤ r.cooldown_time now

unfoldable pub join_row : Text → Peer → List Liquidity → List Candidate
join_row d r [] = []
join_row d r (l ∷ ls) =
    if l.directory == d then record { peer = r; runtime = l } ∷ join_row d r ls else join_row d r ls

-- `FROM directory_peers_refresh JOIN runtime ... WHERE ...`
unfoldable pub due_candidates : ℤ → Table → List Liquidity → List Candidate
unfolding join_row
due_candidates now [] ls = []
due_candidates now ((d, r) ∷ t) ls =
    if is_due now r then join_row d r ls ++ due_candidates now t ls else due_candidates now t ls

abbrev pub success_rank : Candidate → ℤ
success_rank c = coalesce c.peer.last_successful_refresh_at (pos 0)

abbrev pub request_rank : Candidate → ℤ
request_rank c = coalesce c.peer.last_request_at (pos 0)

-- The order of the ORDER BY clause: fewest missing answers, then the longest time without a success,
-- then without a request, then the name.
abbrev pub comes_first : Candidate → Candidate → Bool
comes_first a b =
    ltb a.peer.consecutive_missing_count b.peer.consecutive_missing_count
    || (a.peer.consecutive_missing_count == b.peer.consecutive_missing_count
        && (ltb_ℤ (success_rank a) (success_rank b)
            || (success_rank a == success_rank b
                && (ltb_ℤ (request_rank a) (request_rank b)
                    || (request_rank a == request_rank b
                        && text_leb a.runtime.directory b.runtime.directory)))))

-- `ORDER BY ... LIMIT 1`
unfoldable pub first_candidate : List Candidate → Option Candidate
first_candidate [] = none
first_candidate (c ∷ cs) = elim (first_candidate cs) [
  | none ↦ some c
  | some d ↦ if comes_first c d then some c else some d
]

unfoldable pub select_next_refresh : List Liquidity → ℤ → Table → Option Candidate
unfolding due_candidates first_candidate
select_next_refresh runtime_liquidity now t =
    first_candidate
      (due_candidates now t (keep (λ l. not (is_empty l.directory)) runtime_liquidity))
