-- ===== src/Taker/Schedule.antt =====
-- The entries of the schedule: the first part of `initialize`, and `prepare_maker_selection_retry`.
-- What an entry of the schedule comes to: the amount in satoshis, which may be a rounded fraction of a
-- balance, and the address, which may be one of the next mixdepth.
use joinmarket_clientserver.Prelude.Text.{Text, is_empty}
use joinmarket_clientserver.Taker.State.{CoinjoinTx, Taker, add_ignored_makers}
use joinmarket_clientserver.Prelude.{
  Bool, List, Option, [], false, if◌then◌else◌, keep, leb_ℤ, ltb_ℤ, none, not, pos, some, true, ℕ,
  ℤ, ◌+ℤ◌, ◌+◌, ◌-ℤ◌, ◌==◌, ◌||◌, ◌∷◌, ℤ_eq, ◌&&◌,
}

pub record Entry : Type 0 where
  pub cjamount : ℕ
  pub my_cj_addr : Text

abbrev pub is_index : Option ℤ → ℤ → Bool
is_index none i = false
is_index (some j) i = j == i

-- Another entry than that of the last replacement starts with no attempts.
abbrev pub reset_unless : Bool → ℤ → Taker → Taker
reset_unless true i s = s
reset_unless false i s = record s {
  maker_replacement_attempts = 0;
  maker_replacement_schedule_index = some i;
}

unfoldable pub reset_attempts : ℤ → Taker → Taker
reset_attempts i s = reset_unless (is_index s.maker_replacement_schedule_index i) i s

unfoldable pub enter : Entry → Taker → Taker
enter e s = record s {
  cjamount = e.cjamount;
  my_cj_addr = e.my_cj_addr;
  outputs = [];
  cjfee_total = pos 0;
  maker_txfee_contributions = 0;
  latest_tx = none;
}

-- The part of `initialize` up to the choice of offers, for a schedule of that length; with it whether
-- the entry is to be worked on. The schedule is finished where its index is the length.
pub data Start : Type 0 where
  stopped : Start
  finished : Start
  entered : Start

-- By whether the taker was aborted and whether the schedule is at its end.
unfoldable pub initialize_for : Bool → Bool → Entry → ℤ → Taker → Taker × Start
unfolding reset_attempts enter
initialize_for true at_end e i s = (s, stopped)
initialize_for false true e i s = (record s { schedule_index = i }, finished)
initialize_for false false e i s =
    (enter e (reset_attempts i (record s { schedule_index = i })), entered)

unfoldable pub initialize : ℕ → (ℤ → Entry) → Taker → Taker × Start
unfolding initialize_for
initialize schedule_length entry_at s =
    let i = s.schedule_index +ℤ pos 1 in
    initialize_for s.aborted (i == pos schedule_length) (entry_at i) i s

-- An attempt more, of the same entry.
abbrev pub go_back : Taker → Taker
go_back s = record s {
  maker_replacement_attempts = s.maker_replacement_attempts + 1;
  maker_replacement_schedule_index = some s.schedule_index;
  schedule_index = s.schedule_index -ℤ pos 1;
}

abbrev pub may_go_back : ℤ → Taker → Bool
may_go_back max_attempts s =
    ltb_ℤ (pos 0) max_attempts
    && ltb_ℤ (pos s.maker_replacement_attempts) max_attempts
    && leb_ℤ (pos 0) s.schedule_index

abbrev pub go_back_if : Bool → Taker → Taker × Bool
go_back_if true s = (go_back s, true)
go_back_if false s = (s, false)

-- The makers that failed are ignored; whether the entry is to be tried again.
unfoldable pub replace_makers : ℤ → List Text → Taker → Taker × Bool
replace_makers max_attempts failed s =
    go_back_if (may_go_back max_attempts s) (add_ignored_makers failed s)

abbrev pub is_built : Option CoinjoinTx → Bool
is_built none = false
is_built (some tx) = true

abbrev pub is_none : List Text → Bool
is_none [] = true
is_none (m ∷ ms) = false

unfoldable pub prepare_maker_selection_retry : ℤ → List Text → Taker → Taker × Bool
unfolding replace_makers
prepare_maker_selection_retry max_attempts failed_makers s =
    let failed = keep (λ m. not (is_empty m)) failed_makers in
    if is_none failed || is_built s.latest_tx
    then (s, false)
    else replace_makers max_attempts failed s
