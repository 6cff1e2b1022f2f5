-- ===== src/Taker/Attempts.antt =====
-- How often makers are replaced: `prepare_maker_selection_retry` and `initialize` over a history.
-- What may happen to the schedule of a taker, in any order: `initialize` is called; makers have failed
-- and `retry_maker_selection` of jmclient/client_protocol.py asks for a replacement; a script sets the
-- schedule index, as sendpayment.py and taker_utils.py do to try again; a transaction is built or
-- dropped; the taker is aborted.
use joinmarket_clientserver.Prelude.Text.{Text}
use joinmarket_clientserver.Taker.Schedule.{
  Entry, Start, entered, finished, initialize, is_index, prepare_maker_selection_retry, stopped,
}
use joinmarket_clientserver.Taker.State.{CoinjoinTx, Taker}
use joinmarket_clientserver.Prelude.{
  Bool, List, Option, [], false, pos, true, ℕ, ℤ, ◌*◌, ◌+ℤ◌, ◌+◌, ◌∷◌, ◌≤◌, ℤ_eq,
}

pub data Event : Type 0 where
  initialized : Event
  makers_failed : List Text → Event
  index_set : ℤ → Event
  tx_set : Option CoinjoinTx → Event
  taker_aborted : Event

-- One more for a replacement that is granted.
abbrev pub if_granted : Bool → ℕ
if_granted true = 1
if_granted false = 0

-- One more for an entry that is begun and is not the one of the last replacement.
abbrev pub if_other : Start → Bool → ℕ
if_other entered false = 1
if_other entered true = 0
if_other stopped same = 0
if_other finished same = 0

module _ (schedule_length : ℕ) (entry_at : ℤ → Entry) (max_attempts : ℕ) where
  unfoldable pub apply : Event → Taker → Taker
  unfolding initialize prepare_maker_selection_retry
  apply initialized s = (initialize schedule_length entry_at s).0
  apply (makers_failed makers) s = (prepare_maker_selection_retry (pos max_attempts) makers s).0
  apply (index_set i) s = record s { schedule_index = i }
  apply (tx_set tx) s = record s { latest_tx = tx }
  apply taker_aborted s = record s { aborted = true }

  -- The replacements that the calls of `prepare_maker_selection_retry` grant.
  unfoldable pub granted : List Event → Taker → ℕ
  unfolding apply
  granted [] s = 0
  granted (event ∷ events) s =
      elim event [
        | initialized ↦ 0
        | makers_failed makers ↦
            if_granted (prepare_maker_selection_retry (pos max_attempts) makers s).1
        | index_set i ↦ 0
        | tx_set tx ↦ 0
        | taker_aborted ↦ 0
      ]
      + granted events (apply event s)

  -- How often an entry is begun that is not the one of the last replacement.
  unfoldable pub begun : List Event → Taker → ℕ
  unfolding apply
  begun [] s = 0
  begun (event ∷ events) s =
      elim event [
        | initialized ↦
            if_other (initialize schedule_length entry_at s).1
              (is_index s.maker_replacement_schedule_index (s.schedule_index +ℤ pos 1))
        | makers_failed makers ↦ 0
        | index_set i ↦ 0
        | tx_set tx ↦ 0
        | taker_aborted ↦ 0
      ]
      + begun events (apply event s)

  -- From one state to another, with so many replacements and so many other entries.
  abbrev Counts : ℕ → ℕ → Taker → Taker → Type 0
  Counts replaced other s t =
      (t.maker_replacement_attempts ≤ max_attempts)
      × (replaced + s.maker_replacement_attempts
          ≤ other * max_attempts + t.maker_replacement_attempts)
