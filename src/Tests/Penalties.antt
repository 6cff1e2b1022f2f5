-- ===== src/Tests/Penalties.antt =====
-- The penalty store at concrete inputs.
use native.Mathlib.Decide.{ℕ_discrete}
use joinmarket_clientserver.Prelude.Sort.{sort}
use joinmarket_clientserver.Penalty.Updates.{ban, prune, record_stage2_cooldown}
use joinmarket_clientserver.Penalty.Cooldowns.{named, prune-active, record_stage2_cooldown-active}
use joinmarket_clientserver.Prelude.Dict.{insert, lookup}
use joinmarket_clientserver.Penalty.Bans.{strikes, strikes-banned}
use joinmarket_clientserver.Penalty.Queries.{
  active_cooldowns, active_db_bans, nicks_where, split_nicks,
}
use joinmarket_clientserver.Prelude.{
  [], arith, contains, if◌then◌else◌, leb_ℤ, ltb_ℤ, none, pos, refl, some, ◌+ℤ◌, ◌-ℤ◌, ◌∷◌, ◌≡◌,
  ℤ_eq,
}
use joinmarket_clientserver.Prelude.Text.{
  Text, codes, replace_code, splitlines, strip, text_discrete, text_leb, text_eq,
}
use joinmarket_clientserver.Penalty.State.{
  Policy, empty_store, Store, cooldown_seconds, ban_threshold,
}
use joinmarket_clientserver.Penalty.Invariant.{IsValid, Op, run, run-IsValid}

abbrev alice : Text
alice = codes "alice"

abbrev bob : Text
bob = codes "bob"

-- A policy with a threshold of 2 failures in an hour, and permanent automatic bans.
abbrev strict : Policy
strict = record {
  cooldown_seconds = some (pos 600);
  ban_threshold = some (pos 2);
  ban_window_seconds = some (pos 3600);
  auto_ban_seconds = none;
  ban_list = codes "mallory, #note";
  ban_file = none;
}

empty-IsValid : IsValid empty_store
empty-IsValid = record { distinct = tt; rows = tt }

split_nicks_run : split_nicks (codes "mallory, #note") ≡ codes "mallory" ∷ []
unfolding split_nicks splitlines strip replace_code text_discrete
split_nicks_run = refl

cooldown_run :
    active_cooldowns
      (pos 1500)
      (record_stage2_cooldown strict (bob ∷ alice ∷ codes " bob" ∷ []) [] (pos 1000) empty_store)
    ≡ alice ∷ bob ∷ []
unfolding record_stage2_cooldown active_cooldowns nicks_where sort strip lookup insert text_discrete
    text_leb ◌+ℤ◌ ◌-ℤ◌ ℕ_discrete
cooldown_run = refl

run-IsValid_example : IsValid (
    run strict
      (Op.stage2 (alice ∷ bob ∷ []) [] (pos 1000)
        ∷ Op.set_ban alice [] (pos 0) (pos 1001)
        ∷ Op.clear_expired (pos 9000)
        ∷ [])
      empty_store)
run-IsValid_example =
    run-IsValid strict
      (Op.stage2 (alice ∷ bob ∷ []) [] (pos 1000)
        ∷ Op.set_ban alice [] (pos 0) (pos 1001)
        ∷ Op.clear_expired (pos 9000)
        ∷ [])
      empty_store empty-IsValid

record_stage2_cooldown-active_example :
    contains alice (
      active_cooldowns
        (pos 1500)
        (record_stage2_cooldown strict (alice ∷ []) [] (pos 1000) empty_store))
    ≡ (if named alice (alice ∷ [])
        then ltb_ℤ (pos 1500) (pos 1000 +ℤ cooldown_seconds strict)
        else contains alice (active_cooldowns (pos 1500) empty_store))
record_stage2_cooldown-active_example =
    record_stage2_cooldown-active strict (alice ∷ []) [] (pos 1000) (pos 1500) alice empty_store
      empty-IsValid (omega arith)

prune-active_example :
    (active_cooldowns (pos 8) (prune (pos 7) empty_store) ≡ active_cooldowns (pos 8) empty_store)
    × (active_db_bans (pos 8) (prune (pos 7) empty_store) ≡ active_db_bans (pos 8) empty_store)
prune-active_example = prune-active (pos 7) (pos 8) empty_store (omega arith)

abbrev alice_banned : Store
alice_banned = ban alice (codes "manual") (pos 0) (pos 1000) empty_store

strikes-banned_example :
    contains alice
      (active_db_bans (pos 99999) (strikes strict alice [] (pos 1000 ∷ pos 1700 ∷ []) empty_store))
    ≡ leb_ℤ (ban_threshold strict) (pos 2)
unfolding strip ◌-ℤ◌ lookup ℕ_discrete
strikes-banned_example =
    strikes-banned strict alice [] (pos 1000) (pos 99999) (pos 1700 ∷ []) empty_store empty-IsValid
      (omega arith) (omega arith) (omega arith) refl refl (omega arith) (refl, tt) refl
