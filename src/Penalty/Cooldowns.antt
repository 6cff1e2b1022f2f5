-- ===== src/Penalty/Cooldowns.antt =====
-- Who is on cooldown after a stage-2 failure, after a soft failure and after expired rows are cleared.
use joinmarket_clientserver.Prelude.{
  ◌≡◌, refl, ◌∙◌, ap, Bool, not, some, List, [], ◌∷◌, map, arith, if◌then◌else◌, keep, contains,
  Bool-cases, inl, inr, ℤ, pos, ◌+ℤ◌, ◌≤ℤ◌, ◌<ℤ◌, ltb_ℤ, leb_ℤ, ℤ_eq,
}
use joinmarket_clientserver.Prelude.Dict.{Dict, lookup}
use joinmarket_clientserver.Prelude.Sort.{sort}
use joinmarket_clientserver.Prelude.Text.{is_empty, Text, text_eq, text_leb, strip}
use joinmarket_clientserver.Penalty.State.{
  Row, Store, Policy, cooldown_seconds, ban_threshold, ban_window, auto_ban,
}
use joinmarket_clientserver.Penalty.Queries.{nicks_where, active_cooldowns, active_db_bans}
use joinmarket_clientserver.Penalty.Updates.{
  map_rows, clear_cooldown, clear_ban, prune, clean_nicks, stage2_step, record_stage2_cooldown,
  record_soft_failure, upserted, soft_merge, default_row, record_single_soft_failure, clean_stage,
}
use joinmarket_clientserver.Penalty.Lookup.{
  contains-active_cooldowns, contains-active_db_bans, lookup-for_each, lookup-stage2_step,
  stage2_row, contains-clean_nicks, clean_nicks-Distinct, lookup-record_single_soft_failure,
}
use joinmarket_clientserver.Penalty.Invariant.{
  IsValid, record_stage2_cooldown-IsValid, record_soft_failure-IsValid,
}

-- `nick` is one of the makers, spaces at its ends aside.
abbrev pub named : Text → List Text → Bool
named nick makers = contains nick (keep (λ m. not (is_empty m)) (map strip makers))

pub lookup-record_stage2_cooldown :
    (p : Policy) (makers : List Text) (attempt_id : Text) (now : ℤ) (j : Text) (s : Store)
    → pos 0 <ℤ cooldown_seconds p
    → lookup j (record_stage2_cooldown p makers attempt_id now s).penalties ≡ (
        if named j makers
        then some (
            stage2_row attempt_id now
              (now +ℤ cooldown_seconds p)
              (ban_threshold p)
              (ban_window p)
              (auto_ban p)
              (lookup j s.penalties))
        else lookup j s.penalties)
unfolding record_stage2_cooldown
lookup-record_stage2_cooldown p makers attempt_id now j s h =
    elim (Bool-cases (leb_ℤ (cooldown_seconds p) (pos 0))) [
      | inl e ↦ absurd (ground arith)
      | inr e ↦ rw (
        e,
        lookup-for_each (stage2_step p attempt_id now)
            (stage2_row attempt_id now (now +ℤ cooldown_seconds p) (ban_threshold p) (ban_window p)
              (auto_ban p))
            (lookup-stage2_step p attempt_id now) j (clean_nicks makers) s
            (clean_nicks-Distinct makers),
        contains-clean_nicks j makers,
      )
    ]

-- With a positive `taker_stage2_maker_cooldown_seconds` a stage-2 failure at `now` puts each named
-- maker on cooldown until `now` plus that time, and leaves the cooldown of every other nick as it was.
pub record_stage2_cooldown-active :
    (p : Policy) (makers : List Text) (attempt_id : Text) (now t : ℤ) (nick : Text) (s : Store)
    → IsValid s
    → pos 0 <ℤ cooldown_seconds p
    → contains nick (active_cooldowns t (record_stage2_cooldown p makers attempt_id now s)) ≡ (
        if named nick makers
        then ltb_ℤ t (now +ℤ cooldown_seconds p)
        else contains nick (active_cooldowns t s))
record_stage2_cooldown-active p makers attempt_id now t nick s v h = ground (
  arith,
  contains-active_cooldowns t nick (record_stage2_cooldown p makers attempt_id now s)
      (record_stage2_cooldown-IsValid p makers attempt_id now s v).distinct,
  contains-active_cooldowns t nick s v.distinct,
  lookup-record_stage2_cooldown p makers attempt_id now nick s h,
)

lookup-record_soft_failure :
    (makers : List Text) (stage attempt_id : Text) (now : ℤ) (j : Text) (s : Store)
    → lookup j (record_soft_failure makers stage attempt_id now s).penalties ≡ (
        if named j makers
        then some (
            upserted
              (soft_merge (clean_stage stage) attempt_id now (default_row now))
              (soft_merge (clean_stage stage) attempt_id now)
              (lookup j s.penalties))
        else lookup j s.penalties)
unfolding record_soft_failure
lookup-record_soft_failure makers stage attempt_id now j s = rw (
  lookup-for_each (λ k. record_single_soft_failure (clean_stage stage) attempt_id k now)
      (upserted (soft_merge (clean_stage stage) attempt_id now (default_row now))
        (soft_merge (clean_stage stage) attempt_id now))
      (lookup-record_single_soft_failure (clean_stage stage) attempt_id now) j (clean_nicks makers)
      s (clean_nicks-Distinct makers),
  contains-clean_nicks j makers,
)

-- A soft failure at any time leaves the cooldowns and bans of every nick as they were, at every time
-- from 0 on.
pub record_soft_failure-active :
    (makers : List Text) (stage attempt_id : Text) (now t : ℤ) (nick : Text) (s : Store)
    → IsValid s
    → pos 0 ≤ℤ t
    → let s' : Store = record_soft_failure makers stage attempt_id now s in
      (contains nick (active_cooldowns t s') ≡ contains nick (active_cooldowns t s))
      × (contains nick (active_db_bans t s') ≡ contains nick (active_db_bans t s))
record_soft_failure-active makers stage attempt_id now t nick s v h = ground (
  arith,
  contains-active_cooldowns t nick (record_soft_failure makers stage attempt_id now s)
      (record_soft_failure-IsValid makers stage attempt_id now s v).distinct,
  contains-active_cooldowns t nick s v.distinct,
  contains-active_db_bans t nick (record_soft_failure makers stage attempt_id now s)
      (record_soft_failure-IsValid makers stage attempt_id now s v).distinct,
  contains-active_db_bans t nick s v.distinct,
  lookup-record_soft_failure makers stage attempt_id now nick s,
)

-- A change of rows that no test sees changes no selection.
nicks_where-map_rows :
    (q : Row → Bool) (f : Row → Row) (d : Dict Text Row)
    → ((r : Row) → q (f r) ≡ q r)
    → nicks_where q (map_rows f d) ≡ nicks_where q d
unfolding nicks_where map_rows
nicks_where-map_rows q f [] h = refl
nicks_where-map_rows q f ((k, r) ∷ d) h = rw (h r, nicks_where-map_rows q f d h)

-- Clearing what has expired at `now` changes neither the cooldowns nor the bans that are active at
-- `now` or later.
pub prune-active :
    (now t : ℤ) (s : Store)
    → now ≤ℤ t
    → (active_cooldowns t (prune now s) ≡ active_cooldowns t s)
      × (active_db_bans t (prune now s) ≡ active_db_bans t s)
unfolding active_cooldowns active_db_bans prune
prune-active now t s h = (
  ap (sort text_leb) (
      nicks_where-map_rows _ (clear_ban now) _ (λ r. ground arith)
      ∙ nicks_where-map_rows _ (clear_cooldown now) s.penalties (λ r. ground arith)),
  ap (sort text_leb) (
      nicks_where-map_rows _ (clear_ban now) _ (λ r. ground arith)
      ∙ nicks_where-map_rows _ (clear_cooldown now) s.penalties (λ r. ground arith)),
)
