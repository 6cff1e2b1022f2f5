-- ===== src/Penalty/Bans.antt =====
-- Who is banned after `ban`, `unban` and a run of stage-2 failures.
use joinmarket_clientserver.Prelude.{
  ◌≡◌, refl, ◌∙◌, ap, true, false, ◌||◌, Option, none, some, List, [], ◌∷◌, ◌++◌, arith,
  if◌then◌else◌, ◌==◌, contains, contains-dedup, pos-add, All, length, contains-dedup, pos-add, ℤ,
  pos, ◌+ℤ◌, ◌-ℤ◌, ◌≤ℤ◌, ◌<ℤ◌, ltb_ℤ, leb_ℤ, ℤ_eq, ℕ, ◌+◌,
}
use joinmarket_clientserver.Prelude.Dict.{lookup}
use joinmarket_clientserver.Prelude.Text.{is_empty, Text, text_eq, text_leb, strip}
use joinmarket_clientserver.Prelude.Sort.{contains-sort}
use joinmarket_clientserver.Penalty.State.{
  Row, Store, Policy, cooldown_seconds, ban_threshold, ban_window, auto_ban,
}
use joinmarket_clientserver.Penalty.Queries.{active_db_bans, active_hard_bans, configured_bans}
use joinmarket_clientserver.Penalty.Updates.{ban, unban, record_stage2_cooldown}
use joinmarket_clientserver.Penalty.Lookup.{
  contains-active_db_bans, lookup-ban, lookup-unban, stage2_row,
}
use joinmarket_clientserver.Penalty.Invariant.{
  IsValid, ban-IsValid, unban-IsValid, record_stage2_cooldown-IsValid,
}
use joinmarket_clientserver.Penalty.Cooldowns.{lookup-record_stage2_cooldown}

-- A ban of a nick that is not blank is active from then on: for ever if `until` is 0, and otherwise
-- before `until`. No other nick's ban changes.
pub ban-active :
    (nick reason : Text) (until now t : ℤ) (j : Text) (s : Store)
    → IsValid s
    → is_empty (strip nick) ≡ false
    → contains j (active_db_bans t (ban nick reason until now s)) ≡ (
        if strip nick == j
        then until == pos 0 || ltb_ℤ t until
        else contains j (active_db_bans t s))
ban-active nick reason until now t j s v h = ground (
  arith,
  contains-active_db_bans t j (ban nick reason until now s)
      (ban-IsValid nick reason until now s v).distinct,
  contains-active_db_bans t j s v.distinct,
  lookup-ban nick reason until now j s h,
)

unban-active :
    (nick : Text) (now t : ℤ) (j : Text) (s : Store)
    → IsValid s
    → is_empty (strip nick) ≡ false
    → contains j (active_db_bans t (unban nick now s))
      ≡ (if strip nick == j then false else contains j (active_db_bans t s))
unban-active nick now t j s v h = ground (
  arith,
  contains-active_db_bans t j (unban nick now s) (unban-IsValid nick now s v).distinct,
  contains-active_db_bans t j s v.distinct,
  lookup-unban nick now j s h,
)

contains-append :
    (k : Text) (xs ys : List Text) → contains k (xs ++ ys) ≡ contains k xs || contains k ys
contains-append k [] ys = refl
contains-append k (x ∷ xs) ys = ground (arith, contains-append k xs ys)

-- A hard ban is a configured ban or an active one of the table.
contains-active_hard_bans :
    (p : Policy) (t : ℤ) (j : Text) (s : Store)
    → contains j (active_hard_bans p t s)
      ≡ contains j (configured_bans p) || contains j (active_db_bans t s)
unfolding active_hard_bans
contains-active_hard_bans p t j s =
    contains-sort text_leb j _ ∙ contains-dedup j _ ∙ contains-append j _ _

-- After `unban` of a nick that is not blank, the hard bans at any time are the configured ones and
-- the other nicks' active bans of the table.
pub unban-active_hard_bans :
    (p : Policy) (nick : Text) (now t : ℤ) (j : Text) (s : Store)
    → IsValid s
    → is_empty (strip nick) ≡ false
    → contains j (active_hard_bans p t (unban nick now s))
      ≡ contains j (configured_bans p)
        || (if strip nick == j then false else contains j (active_db_bans t s))
unban-active_hard_bans p nick now t j s v h =
    contains-active_hard_bans p t j (unban nick now s)
    ∙ ap (λ b. contains j (configured_bans p) || b) (unban-active nick now t j s v h)

-- Stage-2 failures of one maker at the given times, in turn.
unfoldable pub strikes : Policy → Text → Text → List ℤ → Store → Store
strikes p nick attempt_id [] s = s
strikes p nick attempt_id (now ∷ times) s =
    strikes p nick attempt_id times (record_stage2_cooldown p (nick ∷ []) attempt_id now s)

-- The row after `n` failures in a window that began at `start`, under permanent automatic bans.
record IsStruck (p : Policy) (start : ℤ) (n : ℕ) (r : Row) : Type 0 where
  counted : r.cooldown_count ≡ pos n
  began : r.cooldown_window_start ≡ start
  flagged : r.banned ≡ leb_ℤ (ban_threshold p) (pos n)
  ended : r.banned_until ≡ pos 0

-- A later failure lies in the window that began at `start`, if windows are used.
abbrev pub InWindow : Policy → ℤ → ℤ → Type 0
InWindow p start now = leb_ℤ (ban_window p) (pos 0) || leb_ℤ (now -ℤ start) (ban_window p) ≡ true

module _ (p : Policy) (attempt_id : Text) (threshold_pos : pos 0 <ℤ ban_threshold p)
    (permanent : auto_ban p ≤ℤ pos 0) where
  abbrev struck_row : ℤ → Option Row → Row
  struck_row now row =
      stage2_row attempt_id now (now +ℤ cooldown_seconds p) (ban_threshold p) (ban_window p)
        (auto_ban p) row

  first_strike : (now : ℤ) → IsStruck p now 1 (struck_row now none)
  first_strike now = ground (arith, pos-add 0 1)

  next_strike :
      (start now : ℤ) (n : ℕ) (r : Row)
      → pos 0 <ℤ start
      → InWindow p start now
      → IsStruck p start n r
      → IsStruck p start (n + 1) (struck_row now (some r))
  next_strike start now n r h w i =
      let e : (r.cooldown_count +ℤ pos 1 ≡ pos (n + 1)) =
        ap (λ c. c +ℤ pos 1) i.counted ∙ pos-add n 1 in
      ground arith

  strike_lookup :
      (now : ℤ) (nick : Text) (s : Store)
      → pos 0 <ℤ cooldown_seconds p
      → strip nick ≡ nick
      → is_empty nick ≡ false
      → lookup nick (record_stage2_cooldown p (nick ∷ []) attempt_id now s).penalties
        ≡ some (struck_row now (lookup nick s.penalties))
  strike_lookup now nick s h clean filled =
      ground (arith, lookup-record_stage2_cooldown p (nick ∷ []) attempt_id now nick s h)

  strikes-IsStruck :
      (start : ℤ) (n : ℕ) (nick : Text) (times : List ℤ) (s : Store) (r : Row)
      → pos 0 <ℤ cooldown_seconds p
      → strip nick ≡ nick
      → is_empty nick ≡ false
      → pos 0 <ℤ start
      → All (InWindow p start) times
      → lookup nick s.penalties ≡ some r
      → IsStruck p start n r
      → (r' : Row) × (lookup nick (strikes p nick attempt_id times s).penalties ≡ some r')
        × IsStruck p start (n + length times) r'
  unfolding strikes
  strikes-IsStruck start n nick [] s r h clean filled later w e i = (r, e, ground arith)
  strikes-IsStruck start n nick (now ∷ times) s r h clean filled later w e i =
      let s1 : Store = record_stage2_cooldown p (nick ∷ []) attempt_id now s in
      let (r', e', i') =
        strikes-IsStruck start (n + 1) nick times s1 (struck_row now (some r)) h clean filled later
          w.1 (strike_lookup now nick s h clean filled ∙ ap (λ o. some (struck_row now o)) e)
          (next_strike start now n r later w.0 i) in
      (r', e', ground arith)

strikes-IsValid :
    (p : Policy) (nick attempt_id : Text) (times : List ℤ) (s : Store)
    → IsValid s
    → IsValid (strikes p nick attempt_id times s)
unfolding strikes
strikes-IsValid p nick attempt_id [] s v = v
strikes-IsValid p nick attempt_id (now ∷ times) s v =
    strikes-IsValid p nick attempt_id times _
      (record_stage2_cooldown-IsValid p (nick ∷ []) attempt_id now s v)

-- Let cooldowns be on, the threshold positive and automatic bans permanent. A maker with no row yet,
-- whose name has no spaces at its ends and is not empty, fails first at a positive time, and each
-- later time within the window that began there. Then it is banned, at every time, exactly when the
-- number of its failures has reached the threshold.
pub strikes-banned :
    (p : Policy) (nick attempt_id : Text) (start t : ℤ) (times : List ℤ) (s : Store)
    → IsValid s
    → pos 0 <ℤ cooldown_seconds p
    → pos 0 <ℤ ban_threshold p
    → auto_ban p ≤ℤ pos 0
    → strip nick ≡ nick
    → is_empty nick ≡ false
    → pos 0 <ℤ start
    → All (InWindow p start) times
    → lookup nick s.penalties ≡ none
    → contains nick (active_db_bans t (strikes p nick attempt_id (start ∷ times) s))
      ≡ leb_ℤ (ban_threshold p) (pos (1 + length times))
unfolding strikes
strikes-banned p nick attempt_id start t times s v h threshold_pos permanent clean filled later w
      new =
    let s1 : Store = record_stage2_cooldown p (nick ∷ []) attempt_id start s in
    let v1 : IsValid s1 = record_stage2_cooldown-IsValid p (nick ∷ []) attempt_id start s v in
    let (r, e, i) =
      strikes-IsStruck p attempt_id threshold_pos permanent start 1 nick times s1
        (struck_row p attempt_id threshold_pos permanent start none) h clean filled later w
        (strike_lookup p attempt_id threshold_pos permanent start nick s h clean filled
          ∙ ap (λ o. some (struck_row p attempt_id threshold_pos permanent start o)) new)
        (first_strike p attempt_id threshold_pos permanent start) in
    ground (
      arith,
      contains-active_db_bans t nick (strikes p nick attempt_id times s1)
          (strikes-IsValid p nick attempt_id times s1 v1).distinct,
    )
