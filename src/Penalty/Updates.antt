-- ===== src/Penalty/Updates.antt =====
-- What `MakerPenaltyStore` writes: each method is one function on the store, a transaction one step.
use joinmarket_clientserver.Prelude.{
  true, false, not, ◌&&◌, ◌||◌, Option, none, some, List, [], ◌∷◌, ◌++◌, map, if◌then◌else◌, keep,
  dedup, ℤ, pos, ◌+ℤ◌, ◌-ℤ◌, ltb_ℤ, leb_ℤ,
}
use joinmarket_clientserver.Prelude.Dict.{Dict, lookup, insert, update}
use joinmarket_clientserver.Prelude.Sort.{sort}
use joinmarket_clientserver.Prelude.Text.{is_empty, Text, codes, text_eq, text_leb, strip}
use joinmarket_clientserver.Penalty.State.{
  Row, Store, Policy, EventType, cooldown_seconds, ban_threshold, ban_window, auto_ban,
}

unfoldable pub map_rows : (Row → Row) → Dict Text Row → Dict Text Row
map_rows f [] = []
map_rows f ((k, r) ∷ d) = (k, f r) ∷ map_rows f d

abbrev pub clear_cooldown : ℤ → Row → Row
clear_cooldown now r =
    if ltb_ℤ (pos 0) r.cooldown_until && leb_ℤ r.cooldown_until now
    then record r { cooldown_until = pos 0; updated_at = now }
    else r

abbrev pub clear_ban : ℤ → Row → Row
clear_ban now r =
    if r.banned && (ltb_ℤ (pos 0) r.banned_until && leb_ℤ r.banned_until now)
    then record r { banned = false; banned_until = pos 0; updated_at = now }
    else r

unfoldable pub prune : ℤ → Store → Store
unfolding map_rows
prune now s = record s {
  penalties = map_rows (clear_ban now) (map_rows (clear_cooldown now) s.penalties);
}

-- What `INSERT ... ON CONFLICT(nick) DO UPDATE` leaves in the row: the row to insert, or the old
-- one with the columns that are set.
abbrev pub upserted : Row → (Row → Row) → Option Row → Row
upserted fresh merge none = fresh
upserted fresh merge (some old) = merge old

unfoldable pub upsert : Text → Row → (Row → Row) → Dict Text Row → Dict Text Row
upsert nick fresh merge d = insert nick (upserted fresh merge (lookup nick d)) d

-- `sorted(set(m.strip() for m in makers if m and m.strip()))`
unfoldable pub clean_nicks : List Text → List Text
clean_nicks makers = sort text_leb (dedup (keep (λ m. not (is_empty m)) (map strip makers)))

-- The cooldown count and the start of its window, before this failure is counted.
abbrev pub window_before : ℤ → ℤ → Option Row → ℤ × ℤ
window_before now window_seconds none = (pos 0, now)
window_before now window_seconds (some r) =
    if ltb_ℤ (pos 0) window_seconds
      && (leb_ℤ r.cooldown_window_start (pos 0)
          || ltb_ℤ window_seconds (now -ℤ r.cooldown_window_start))
    then (pos 0, now)
    else (r.cooldown_count, r.cooldown_window_start)

-- The row that `_record_single_stage2_cooldown` tries to insert, `excluded` in its SQL.
abbrev pub stage2_excluded : Text → ℤ → ℤ → ℤ → ℤ → ℤ → Option Row → Row
stage2_excluded attempt_id now cooldown_until threshold window_seconds auto_ban_seconds row =
    let (count, window_start) = window_before now window_seconds row in
    let count' = count +ℤ pos 1 in
    let reached = ltb_ℤ (pos 0) threshold && leb_ℤ threshold count' in
    record {
      cooldown_until = cooldown_until;
      cooldown_count = count';
      cooldown_window_start = window_start;
      banned = reached;
      banned_until =
          if reached
          then (if leb_ℤ auto_ban_seconds (pos 0) then pos 0 else now +ℤ auto_ban_seconds)
          else pos 0;
      ban_reason = if reached then codes "stage2_cooldown_threshold" else [];
      last_stage = codes "stage2";
      last_attempt_id = attempt_id;
      last_event_at = now;
      updated_at = now;
    }

-- The ban columns change only if the excluded row is banned.
abbrev pub stage2_merge : Row → Row → Row
stage2_merge excluded old = if excluded.banned then excluded else record excluded {
  banned = old.banned;
  banned_until = old.banned_until;
  ban_reason = old.ban_reason;
}

unfoldable pub record_single_stage2_cooldown : Text → Text → ℤ → ℤ → ℤ → ℤ → ℤ → Store → Store
unfolding upsert
record_single_stage2_cooldown nick attempt_id now cooldown_until threshold window_seconds
      auto_ban_seconds s =
    let excluded : Row =
      stage2_excluded attempt_id now cooldown_until threshold window_seconds auto_ban_seconds
        (lookup nick s.penalties) in
    record {
      penalties = upsert nick excluded (stage2_merge excluded) s.penalties;
      events =
          s.events
          ++ record {
            nick = nick;
            event_type = EventType.cooldown;
            stage = codes "stage2";
            attempt_id = attempt_id;
            created_at = now;
            details = codes "stage2_timeout";
          }
            ∷ [];
    }

-- `for nick in nicks: step(nick)`
unfoldable pub for_each : {A : Type 0} → (A → Store → Store) → List A → Store → Store
for_each step [] s = s
for_each step (x ∷ xs) s = for_each step xs (step x s)

-- The body of the loop of `record_stage2_cooldown`.
unfoldable pub stage2_step : Policy → Text → ℤ → Text → Store → Store
unfolding record_single_stage2_cooldown
stage2_step p attempt_id now nick s =
    record_single_stage2_cooldown nick attempt_id now (now +ℤ cooldown_seconds p) (ban_threshold p)
      (ban_window p) (auto_ban p) s

unfoldable pub record_stage2_cooldown : Policy → List Text → Text → ℤ → Store → Store
unfolding clean_nicks stage2_step for_each
record_stage2_cooldown p makers attempt_id now s =
    if leb_ℤ (cooldown_seconds p) (pos 0)
    then s
    else for_each (stage2_step p attempt_id now) (clean_nicks makers) s

-- The columns that an INSERT leaves out have the schema's defaults.
abbrev pub default_row : ℤ → Row
default_row now = record {
  cooldown_until = pos 0;
  cooldown_count = pos 0;
  cooldown_window_start = pos 0;
  banned = false;
  banned_until = pos 0;
  ban_reason = [];
  last_stage = [];
  last_attempt_id = [];
  last_event_at = pos 0;
  updated_at = now;
}

abbrev pub soft_merge : Text → Text → ℤ → Row → Row
soft_merge stage attempt_id now old = record old {
  last_stage = stage;
  last_attempt_id = attempt_id;
  last_event_at = now;
  updated_at = now;
}

unfoldable pub record_single_soft_failure : Text → Text → Text → ℤ → Store → Store
unfolding upsert
record_single_soft_failure stage attempt_id nick now s = record {
  penalties =
      upsert nick (soft_merge stage attempt_id now (default_row now))
        (soft_merge stage attempt_id now) s.penalties;
  events =
      s.events
      ++ record {
        nick = nick;
        event_type = EventType.soft_failure;
        stage = stage;
        attempt_id = attempt_id;
        created_at = now;
        details = [];
      }
        ∷ [];
}

-- `(stage or "unknown").strip() or "unknown"`
unfoldable pub clean_stage : Text → Text
clean_stage stage = if is_empty (strip stage) then codes "unknown" else strip stage

unfoldable pub record_soft_failure : List Text → Text → Text → ℤ → Store → Store
unfolding clean_nicks clean_stage record_single_soft_failure for_each
record_soft_failure makers stage attempt_id now s =
    for_each (λ nick. record_single_soft_failure (clean_stage stage) attempt_id nick now)
      (clean_nicks makers) s

abbrev pub ban_merge : Text → ℤ → ℤ → Row → Row
ban_merge reason until now old = record old {
  banned = true;
  banned_until = until;
  ban_reason = reason;
  last_event_at = now;
  updated_at = now;
}

unfoldable pub ban : Text → Text → ℤ → ℤ → Store → Store
unfolding upsert
ban nick reason until now s =
    let nick' = strip nick in
    if is_empty nick' then s else record {
      penalties =
          upsert nick' (ban_merge reason until now (default_row now)) (ban_merge reason until now)
            s.penalties;
      events =
          s.events
          ++ record {
            nick = nick';
            event_type = EventType.ban;
            stage = [];
            attempt_id = [];
            created_at = now;
            details = reason;
          }
            ∷ [];
    }

abbrev pub unban_row : ℤ → Row → Row
unban_row now r = record r { banned = false; banned_until = pos 0; updated_at = now }

unfoldable pub unban : Text → ℤ → Store → Store
unban nick now s =
    let nick' = strip nick in
    if is_empty nick' then s else record {
      penalties = update nick' (unban_row now) s.penalties;
      events =
          s.events
          ++ record {
            nick = nick';
            event_type = EventType.unban;
            stage = [];
            attempt_id = [];
            created_at = now;
            details = [];
          }
            ∷ [];
    }
