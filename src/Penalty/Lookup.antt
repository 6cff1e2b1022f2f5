-- ===== src/Penalty/Lookup.antt =====
-- What the methods of the penalty store do to the row of each nick, and what the queries say of it.
use joinmarket_clientserver.Prelude.{
  ◌≡◌, refl, Bool, false, not, Option, some, List, [], ◌∷◌, arith, ◌∙◌, ap, keep, map,
  if◌then◌else◌, ◌==◌, contains, Distinct, contains-dedup, dedup-Distinct, ℤ, ltb_ℤ, ◌+ℤ◌,
}
use mathlib.Core.Option
use joinmarket_clientserver.Prelude.Dict.{Dict, keys, holds, lookup, lookup-insert, lookup-update}
use joinmarket_clientserver.Prelude.Sort.{contains-sort, sort-Distinct}
use joinmarket_clientserver.Prelude.Text.{is_empty, Text, text_eq, text_leb, strip}
use joinmarket_clientserver.Penalty.State.{
  Row, Store, Policy, cooldown_seconds, ban_threshold, ban_window, auto_ban,
}
use joinmarket_clientserver.Penalty.Queries.{
  nicks_where, active_cooldowns, is_banned, active_db_bans,
}
use joinmarket_clientserver.Penalty.Updates.{
  map_rows, clear_cooldown, clear_ban, prune, upserted, upsert, stage2_step, clean_nicks,
  stage2_excluded, stage2_merge, record_single_stage2_cooldown, for_each, default_row, soft_merge,
  record_single_soft_failure, ban_merge, ban, unban_row, unban,
}

not-contains-nicks_where :
    (p : Row → Bool) (k : Text) (d : Dict Text Row)
    → contains k (keys d) ≡ false
    → contains k (nicks_where p d) ≡ false
unfolding nicks_where
not-contains-nicks_where p k [] h = refl
not-contains-nicks_where p k ((i, r) ∷ d) h = ground (arith, not-contains-nicks_where p k d)

-- A nick is selected exactly when its row passes the test.
contains-nicks_where :
    (p : Row → Bool) (k : Text) (d : Dict Text Row)
    → Distinct (keys d)
    → contains k (nicks_where p d) ≡ holds p (lookup k d)
unfolding nicks_where lookup
contains-nicks_where p k [] h = refl
contains-nicks_where p k ((i, r) ∷ d) h =
    ground (arith, contains-nicks_where p k d h.1, not-contains-nicks_where p i d h.0)

pub contains-active_cooldowns :
    (now : ℤ) (k : Text) (s : Store)
    → Distinct (keys s.penalties)
    → contains k (active_cooldowns now s)
      ≡ holds (λ r. ltb_ℤ now r.cooldown_until) (lookup k s.penalties)
unfolding active_cooldowns
contains-active_cooldowns now k s h =
    contains-sort text_leb k _ ∙ contains-nicks_where _ k s.penalties h

pub contains-active_db_bans :
    (now : ℤ) (k : Text) (s : Store)
    → Distinct (keys s.penalties)
    → contains k (active_db_bans now s) ≡ holds (is_banned now) (lookup k s.penalties)
unfolding active_db_bans
contains-active_db_bans now k s h =
    contains-sort text_leb k _ ∙ contains-nicks_where _ k s.penalties h

lookup-map_rows :
    (f : Row → Row) (k : Text) (d : Dict Text Row)
    → lookup k (map_rows f d) ≡ Option.map f (lookup k d)
unfolding map_rows lookup
lookup-map_rows f k [] = refl
lookup-map_rows f k ((i, r) ∷ d) = ground (arith, lookup-map_rows f k d)

pub lookup-prune :
    (now : ℤ) (k : Text) (s : Store)
    → lookup k (prune now s).penalties
      ≡ Option.map (λ r. clear_ban now (clear_cooldown now r)) (lookup k s.penalties)
unfolding prune
lookup-prune now k s = ground (
  arith,
  lookup-map_rows (clear_ban now) k (map_rows (clear_cooldown now) s.penalties),
  lookup-map_rows (clear_cooldown now) k s.penalties,
)

pub keys-map_rows : (f : Row → Row) (d : Dict Text Row) → keys (map_rows f d) ≡ keys d
unfolding map_rows
keys-map_rows f [] = refl
keys-map_rows f ((i, r) ∷ d) = ap (◌∷◌ i) (keys-map_rows f d)

pub lookup-upsert :
    (k j : Text) (fresh : Row) (merge : Row → Row) (d : Dict Text Row)
    → lookup j (upsert k fresh merge d)
      ≡ (if k == j then some (upserted fresh merge (lookup k d)) else lookup j d)
unfolding upsert
lookup-upsert k j fresh merge d =
    ground (arith, lookup-insert k j (upserted fresh merge (lookup k d)) d)

pub contains-clean_nicks :
    (k : Text) (makers : List Text)
    → contains k (clean_nicks makers) ≡ contains k (keep (λ m. not (is_empty m)) (map strip makers))
unfolding clean_nicks
contains-clean_nicks k makers = contains-sort text_leb k _ ∙ contains-dedup k _

pub clean_nicks-Distinct : (makers : List Text) → Distinct (clean_nicks makers)
unfolding clean_nicks
clean_nicks-Distinct makers =
    sort-Distinct text_leb _
      (dedup-Distinct (keep {A = Text} (λ m. not (is_empty m)) (map strip makers)))

-- A loop over distinct nicks whose step sets one row leaves each of them with its own new row.
module _ (step : Text → Store → Store) (effect : Option Row → Row)
    (one : (k j : Text) (s : Store)
      → lookup j (step k s).penalties
        ≡ (if k == j then some (effect (lookup k s.penalties)) else lookup j s.penalties)) where
  pub lookup-for_each :
      (j : Text) (ks : List Text) (s : Store)
      → Distinct ks
      → lookup j (for_each step ks s).penalties
        ≡ (if contains j ks then some (effect (lookup j s.penalties)) else lookup j s.penalties)
  unfolding for_each
  lookup-for_each j [] s h = refl
  lookup-for_each j (k ∷ ks) s h = ground (arith, lookup-for_each j ks (step k s) h.1, one k j s)

-- The row that a stage-2 cooldown leaves.
abbrev pub stage2_row : Text → ℤ → ℤ → ℤ → ℤ → ℤ → Option Row → Row
stage2_row attempt_id now until threshold window auto row =
    let excluded : Row = stage2_excluded attempt_id now until threshold window auto row in
    upserted excluded (stage2_merge excluded) row

pub lookup-record_single_stage2_cooldown :
    (attempt_id : Text) (now until threshold window auto : ℤ) (k j : Text) (s : Store)
    → lookup j
        (record_single_stage2_cooldown k attempt_id now until threshold window auto s).penalties
      ≡ (if k == j
          then some (stage2_row attempt_id now until threshold window auto (lookup k s.penalties))
          else lookup j s.penalties)
unfolding record_single_stage2_cooldown
lookup-record_single_stage2_cooldown attempt_id now until threshold window auto k j s =
    lookup-upsert k j _ _ s.penalties

pub lookup-stage2_step :
    (p : Policy) (attempt_id : Text) (now : ℤ) (k j : Text) (s : Store)
    → lookup j (stage2_step p attempt_id now k s).penalties ≡ (
        if k == j
        then some (
            stage2_row attempt_id now
              (now +ℤ cooldown_seconds p)
              (ban_threshold p)
              (ban_window p)
              (auto_ban p)
              (lookup k s.penalties))
        else lookup j s.penalties)
unfolding stage2_step
lookup-stage2_step p attempt_id now k j s =
    lookup-record_single_stage2_cooldown attempt_id now (now +ℤ cooldown_seconds p)
      (ban_threshold p) (ban_window p) (auto_ban p) k j s

pub lookup-record_single_soft_failure :
    (stage attempt_id : Text) (now : ℤ) (k j : Text) (s : Store)
    → lookup j (record_single_soft_failure stage attempt_id k now s).penalties ≡ (
        if k == j
        then some (
            upserted
              (soft_merge stage attempt_id now (default_row now))
              (soft_merge stage attempt_id now)
              (lookup k s.penalties))
        else lookup j s.penalties)
unfolding record_single_soft_failure
lookup-record_single_soft_failure stage attempt_id now k j s = lookup-upsert k j _ _ s.penalties

pub lookup-ban :
    (nick reason : Text) (until now : ℤ) (j : Text) (s : Store)
    → is_empty (strip nick) ≡ false
    → lookup j (ban nick reason until now s).penalties ≡ (
        if strip nick == j
        then some (
            upserted
              (ban_merge reason until now (default_row now))
              (ban_merge reason until now)
              (lookup (strip nick) s.penalties))
        else lookup j s.penalties)
unfolding ban
lookup-ban nick reason until now j s h = rw h (lookup-upsert (strip nick) j _ _ s.penalties)

pub lookup-unban :
    (nick : Text) (now : ℤ) (j : Text) (s : Store)
    → is_empty (strip nick) ≡ false
    → lookup j (unban nick now s).penalties ≡ (
        if strip nick == j
        then Option.map (unban_row now) (lookup j s.penalties)
        else lookup j s.penalties)
unfolding unban
lookup-unban nick now j s h = rw h (lookup-update (strip nick) j (unban_row now) s.penalties)
