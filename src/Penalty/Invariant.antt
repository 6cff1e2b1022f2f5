-- ===== src/Penalty/Invariant.antt =====
-- Every method keeps the penalty store valid, whatever the order in which they are called.
use joinmarket_clientserver.Prelude.{
  ◌≡◌, refl, inl, inr, true, ◌||◌, Option, none, some, List, [], ◌∷◌, arith, ◌==◌, Distinct, All,
  Bool-cases, ℤ, pos, leb_ℤ, ℤ_eq, +ℤ_parts, ◌+ℤ◌,
}
use joinmarket_clientserver.Prelude.Dict.{
  Dict, keys, values, lookup, insert-Distinct, keys-update, All-insert, All-update, All-lookup,
}
use joinmarket_clientserver.Prelude.Text.{is_empty, Text, text_eq, strip}
use joinmarket_clientserver.Penalty.State.{
  Row, Store, Policy, cooldown_seconds, ban_threshold, ban_window, auto_ban,
}
use joinmarket_clientserver.Penalty.Updates.{
  map_rows, prune, clear_ban, clear_cooldown, upserted, upsert, for_each, stage2_excluded,
  stage2_merge, record_single_stage2_cooldown, record_stage2_cooldown, record_single_soft_failure,
  record_soft_failure, ban, unban, stage2_step, clean_nicks, soft_merge, default_row, ban_merge,
  unban_row,
}
use joinmarket_clientserver.Penalty.Lookup.{keys-map_rows}

-- A row that is not banned has no end of a ban, and no count is negative.
abbrev pub RowIsValid : Row → Type 0
RowIsValid r =
    ((r.banned || r.banned_until == pos 0) ≡ true) × (leb_ℤ (pos 0) r.cooldown_count ≡ true)

-- Each nick has one row, and every row is valid.
pub record IsValid (s : Store) : Type 0 where
  pub distinct : Distinct (keys s.penalties)
  pub rows : All RowIsValid (values s.penalties)

-- The calls that change the store, as data.
pub data Op : Type 0 where
  stage2 : List Text → Text → ℤ → Op
  soft : List Text → Text → Text → ℤ → Op
  set_ban : Text → Text → ℤ → ℤ → Op
  lift_ban : Text → ℤ → Op
  clear_expired : ℤ → Op

unfoldable pub apply : Policy → Op → Store → Store
unfolding record_stage2_cooldown record_soft_failure ban unban prune
apply p (stage2 makers attempt_id now) s = record_stage2_cooldown p makers attempt_id now s
apply p (soft makers stage attempt_id now) s = record_soft_failure makers stage attempt_id now s
apply p (set_ban nick reason until now) s = ban nick reason until now s
apply p (lift_ban nick now) s = unban nick now s
apply p (clear_expired now) s = prune now s

unfoldable pub run : Policy → List Op → Store → Store
unfolding apply
run p [] s = s
run p (op ∷ ops) s = run p ops (apply p op s)

map_rows-rows :
    (f : Row → Row) (d : Dict Text Row)
    → ((r : Row) → RowIsValid r → RowIsValid (f r))
    → All RowIsValid (values d)
    → All RowIsValid (values (map_rows f d))
unfolding map_rows
map_rows-rows f [] p h = tt
map_rows-rows f ((k, r) ∷ d) p h = (p r h.0, map_rows-rows f d p h.1)

pub prune-IsValid : (now : ℤ) (s : Store) → IsValid s → IsValid (prune now s)
unfolding prune
prune-IsValid now s v = record {
  distinct = rw (keys-map_rows, keys-map_rows) v.distinct;
  rows =
      map_rows-rows (clear_ban now) _ (λ r h. ground arith)
        (map_rows-rows (clear_cooldown now) s.penalties (λ r h. ground arith) v.rows);
}

upsert-Distinct :
    (k : Text) (fresh : Row) (merge : Row → Row) (d : Dict Text Row)
    → Distinct (keys d)
    → Distinct (keys (upsert k fresh merge d))
unfolding upsert
upsert-Distinct k fresh merge d h = insert-Distinct k _ d h

upsert-rows :
    (k : Text) (fresh : Row) (merge : Row → Row) (d : Dict Text Row)
    → RowIsValid (upserted fresh merge (lookup k d))
    → All RowIsValid (values d)
    → All RowIsValid (values (upsert k fresh merge d))
unfolding upsert
upsert-rows k fresh merge d ok h = All-insert RowIsValid k _ d ok h

-- The row that is found is valid.
abbrev FoundIsValid : Option Row → Type 0
FoundIsValid none = Unit
FoundIsValid (some r) = RowIsValid r

lookup-IsValid : (k : Text) (s : Store) → IsValid s → FoundIsValid (lookup k s.penalties)
lookup-IsValid k s v = go (lookup k s.penalties) refl
  where
    go : (row : Option Row) → lookup k s.penalties ≡ row → FoundIsValid row
    go none e = tt
    go (some r) e = All-lookup RowIsValid k s.penalties v.rows e

stage2-RowIsValid :
    (attempt_id : Text) (now until threshold window auto : ℤ) (row : Option Row)
    → FoundIsValid row
    → let excluded : Row = stage2_excluded attempt_id now until threshold window auto row in
      RowIsValid (upserted excluded (stage2_merge excluded) row)
stage2-RowIsValid attempt_id now until threshold window auto none h =
    ground (arith, +ℤ_parts (pos 0) (pos 1))
stage2-RowIsValid attempt_id now until threshold window auto (some r) h =
    ground (arith, +ℤ_parts (pos 0) (pos 1), +ℤ_parts r.cooldown_count (pos 1))

single_stage2-IsValid :
    (nick attempt_id : Text) (now until threshold window auto : ℤ) (s : Store)
    → IsValid s
    → IsValid (record_single_stage2_cooldown nick attempt_id now until threshold window auto s)
unfolding record_single_stage2_cooldown
single_stage2-IsValid nick attempt_id now until threshold window auto s v = record {
  distinct = upsert-Distinct nick _ _ s.penalties v.distinct;
  rows =
      upsert-rows nick _ _ s.penalties
        (stage2-RowIsValid attempt_id now until threshold window auto (lookup nick s.penalties)
          (lookup-IsValid nick s v))
        v.rows;
}

stage2_step-IsValid :
    (p : Policy) (attempt_id : Text) (now : ℤ) (nick : Text) (s : Store)
    → IsValid s
    → IsValid (stage2_step p attempt_id now nick s)
unfolding stage2_step
stage2_step-IsValid p attempt_id now nick s v =
    single_stage2-IsValid nick attempt_id now (now +ℤ cooldown_seconds p) (ban_threshold p)
      (ban_window p) (auto_ban p) s v

single_soft-IsValid :
    (stage attempt_id nick : Text) (now : ℤ) (s : Store)
    → IsValid s
    → IsValid (record_single_soft_failure stage attempt_id nick now s)
unfolding record_single_soft_failure
single_soft-IsValid stage attempt_id nick now s v = record {
  distinct = upsert-Distinct nick _ _ s.penalties v.distinct;
  rows =
      upsert-rows nick _ _ s.penalties (go (lookup nick s.penalties) (lookup-IsValid nick s v))
        v.rows;
}
  where
    go :
        (row : Option Row)
        → FoundIsValid row
        → RowIsValid (
            upserted
              (soft_merge stage attempt_id now (default_row now))
              (soft_merge stage attempt_id now)
              row)
    go none h = ground arith
    go (some r) h = h

pub ban-IsValid :
    (nick reason : Text) (until now : ℤ) (s : Store)
    → IsValid s
    → IsValid (ban nick reason until now s)
unfolding ban
ban-IsValid nick reason until now s v = elim (Bool-cases (is_empty (strip nick))) [
  | inl e ↦ rw e v
  | inr e ↦ rw e (record {
    distinct = upsert-Distinct (strip nick) _ _ s.penalties v.distinct;
    rows =
        upsert-rows (strip nick) _ _ s.penalties
          (go (lookup (strip nick) s.penalties) (lookup-IsValid (strip nick) s v)) v.rows;
  })
]
  where
    go :
        (row : Option Row)
        → FoundIsValid row
        → RowIsValid (
            upserted
              (ban_merge reason until now (default_row now))
              (ban_merge reason until now)
              row)
    go none h = ground arith
    go (some r) h = (refl, h.1)

pub unban-IsValid : (nick : Text) (now : ℤ) (s : Store) → IsValid s → IsValid (unban nick now s)
unfolding unban
unban-IsValid nick now s v = elim (Bool-cases (is_empty (strip nick))) [
  | inl e ↦ rw e v
  | inr e ↦ rw e (record {
    distinct = rw keys-update v.distinct;
    rows =
        All-update RowIsValid (strip nick) (unban_row now) s.penalties (λ r h. ground arith) v.rows;
  })
]

for_each-IsValid :
    {A : Type 0} (step : A → Store → Store)
    → ((x : A) (s : Store) → IsValid s → IsValid (step x s))
    → (xs : List A) (s : Store) → IsValid s
    → IsValid (for_each step xs s)
unfolding for_each
for_each-IsValid step one [] s v = v
for_each-IsValid step one (x ∷ xs) s v = for_each-IsValid step one xs (step x s) (one x s v)

pub record_stage2_cooldown-IsValid :
    (p : Policy) (makers : List Text) (attempt_id : Text) (now : ℤ) (s : Store)
    → IsValid s
    → IsValid (record_stage2_cooldown p makers attempt_id now s)
unfolding record_stage2_cooldown
record_stage2_cooldown-IsValid p makers attempt_id now s v =
    elim (Bool-cases (leb_ℤ (cooldown_seconds p) (pos 0))) [
      | inl e ↦ rw e v
      | inr e ↦
          rw e (for_each-IsValid _ (stage2_step-IsValid p attempt_id now) (clean_nicks makers) s v)
    ]

pub record_soft_failure-IsValid :
    (makers : List Text) (stage attempt_id : Text) (now : ℤ) (s : Store)
    → IsValid s
    → IsValid (record_soft_failure makers stage attempt_id now s)
unfolding record_soft_failure
record_soft_failure-IsValid makers stage attempt_id now s v =
    for_each-IsValid _ (λ nick t w. single_soft-IsValid _ attempt_id nick now t w)
      (clean_nicks makers) s v

apply-IsValid : (p : Policy) (op : Op) (s : Store) → IsValid s → IsValid (apply p op s)
unfolding apply
apply-IsValid p (stage2 makers attempt_id now) s v =
    record_stage2_cooldown-IsValid p makers attempt_id now s v
apply-IsValid p (soft makers stage attempt_id now) s v =
    record_soft_failure-IsValid makers stage attempt_id now s v
apply-IsValid p (set_ban nick reason until now) s v = ban-IsValid nick reason until now s v
apply-IsValid p (lift_ban nick now) s v = unban-IsValid nick now s v
apply-IsValid p (clear_expired now) s v = prune-IsValid now s v

-- From a valid store any sequence of the store's methods leads to a valid store: each nick keeps one
-- row, a row that is not banned has the ban end 0, and no cooldown count is negative.
pub run-IsValid : (p : Policy) (ops : List Op) (s : Store) → IsValid s → IsValid (run p ops s)
unfolding run
run-IsValid p [] s v = v
run-IsValid p (op ∷ ops) s v = run-IsValid p ops (apply p op s) (apply-IsValid p op s v)
