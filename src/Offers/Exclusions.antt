-- ===== src/Offers/Exclusions.antt =====
-- The makers that the choice of offers leaves out, pass by pass: `_maker_set` and
-- `_exclusion_passes` of jmclient/support.py. A set is a list without repetitions.
use joinmarket_clientserver.Prelude.Text.{Text, is_empty, text_eq}
use joinmarket_clientserver.Prelude.{
  All, Bool, List, [], arith, contains, contains-dedup, dedup, every, false, if◌then◌else◌, keep,
  not, refl, some_of, true, ◌&&◌, ◌++◌, ◌||◌, ◌∙◌, ◌∷◌, ◌≡◌, contains-keep,
}

-- An argument that names makers: `None`, one nick, or a collection of nicks.
pub data Makers : Type 0 where
  no_makers : Makers
  one_maker : Text → Makers
  many_makers : List Text → Makers

abbrev named : Makers → List Text
named no_makers = []
named (one_maker m) = m ∷ []
named (many_makers ms) = ms

unfoldable pub maker_set : Makers → List Text
maker_set makers = dedup (keep (λ m. not (is_empty m)) (named makers))

abbrev union : List Text → List Text → List Text
union xs ys = dedup (xs ++ ys)

abbrev difference : List Text → List Text → List Text
difference xs ys = keep (λ x. not (contains x ys)) xs

pub record Exclusions : Type 0 where
  pub ignored_makers : Makers
  pub hard_excluded_makers : Makers
  pub cooldown_makers : Makers
  pub soft_ignored_makers : Makers
  pub relax_cooldowns : Bool
  pub relax_soft_ignored : Bool

pub data Label : Type 0 where
  strict : Label
  without_soft_ignored : Label
  without_cooldowns : Label

unfoldable pub hard_makers : Exclusions → List Text
unfolding maker_set
hard_makers e = union (maker_set e.ignored_makers) (maker_set e.hard_excluded_makers)

unfoldable pub cooldown_only : Exclusions → List Text
unfolding maker_set hard_makers
cooldown_only e = difference (maker_set e.cooldown_makers) (hard_makers e)

unfoldable pub soft_only : Exclusions → List Text
unfolding maker_set hard_makers cooldown_only
soft_only e = difference (maker_set e.soft_ignored_makers) (union (hard_makers e) (cooldown_only e))

abbrev is_nonempty : List Text → Bool
is_nonempty [] = false
is_nonempty (x ∷ xs) = true

-- `passes`
unfoldable pub passes : Exclusions → List (Label × List Text)
unfolding hard_makers cooldown_only soft_only
passes e =
    (strict, union (union (hard_makers e) (cooldown_only e)) (soft_only e))
      ∷ (if e.relax_soft_ignored && is_nonempty (soft_only e)
          then (without_soft_ignored, union (hard_makers e) (cooldown_only e)) ∷ []
          else [])
    ++ (if e.relax_cooldowns && is_nonempty (cooldown_only e)
        then (
          without_cooldowns,
          if e.relax_soft_ignored then hard_makers e else union (hard_makers e) (soft_only e),
        )
          ∷ []
        else [])

-- Two sets have the same `tuple(sorted(excluded))`.
abbrev same_set : List Text → List Text → Bool
same_set xs ys = every (λ x. contains x ys) xs && every (λ y. contains y xs) ys

-- The passes whose set was not seen before.
unfoldable pub unique_passes :
    List (List Text) → List (Label × List Text) → List (Label × List Text)
unique_passes seen [] = []
unique_passes seen ((label, excluded) ∷ ps) =
    if some_of (same_set excluded) seen
    then unique_passes seen ps
    else (label, excluded) ∷ unique_passes (excluded ∷ seen) ps

unfoldable pub exclusion_passes : Exclusions → List (Label × List Text)
unfolding passes unique_passes
exclusion_passes e = unique_passes [] (passes e)

contains-append :
    (m : Text) (xs ys : List Text) → contains m (xs ++ ys) ≡ (contains m xs || contains m ys)
contains-append m [] ys = refl
contains-append m (x ∷ xs) ys = ground (arith, contains-append m xs ys)

contains-union :
    (m : Text) (xs ys : List Text) → contains m (union xs ys) ≡ (contains m xs || contains m ys)
contains-union m xs ys = contains-dedup m (xs ++ ys) ∙ contains-append m xs ys

contains-difference :
    (m : Text) (xs ys : List Text)
    → contains m (difference xs ys) ≡ (not (contains m ys) && contains m xs)
contains-difference m xs ys = contains-keep (λ x. not (contains x ys)) m xs

-- The argument names the maker; an empty nick names none.
abbrev pub names : Text → Makers → Bool
names m makers = not (is_empty m) && contains m (named makers)

maker_set-contains : (m : Text) (makers : Makers) → contains m (maker_set makers) ≡ names m makers
unfolding maker_set
maker_set-contains m makers =
    contains-dedup m (keep (λ m. not (is_empty m)) (named makers))
    ∙ contains-keep (λ m. not (is_empty m)) m (named makers)

-- Whether a pass with that label is to leave out the maker, by what names it: cooldowns count unless
-- they are relaxed, and with relaxed cooldowns a maker that is only softly ignored counts if the soft
-- ignores are not relaxed and it is not in cooldown.
abbrev pub barred : Exclusions → Text → Label → Bool
barred e m strict =
    names m e.ignored_makers
    || names m e.hard_excluded_makers
    || names m e.cooldown_makers
    || names m e.soft_ignored_makers
barred e m without_soft_ignored =
    names m e.ignored_makers || names m e.hard_excluded_makers || names m e.cooldown_makers
barred e m without_cooldowns =
    names m e.ignored_makers
    || names m e.hard_excluded_makers
    || (not e.relax_soft_ignored
        && names m e.soft_ignored_makers
        && not (names m e.cooldown_makers))

-- The pass leaves out `m` if and only if it is to.
abbrev pub Excludes : Exclusions → Text → Label × List Text → Type 0
Excludes e m (label, excluded) = contains m excluded ≡ barred e m label

hard_makers-contains :
    (e : Exclusions) (m : Text)
    → contains m (hard_makers e) ≡ (names m e.ignored_makers || names m e.hard_excluded_makers)
unfolding hard_makers
hard_makers-contains e m =
    rw
      (
        contains-union m (maker_set e.ignored_makers) (maker_set e.hard_excluded_makers),
        maker_set-contains m e.ignored_makers,
        maker_set-contains m e.hard_excluded_makers,
      )
      refl

cooldown_only-contains :
    (e : Exclusions) (m : Text)
    → contains m (cooldown_only e) ≡ (
        not (names m e.ignored_makers || names m e.hard_excluded_makers)
        && names m e.cooldown_makers)
unfolding cooldown_only
cooldown_only-contains e m =
    rw
      (
        contains-difference m (maker_set e.cooldown_makers) (hard_makers e),
        hard_makers-contains e m,
        maker_set-contains m e.cooldown_makers,
      )
      refl

soft_only-contains :
    (e : Exclusions) (m : Text)
    → contains m (soft_only e) ≡ (
        not (contains m (hard_makers e) || contains m (cooldown_only e))
        && names m e.soft_ignored_makers)
unfolding soft_only
soft_only-contains e m =
    rw
      (
        contains-difference m (maker_set e.soft_ignored_makers)
            (union (hard_makers e) (cooldown_only e)),
        contains-union m (hard_makers e) (cooldown_only e),
        maker_set-contains m e.soft_ignored_makers,
      )
      refl

strict-Excludes :
    (e : Exclusions) (m : Text)
    → Excludes e m (strict, union (union (hard_makers e) (cooldown_only e)) (soft_only e))
strict-Excludes e m =
    rw
      (
        contains-union m (union (hard_makers e) (cooldown_only e)) (soft_only e),
        contains-union m (hard_makers e) (cooldown_only e),
        soft_only-contains e m,
        cooldown_only-contains e m,
        hard_makers-contains e m,
      )
      (ground arith)

without_soft_ignored-Excludes :
    (e : Exclusions) (m : Text)
    → Excludes e m (without_soft_ignored, union (hard_makers e) (cooldown_only e))
without_soft_ignored-Excludes e m =
    rw
      (
        contains-union m (hard_makers e) (cooldown_only e),
        cooldown_only-contains e m,
        hard_makers-contains e m,
      )
      (ground arith)

relaxed-Excludes :
    (e : Exclusions) (m : Text) (relaxed : Bool)
    → contains m (if relaxed then hard_makers e else union (hard_makers e) (soft_only e)) ≡ (
        names m e.ignored_makers
        || names m e.hard_excluded_makers
        || (not relaxed && names m e.soft_ignored_makers && not (names m e.cooldown_makers)))
relaxed-Excludes e m true = rw (hard_makers-contains e m) (ground arith)
relaxed-Excludes e m false =
    rw
      (
        contains-union m (hard_makers e) (soft_only e),
        soft_only-contains e m,
        cooldown_only-contains e m,
        hard_makers-contains e m,
      )
      (ground arith)

-- A pass that may be there.
All-if :
    (P : Label × List Text → Type 0) (b c : Bool) (p q : Label × List Text)
    → P p
    → P q
    → All P ((if b then p ∷ [] else []) ++ (if c then q ∷ [] else []))
All-if P b c p q h k = ground (arith, h, k)

passes-Excludes : (e : Exclusions) (m : Text) → All (Excludes e m) (passes e)
unfolding passes
passes-Excludes e m = (
  strict-Excludes e m,
  All-if (Excludes e m) (e.relax_soft_ignored && is_nonempty (soft_only e))
      (e.relax_cooldowns && is_nonempty (cooldown_only e))
      (without_soft_ignored, union (hard_makers e) (cooldown_only e))
      (
        without_cooldowns,
        if e.relax_soft_ignored then hard_makers e else union (hard_makers e) (soft_only e),
      )
      (without_soft_ignored-Excludes e m) (relaxed-Excludes e m e.relax_soft_ignored),
)

-- The pass leaves out `m`.
abbrev pub Omits : Text → Label × List Text → Type 0
Omits m (label, excluded) = contains m excluded ≡ true

passes-Omits :
    (e : Exclusions) (m : Text) → contains m (hard_makers e) ≡ true → All (Omits m) (passes e)
unfolding passes
passes-Omits e m h = ground (
  arith,
  contains-union m (union (hard_makers e) (cooldown_only e)) (soft_only e),
  contains-union m (hard_makers e) (cooldown_only e),
  contains-union m (hard_makers e) (soft_only e),
)

unique_passes-All :
    (P : Label × List Text → Type 0) (seen : List (List Text)) (ps : List (Label × List Text))
    → All P ps
    → All P (unique_passes seen ps)
unfolding unique_passes
unique_passes-All P seen [] h = tt
unique_passes-All P seen ((label, excluded) ∷ ps) h =
    ground (arith, unique_passes-All P seen ps h.1, unique_passes-All P (excluded ∷ seen) ps h.1)

-- Each pass leaves out exactly the makers that its label stands for: those that are ignored or excluded
-- hard; in the strict pass also those in cooldown and those softly ignored; without the soft ignores
-- those in cooldown; without the cooldowns, if the soft ignores are not relaxed, those softly ignored
-- that are not in cooldown.
pub exclusion_passes-Excludes :
    (e : Exclusions) (m : Text) → All (Excludes e m) (exclusion_passes e)
unfolding exclusion_passes
exclusion_passes-Excludes e m = unique_passes-All (Excludes e m) [] (passes e) (passes-Excludes e m)

-- A maker that is ignored or excluded hard is left out in every pass, whatever is relaxed.
pub exclusion_passes-Omits :
    (e : Exclusions) (m : Text)
    → contains m (hard_makers e) ≡ true
    → All (Omits m) (exclusion_passes e)
unfolding exclusion_passes
exclusion_passes-Omits e m h = unique_passes-All (Omits m) [] (passes e) (passes-Omits e m h)
