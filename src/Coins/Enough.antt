-- ===== src/Coins/Enough.antt =====
-- Coins that are selected make the value, and none is used twice: `select`, `select_gradual` and
-- `select_greediest`.
use joinmarket_clientserver.Prelude.Sort.{insert_sorted, sort, sort-All}
use joinmarket_clientserver.Coins.Select.{
  selected, not_enough, index_error, Selection, gather, selected, total, trim, select_gradual,
  smallest_high, select_greediest, high_coins, select, low_coins, low_coins_down,
}
use joinmarket_clientserver.Prelude.{
  Bool, Bool-cases, List, [], arith, inl, inr, keep, leb, ltb, not, refl, some, ℕ, ◌+◌, ◌<◌, ◌∷◌,
  ◌≡◌, ◌≤◌, All, none,
}

-- A sum over the coins. Coins whose sums are at most those of others, for every weight, are among
-- these, with no coin more often.
abbrev pub weigh : {U : Type 0} → (U → ℕ) → List U → ℕ
weigh w [] = 0
weigh w (u ∷ us) = w u + weigh w us

abbrev pub Among : {U : Type 0} → List U → List U → Type 0
Among {U} us vs = (w : U → ℕ) → weigh w us ≤ weigh w vs

module _ {U : Type 0} where
  weigh-insert_sorted :
      (before : U → U → Bool) (w : U → ℕ) (u : U) (us : List U)
      → weigh w (insert_sorted before u us) ≡ weigh w (u ∷ us)
  unfolding insert_sorted
  weigh-insert_sorted before w u [] = refl
  weigh-insert_sorted before w u (v ∷ us) = ground (arith, weigh-insert_sorted before w u us)

  pub weigh-sort :
      (before : U → U → Bool) (w : U → ℕ) (us : List U) → weigh w (sort before us) ≡ weigh w us
  unfolding sort
  weigh-sort before w [] = refl
  weigh-sort before w (u ∷ us) =
      ground (arith, weigh-insert_sorted before w u (sort before us), weigh-sort before w us)

  pub weigh-keep :
      (p : U → Bool) (w : U → ℕ) (us : List U)
      → weigh w (keep p us) + weigh w (keep (λ u. not (p u)) us) ≡ weigh w us
  weigh-keep p w [] = refl
  weigh-keep p w (u ∷ us) = ground (arith, weigh-keep p w us)

  pub sort-keep-Among :
      (before : U → U → Bool) (p : U → Bool) (us : List U) → Among (sort before (keep p us)) us
  sort-keep-Among before p us w = ground (arith, weigh-sort before w (keep p us), weigh-keep p w us)

  module _ (key : U → ℕ) where
    pub total-weigh : (us : List U) → total key us ≡ weigh key us
    unfolding total
    total-weigh [] = refl
    total-weigh (u ∷ us) = ground (arith, total-weigh us)

    -- what a selection from `unspent` has to be
    abbrev pub IsEnough : List U → ℕ → Selection U → Type 0
    IsEnough unspent value (selected picked) = (value ≤ weigh key picked) × Among picked unspent
    IsEnough unspent value not_enough = ⊥
    IsEnough unspent value index_error = ⊥

    pub gather-enough :
        (value sum : ℕ) (us : List U)
        → value ≤ sum + weigh key us
        → (picked : List U) × (gather key value sum us ≡ some picked)
          × (value ≤ sum + weigh key picked)
          × Among picked us
    unfolding gather
    gather-enough value sum [] h = ([], ground arith, h, λ w. omega arith)
    gather-enough value sum (u ∷ us) h = elim (Bool-cases (ltb sum value)) [
      | inl e ↦
          (let rest = gather-enough value (sum + key u) us (omega arith) in
            (
              u ∷ rest.0,
              ground (arith, rest.1),
              omega (arith, rest.2),
              λ w. omega (arith, rest.3 w),
            ))
      | inr e ↦ ([], ground arith, ground arith, λ w. omega arith)
    ]

    pub trim-enough :
        (value : ℕ) (us : List U)
        → 0 < value
        → value ≤ weigh key us
        → (trimmed : List U) × (trim key value (weigh key us) us ≡ some trimmed)
          × (value ≤ weigh key trimmed)
          × Among trimmed us
    unfolding trim
    trim-enough value [] p h = absurd (omega arith)
    trim-enough value (u ∷ us) p h = elim (Bool-cases (leb (value + key u) (weigh key (u ∷ us)))) [
      | inl e ↦
          (let rest = trim-enough value us p (ground arith) in
            (rest.0, ground (arith, rest.1), rest.2, λ w. omega (arith, rest.3 w)))
      | inr e ↦ (u ∷ us, ground arith, h, λ w. omega arith)
    ]

    weigh-split :
        (w : U → ℕ) (value : ℕ) (us : List U)
        → weigh w (keep (λ u. leb value (key u)) us) + weigh w (keep (λ u. ltb (key u) value) us)
          ≡ weigh w us
    weigh-split w value [] = refl
    weigh-split w value (u ∷ us) = ground (arith, weigh-split w value us)

    keep-large :
        (value : ℕ) (us : List U) → All (λ u. value ≤ key u) (keep (λ u. leb value (key u)) us)
    keep-large value [] = tt
    keep-large value (u ∷ us) = ground (arith, keep-large value us)

    weigh-high_coins :
        (w : U → ℕ) (value : ℕ) (us : List U)
        → weigh w (high_coins key value us) ≡ weigh w (keep (λ u. leb value (key u)) us)
    unfolding high_coins
    weigh-high_coins w value us =
        weigh-sort (λ u v. leb (key u) (key v)) w (keep (λ u. leb value (key u)) us)

    weigh-low_coins :
        (w : U → ℕ) (value : ℕ) (us : List U)
        → weigh w (low_coins key value us) ≡ weigh w (keep (λ u. ltb (key u) value) us)
    unfolding low_coins
    weigh-low_coins w value us =
        weigh-sort (λ u v. leb (key u) (key v)) w (keep (λ u. ltb (key u) value) us)

    weigh-low_coins_down :
        (w : U → ℕ) (value : ℕ) (us : List U)
        → weigh w (low_coins_down key value us) ≡ weigh w (keep (λ u. ltb (key u) value) us)
    unfolding low_coins_down
    weigh-low_coins_down w value us =
        weigh-sort (λ u v. leb (key v) (key u)) w (keep (λ u. ltb (key u) value) us)

    high_coins-large :
        (value : ℕ) (us : List U) → All (λ u. value ≤ key u) (high_coins key value us)
    unfolding high_coins
    high_coins-large value us =
        sort-All (λ u v. leb (key u) (key v)) (λ u. value ≤ key u)
          (keep (λ u. leb value (key u)) us) (keep-large value us)

    -- one coin that is large enough, or else what is found among the small ones
    high_or :
        (value : ℕ) (unspent : List U) (other : Selection U)
        → (weigh key (keep (λ u. ltb (key u) value) unspent) ≡ weigh key unspent
            → IsEnough unspent value other)
        → IsEnough unspent value
            (elim (high_coins key value unspent) [ u ∷ us ↦ selected (u ∷ []) | [] ↦ other ])
    high_or value unspent other f =
        go (high_coins key value unspent) (high_coins-large value unspent)
          (λ w. weigh-high_coins w value unspent)
      where
        go :
            (high : List U)
            → All (λ u. value ≤ key u) high
            → ((w : U → ℕ) → weigh w high ≡ weigh w (keep (λ u. leb value (key u)) unspent))
            → IsEnough unspent value (elim high [ u ∷ us ↦ selected (u ∷ []) | [] ↦ other ])
        go [] a e = f (omega (arith, e key, weigh-split key value unspent))
        go (u ∷ us) a e = (omega (arith, a.0), λ w. omega (arith, e w, weigh-split w value unspent))

    low_coins-Among : (value : ℕ) (us : List U) → Among (low_coins key value us) us
    low_coins-Among value us w = omega (arith, weigh-low_coins w value us, weigh-split w value us)

    low_coins_down-Among : (value : ℕ) (us : List U) → Among (low_coins_down key value us) us
    low_coins_down-Among value us w =
        omega (arith, weigh-low_coins_down w value us, weigh-split w value us)

    -- If the coins make the value together, `select` returns coins that make it, each of them from
    -- the list and none twice.
    pub select-IsEnough :
        (unspent : List U) (value : ℕ)
        → value ≤ weigh key unspent
        → IsEnough unspent value (select key unspent value)
    unfolding select
    select-IsEnough unspent value h =
        high_or value unspent
          (elim (gather key value 0 (low_coins_down key value unspent)) [
            | none ↦ not_enough
            | some picked ↦ selected picked
          ])
          (λ e.
            let found =
              gather-enough value 0 (low_coins_down key value unspent)
                (omega (arith, e, weigh-low_coins_down key value unspent)) in
            rw (found.1) (
              omega (arith, found.2),
              λ w. omega (arith, found.3 w, low_coins_down-Among value unspent w),
            ))

    smallest_high-IsEnough :
        (unspent : List U) (value : ℕ)
        → value ≤ weigh key unspent
        → total key (low_coins key value unspent) < value
        → IsEnough unspent value (smallest_high key value unspent)
    unfolding smallest_high
    smallest_high-IsEnough unspent value h l = high_or value unspent not_enough (λ e. absurd (
        omega
          (arith, e, total-weigh (low_coins key value unspent), weigh-low_coins key value unspent)))

    -- If the coins make the value together, `select_greediest` returns coins that make it, each of
    -- them from the list and none twice; it raises nothing.
    pub select_greediest-IsEnough :
        (unspent : List U) (value : ℕ)
        → value ≤ weigh key unspent
        → IsEnough unspent value (select_greediest key unspent value)
    unfolding select_greediest
    select_greediest-IsEnough unspent value h =
        elim (Bool-cases (ltb (total key (low_coins key value unspent)) value)) [
          | inl e ↦ rw e (smallest_high-IsEnough unspent value h (ground arith))
          | inr e ↦
              (let found =
                  gather-enough value 0 (low_coins key value unspent)
                    (ground (arith, total-weigh (low_coins key value unspent))) in
                rw (e, found.1)
                  (
                    omega (arith, found.2),
                    λ w. omega (arith, found.3 w, low_coins-Among value unspent w),
                  ))
        ]

    -- If the coins make the value together and it is not 0, `select_gradual` returns coins that make
    -- it, each of them from the list and none twice; it raises nothing.
    pub select_gradual-IsEnough :
        (unspent : List U) (value : ℕ)
        → 0 < value
        → value ≤ weigh key unspent
        → IsEnough unspent value (select_gradual key unspent value)
    unfolding select_gradual
    select_gradual-IsEnough unspent value p h =
        elim (Bool-cases (ltb (total key (low_coins key value unspent)) value)) [
          | inl e ↦ rw e (smallest_high-IsEnough unspent value h (ground arith))
          | inr e ↦
              (let found =
                  gather-enough value 0 (low_coins key value unspent)
                    (ground (arith, total-weigh (low_coins key value unspent))) in
                let kept = trim-enough value found.0 p (omega (arith, found.2)) in
                rw (e, found.1, total-weigh found.0, kept.1)
                  (
                    kept.2,
                    λ w. omega (arith, kept.3 w, found.3 w, low_coins-Among value unspent w),
                  ))
        ]
