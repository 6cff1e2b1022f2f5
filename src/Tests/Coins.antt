-- ===== src/Tests/Coins.antt =====
-- Runs of the coin selection, and its theorems at concrete inputs.
use joinmarket_clientserver.Prelude.Sort.{insert_sorted, sort}
use joinmarket_clientserver.Coins.Select.{
  dilute, finish_greedy, gather, index_error, low_coins, scan, select, select_gradual,
  select_greediest, select_greedy, selected, total, trim,
}
use joinmarket_clientserver.Prelude.{List, [], arith, refl, ℕ, ◌+ℤ◌, ◌-ℤ◌, ◌∷◌, ◌≡◌}
use joinmarket_clientserver.Coins.Enough.{
  IsEnough, select-IsEnough, select_gradual-IsEnough, select_greediest-IsEnough,
}

abbrev coins : List ℕ
coins = 30 ∷ 5 ∷ 12 ∷ []

-- One coin that is too large is returned twice.
greedy_test : select_greedy (λ u. u) (10 ∷ []) 5 ≡ selected (10 ∷ 10 ∷ [])
unfolding select_greedy scan sort insert_sorted ◌-ℤ◌ dilute ◌+ℤ◌ finish_greedy total
greedy_test = ground arith

-- Nothing of no coins.
gradual_test : select_gradual (λ u. u) [] 0 ≡ index_error
unfolding select_gradual low_coins sort total gather trim
gradual_test = refl

select-IsEnough_example : IsEnough (λ u. u) coins 16 (select (λ u. u) coins 16)
select-IsEnough_example = select-IsEnough (λ u. u) coins 16 (ground arith)

select_greediest-IsEnough_example : IsEnough (λ u. u) coins 16 (select_greediest (λ u. u) coins 16)
select_greediest-IsEnough_example = select_greediest-IsEnough (λ u. u) coins 16 (ground arith)

select_gradual-IsEnough_example : IsEnough (λ u. u) coins 14 (select_gradual (λ u. u) coins 14)
select_gradual-IsEnough_example =
    select_gradual-IsEnough (λ u. u) coins 14 (ground arith) (ground arith)
