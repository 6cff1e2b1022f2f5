-- ===== src/Coins/Select.antt =====
-- Coin selection of jmclient/support.py: `select`, `select_gradual`, `select_greedy`,
-- `select_greediest` and `select_one_utxo`. A coin is whatever has a value: the source reads
-- `u["value"]`, a natural number of satoshis, and nothing else.
use mathlib.Core.Option
use joinmarket_clientserver.Prelude.Sort.{sort}
use joinmarket_clientserver.Prelude.{
  List, Option, [], if◌then◌else◌, keep, leb, ltb, ltb_ℤ, none, pos, some, ℕ, ℤ, ◌+◌, ◌-ℤ◌, ◌-◌,
  ◌==◌, ◌∷◌, ℤ_eq, length, ◌+ℤ◌, ◌||◌,
}

-- What a selection ends in: coins, `NotEnoughFundsException`, or an `IndexError`.
pub data Selection (U : Type 0) : Type 0 where
  selected : List U → Selection U
  not_enough : Selection U
  index_error : Selection U

module _ {U : Type 0} (key : U → ℕ) where
  -- `high`: the coins of at least the value, the smallest first
  unfoldable pub high_coins : ℕ → List U → List U
  unfolding sort
  high_coins value unspent =
      sort (λ u v. leb (key u) (key v)) (keep (λ u. leb value (key u)) unspent)

  -- `low`: the coins below the value, the smallest first
  unfoldable pub low_coins : ℕ → List U → List U
  unfolding sort
  low_coins value unspent =
      sort (λ u v. leb (key u) (key v)) (keep (λ u. ltb (key u) value) unspent)

  -- `low` of `select`: the largest first
  unfoldable pub low_coins_down : ℕ → List U → List U
  unfolding sort
  low_coins_down value unspent =
      sort (λ u v. leb (key v) (key u)) (keep (λ u. ltb (key u) value) unspent)

  -- Coins from the front until their sum is the value; none if they run out.
  unfoldable pub gather : ℕ → ℕ → List U → Option (List U)
  gather value total [] = if ltb total value then none else some []
  gather value total (u ∷ us) =
      let rest = gather value (total + key u) us in
      if ltb total value then Option.map (λ picked. u ∷ picked) rest else some []

  unfoldable pub total : List U → ℕ
  total [] = 0
  total (u ∷ us) = key u + total us

  unfoldable pub select : List U → ℕ → Selection U
  unfolding high_coins low_coins_down gather
  select unspent value = elim (high_coins value unspent) [
    | u ∷ us ↦ selected (u ∷ [])
    | [] ↦ elim (gather value 0 (low_coins_down value unspent)) [
      | none ↦ not_enough
      | some picked ↦ selected picked
    ]
  ]

  -- The second loop of `select_gradual`, on the coins from `start` to `end`: the smallest are left
  -- out while the sum stays large enough. With no coin left, `low[start]` raises: as the sum is then
  -- 0 and the value of a loop that ran is not, this is the case of an empty `low` only.
  unfoldable pub trim : ℕ → ℕ → List U → Option (List U)
  trim value sum [] = none
  trim value sum (u ∷ us) =
      let rest = trim value (sum - key u) us in
      if leb (value + key u) sum then rest else some (u ∷ us)

  -- The smallest coin that is large enough alone.
  unfoldable pub smallest_high : ℕ → List U → Selection U
  unfolding high_coins
  smallest_high value unspent = elim (high_coins value unspent) [
    | u ∷ us ↦ selected (u ∷ [])
    | [] ↦ not_enough
  ]

  unfoldable pub select_gradual : List U → ℕ → Selection U
  unfolding smallest_high low_coins gather trim total
  select_gradual unspent value =
      if ltb (total (low_coins value unspent)) value
      then smallest_high value unspent
      else elim (gather value 0 (low_coins value unspent)) [
        | none ↦ index_error
        | some picked ↦ elim (trim value (total picked) picked) [
          | none ↦ index_error
          | some trimmed ↦ selected trimmed
        ]
      ]

  unfoldable pub select_greediest : List U → ℕ → Selection U
  unfolding smallest_high low_coins gather total
  select_greediest unspent value =
      if ltb (total (low_coins value unspent)) value
      then smallest_high value unspent
      else elim (gather value 0 (low_coins value unspent)) [
        | none ↦ index_error
        | some picked ↦ selected picked
      ]

  -- `random.choice` of the coins that are large enough; it raises an IndexError if there are none.
  unfoldable pub select_one_utxo : (List U → U) → List U → ℕ → Selection U
  select_one_utxo choice unspent value = elim (keep (λ u. leb value (key u)) unspent) [
    | [] ↦ index_error
    | u ∷ us ↦ selected (choice (u ∷ us) ∷ [])
  ]

  abbrev reverse_onto : List U → List U → List U
  reverse_onto [] acc = acc
  reverse_onto (u ∷ us) acc = reverse_onto us (u ∷ acc)

  -- The dilution loop: from the largest coin down, one is left out if the others still make the value.
  unfoldable pub dilute : ℤ → List U → List U
  unfolding ◌+ℤ◌
  dilute value [] = []
  dilute value (u ∷ us) =
      let more = value +ℤ pos (key u) in
      let needed = dilute value us in
      let skipped = dilute more us in if ltb_ℤ (pos 0) more then u ∷ needed else skipped

  unfoldable pub finish_greedy : List U → ℕ → List U → Selection U
  unfolding total
  finish_greedy utxos original_value [] = not_enough
  finish_greedy utxos original_value (p ∷ ps) =
      if ltb (length (p ∷ ps)) (length utxos) || leb original_value (total (p ∷ ps))
      then selected (p ∷ ps)
      else not_enough

  -- The coins of the slice `utxos[max(cursor-1, 0)::-1]`: those before the cursor, the last first,
  -- and for the cursor 0 the first coin itself.
  abbrev slice : List U → U → List U
  slice [] u = u ∷ []
  slice (p ∷ passed) u = p ∷ passed

  -- The first loop of `select_greedy`, with the coins it went past, the last first.
  unfoldable pub scan : List U → ℕ → ℤ → List U → List U → Selection U
  unfolding ◌-ℤ◌ dilute finish_greedy
  scan utxos original_value value passed [] =
      finish_greedy utxos original_value (dilute value passed)
  scan utxos original_value value passed (u ∷ us) =
      let left = value -ℤ pos (key u) in
      let rest = scan utxos original_value left (u ∷ passed) us in
      if left == pos 0
      then selected (reverse_onto (u ∷ passed) [])
      else if ltb_ℤ left (pos 0)
      then finish_greedy utxos original_value (u ∷ dilute left (slice passed u))
      else rest

  unfoldable pub select_greedy : List U → ℕ → Selection U
  unfolding scan sort
  select_greedy unspent value =
      let utxos = sort (λ u v. leb (key u) (key v)) unspent in scan utxos value (pos value) [] utxos
