-- ===== src/Wallet/Utxos.antt =====
-- `UTXOManager` of jmclient/wallet.py: the coins of a wallet by mixdepth, and which of them are
-- disabled. What `_load_storage` and `save` write to a file is left out.
use joinmarket_clientserver.Maker.Verify.{Outpoint}
use joinmarket_clientserver.Coins.Select.{Selection}
use joinmarket_clientserver.Prelude.Text.{Text}
use joinmarket_clientserver.Prelude.Dict.{Dict, erase, insert, keys, lookup}
use joinmarket_clientserver.Coins.Select.{selected, not_enough, index_error}
use joinmarket_clientserver.Prelude.Text.{text_eq}
use joinmarket_clientserver.Prelude.{
  pair_eq, Bool, List, Option, [], contains, false, if◌then◌else◌, keep, leb, none, not, some, true,
  ℕ, ◌&&◌, ◌+◌, ◌^◌, ◌||◌, ◌∷◌, ℕ_eq, pair_eq,
}

pub record Coin : Type 0 where
  pub path : Text
  pub value : ℕ
  pub height : ℕ

-- `_utxo_meta` holds for a coin an empty dict, or the flag `disabled`.
pub record Manager : Type 0 where
  pub utxos : Dict ℕ (Dict Outpoint Coin)
  pub utxo_meta : Dict Outpoint (Option Bool)

-- `self._utxo[mixdepth]`, of a defaultdict
unfoldable pub at_mixdepth : ℕ → Manager → Dict Outpoint Coin
at_mixdepth md s = elim (lookup md s.utxos) [ none ↦ [] | some coins ↦ coins ]

unfoldable pub reset : Manager → Manager
reset s = record s { utxos = [] }

-- The coin is taken out and returned; none is the KeyError on a coin that is not there.
unfoldable pub remove_utxo : Outpoint → ℕ → Manager → Option (Manager × Coin)
unfolding at_mixdepth
remove_utxo utxo md s = elim (lookup utxo (at_mixdepth md s)) [
  | none ↦ none
  | some coin ↦ some (record s { utxos = insert md (erase utxo (at_mixdepth md s)) s.utxos }, coin)
]

abbrev pub inf_height : ℕ
inf_height = 10 ^ 8

unfoldable pub add_utxo : Outpoint → Text → ℕ → ℕ → Option ℕ → Manager → Manager
unfolding at_mixdepth
add_utxo utxo path value md height s = record s {
  utxos =
      insert md
        (insert utxo
          (record {
            path = path;
            value = value;
            height = elim height [ none ↦ inf_height | some h ↦ h ];
          })
          (at_mixdepth md s))
        s.utxos;
}

unfoldable pub is_disabled : Outpoint → Manager → Bool
is_disabled utxo s = elim (lookup utxo s.utxo_meta) [
  | none ↦ false
  | some none ↦ false
  | some (some flag) ↦ flag
]

unfoldable pub disable_utxo : Outpoint → Bool → Manager → Manager
disable_utxo utxo disable s = record s { utxo_meta = insert utxo (some disable) s.utxo_meta }

unfoldable pub enable_utxo : Outpoint → Manager → Manager
unfolding disable_utxo
enable_utxo utxo s = disable_utxo utxo false s

abbrev mixdepth_of : Outpoint → Dict ℕ (Dict Outpoint Coin) → Option ℕ
mixdepth_of utxo [] = none
mixdepth_of utxo ((md, coins) ∷ rest) =
    if contains utxo (keys coins) then some md else mixdepth_of utxo rest

-- The mixdepth of the coin, or `False`.
unfoldable pub have_utxo : Outpoint → Bool → Manager → Option ℕ
unfolding is_disabled
have_utxo utxo include_disabled s =
    if not include_disabled && is_disabled utxo s then none else mixdepth_of utxo s.utxos

-- `{'utxo': utxo, 'value': val}`
pub record Available : Type 0 where
  pub utxo : Outpoint
  pub value : ℕ

-- The entries of a dict of coins that pass a test.
unfoldable pub available_where : (Outpoint → Coin → Bool) → Dict Outpoint Coin → List Available
available_where p [] = []
available_where p ((utxo, coin) ∷ coins) =
    if p utxo coin
    then record { utxo = utxo; value = coin.value } ∷ available_where p coins
    else available_where p coins

-- What is given to the selection: with a maximal height, the filter is not applied.
unfoldable pub available_utxos : ℕ → List Outpoint → Option ℕ → Manager → List Available
unfolding at_mixdepth is_disabled available_where
available_utxos md utxo_filter maxheight s =
    keep (λ u. not (is_disabled u.utxo s))
      (elim maxheight [
        | none ↦ available_where (λ utxo coin. not (contains utxo utxo_filter)) (at_mixdepth md s)
        | some h ↦ available_where (λ utxo coin. leb coin.height h) (at_mixdepth md s)
      ])

-- `{s['utxo']: ... for s in selected}`
unfoldable pub spent : Dict Outpoint Coin → Dict Outpoint Coin → List Available → Dict Outpoint Coin
spent coins d [] = d
spent coins d (u ∷ us) = elim (lookup u.utxo coins) [
  | none ↦ spent coins d us
  | some coin ↦ spent coins (insert u.utxo coin d) us
]

-- The selection, and the coins by outpoint.
unfoldable pub select_utxos :
    (List Available → ℕ → Selection Available)
    → ℕ
    → ℕ
    → List Outpoint
    → Option ℕ
    → Manager
    → Selection (Outpoint × Coin)
unfolding available_utxos spent at_mixdepth
select_utxos selector md amount utxo_filter maxheight s =
    elim (selector (available_utxos md utxo_filter maxheight s) amount) [
      | selected us ↦ selected (spent (at_mixdepth md s) [] us)
      | not_enough ↦ not_enough
      | index_error ↦ index_error
    ]

unfoldable pub balance_where : (Outpoint → Coin → Bool) → Dict Outpoint Coin → ℕ
balance_where p [] = 0
balance_where p ((utxo, coin) ∷ coins) =
    if p utxo coin then coin.value + balance_where p coins else balance_where p coins

unfoldable pub get_balance_at_mixdepth : ℕ → Bool → Option ℕ → Manager → ℕ
unfolding balance_where at_mixdepth is_disabled
get_balance_at_mixdepth md include_disabled maxheight s =
    balance_where
      (λ utxo coin.
        (include_disabled || not (is_disabled utxo s))
        && elim maxheight [ none ↦ true | some h ↦ leb coin.height h ])
      (at_mixdepth md s)
