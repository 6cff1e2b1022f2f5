-- ===== src/Tests/Wallets.antt =====
-- Runs of the wallet's coins, and their theorems at concrete inputs.
use joinmarket_clientserver.Maker.Verify.{Outpoint}
use joinmarket_clientserver.Prelude.Dict.{lookup, Dict}
use joinmarket_clientserver.Prelude.Text.{codes, text_discrete, text_eq}
use joinmarket_clientserver.Prelude.{[], pair_dec, refl, some, true, ◌∷◌, ◌≡◌, pair_eq, ℕ_eq}
use joinmarket_clientserver.Wallet.Utxos.{
  Manager, at_mixdepth, available_utxos, available_where, is_disabled,
}

abbrev first_coin : Outpoint
first_coin = (codes "aa", 0)

abbrev second_coin : Outpoint
second_coin = (codes "bb", 1)

-- Two coins in mixdepth 0, of which the first is disabled.
abbrev wallet : Manager
wallet = record {
  utxos =
      (
        0,
        (first_coin, record { path = codes "p"; value = 700; height = 10 })
            ∷ (second_coin, record { path = codes "q"; value = 300; height = 20 })
            ∷ [],
      )
      ∷ [];
  utxo_meta = (first_coin, some true) ∷ [];
}

-- With a maximal height the coins of the filter are offered all the same.
filter_test :
    available_utxos 0 (second_coin ∷ []) (some 50) wallet
    ≡ record { utxo = second_coin; value = 300 } ∷ []
unfolding available_utxos available_where is_disabled at_mixdepth lookup pair_dec text_discrete
filter_test = refl
