-- ===== src/Wallet/Balance.antt =====
-- Selections of coins succeed when the balance allows them: `select_utxos` and
-- `get_balance_at_mixdepth`.
use joinmarket_clientserver.Prelude.{ℕ_eq, In, ap, ◌||◌, ◌∙◌, ◌≢◌}
use joinmarket_clientserver.Coins.Enough.{weigh}
use joinmarket_clientserver.Maker.Verify.{Outpoint}
use joinmarket_clientserver.Prelude.Text.{Text}
use joinmarket_clientserver.Prelude.Dict.{Dict, insert, keys, lookup-insert, lookup}
use joinmarket_clientserver.Wallet.Utxos.{
  Coin, Manager, add_utxo, at_mixdepth, available_utxos, available_where, balance_where,
  disable_utxo, get_balance_at_mixdepth, is_disabled, inf_height, Available,
}
use joinmarket_clientserver.Prelude.Text.{text_eq}
use joinmarket_clientserver.Prelude.{
  pair_eq, Bool, Option, [], arith, contains, false, if◌then◌else◌, keep, leb, none, not, refl,
  some, true, ℕ, ◌&&◌, ◌+◌, ◌==◌, ◌∷◌, ◌≡◌, pair_eq,
}

-- What the selection is given, in sum.
available_where-balance :
    (p : Outpoint → Coin → Bool) (s : Manager) (coins : Dict Outpoint Coin)
    → weigh (λ u. u.value) (keep (λ u. not (is_disabled u.utxo s)) (available_where p coins))
      ≡ balance_where (λ utxo coin. not (is_disabled utxo s) && p utxo coin) coins
unfolding available_where balance_where
available_where-balance p s [] = refl
available_where-balance p s ((utxo, coin) ∷ coins) =
    ground (arith, available_where-balance p s coins)

-- Not higher than a maximal height, if there is one.
abbrev is_low : Option ℕ → Coin → Bool
is_low none coin = true
is_low (some h) coin = leb coin.height h

available_utxos-where :
    (md : ℕ) (maxheight : Option ℕ) (s : Manager)
    → available_utxos md [] maxheight s
      ≡ keep
          (λ u. not (is_disabled u.utxo s))
          (available_where (λ utxo coin. is_low maxheight coin) (at_mixdepth md s))
unfolding available_utxos
available_utxos-where md none s = refl
available_utxos-where md (some h) s = refl

balance_where-low :
    (maxheight : Option ℕ) (s : Manager) (coins : Dict Outpoint Coin)
    → balance_where (λ utxo coin. not (is_disabled utxo s) && is_low maxheight coin) coins
      ≡ balance_where
          (λ utxo coin.
            (false || not (is_disabled utxo s))
            && elim maxheight [ none ↦ true | some h ↦ leb coin.height h ])
          coins
balance_where-low none s coins = refl
balance_where-low (some h) s coins = refl

-- The enabled balance up to the height, if one is given, is what a selection without a filter can draw
-- on.
pub available_utxos-balance :
    (md : ℕ) (maxheight : Option ℕ) (s : Manager)
    → weigh (λ u. u.value) (available_utxos md [] maxheight s)
      ≡ get_balance_at_mixdepth md false maxheight s
unfolding get_balance_at_mixdepth
available_utxos-balance md maxheight s =
    ap (weigh (λ u. u.value)) (available_utxos-where md maxheight s)
    ∙ available_where-balance (λ utxo coin. is_low maxheight coin) s (at_mixdepth md s)
    ∙ balance_where-low maxheight s (at_mixdepth md s)

-- A coin that may be spent: it is in the mixdepth, with that value, not too high, and no flag says that
-- it is disabled.
pub record IsUsable (md : ℕ) (maxheight : Option ℕ) (s : Manager) (u : Available) : Type 0 where
  pub there :
      (coin : Coin) × In (u.utxo, coin) (at_mixdepth md s)
      × (u.value ≡ coin.value)
      × (is_low maxheight coin ≡ true)
  pub enabled : lookup u.utxo s.utxo_meta ≢ some (some true)

-- A coin that is disabled or enabled is so from then on, and the others stay as they were.
pub is_disabled-disable_utxo :
    (utxo other : Outpoint) (disable : Bool) (s : Manager)
    → is_disabled other (disable_utxo utxo disable s)
      ≡ (if utxo == other then disable else is_disabled other s)
unfolding is_disabled disable_utxo
is_disabled-disable_utxo utxo other disable s =
    ground (arith, lookup-insert utxo other (some disable) s.utxo_meta)

balance_where-insert :
    (p : Outpoint → Coin → Bool) (utxo : Outpoint) (coin : Coin) (coins : Dict Outpoint Coin)
    → contains utxo (keys coins) ≡ false
    → balance_where p (insert utxo coin coins)
      ≡ balance_where p coins + (if p utxo coin then coin.value else 0)
unfolding balance_where insert
balance_where-insert p utxo coin [] h = ground arith
balance_where-insert p utxo coin ((k, c) ∷ coins) h =
    ground (arith, balance_where-insert p utxo coin coins)

-- A coin that is new to a mixdepth adds its value to that mixdepth's balance and to no other.
pub add_utxo-balance :
    (utxo : Outpoint) (path : Text) (value md other : ℕ) (height : Option ℕ) (s : Manager)
    → contains utxo (keys (at_mixdepth md s)) ≡ false
    → get_balance_at_mixdepth other true none (add_utxo utxo path value md height s)
      ≡ (if md == other then value else 0) + get_balance_at_mixdepth other true none s
unfolding get_balance_at_mixdepth add_utxo at_mixdepth is_disabled
add_utxo-balance utxo path value md other height s h = ground (
  arith,
  lookup-insert md other
      (insert utxo
        (record {
          path = path;
          value = value;
          height = elim height [ none ↦ inf_height | some h ↦ h ];
        })
        (at_mixdepth md s))
      s.utxos,
  balance_where-insert (λ u c. true) utxo
      (record {
        path = path;
        value = value;
        height = elim height [ none ↦ inf_height | some h ↦ h ];
      })
      (at_mixdepth md s) h,
)
