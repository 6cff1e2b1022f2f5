-- ===== src/Taker/State.antt =====
-- The state of `Taker` of jmclient/taker.py, as far as a coinjoin reads and writes it, and what it
-- takes from the wallet, the node and the settings.
-- What `query_utxo_set` tells of a coin.
use joinmarket_clientserver.Maker.Verify.{Outpoint}
use joinmarket_clientserver.Offers.Choose.{Quote}
use joinmarket_clientserver.Prelude.Text.{Text, text_eq}
use joinmarket_clientserver.Prelude.Dict.{Dict}
use joinmarket_clientserver.Prelude.{
  Bool, List, Option, [], dedup, false, if◌then◌else◌, map, ℕ, ℤ, ◌++◌, ◌==◌, ◌∷◌,
}

pub record UtxoData : Type 0 where
  pub value : ℕ
  pub script : Text
  pub confirms : ℤ

-- `_MakerTxData`
pub record MakerTxData : Type 0 where
  pub nick : Text
  pub utxo_data : List UtxoData
  pub total_input : ℕ
  pub change_amount : ℤ
  pub real_cjfee : ℤ
  pub utxo_list : List Outpoint
  pub cj_addr : Text
  pub change_addr : Text

pub record TxOutput : Type 0 where
  pub address : Text
  pub value : ℤ

-- An input, with the signature and the public key of its witness, where it has one.
pub record TxInput : Type 0 where
  pub outpoint : Outpoint
  pub script_sig : Text
  pub witness : Option (Text × Text)

pub record CoinjoinTx : Type 0 where
  pub inputs : List TxInput
  pub outputs : List TxOutput

-- `utxos` holds the makers' coins, `own_utxos` the entry of None, which stands first in it.
pub record Taker : Type 0 where
  pub aborted : Bool
  pub schedule_index : ℤ
  pub maker_replacement_attempts : ℕ
  pub maker_replacement_schedule_index : Option ℤ
  pub ignored_makers : List Text
  pub honest_makers : List Text
  pub honest_only : Bool
  pub nonrespondants : List Text
  pub orderbook : Dict Text Quote
  pub cjamount : ℕ
  pub my_cj_addr : Text
  pub my_change_addr : Option Text
  pub input_utxos : Dict Outpoint ℕ
  pub own_utxos : List Outpoint
  pub utxos : Dict Text (List Outpoint)
  pub maker_utxo_data : Dict Text (List UtxoData)
  pub outputs : List TxOutput
  pub cjfee_total : ℤ
  pub maker_txfee_contributions : ℕ
  pub total_txfee : ℕ
  pub stage2_expected_makers : List Text
  pub stage2_valid_sig_makers : List Text
  pub latest_tx : Option CoinjoinTx

-- The node, the wallet and bitcointx: a call that raises counts as one that returns False. The fee
-- estimate is that of the wallet's types; `feerate_ok` says whether the ratio of two fees, a
-- floating-point number, is within `max_sweep_fee_change`.
pub record Outside : Type 0 where
  pub query_utxo : Outpoint → Option UtxoData
  pub pubkey_has_script : Text → Text → Bool
  pub ecdsa_verify : Text → Text → Text → Bool
  pub validate_address : Text → Bool
  pub estimate_tx_fee : ℕ → ℕ → ℕ
  pub feerate_ok : ℕ → ℕ → Bool
  pub dust_threshold : ℤ
  pub bitcoin_dust_threshold : ℤ
  pub minimum_makers : ℕ

-- `query_utxo_set`
abbrev pub query_utxo_set : Outside → List Outpoint → List (Option UtxoData)
query_utxo_set out utxo_list = map out.query_utxo utxo_list

-- `list.remove`; without the element the source only logs.
unfoldable pub remove : Text → List Text → List Text
remove x [] = []
remove x (y ∷ ys) = let rest = remove x ys in if y == x then ys else y ∷ rest

-- `extend`, and `list(set(...))`, whose order nothing depends on
abbrev pub add_ignored_makers : List Text → Taker → Taker
add_ignored_makers makers s = record s { ignored_makers = dedup (s.ignored_makers ++ makers) }

abbrev pub add_honest_makers : List Text → Taker → Taker
add_honest_makers makers s = record s { honest_makers = dedup (s.honest_makers ++ makers) }

unfoldable pub set_honest_only : Bool → Taker → Taker
set_honest_only truefalse s = elim s.honest_makers [
  | [] ↦ if truefalse then s else record s { honest_only = false }
  | m ∷ ms ↦ record s { honest_only = truefalse }
]
