-- ===== src/Taker/Ioauth.antt =====
-- The makers' coins: `_verify_ioauth_data`, `_verify_ioauth_inputs` and `auth_counterparty`.
-- A maker's answer.
use joinmarket_clientserver.Offers.Fees.{calc_cj_fee}
use joinmarket_clientserver.Maker.Verify.{sum, Outpoint}
use joinmarket_clientserver.Offers.Choose.{Quote}
use mathlib.Core.Option
use joinmarket_clientserver.Prelude.Text.{Text, text_eq}
use joinmarket_clientserver.Taker.State.{MakerTxData, Outside, Taker, UtxoData, query_utxo_set}
use joinmarket_clientserver.Prelude.Dict.{Dict, lookup}
use joinmarket_clientserver.Prelude.{
  Bool, List, Option, [], false, if◌then◌else◌, leb_ℤ, ltb_ℤ, map, none, not, pos, some, true, ℕ, ℤ,
  ◌+ℤ◌, ◌-ℤ◌, ◌||◌, ◌∷◌,
}

pub record Ioauth : Type 0 where
  pub utxo_list : List Outpoint
  pub auth_pub : Text
  pub cj_addr : Text
  pub change_addr : Text
  pub btc_sig : Text
  pub maker_pk : Text

-- `auth_counterparty`
abbrev pub auth_counterparty : Outside → Ioauth → Bool
auth_counterparty out a = out.ecdsa_verify a.maker_pk a.btc_sig a.auth_pub

-- All coins; none if one is unknown to the node.
unfoldable pub all_known : {A : Type 0} → List (Option A) → Option (List A)
all_known [] = some []
all_known (none ∷ xs) = none
all_known (some x ∷ xs) = Option.map (λ ys. x ∷ ys) (all_known xs)

-- The loop that looks for the authorising key: it stops at the first coin that has it.
unfoldable pub is_authorised : Outside → Text → List UtxoData → Bool
is_authorised out auth_pub [] = false
is_authorised out auth_pub (d ∷ ds) =
    let rest = is_authorised out auth_pub ds in
    if leb_ℤ d.confirms (pos 0)
    then false
    else if out.pubkey_has_script auth_pub d.script
    then true
    else rest

abbrev pub total_value : List UtxoData → ℕ
total_value ds = sum (map (λ d. d.value) ds)

-- An IoauthInputVerificationError is `refused`; `raised` is a KeyError or an error of `calc_cj_fee`.
pub data Inputs : Type 0 where
  refused : Inputs
  raised : Inputs
  accepted : MakerTxData → Inputs

-- `total_input - cjamount - txfee + real_cjfee`
abbrev pub maker_change : ℕ → ℕ → ℕ → ℤ → ℤ
maker_change total_input cjamount txfee real_cjfee =
    pos total_input -ℤ pos cjamount -ℤ pos txfee +ℤ real_cjfee

abbrev pub maker_data : Text → Ioauth → List UtxoData → ℕ → Quote → ℤ → MakerTxData
maker_data nick a ds cjamount q fee = record {
  nick = nick;
  utxo_data = ds;
  total_input = total_value ds;
  change_amount = maker_change (total_value ds) cjamount q.offer.txfee fee;
  real_cjfee = fee;
  utxo_list = a.utxo_list;
  cj_addr = a.cj_addr;
  change_addr = a.change_addr;
}

-- The accounts of an authorised maker, whose change must not be dust.
unfoldable pub maker_accounts : Outside → Text → Ioauth → List UtxoData → ℕ → Quote → ℤ → Inputs
maker_accounts out nick a ds cjamount q fee =
    if ltb_ℤ (maker_change (total_value ds) cjamount q.offer.txfee fee) out.dust_threshold
    then refused
    else accepted (maker_data nick a ds cjamount q fee)

-- `_verify_ioauth_inputs` behind the look-up of the coins.
unfoldable pub verify_known : Outside → Text → Ioauth → Taker → List UtxoData → Inputs
unfolding is_authorised maker_accounts calc_cj_fee
verify_known out nick a s ds =
    if not (is_authorised out a.auth_pub ds) then refused else elim (lookup nick s.orderbook) [
      | none ↦ raised
      | some q ↦ elim (calc_cj_fee q.offer.ordertype q.offer.cjfee s.cjamount) [
        | none ↦ raised
        | some fee ↦ maker_accounts out nick a ds s.cjamount q fee
      ]
    ]

unfoldable pub verify_ioauth_inputs : Outside → Text → Ioauth → Taker → Inputs
unfolding all_known verify_known
verify_ioauth_inputs out nick a s = elim (all_known (query_utxo_set out a.utxo_list)) [
  | none ↦ refused
  | some ds ↦ verify_known out nick a s ds
]

-- What is made of one maker's answer.
pub data Answer : Type 0 where
  dropped : Answer
  ignored : Answer
  failed : Answer
  verified : MakerTxData → Answer

abbrev pub answer_of_inputs : Inputs → Answer
answer_of_inputs refused = dropped
answer_of_inputs raised = failed
answer_of_inputs (accepted m) = verified m

unfoldable pub verify_answer : Outside → Text → Ioauth → Taker → Answer
unfolding verify_ioauth_inputs
verify_answer out nick a s =
    if not (auth_counterparty out a)
    then dropped
    else if not (out.validate_address a.cj_addr) || not (out.validate_address a.change_addr)
    then ignored
    else answer_of_inputs (verify_ioauth_inputs out nick a s)

-- The makers to ignore, and the data of those that are verified, with one more answer.
abbrev pub collect :
    Text → Answer → List Text × List MakerTxData → Option (List Text × List MakerTxData)
collect nick dropped r = some r
collect nick ignored r = some (nick ∷ r.0, r.1)
collect nick failed r = none
collect nick (verified m) r = some (r.0, m ∷ r.1)

-- The loop over the answers; none if something is raised.
unfoldable pub verify_ioauth_data :
    Outside → Dict Text Ioauth → Taker → Option (List Text × List MakerTxData)
unfolding verify_answer
verify_ioauth_data out [] s = some ([], [])
verify_ioauth_data out ((nick, a) ∷ rest) s = elim (verify_ioauth_data out rest s) [
  | none ↦ none
  | some r ↦ collect nick (verify_answer out nick a s) r
]
