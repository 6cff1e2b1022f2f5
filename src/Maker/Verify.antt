-- ===== src/Maker/Verify.antt =====
-- `Maker.verify_unsigned_tx` of jmclient/maker.py, with which a maker decides to sign. Identifiers,
-- addresses and scripts are byte strings; what bitcointx makes of an address is a parameter. An
-- output's value is an integer as it stands in the transaction.
use joinmarket_clientserver.Offers.State.{Offer}
use joinmarket_clientserver.Offers.Fees.{calc_cj_fee}
use joinmarket_clientserver.Prelude.Text.{Text, text_eq}
use joinmarket_clientserver.Prelude.Dict.{Dict, keys, values}
use joinmarket_clientserver.Prelude.{
  Bool, List, [], contains, every, if◌then◌else◌, ltb_ℤ, none, not, pos, some, ℕ, ℤ, ◌&&◌, ◌+ℤ◌,
  ◌+◌, ◌-ℤ◌, ◌==◌, ◌∷◌, pair_eq, ℕ_eq,
}

abbrev pub Outpoint : Type 0
Outpoint = Text × ℕ

pub record Output : Type 0 where
  pub script : Text
  pub value : ℤ

pub record Transaction : Type 0 where
  pub inputs : List Outpoint
  pub outputs : List Output

pub record OfferInfo : Type 0 where
  pub utxos : Dict Outpoint ℕ
  pub cjaddr : Text
  pub changeaddr : Text
  pub amount : ℕ
  pub offer : Offer

-- `raised` is an exception from `calc_cj_fee`.
pub data Verdict : Type 0 where
  good : Verdict
  utxos_not_contained : Verdict
  negative_earning : ℤ → Verdict
  wrong_cj_amount : ℕ → Verdict
  wrong_change : ℤ → Verdict
  not_once : ℕ → ℕ → Verdict
  raised : Verdict

abbrev pub sum : List ℕ → ℕ
sum [] = 0
sum (x ∷ xs) = x + sum xs

-- `tx_utxo_set.issuperset(my_utxo_set)`
abbrev pub contains_all : List Outpoint → List Outpoint → Bool
contains_all xs ys = every (λ y. contains y xs) ys

-- The loop over `tx.vout`, with the numbers of times that each script was seen so far.
unfoldable pub check_outputs : Text → Text → ℕ → ℤ → List Output → ℕ → ℕ → Verdict
check_outputs cj change amount expected [] seen_cj seen_change =
    if seen_cj == 1 && seen_change == 1 then good else not_once seen_cj seen_change
check_outputs cj change amount expected (o ∷ os) seen_cj seen_change =
    let rest : Verdict =
      check_outputs cj change amount expected os (if o.script == cj then seen_cj + 1 else seen_cj)
        (if o.script == change then seen_change + 1 else seen_change) in
    if o.script == cj && ltb_ℤ o.value (pos amount)
    then wrong_cj_amount amount
    else if o.script == change && ltb_ℤ o.value expected
    then wrong_change expected
    else rest

abbrev pub total_in : OfferInfo → ℕ
total_in info = sum (values info.utxos)

-- `my_total_in - amount - txfee + real_cjfee`
abbrev pub expected_change_value : OfferInfo → ℤ → ℤ
expected_change_value info real_cjfee =
    pos (total_in info) -ℤ pos info.amount -ℤ pos info.offer.txfee +ℤ real_cjfee

unfoldable pub verify_unsigned_tx : (Text → Text) → Transaction → OfferInfo → Verdict
unfolding check_outputs
verify_unsigned_tx script_of tx info =
    if not (contains_all tx.inputs (keys info.utxos))
    then utxos_not_contained
    else elim (calc_cj_fee info.offer.ordertype info.offer.cjfee info.amount) [
      | none ↦ raised
      | some real_cjfee ↦
          let potentially_earned : ℤ = real_cjfee -ℤ pos info.offer.txfee in
          if ltb_ℤ potentially_earned (pos 0)
          then negative_earning potentially_earned
          else check_outputs (script_of info.cjaddr) (script_of info.changeaddr) info.amount
              (expected_change_value info real_cjfee) tx.outputs 0 0
    ]
