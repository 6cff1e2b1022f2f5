-- ===== src/Tests/Payments.antt =====
-- Fees, and a maker's check of a transaction, at concrete inputs.
use joinmarket_clientserver.Offers.State.{Offer}
use joinmarket_clientserver.Offers.Fees.{calc_cj_fee, is_absolute, is_relative, calc_cj_fee-nearest}
use native.Mathlib.Decide.{ℕ_discrete}
use joinmarket_clientserver.Prelude.{
  [], arith, pair_dec, pos, refl, some, ℕ, ℤ, ◌*◌, ◌+ℤ◌, ◌+◌, ◌-ℤ◌, ◌^◌, ◌∷◌, ◌≡◌, ◌≤ℤ◌, ◌≤◌,
}
use joinmarket_clientserver.Prelude.Text.{Text, codes, text_discrete}
use joinmarket_clientserver.Maker.Verify.{
  OfferInfo, Outpoint, Transaction, good, total_in, verify_unsigned_tx, wrong_change,
}
use joinmarket_clientserver.Maker.Payment.{
  IsPaid, IsPaid-verify_unsigned_tx, received, verify_unsigned_tx-IsPaid,
  verify_unsigned_tx-no_loss,
}

calc_cj_fee-nearest_example :
    (f : ℕ) × (calc_cj_fee (codes "sw0reloffer") (record { coefficient = pos 2; places = 5 }) 125000
      ≡ some (pos f))
    × (2 * (10 ^ 5 * f) ≤ 2 * (2 * 125000) + 10 ^ 5)
    × (2 * (2 * 125000) ≤ 2 * (10 ^ 5 * f) + 10 ^ 5)
unfolding is_absolute is_relative text_discrete ℕ_discrete
calc_cj_fee-nearest_example =
    calc_cj_fee-nearest (codes "sw0reloffer") 2 5 125000 refl refl (omega arith)

-- 2.5000000000000000000000000000000125 is first rounded to 2.5, and then to 2.
two_roundings :
    calc_cj_fee
      (codes "sw0reloffer")
      (record { coefficient = pos (2 * 10 ^ 30 + 1); places = 35 })
      125000
    ≡ some (pos 2)
unfolding calc_cj_fee text_discrete ℕ_discrete
two_roundings = refl

-- 2.5 is rounded to the even 2.
half_to_even :
    calc_cj_fee (codes "sw0reloffer") (record { coefficient = pos 2; places = 5 }) 125000
    ≡ some (pos 2)
unfolding calc_cj_fee text_discrete ℕ_discrete
half_to_even = refl

abbrev my_offer : Offer
my_offer = record {
  oid = 0;
  ordertype = codes "sw0absoffer";
  minsize = 1000;
  maxsize = 100000;
  txfee = 100;
  cjfee = record { coefficient = pos 250; places = 0 };
}

abbrev my_coin : Outpoint
my_coin = (codes "aa", 1)

-- 50000 go in; 20000 are mixed, and 50000 - 20000 - 100 + 250 come back as change.
abbrev info : OfferInfo
info = record {
  utxos = (my_coin, 50000) ∷ [];
  cjaddr = codes "cj";
  changeaddr = codes "ch";
  amount = 20000;
  offer = my_offer;
}

abbrev fair : Transaction
fair = record {
  inputs = (codes "bb", 0) ∷ my_coin ∷ [];
  outputs =
      record { script = codes "ch"; value = pos 30150 }
      ∷ record { script = codes "xx"; value = pos 7 }
      ∷ record { script = codes "cj"; value = pos 20000 }
      ∷ [];
}

abbrev same_script : Text → Text
same_script a = a

fair_run : verify_unsigned_tx same_script fair info ≡ good
unfolding verify_unsigned_tx calc_cj_fee pair_dec text_discrete ℕ_discrete ◌+ℤ◌ ◌-ℤ◌
fair_run = refl

-- One satoshi less of change is refused.
unfair_run :
    verify_unsigned_tx same_script
      (record fair {
        outputs =
            record { script = codes "ch"; value = pos 30149 }
            ∷ record { script = codes "cj"; value = pos 20000 }
            ∷ [];
      })
      info
    ≡ wrong_change (pos 30150)
unfolding verify_unsigned_tx calc_cj_fee pair_dec text_discrete ℕ_discrete ◌+ℤ◌ ◌-ℤ◌
unfair_run = refl

verify_unsigned_tx-IsPaid_example : (fee : ℤ) × IsPaid same_script fair info fee
verify_unsigned_tx-IsPaid_example = verify_unsigned_tx-IsPaid same_script fair info fair_run

verify_unsigned_tx-no_loss_example :
    (fee : ℤ) × (calc_cj_fee info.offer.ordertype info.offer.cjfee info.amount ≡ some fee)
    × (pos 0 ≤ℤ fee -ℤ pos info.offer.txfee)
    × (pos (total_in info) +ℤ (fee -ℤ pos info.offer.txfee)
        ≤ℤ received (codes "cj") (codes "ch") fair.outputs)
verify_unsigned_tx-no_loss_example =
    verify_unsigned_tx-no_loss same_script fair info (λ h. ground arith) fair_run

fair-IsPaid : IsPaid same_script fair info (pos 250)
unfolding calc_cj_fee pair_dec text_discrete ℕ_discrete ◌+ℤ◌ ◌-ℤ◌
fair-IsPaid = record {
  contained = refl;
  agreed = refl;
  earns = omega arith;
  cj_once = refl;
  change_once = refl;
  cj_amount = (refl, (refl, (refl, tt)));
  change_amount = (refl, (refl, (refl, tt)));
}

IsPaid-verify_unsigned_tx_example : verify_unsigned_tx same_script fair info ≡ good
IsPaid-verify_unsigned_tx_example =
    IsPaid-verify_unsigned_tx same_script fair info (pos 250) fair-IsPaid
