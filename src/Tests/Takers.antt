-- ===== src/Tests/Takers.antt =====
-- Coinjoins of a taker at concrete inputs, and the theorems on them.
use joinmarket_clientserver.Taker.Schedule.{Entry}
use Prim.Native.String.{String}
use joinmarket_clientserver.Offers.Fees.{calc_cj_fee, is_absolute, to_int}
use joinmarket_clientserver.Offers.State.{Offer}
use joinmarket_clientserver.Maker.Verify.{verify_unsigned_tx, Outpoint, OfferInfo, good}
use native.Mathlib.Decide.{ℕ_discrete}
use joinmarket_clientserver.Taker.Attempts.{Event, initialized, makers_failed, index_set}
use joinmarket_clientserver.Prelude.Split.{concat}
use joinmarket_clientserver.Taker.Build.{
  add_maker, add_makers, build_tx, built, enough_makers, make_tx, my_change_value, receive_utxos,
  shuffle, with_change,
}
use joinmarket_clientserver.Prelude.Text.{Text, codes, text_discrete, text_eq}
use joinmarket_clientserver.Taker.Signatures.{
  Scripts, finish_sig, insert_sig, on_sig, parse_sig, receive_sig, record_sig, self_sign_and_push,
  try_input, try_known, with_inputs, witness_v0_keyhash,
}
use joinmarket_clientserver.Taker.Complete.{IsSafe, on_sig-IsSafe}
use joinmarket_clientserver.Taker.Agreement.{
  IsHonest, receive_utxos-verify_unsigned_tx, scripts, to_transaction,
}
use joinmarket_clientserver.Taker.Fee.{IsFair, receive_utxos-IsFair}
use joinmarket_clientserver.Taker.Ioauth.{
  Ioauth, all_known, is_authorised, maker_accounts, verify_ioauth_data, verify_ioauth_inputs,
  verify_known, verify_answer,
}
use joinmarket_clientserver.Prelude.{
  Distinct, [], ap, arith, false, inl, negsuc, none, pair_dec, pos, refl, some, true, ℕ, ◌*◌, ◌+ℤ◌,
  ◌+◌, ◌-ℤ◌, ◌==◌, ◌∷◌, ◌≡◌, ℕ_eq, List, ℤ, if◌then◌else◌,
}
use joinmarket_clientserver.Prelude.Dict.{Dict, insert, keys, lookup, update}
use joinmarket_clientserver.Taker.State.{
  CoinjoinTx, MakerTxData, Outside, Taker, TxInput, TxOutput, UtxoData, remove,
}

abbrev nick : Text
nick = codes "J5a"

abbrev maker_coin : Outpoint
maker_coin = (codes "aa", 0)

abbrev own_coin : Outpoint
own_coin = (codes "bb", 1)

abbrev maker_utxo : UtxoData
maker_utxo = record { value = 200000; script = codes "pk"; confirms = pos 6 }

abbrev fresh_utxo : UtxoData
fresh_utxo = record maker_utxo { script = codes "other"; confirms = pos 0 }

abbrev out : Outside
out = record {
  query_utxo = λ u. some (record maker_utxo { value = if u.1 == 1 then 150000 else 200000 });
  pubkey_has_script = λ auth_pub script. auth_pub == script;
  ecdsa_verify = λ message sig auth_pub. true;
  validate_address = λ address. true;
  estimate_tx_fee = λ ins outs. 100 * (ins + outs);
  feerate_ok = λ new_fee fee. true;
  dust_threshold = pos 27300;
  bitcoin_dust_threshold = pos 2730;
  minimum_makers = 1;
}

-- The loop that looks for the authorising key does not see the coins behind it.
unconfirmed_test :
    (is_authorised out (codes "pk") (maker_utxo ∷ fresh_utxo ∷ []) ≡ true)
    × (is_authorised out (codes "pk") (fresh_utxo ∷ maker_utxo ∷ []) ≡ false)
unfolding is_authorised text_discrete ℕ_discrete
unconfirmed_test = (refl, refl)

abbrev offer : Offer
offer = record {
  oid = 0;
  ordertype = codes "sw0absoffer";
  minsize = 30000;
  maxsize = 300000;
  txfee = 10;
  cjfee = record { coefficient = pos 100; places = 0 };
}

abbrev taker : Taker
taker = record {
  aborted = false;
  schedule_index = negsuc 0;
  maker_replacement_attempts = 0;
  maker_replacement_schedule_index = none;
  ignored_makers = [];
  honest_makers = [];
  honest_only = false;
  nonrespondants = nick ∷ [];
  orderbook = (nick, record { counterparty = nick; offer = offer }) ∷ [];
  cjamount = 100000;
  my_cj_addr = codes "tcj";
  my_change_addr = some (codes "tch");
  input_utxos = (own_coin, 150000) ∷ [];
  own_utxos = own_coin ∷ [];
  utxos = [];
  maker_utxo_data = [];
  outputs = [];
  cjfee_total = pos 0;
  maker_txfee_contributions = 0;
  total_txfee = 0;
  stage2_expected_makers = [];
  stage2_valid_sig_makers = [];
  latest_tx = none;
}

abbrev answer : Ioauth
answer = record {
  utxo_list = maker_coin ∷ [];
  auth_pub = codes "pk";
  cj_addr = codes "mcj";
  change_addr = codes "mch";
  btc_sig = codes "sig";
  maker_pk = codes "enc";
}

abbrev answers : Dict Text Ioauth
answers = (nick, answer) ∷ []

abbrev verified_maker : MakerTxData
verified_maker = record {
  nick = nick;
  utxo_data = maker_utxo ∷ [];
  total_input = 200000;
  change_amount = pos 100090;
  real_cjfee = pos 100;
  utxo_list = maker_coin ∷ [];
  cj_addr = codes "mcj";
  change_addr = codes "mch";
}

abbrev unsigned : Outpoint → TxInput
unsigned u = record { outpoint = u; script_sig = []; witness = none }

abbrev pays : String → ℕ → TxOutput
pays address value = record { address = codes address; value = pos value }

abbrev tx : CoinjoinTx
tx = record {
  inputs = unsigned own_coin ∷ unsigned maker_coin ∷ [];
  outputs = pays "mch" 100090 ∷ pays "mcj" 100000 ∷ pays "tch" 49310 ∷ pays "tcj" 100000 ∷ [];
}

answers-Distinct : Distinct (keys answers)
answers-Distinct = (refl, tt)

receive_test : (receive_utxos out ([], []) answers taker).1 ≡ built (nick ∷ []) tx
unfolding receive_utxos verify_ioauth_data verify_answer verify_ioauth_inputs all_known verify_known
    is_authorised maker_accounts calc_cj_fee is_absolute to_int add_makers add_maker enough_makers
    build_tx with_change my_change_value make_tx shuffle concat insert lookup remove text_discrete
    ℕ_discrete ◌+ℤ◌ ◌-ℤ◌
receive_test = refl

receive_utxos-IsFair_example :
    IsFair out (some (codes "tch")) (receive_utxos out ([], []) answers taker)
unfolding ℕ_discrete
receive_utxos-IsFair_example =
    receive_utxos-IsFair out ([], []) answers taker answers-Distinct
      (record {
        no_outputs = refl;
        no_fees = refl;
        no_contributions = refl;
        no_makers = refl;
        own_coins = refl;
      })

abbrev info : OfferInfo
info = record {
  utxos = (maker_coin, 200000) ∷ [];
  cjaddr = codes "mcj";
  changeaddr = codes "mch";
  amount = 100000;
  offer = offer;
}

verified_test : verify_ioauth_data out answers taker ≡ some ([], verified_maker ∷ [])
unfolding verify_ioauth_data verify_answer verify_ioauth_inputs all_known verify_known is_authorised
    maker_accounts calc_cj_fee is_absolute to_int lookup text_discrete ℕ_discrete ◌+ℤ◌ ◌-ℤ◌
verified_test = refl

info-IsHonest : IsHonest info taker verified_maker
unfolding lookup text_discrete ℕ_discrete ◌-ℤ◌
info-IsHonest = record {
  coins = refl;
  total = refl;
  amount = refl;
  offer = refl;
  cj_address = refl;
  change_address = refl;
  earns = omega arith;
}

scripts-Distinct : Distinct (scripts (to_transaction (λ address. address) tx).outputs)
unfolding text_discrete ℕ_discrete
scripts-Distinct = (refl, (refl, (refl, (refl, tt))))

result_test :
    receive_utxos out ([], []) answers taker
    ≡ ((receive_utxos out ([], []) answers taker).0, built (nick ∷ []) tx)
result_test = ap (λ r. ((receive_utxos out ([], []) answers taker).0, r)) receive_test

receive_utxos-verify_unsigned_tx_example :
    verify_unsigned_tx (λ address. address) (to_transaction (λ address. address) tx) info ≡ good
receive_utxos-verify_unsigned_tx_example =
    receive_utxos-verify_unsigned_tx out ([], []) (λ address. address) answers taker
      (receive_utxos out ([], []) answers taker).0 ([], verified_maker ∷ []) verified_maker info
      (nick ∷ []) tx answers-Distinct verified_test (inl refl) info-IsHonest result_test
      scripts-Distinct

abbrev entries : ℤ → Entry
entries i = record { cjamount = 100000; my_cj_addr = codes "tcj" }

-- The first entry is tried again after a replacement; a script then goes back once more.
abbrev events : List Event
events =
    initialized
    ∷ makers_failed (nick ∷ [])
    ∷ initialized
    ∷ makers_failed (nick ∷ [])
    ∷ index_set (negsuc 0)
    ∷ initialized
    ∷ makers_failed (nick ∷ [])
    ∷ []

abbrev signing : Scripts
signing = record {
  items = λ sig. some (sig ∷ codes "pk" ∷ []);
  kind = λ script. witness_v0_keyhash;
  p2wpkh_script = λ key. none;
  push = concat;
  verify_tx_input = λ i ins d. i == 1;
}

abbrev waiting_taker : Taker
waiting_taker = record taker { utxos = (nick, maker_coin ∷ []) ∷ []; latest_tx = some tx }

sig_test :
    (on_sig out signing nick (codes "sig") waiting_taker).1
    ≡ self_sign_and_push (
        with_inputs
          (unsigned own_coin
            ∷ record (unsigned maker_coin) { witness = some (codes "sig", codes "pk") }
            ∷ [])
          tx)
unfolding on_sig insert_sig receive_sig try_input try_known parse_sig record_sig finish_sig remove
    update lookup text_discrete ℕ_discrete pair_dec
sig_test = refl

on_sig-IsSafe_example : IsSafe out signing (on_sig out signing nick (codes "sig") waiting_taker)
on_sig-IsSafe_example =
    on_sig-IsSafe out signing nick (codes "sig") waiting_taker (inl refl, (inl refl, tt))
