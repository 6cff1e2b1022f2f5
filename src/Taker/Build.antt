-- ===== src/Taker/Build.antt =====
-- `receive_utxos`: the transaction that the taker makes of the makers' coins and its own.
-- A random order: the position of each element among those behind it.
use joinmarket_clientserver.Prelude.Split.{concat}
use joinmarket_clientserver.Maker.Verify.{sum, Outpoint}
use joinmarket_clientserver.Taker.Ioauth.{Ioauth, verify_ioauth_data}
use joinmarket_clientserver.Prelude.Text.{text_eq, Text}
use joinmarket_clientserver.Offers.Choose.{Quote}
use joinmarket_clientserver.Prelude.Dict.{insert, lookup, Dict, keys, values}
use joinmarket_clientserver.Taker.State.{
  MakerTxData, Taker, remove, Outside, TxInput, TxOutput, add_ignored_makers, CoinjoinTx,
}
use joinmarket_clientserver.Prelude.{
  List, Option, [], none, pos, some, suc, zero, ℕ, ◌++◌, ◌+ℤ◌, ◌+◌, ◌∷◌, if◌then◌else◌, leb_ℤ,
  length, ltb, ltb_ℤ, map, negsuc, ℤ, ◌-ℤ◌, ◌-◌,
}

unfoldable pub insert_at : {A : Type 0} → ℕ → A → List A → List A
insert_at zero x ys = x ∷ ys
insert_at (suc k) x [] = x ∷ []
insert_at (suc k) x (y ∷ ys) = y ∷ insert_at k x ys

-- `random.shuffle`, where the random positions are given.
unfoldable pub shuffle : {A : Type 0} → List ℕ → List A → List A
unfolding insert_at
shuffle positions [] = []
shuffle [] (x ∷ xs) = x ∷ shuffle [] xs
shuffle (k ∷ ks) (x ∷ xs) = insert_at k x (shuffle ks xs)

-- The contribution of a maker; its offer has been looked up before.
abbrev pub txfee_of : Option Quote → ℕ
txfee_of none = 0
txfee_of (some q) = q.offer.txfee

abbrev pub change_output : MakerTxData → TxOutput
change_output m = record { address = m.change_addr; value = m.change_amount }

abbrev pub cj_output : Text → ℕ → TxOutput
cj_output address cjamount = record { address = address; value = pos cjamount }

-- The coins of a maker and the outputs that it gets.
unfoldable pub add_maker : MakerTxData → Taker → Taker
unfolding remove
add_maker m s = record s {
  utxos = insert m.nick m.utxo_list s.utxos;
  outputs = s.outputs ++ change_output m ∷ cj_output m.cj_addr s.cjamount ∷ [];
  cjfee_total = s.cjfee_total +ℤ m.real_cjfee;
  maker_txfee_contributions = s.maker_txfee_contributions + txfee_of (lookup m.nick s.orderbook);
  maker_utxo_data = insert m.nick m.utxo_data s.maker_utxo_data;
  nonrespondants = remove m.nick s.nonrespondants;
}

unfoldable pub add_makers : List MakerTxData → Taker → Taker
unfolding add_maker
add_makers [] s = s
add_makers (m ∷ ms) s = add_makers ms (add_maker m s)

-- What `receive_utxos` returns, or that it raises.
pub data Reply : Type 0 where
  user_aborted : Reply
  too_few_makers : List Text → Reply
  unacceptable_feerate : Reply
  fee_too_large : Reply
  raised_error : Reply
  built : List Text → CoinjoinTx → Reply

-- `sum(self.utxos.values(), [])`
abbrev pub all_utxos : Taker → List Outpoint
all_utxos s = s.own_utxos ++ concat (values s.utxos)

-- The lists for the second stage.
abbrev pub expect_signatures : Taker → Taker
expect_signatures s = record s {
  nonrespondants = keys s.maker_utxo_data;
  stage2_expected_makers = keys s.maker_utxo_data;
  stage2_valid_sig_makers = [];
}

-- With a change address, the fee is estimated again.
abbrev pub estimate_for : Outside → Option Text → Taker → Taker
estimate_for out none s = s
estimate_for out (some a) s = record s {
  total_txfee = out.estimate_tx_fee (length (all_utxos s)) (length s.outputs + 2);
}

abbrev pub reestimate : Outside → Taker → Taker
reestimate out s = estimate_for out s.my_change_addr s

-- `max(total_txfee - maker_txfee_contributions, 0)`
abbrev pub my_txfee : Taker → ℕ
my_txfee s = s.total_txfee - s.maker_txfee_contributions

abbrev pub my_total_in : Taker → ℕ
my_total_in s = sum (values s.input_utxos)

unfoldable pub my_change_value : Taker → ℤ
my_change_value s = pos (my_total_in s) -ℤ pos s.cjamount -ℤ s.cjfee_total -ℤ pos (my_txfee s)

abbrev pub unsigned_input : Outpoint → TxInput
unsigned_input u = record { outpoint = u; script_sig = []; witness = none }

-- The random positions of the inputs and of the outputs.
abbrev pub Shuffles : Type 0
Shuffles = List ℕ × List ℕ

-- The taker's own coinjoin output, and the transaction.
unfoldable pub make_tx : Shuffles → Taker → Taker × Reply
unfolding shuffle
make_tx positions s =
    let outputs = s.outputs ++ cj_output s.my_cj_addr s.cjamount ∷ [] in
    let tx : CoinjoinTx = record {
      inputs = map unsigned_input (shuffle positions.0 (all_utxos s));
      outputs = shuffle positions.1 outputs;
    } in
    (record s { outputs = tx.outputs; latest_tx = some tx }, built (keys s.maker_utxo_data) tx)

unfoldable pub without_change : Outside → Shuffles → Taker → Taker × Reply
unfolding make_tx
without_change out positions s =
    if out.feerate_ok (out.estimate_tx_fee (length (all_utxos s)) (length s.outputs + 1))
      s.total_txfee
    then make_tx positions s
    else (s, unacceptable_feerate)

-- A change of less than -1 raises an error; dust is dropped.
unfoldable pub with_change : Outside → Shuffles → Text → Taker → Taker × Reply
unfolding my_change_value without_change make_tx
with_change out positions address s =
    if ltb_ℤ (my_change_value s) (negsuc 0)
    then (s, fee_too_large)
    else if leb_ℤ (my_change_value s) out.bitcoin_dust_threshold
    then without_change out positions (record s { my_change_addr = none })
    else make_tx positions (record s {
      outputs = s.outputs ++ record { address = address; value = my_change_value s } ∷ [];
    })

-- The transaction by the change address.
abbrev pub build_for : Outside → Shuffles → Option Text → Taker → Taker × Reply
build_for out positions none s = without_change out positions s
build_for out positions (some address) s = with_change out positions address s

unfoldable pub build_tx : Outside → Shuffles → Taker → Taker × Reply
build_tx out positions s = build_for out positions s.my_change_addr s

unfoldable pub enough_makers : Outside → Shuffles → Taker → Taker × Reply
unfolding build_tx
enough_makers out positions s =
    if ltb (length s.maker_utxo_data) out.minimum_makers
    then (add_ignored_makers s.nonrespondants s, too_few_makers s.nonrespondants)
    else build_tx out positions (reestimate out (expect_signatures s))

-- What is made of the makers' data; none stands for an exception.
abbrev pub receive_verified :
    Outside → Shuffles → Option (List Text × List MakerTxData) → Taker → Taker × Reply
receive_verified out positions none s = (record s { maker_utxo_data = [] }, raised_error)
receive_verified out positions (some r) s =
    enough_makers out positions
      (add_makers r.1 (add_ignored_makers r.0 (record s { maker_utxo_data = [] })))

unfoldable pub receive_utxos : Outside → Shuffles → Dict Text Ioauth → Taker → Taker × Reply
unfolding verify_ioauth_data
receive_utxos out positions ioauth_data s =
    if s.aborted
    then (s, user_aborted)
    else receive_verified out positions (verify_ioauth_data out ioauth_data s) s
