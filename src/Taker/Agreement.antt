-- ===== src/Taker/Agreement.antt =====
-- The maker's check of the transaction and the taker's making of it agree.
-- The transaction as a maker gets it, with the scripts of the addresses.
use joinmarket_clientserver.Taker.Build.{Shuffles, built, change_output, cj_output, receive_utxos}
use joinmarket_clientserver.Offers.Fees.{calc_cj_fee}
use joinmarket_clientserver.Taker.Verified.{IsVerified, verify_ioauth_data-AreVerified}
use joinmarket_clientserver.Taker.Ioauth.{Ioauth, verify_ioauth_data}
use joinmarket_clientserver.Taker.Contains.{In-map, Contains, Pays, receive_utxos-Contains}
use joinmarket_clientserver.Offers.Choose.{Quote}
use joinmarket_clientserver.Maker.Payment.{
  times_paid, PaysAtLeast, IsPaid, IsPaid-verify_unsigned_tx,
}
use joinmarket_clientserver.Maker.Verify.{
  Output, Transaction, OfferInfo, total_in, Outpoint, expected_change_value, contains_all,
  verify_unsigned_tx, good,
}
use mathlib.Core.Option
use mathlib.Core.Path.{subst}
use joinmarket_clientserver.Prelude.Dict.{keys, lookup, Dict}
use joinmarket_clientserver.Prelude.Text.{Text, text_eq}
use joinmarket_clientserver.Taker.State.{CoinjoinTx, MakerTxData, Taker, Outside, TxOutput}
use joinmarket_clientserver.Prelude.{
  ==_refl, Distinct, In, List, [], arith, contains, false, inl, inr, ltb_ℤ, map, pos, refl, some,
  sym, ℤ, ◌-ℤ◌, ◌∷◌, ◌≡◌, ◌≤ℤ◌, ==_iff, Bool-cases, true, ◌==◌, ◌∙◌, pair_eq, ℕ_eq, All-In,
}

abbrev pub to_transaction : (Text → Text) → CoinjoinTx → Transaction
to_transaction script_of tx = record {
  inputs = map (λ i. i.outpoint) tx.inputs;
  outputs = map (λ o. record { script = script_of o.address; value = o.value }) tx.outputs;
}

-- The maker has sent what it has, and its coins hold what the node says; it earns no less than nothing.
pub record IsHonest (info : OfferInfo) (s : Taker) (m : MakerTxData) : Type 0 where
  pub coins : keys info.utxos ≡ m.utxo_list
  pub total : total_in info ≡ m.total_input
  pub amount : info.amount ≡ s.cjamount
  pub offer : Option.map (λ (q : Quote). q.offer) (lookup m.nick s.orderbook) ≡ some info.offer
  pub cj_address : info.cjaddr ≡ m.cj_addr
  pub change_address : info.changeaddr ≡ m.change_addr
  pub earns : pos 0 ≤ℤ m.real_cjfee -ℤ pos info.offer.txfee

abbrev pub scripts : List Output → List Text
scripts os = map (λ o. o.script) os

unpaid :
    (sc : Text) (v : ℤ) (os : List Output)
    → contains sc (scripts os) ≡ false
    → (times_paid sc os ≡ 0) × PaysAtLeast sc v os
unpaid sc v [] h = (refl, tt)
unpaid sc v (o ∷ os) h =
    let rest = unpaid sc v os (ground (arith, h)) in
    (ground (arith, h, rest.0), (ground (arith, h), rest.1))

In-contains : (x : Text) (xs : List Text) → In x xs → contains x xs ≡ true
In-contains x [] h = absurd h
In-contains x (y ∷ ys) (inl e) = grind (arith, e, ==_refl y)
In-contains x (y ∷ ys) (inr h) = ground (arith, In-contains x ys h)

other_script :
    (sc : Text) (o : Output) (os : List Output)
    → contains sc (scripts os) ≡ false
    → In o os
    → (sc == o.script) ≡ false
other_script sc o os d h = elim (Bool-cases (sc == o.script)) [
  | inr n ↦ n
  | inl e ↦
      let here = In-contains o.script (scripts os) (In-map (λ (p : Output). p.script) o os h) in
      absurd (grind (arith, here, d, (==_iff sc o.script).0 e))
]

-- An output whose script no other has is the only one that pays it.
paid_once :
    (o : Output) (v : ℤ) (os : List Output)
    → Distinct (scripts os)
    → ltb_ℤ o.value v ≡ false
    → In o os
    → (times_paid o.script os ≡ 1) × PaysAtLeast o.script v os
paid_once o v [] d l h = absurd h
paid_once o v (p ∷ os) d l (inl e) =
    let rest = unpaid p.script v os d.0 in
    subst (λ x. (times_paid x.script (p ∷ os) ≡ 1) × PaysAtLeast x.script v (p ∷ os)) (sym e)
      (grind (arith, ==_refl p.script, rest.0), (grind (arith, l, e, ==_refl p.script), rest.1))
paid_once o v (p ∷ os) d l (inr h) =
    let rest = paid_once o v os d.1 l h in
    let q = other_script p.script o os d.0 h in
    (grind (arith, q, rest.0), (grind (arith, q), rest.1))

not_below : (a : ℤ) → ltb_ℤ a a ≡ false
not_below a = ground arith

contains_each :
    (xs ys : List Outpoint)
    → ((u : Outpoint) → In u ys → contains u xs ≡ true)
    → contains_all xs ys ≡ true
contains_each xs [] f = refl
contains_each xs (y ∷ ys) f =
    grind (arith, f y (inl refl), contains_each xs ys (λ u h. f u (inr h)))

outpoint-contains : (x : Outpoint) (xs : List Outpoint) → In x xs → contains x xs ≡ true
outpoint-contains x [] h = absurd h
outpoint-contains x (y ∷ ys) (inl e) = grind (arith, e, ==_refl y)
outpoint-contains x (y ∷ ys) (inr h) = ground (arith, outpoint-contains x ys h)

-- The maker's terms, as both sides have them.
record IsAgreed (info : OfferInfo) (m : MakerTxData) : Type 0 where
  fee : calc_cj_fee info.offer.ordertype info.offer.cjfee info.amount ≡ some m.real_cjfee
  change : m.change_amount ≡ expected_change_value info m.real_cjfee

IsHonest-IsAgreed :
    (out : Outside) (s : Taker) (a : Ioauth) (info : OfferInfo) (m : MakerTxData)
    → IsVerified out s m.nick a m
    → IsHonest info s m
    → IsAgreed info m
IsHonest-IsAgreed out s a info m v h =
    let (q, e, f) = v.agreed in
    let same : q.offer ≡ info.offer = grind (arith, h.offer, e) in
    record {
      fee = grind (arith, f, same, h.amount);
      change = v.accounts.change ∙ grind (arith, e, same, h.amount, h.total);
    }

abbrev script_output : (Text → Text) → TxOutput → Output
script_output script_of o = record { script = script_of o.address; value = o.value }

Pays-IsPaid :
    (script_of : Text → Text) (s : Taker) (info : OfferInfo) (m : MakerTxData) (tx : CoinjoinTx)
    → IsHonest info s m
    → IsAgreed info m
    → Pays s.cjamount m (map (λ i. i.outpoint) tx.inputs) tx.outputs
    → Distinct (scripts (to_transaction script_of tx).outputs)
    → IsPaid script_of (to_transaction script_of tx) info m.real_cjfee
Pays-IsPaid script_of s info m tx h g p d =
    let outs = (to_transaction script_of tx).outputs in
    let cj =
      paid_once (script_output script_of (cj_output m.cj_addr s.cjamount)) (pos s.cjamount) outs d
        (not_below (pos s.cjamount))
        (In-map (script_output script_of) (cj_output m.cj_addr s.cjamount) tx.outputs p.coinjoin) in
    let change =
      paid_once (script_output script_of (change_output m)) m.change_amount outs d
        (not_below m.change_amount)
        (In-map (script_output script_of) (change_output m) tx.outputs p.change) in
    record {
      contained = rw (h.coins) (
          contains_each (map (λ i. i.outpoint) tx.inputs) m.utxo_list
            (λ u q. outpoint-contains u (map (λ i. i.outpoint) tx.inputs) (p.coins u q)));
      agreed = g.fee;
      earns = h.earns;
      cj_once = rw (h.cj_address) cj.0;
      change_once = rw (h.change_address) change.0;
      cj_amount = rw (h.cj_address, h.amount) cj.1;
      change_amount = rw (h.change_address, ← g.change) change.1;
    }

-- The transaction that a taker makes of the answers of different makers is found good by each honest
-- one of them that it has verified, if no two outputs have the same script: the maker will sign.
pub receive_utxos-verify_unsigned_tx :
    (out : Outside) (positions : Shuffles) (script_of : Text → Text) (d : Dict Text Ioauth)
    (s t : Taker) (r : List Text × List MakerTxData) (m : MakerTxData) (info : OfferInfo)
    (nicks : List Text) (tx : CoinjoinTx)
    → Distinct (keys d)
    → verify_ioauth_data out d s ≡ some r
    → In m r.1
    → IsHonest info s m
    → receive_utxos out positions d s ≡ (t, built nicks tx)
    → Distinct (scripts (to_transaction script_of tx).outputs)
    → verify_unsigned_tx script_of (to_transaction script_of tx) info ≡ good
receive_utxos-verify_unsigned_tx out positions script_of d s t r m info nicks tx n e i h b u =
    let (a, v) =
      All-In (λ x. (a : Ioauth) × IsVerified out s x.nick a x) m r.1
        (verify_ioauth_data-AreVerified out d s r n e).each i in
    let pays =
      subst (Contains s.cjamount m) b (receive_utxos-Contains out positions d s r m n e i) in
    IsPaid-verify_unsigned_tx script_of (to_transaction script_of tx) info m.real_cjfee
      (Pays-IsPaid script_of s info m tx h (IsHonest-IsAgreed out s a info m v h) pays u)
