-- ===== src/Taker/Verified.antt =====
-- What `_verify_ioauth_data` promises of the makers that it lets through.
use joinmarket_clientserver.Taker.Build.{txfee_of}
use mathlib.Core.Path.{subst}
use joinmarket_clientserver.Offers.Fees.{calc_cj_fee}
use joinmarket_clientserver.Offers.Choose.{Quote}
use joinmarket_clientserver.Prelude.Dict.{lookup, Dict, keys}
use joinmarket_clientserver.Prelude.Text.{Text, text_eq}
use joinmarket_clientserver.Taker.State.{MakerTxData, Outside, Taker, UtxoData, query_utxo_set}
use joinmarket_clientserver.Taker.Balance.{IsAccounted}
use joinmarket_clientserver.Taker.Ioauth.{
  Inputs, Ioauth, accepted, all_known, auth_counterparty, is_authorised, maker_accounts,
  maker_change, total_value, verify_known, refused, raised, maker_data, verified, verify_answer,
  verify_ioauth_inputs, answer_of_inputs, verify_ioauth_data, Answer, collect, dropped, failed,
  ignored,
}
use joinmarket_clientserver.Prelude.{
  Bool-cases, List, Option, Option-cases, arith, false, inl, inr, ltb_ℤ, none, some, true, ◌&&◌,
  ◌≡◌, ap, refl, sym, ℤ, All, Distinct, [], contains, map, ◌∷◌,
}

pub record IsVerified (out : Outside) (s : Taker) (nick : Text) (a : Ioauth) (m : MakerTxData)
    : Type 0 where
  pub authorised : (auth_counterparty out a && is_authorised out a.auth_pub m.utxo_data) ≡ true
  pub addresses : (out.validate_address m.cj_addr && out.validate_address m.change_addr) ≡ true
  pub known : all_known (query_utxo_set out m.utxo_list) ≡ some m.utxo_data
  pub named : m.nick ≡ nick
  pub agreed :
      (q : Quote) × (lookup m.nick s.orderbook ≡ some q)
      × (calc_cj_fee q.offer.ordertype q.offer.cjfee s.cjamount ≡ some m.real_cjfee)
  pub accounts : IsAccounted s.cjamount s.orderbook m
  pub no_dust : ltb_ℤ m.change_amount out.dust_threshold ≡ false

-- What the checks on known coins promise.
record IsKnown (out : Outside) (s : Taker) (nick : Text) (a : Ioauth) (ds : List UtxoData)
    (m : MakerTxData) : Type 0 where
  signed : is_authorised out a.auth_pub ds ≡ true
  coins : m.utxo_data ≡ ds
  answer :
      (m.nick ≡ nick)
      × (m.utxo_list ≡ a.utxo_list)
      × (m.cj_addr ≡ a.cj_addr)
      × (m.change_addr ≡ a.change_addr)
  fee :
      (q : Quote) × (lookup m.nick s.orderbook ≡ some q)
      × (calc_cj_fee q.offer.ordertype q.offer.cjfee s.cjamount ≡ some m.real_cjfee)
  sums : IsAccounted s.cjamount s.orderbook m
  change_kept : ltb_ℤ m.change_amount out.dust_threshold ≡ false

abbrev accepted_data : Inputs → Option MakerTxData
accepted_data refused = none
accepted_data raised = none
accepted_data (accepted m) = some m

maker_data-IsKnown :
    (out : Outside) (nick : Text) (a : Ioauth) (s : Taker) (ds : List UtxoData) (q : Quote)
    (fee : ℤ)
    → is_authorised out a.auth_pub ds ≡ true
    → lookup nick s.orderbook ≡ some q
    → calc_cj_fee q.offer.ordertype q.offer.cjfee s.cjamount ≡ some fee
    → ltb_ℤ (maker_change (total_value ds) s.cjamount q.offer.txfee fee) out.dust_threshold ≡ false
    → IsKnown out s nick a ds (maker_data nick a ds s.cjamount q fee)
maker_data-IsKnown out nick a s ds q fee k e f l = record {
  signed = k;
  coins = refl;
  answer = (refl, refl, refl, refl);
  fee = (q, e, f);
  sums = record {
    total = refl;
    change = ap (λ o. maker_change (total_value ds) s.cjamount (txfee_of o) fee) (sym e);
  };
  change_kept = l;
}

-- Coins that are accepted are the data of these steps.
verify_known-IsKnown :
    (out : Outside) (nick : Text) (a : Ioauth) (s : Taker) (ds : List UtxoData) (m : MakerTxData)
    → verify_known out nick a s ds ≡ accepted m
    → IsKnown out s nick a ds m
unfolding verify_known maker_accounts
verify_known-IsKnown out nick a s ds m h = elim (Bool-cases (is_authorised out a.auth_pub ds)) [
  | inr n ↦ absurd (grind (arith, h, n))
  | inl k ↦ elim (Option-cases (lookup nick s.orderbook)) [
    | inl n ↦ absurd (grind (arith, h, n, k))
    | inr (q, e) ↦ elim (Option-cases (calc_cj_fee q.offer.ordertype q.offer.cjfee s.cjamount)) [
      | inl n ↦ absurd (grind (arith, h, n, k, e))
      | inr (fee, f) ↦
          elim (Bool-cases (
            ltb_ℤ (maker_change (total_value ds) s.cjamount q.offer.txfee fee)
              out.dust_threshold)) [
                | inl n ↦ absurd (grind (arith, h, n, k, e, f))
                | inr l ↦
                    let made : verify_known out nick a s ds
                        ≡ accepted (maker_data nick a ds s.cjamount q fee) =
                      ground (arith, k, e, f, l) in
                    subst (IsKnown out s nick a ds) (cc)
                      (maker_data-IsKnown out nick a s ds q fee k e f l)
              ]
    ]
  ]
]

verified-accepted :
    (x : Inputs) (m : MakerTxData) → answer_of_inputs x ≡ verified m → x ≡ accepted m
verified-accepted refused m h = cc
verified-accepted raised m h = cc
verified-accepted (accepted n) m h = cc

IsKnown-IsVerified :
    (out : Outside) (s : Taker) (nick : Text) (a : Ioauth) (ds : List UtxoData) (m : MakerTxData)
    → auth_counterparty out a ≡ true
    → (out.validate_address a.cj_addr && out.validate_address a.change_addr) ≡ true
    → all_known (query_utxo_set out a.utxo_list) ≡ some ds
    → IsKnown out s nick a ds m
    → IsVerified out s nick a m
IsKnown-IsVerified out s nick a ds m b c d k =
    let answer = k.answer in
    record {
      authorised = grind (arith, b, k.signed, k.coins);
      addresses = grind (arith, c, answer.2, answer.3);
      known = grind (arith, d, answer.1, k.coins);
      named = answer.0;
      agreed = k.fee;
      accounts = k.sums;
      no_dust = k.change_kept;
    }

verify_ioauth_inputs-IsKnown :
    (out : Outside) (nick : Text) (a : Ioauth) (s : Taker) (m : MakerTxData)
    → verify_ioauth_inputs out nick a s ≡ accepted m
    → (ds : List UtxoData) × (all_known (query_utxo_set out a.utxo_list) ≡ some ds)
      × IsKnown out s nick a ds m
unfolding verify_ioauth_inputs
verify_ioauth_inputs-IsKnown out nick a s m h =
    elim (Option-cases (all_known (query_utxo_set out a.utxo_list))) [
      | inl n ↦ absurd (grind (arith, h, n))
      | inr (ds, e) ↦ (ds, e, verify_known-IsKnown out nick a s ds m (grind (arith, h, e)))
    ]

-- An answer that is verified is as promised.
pub verify_answer-IsVerified :
    (out : Outside) (nick : Text) (a : Ioauth) (s : Taker) (m : MakerTxData)
    → verify_answer out nick a s ≡ verified m
    → IsVerified out s nick a m
unfolding verify_answer
verify_answer-IsVerified out nick a s m h = elim (Bool-cases (auth_counterparty out a)) [
  | inr n ↦ absurd (grind (arith, h, n))
  | inl k ↦
      elim (Bool-cases (out.validate_address a.cj_addr && out.validate_address a.change_addr)) [
        | inr n ↦ absurd (grind (arith, h, n, k))
        | inl c ↦
            let (ds, d, known) =
              verify_ioauth_inputs-IsKnown out nick a s m (
                verified-accepted (verify_ioauth_inputs out nick a s) m (grind (arith, h, k, c))) in
            IsKnown-IsVerified out s nick a ds m k c d known
      ]
]

-- The data of the loop are of different makers, which have all answered as promised.
pub record AreVerified (out : Outside) (s : Taker) (d : Dict Text Ioauth) (ms : List MakerTxData)
    : Type 0 where
  pub each : All (λ m. (a : Ioauth) × IsVerified out s m.nick a m) ms
  pub from : (x : Text) → contains x (map (λ m. m.nick) ms) ≡ true → contains x (keys d) ≡ true
  pub distinct : Distinct (map (λ m. m.nick) ms)

AreVerified-skip :
    (out : Outside) (s : Taker) (nick : Text) (a : Ioauth) (d : Dict Text Ioauth)
    (ms : List MakerTxData)
    → AreVerified out s d ms
    → AreVerified out s ((nick, a) ∷ d) ms
AreVerified-skip out s nick a d ms v = record {
  each = v.each;
  from = λ x p. ground (arith, v.from x p);
  distinct = v.distinct;
}

AreVerified-keep :
    (out : Outside) (s : Taker) (nick : Text) (a : Ioauth) (d : Dict Text Ioauth) (m : MakerTxData)
    (ms : List MakerTxData)
    → contains nick (keys d) ≡ false
    → IsVerified out s nick a m
    → AreVerified out s d ms
    → AreVerified out s ((nick, a) ∷ d) (m ∷ ms)
AreVerified-keep out s nick a d m ms n k v = record {
  each = ((a, subst (λ x. IsVerified out s x a m) (sym k.named) k), v.each);
  from = λ x p. grind (arith, v.from x, k.named, p);
  distinct = (grind (arith, v.from m.nick, k.named, n), v.distinct);
}

collect-AreVerified :
    (out : Outside) (s : Taker) (nick : Text) (a : Ioauth) (d : Dict Text Ioauth)
    (before r : List Text × List MakerTxData) (answer : Answer)
    → contains nick (keys d) ≡ false
    → ((m : MakerTxData) → answer ≡ verified m → IsVerified out s nick a m)
    → AreVerified out s d before.1
    → collect nick answer before ≡ some r
    → AreVerified out s ((nick, a) ∷ d) r.1
collect-AreVerified out s nick a d before r dropped n f v h =
    let same : before.1 ≡ r.1 = cc in
    subst (AreVerified out s ((nick, a) ∷ d)) same (AreVerified-skip out s nick a d before.1 v)
collect-AreVerified out s nick a d before r ignored n f v h =
    let same : before.1 ≡ r.1 = cc in
    subst (AreVerified out s ((nick, a) ∷ d)) same (AreVerified-skip out s nick a d before.1 v)
collect-AreVerified out s nick a d before r failed n f v h = absurd (cc)
collect-AreVerified out s nick a d before r (verified m) n f v h =
    let same : (m ∷ before.1) ≡ r.1 = cc in
    subst (AreVerified out s ((nick, a) ∷ d)) same
      (AreVerified-keep out s nick a d m before.1 n (f m refl) v)

pub verify_ioauth_data-AreVerified :
    (out : Outside) (d : Dict Text Ioauth) (s : Taker) (r : List Text × List MakerTxData)
    → Distinct (keys d)
    → verify_ioauth_data out d s ≡ some r
    → AreVerified out s d r.1
unfolding verify_ioauth_data
verify_ioauth_data-AreVerified out [] s r n h =
    let empty : r.1 ≡ [] = cc in
    subst (AreVerified out s []) (sym empty) (record { each = tt; from = λ x p. p; distinct = tt })
verify_ioauth_data-AreVerified out ((nick, a) ∷ d) s r n h =
    elim (Option-cases (verify_ioauth_data out d s)) [
      | inl e ↦ absurd (grind (arith, h, e))
      | inr (before, e) ↦
          collect-AreVerified out s nick a d before r (verify_answer out nick a s) n.0
            (verify_answer-IsVerified out nick a s)
            (verify_ioauth_data-AreVerified out d s before n.1 e) (grind (arith, h, e))
    ]
