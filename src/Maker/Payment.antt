-- ===== src/Maker/Payment.antt =====
-- What a transaction pays a maker who found it good.
use native.Mathlib.Decide.{ℕ_discrete}
use joinmarket_clientserver.Offers.Fees.{calc_cj_fee}
use joinmarket_clientserver.Prelude.Dict.{keys}
use joinmarket_clientserver.Prelude.Text.{Text, text_eq}
use joinmarket_clientserver.Maker.Verify.{
  Output, check_outputs, good, OfferInfo, Transaction, contains_all, expected_change_value,
  total_in, verify_unsigned_tx,
}
use joinmarket_clientserver.Prelude.{
  List, [], arith, false, if◌then◌else◌, int_laws, ltb_ℤ, pos, ℕ, ℤ, ◌&&◌, ◌+ℤ◌, ◌+◌, ◌==◌, ◌||◌,
  ◌∷◌, ◌≡◌, ◌≢◌, ◌≤ℤ◌, ◌≤◌, ℕ_eq, +ℤ_parts, ap, neg_part, pos_part, Option-cases, inl, inr, some,
  true, ◌-ℤ◌,
}

-- How many outputs pay to a script.
abbrev pub times_paid : Text → List Output → ℕ
times_paid s [] = 0
times_paid s (o ∷ os) = if o.script == s then times_paid s os + 1 else times_paid s os

-- What the outputs to either of two scripts hold together.
unfoldable pub received : Text → Text → List Output → ℤ
received cj change [] = pos 0
received cj change (o ∷ os) =
    if o.script == cj || o.script == change
    then o.value +ℤ received cj change os
    else received cj change os

-- Every output to the script holds at least the amount.
abbrev pub PaysAtLeast : Text → ℤ → List Output → Type 0
PaysAtLeast s v [] = Unit
PaysAtLeast s v (o ∷ os) = ((o.script == s && ltb_ℤ o.value v) ≡ false) × PaysAtLeast s v os

check_outputs-counts :
    (cj change : Text) (amount : ℕ) (expected : ℤ) (os : List Output) (a b : ℕ)
    → check_outputs cj change amount expected os a b ≡ good
    → (times_paid cj os + a ≡ 1) × (times_paid change os + b ≡ 1)
unfolding check_outputs
check_outputs-counts cj change amount expected [] a b h = ground arith
check_outputs-counts cj change amount expected (o ∷ os) a b h = ground (
  arith,
  check_outputs-counts cj change amount expected os (if o.script == cj then a + 1 else a)
      (if o.script == change then b + 1 else b),
)

check_outputs-amounts :
    (cj change : Text) (amount : ℕ) (expected : ℤ) (os : List Output) (a b : ℕ)
    → check_outputs cj change amount expected os a b ≡ good
    → PaysAtLeast cj (pos amount) os × PaysAtLeast change expected os
unfolding check_outputs
check_outputs-amounts cj change amount expected [] a b h = (tt, tt)
check_outputs-amounts cj change amount expected (o ∷ os) a b h = ground (
  arith,
  check_outputs-amounts cj change amount expected os (if o.script == cj then a + 1 else a)
      (if o.script == change then b + 1 else b),
)

-- What the maker still has to receive: nothing to a script that is not paid any more.
abbrev owed : ℕ → ℤ → ℤ
owed n v = if n == 0 then pos 0 else v

owed_before : (n : ℕ) (v : ℤ) → n + 1 ≤ 1 → owed n v ≡ pos 0
owed_before n v h = ground arith

owed_after : (n : ℕ) (v : ℤ) → owed (n + 1) v ≡ v
owed_after n v = ground arith

-- One more output to either script covers what that script was owed.
add_cj :
    (n : ℕ) (amount change value r : ℤ)
    → n + 1 ≤ 1
    → amount ≤ℤ value
    → owed n amount +ℤ change ≤ℤ r
    → owed (n + 1) amount +ℤ change ≤ℤ value +ℤ r
add_cj n amount change value r once enough h = rw (owed_after n amount) (
    omega
      (int_laws, ap pos_part (owed_before n amount once), ap neg_part (owed_before n amount once)))

add_change :
    (n : ℕ) (amount change value r : ℤ)
    → n + 1 ≤ 1
    → change ≤ℤ value
    → amount +ℤ owed n change ≤ℤ r
    → amount +ℤ owed (n + 1) change ≤ℤ value +ℤ r
add_change n amount change value r once enough h = rw (owed_after n change) (
    omega
      (int_laws, ap pos_part (owed_before n change once), ap neg_part (owed_before n change once)))

received-ge :
    (cj change : Text) (amount expected : ℤ) (os : List Output)
    → cj ≢ change
    → times_paid cj os ≤ 1
    → times_paid change os ≤ 1
    → PaysAtLeast cj amount os
    → PaysAtLeast change expected os
    → owed (times_paid cj os) amount +ℤ owed (times_paid change os) expected
      ≤ℤ received cj change os
unfolding received
received-ge cj change amount expected [] ne a b p q = ground (arith, +ℤ_parts (pos 0) (pos 0))
received-ge cj change amount expected (o ∷ os) ne a b p q = ground (
  arith,
  received-ge cj change amount expected os ne,
  add_cj (times_paid cj os) amount (owed (times_paid change os) expected) o.value
      (received cj change os),
  add_change (times_paid change os) (owed (times_paid cj os) amount) expected o.value
      (received cj change os),
)

-- The way to a good verdict.
verify-inversion :
    (script_of : Text → Text) (tx : Transaction) (info : OfferInfo)
    → verify_unsigned_tx script_of tx info ≡ good
    → (fee : ℤ) × (contains_all tx.inputs (keys info.utxos) ≡ true)
      × (calc_cj_fee info.offer.ordertype info.offer.cjfee info.amount ≡ some fee)
      × (pos 0 ≤ℤ fee -ℤ pos info.offer.txfee)
      × (check_outputs
            (script_of info.cjaddr)
            (script_of info.changeaddr)
            info.amount
            (expected_change_value info fee)
            tx.outputs
            0
            0
          ≡ good)
unfolding verify_unsigned_tx
verify-inversion script_of tx info h =
    elim (Option-cases (calc_cj_fee info.offer.ordertype info.offer.cjfee info.amount)) [
      | inl e ↦ absurd (ground arith)
      | inr (fee, e) ↦ (fee, ground arith, e, ground arith, ground arith)
    ]

-- What a maker is promised: its coins are all spent by this transaction; the coinjoin and the change
-- script are paid once each, with at least the agreed amount and the expected change; and it earns
-- no less than nothing, on top of what it put in.
pub record IsPaid (script_of : Text → Text) (tx : Transaction) (info : OfferInfo) (fee : ℤ)
    : Type 0 where
  pub contained : contains_all tx.inputs (keys info.utxos) ≡ true
  pub agreed : calc_cj_fee info.offer.ordertype info.offer.cjfee info.amount ≡ some fee
  pub earns : pos 0 ≤ℤ fee -ℤ pos info.offer.txfee
  pub cj_once : times_paid (script_of info.cjaddr) tx.outputs ≡ 1
  pub change_once : times_paid (script_of info.changeaddr) tx.outputs ≡ 1
  pub cj_amount : PaysAtLeast (script_of info.cjaddr) (pos info.amount) tx.outputs
  pub change_amount :
      PaysAtLeast (script_of info.changeaddr) (expected_change_value info fee) tx.outputs

-- A transaction that is found good keeps every promise to the maker.
pub verify_unsigned_tx-IsPaid :
    (script_of : Text → Text) (tx : Transaction) (info : OfferInfo)
    → verify_unsigned_tx script_of tx info ≡ good
    → (fee : ℤ) × IsPaid script_of tx info fee
verify_unsigned_tx-IsPaid script_of tx info h =
    let (fee, contained, agreed, earns, checked) = verify-inversion script_of tx info h in
    let counts =
      check_outputs-counts (script_of info.cjaddr) (script_of info.changeaddr) info.amount
        (expected_change_value info fee) tx.outputs 0 0 checked in
    let amounts =
      check_outputs-amounts (script_of info.cjaddr) (script_of info.changeaddr) info.amount
        (expected_change_value info fee) tx.outputs 0 0 checked in
    (
      fee,
      record {
        contained = contained;
        agreed = agreed;
        earns = earns;
        cj_once = omega arith;
        change_once = omega arith;
        cj_amount = amounts.0;
        change_amount = amounts.1;
      },
    )

-- Where the two scripts differ, the outputs to them hold together at least what the maker put in, its
-- fee less its contribution to the transaction fee on top; so it never loses by signing.
pub verify_unsigned_tx-no_loss :
    (script_of : Text → Text) (tx : Transaction) (info : OfferInfo)
    → script_of info.cjaddr ≢ script_of info.changeaddr
    → verify_unsigned_tx script_of tx info ≡ good
    → (fee : ℤ) × (calc_cj_fee info.offer.ordertype info.offer.cjfee info.amount ≡ some fee)
      × (pos 0 ≤ℤ fee -ℤ pos info.offer.txfee)
      × (pos (total_in info) +ℤ (fee -ℤ pos info.offer.txfee)
          ≤ℤ received (script_of info.cjaddr) (script_of info.changeaddr) tx.outputs)
unfolding ℕ_discrete
verify_unsigned_tx-no_loss script_of tx info ne h =
    let (fee, paid) = verify_unsigned_tx-IsPaid script_of tx info h in
    let all =
      received-ge (script_of info.cjaddr) (script_of info.changeaddr) (pos info.amount)
        (expected_change_value info fee) tx.outputs ne (omega (arith, paid.cj_once))
        (omega (arith, paid.change_once)) paid.cj_amount paid.change_amount in
    let both : (pos info.amount +ℤ expected_change_value info fee
        ≤ℤ received (script_of info.cjaddr) (script_of info.changeaddr) tx.outputs) =
      rw (paid.cj_once, paid.change_once) at all in
    (fee, paid.agreed, paid.earns, omega (int_laws, both))

check_outputs-good :
    (cj change : Text) (amount : ℕ) (expected : ℤ) (os : List Output) (a b : ℕ)
    → times_paid cj os + a ≡ 1
    → times_paid change os + b ≡ 1
    → PaysAtLeast cj (pos amount) os
    → PaysAtLeast change expected os
    → check_outputs cj change amount expected os a b ≡ good
unfolding check_outputs
check_outputs-good cj change amount expected [] a b n m p q = ground arith
check_outputs-good cj change amount expected (o ∷ os) a b n m p q = ground (
  arith,
  check_outputs-good cj change amount expected os (if o.script == cj then a + 1 else a)
      (if o.script == change then b + 1 else b),
)

-- A transaction that keeps every promise is found good.
pub IsPaid-verify_unsigned_tx :
    (script_of : Text → Text) (tx : Transaction) (info : OfferInfo) (fee : ℤ)
    → IsPaid script_of tx info fee
    → verify_unsigned_tx script_of tx info ≡ good
unfolding verify_unsigned_tx
IsPaid-verify_unsigned_tx script_of tx info fee paid = ground (
  arith,
  paid.contained,
  paid.agreed,
  paid.earns,
  check_outputs-good (script_of info.cjaddr) (script_of info.changeaddr) info.amount
      (expected_change_value info fee) tx.outputs 0 0 (omega (arith, paid.cj_once))
      (omega (arith, paid.change_once)) paid.cj_amount paid.change_amount,
)
