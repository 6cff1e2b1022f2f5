-- ===== src/Taker/Fee.antt =====
-- The miners' fee of the transaction that `receive_utxos` makes.
-- What the inputs hold beyond the outputs.
use joinmarket_clientserver.Maker.Verify.{Outpoint}
use joinmarket_clientserver.Prelude.Split.{concat}
use joinmarket_clientserver.Taker.Verified.{IsVerified, verify_ioauth_data-AreVerified}
use joinmarket_clientserver.Taker.Ioauth.{Ioauth, verify_ioauth_data}
use joinmarket_clientserver.Prelude.Dict.{Dict, keys}
use mathlib.Core.Path.{subst}
use Prim.Native.Nat.{max}
use joinmarket_clientserver.Taker.Balance.{
  paid, paid-append, paid-shuffle, IsBalanced, IsAccounted, add_makers-IsBalanced, worth, IsFunded,
  worth-all_known, worth-shuffle, AreNew,
}
use joinmarket_clientserver.Prelude.Text.{Text, text_eq}
use joinmarket_clientserver.Taker.Build.{
  Reply, Shuffles, built, cj_output, my_change_value, my_total_in, my_txfee, shuffle, all_utxos,
  make_tx, with_change, without_change, add_maker, add_makers, build_tx, enough_makers,
  expect_signatures, receive_utxos, reestimate, build_for, estimate_for, receive_verified,
  user_aborted, unsigned_input,
}
use joinmarket_clientserver.Prelude.{
  List, Option, [], arith, eq_of_parts, int_laws, negsuc, none, parts_of_eq, pos, some, ℕ, ℤ, ◌++◌,
  ◌+ℤ◌, ◌+◌, ◌-ℤ◌, ◌∷◌, ◌≡◌, ◌≤ℤ◌, Bool-cases, inl, inr, leb_ℤ, length, ltb_ℤ, sym, All, All-weaken,
  Distinct, contains, false, ltb, refl, true, Bool, if◌then◌else◌, ap, map, ◌∙◌,
}
use joinmarket_clientserver.Taker.State.{
  CoinjoinTx, Outside, Taker, TxOutput, MakerTxData, add_ignored_makers,
}

abbrev pub miner_fee : Outside → CoinjoinTx → ℤ
miner_fee out tx = pos (worth out (map (λ i. i.outpoint) tx.inputs)) -ℤ paid tx.outputs

-- The larger one of the fee that was estimated and the contributions.
abbrev pub agreed_fee : Taker → ℕ
agreed_fee s = max s.total_txfee s.maker_txfee_contributions

abbrev pub left_over : Outside → Taker → CoinjoinTx → ℤ
left_over out s tx = miner_fee out tx -ℤ pos (agreed_fee s)

-- What may be left over, by the change addresses before and after: nothing with a change output; what
-- is too small for one where it was dropped; in a sweep what the amounts leave.
abbrev pub FairLeft : Outside → Option Text → Option Text → ℤ → ℤ → Type 0
FairLeft out none after change left = left ≡ change
FairLeft out (some a) (some b) change left = left ≡ pos 0
FairLeft out (some a) none change left = (negsuc 0 ≤ℤ left) × (left ≤ℤ out.bitcoin_dust_threshold)

abbrev pub IsFair : Outside → Option Text → Taker × Reply → Type 0
IsFair out before (s, built nicks tx) =
    FairLeft out before s.my_change_addr (my_change_value s) (left_over out s tx)
IsFair out before (s, reply) = Unit

-- The outputs pay the makers and a change of `extra`.
abbrev IsPaying : Outside → Taker → ℤ → Type 0
IsPaying out s extra =
    paid s.outputs +ℤ pos s.maker_txfee_contributions +ℤ pos (my_total_in s)
    ≡ pos (worth out (all_utxos s)) +ℤ s.cjfee_total +ℤ extra

left_step :
    (paid_before fees extra : ℤ) (contributed held own cjamount txfee : ℕ)
    → paid_before +ℤ pos contributed +ℤ pos own ≡ pos held +ℤ fees +ℤ extra
    → pos held -ℤ (paid_before +ℤ (pos cjamount +ℤ pos 0)) -ℤ pos (contributed + txfee)
      ≡ pos own -ℤ pos cjamount -ℤ fees -ℤ pos txfee -ℤ extra
left_step paid_before fees extra contributed held own cjamount txfee b =
    eq_of_parts _ _ (omega (int_laws, parts_of_eq b))

max_fee : (s : Taker) → agreed_fee s ≡ s.maker_txfee_contributions + my_txfee s
max_fee s = ground arith

outpoints-unsigned : (us : List Outpoint) → map (λ i. i.outpoint) (map unsigned_input us) ≡ us
outpoints-unsigned [] = refl
outpoints-unsigned (u ∷ us) = ap (λ vs. u ∷ vs) (outpoints-unsigned us)

-- The inputs hold what the coins do, in any order.
held-shuffle :
    (out : Outside) (positions : Shuffles) (us : List Outpoint)
    → worth out (map (λ i. i.outpoint) (map unsigned_input (shuffle positions.0 us))) ≡ worth out us
held-shuffle out positions us =
    ap (worth out) (outpoints-unsigned (shuffle positions.0 us)) ∙ worth-shuffle out positions.0 us

left_over-final :
    (out : Outside) (positions : Shuffles) (s : Taker) (extra : ℤ)
    → IsPaying out s extra
    → pos (
          worth out
            (map (λ i. i.outpoint) (map unsigned_input (shuffle positions.0 (all_utxos s)))))
        -ℤ paid (shuffle positions.1 (s.outputs ++ cj_output s.my_cj_addr s.cjamount ∷ []))
        -ℤ pos (agreed_fee s)
      ≡ my_change_value s -ℤ extra
unfolding my_change_value
left_over-final out positions s extra b = rw (held-shuffle out positions (all_utxos s)) (
    rw (paid-shuffle positions.1 (s.outputs ++ cj_output s.my_cj_addr s.cjamount ∷ [])) (
      rw (paid-append s.outputs (cj_output s.my_cj_addr s.cjamount ∷ [])) (
        rw (max_fee s) (
          left_step (paid s.outputs) s.cjfee_total extra s.maker_txfee_contributions
            (worth out (all_utxos s)) (my_total_in s) s.cjamount (my_txfee s) b))))

make_tx-IsFair :
    (out : Outside) (before : Option Text) (positions : Shuffles) (s : Taker) (extra : ℤ)
    → IsPaying out s extra
    → FairLeft out before s.my_change_addr (my_change_value s) (my_change_value s -ℤ extra)
    → IsFair out before (make_tx positions s)
unfolding make_tx my_change_value
make_tx-IsFair out before positions s extra b f =
    subst (FairLeft out before s.my_change_addr (my_change_value s))
      (sym (left_over-final out positions s extra b)) f

without_change-IsFair :
    (out : Outside) (before : Option Text) (positions : Shuffles) (s : Taker)
    → IsPaying out s (pos 0)
    → FairLeft out before s.my_change_addr (my_change_value s) (my_change_value s -ℤ pos 0)
    → IsFair out before (without_change out positions s)
unfolding without_change
without_change-IsFair out before positions s b f =
    elim (Bool-cases (
      out.feerate_ok (out.estimate_tx_fee (length (all_utxos s)) (length s.outputs + 1))
        s.total_txfee)) [
          | inl e ↦ rw e (make_tx-IsFair out before positions s (pos 0) b f)
          | inr e ↦ rw e tt
        ]

minus_zero : (a : ℤ) → a -ℤ pos 0 ≡ a
minus_zero a = eq_of_parts _ _ (omega int_laws)

minus_self : (a : ℤ) → a -ℤ a ≡ pos 0
minus_self a = eq_of_parts _ _ (omega int_laws)

IsBalanced-IsPaying : (out : Outside) (s : Taker) → IsBalanced out s → IsPaying out s (pos 0)
IsBalanced-IsPaying out s b = eq_of_parts _ _ (omega (int_laws, parts_of_eq b))

change-IsPaying :
    (out : Outside) (s : Taker) (address : Text) (change : ℤ)
    → IsBalanced out s
    → IsPaying out
        (record s { outputs = s.outputs ++ record { address = address; value = change } ∷ [] })
        change
change-IsPaying out s address change b =
    let o : TxOutput = record { address = address; value = change } in
    rw (paid-append s.outputs (o ∷ [])) (eq_of_parts _ _ (omega (int_laws, parts_of_eq b)))

dropped_bounds :
    (change dust : ℤ)
    → ltb_ℤ change (negsuc 0) ≡ false
    → leb_ℤ change dust ≡ true
    → (negsuc 0 ≤ℤ change -ℤ pos 0) × (change -ℤ pos 0 ≤ℤ dust)
dropped_bounds change dust l d = rw (minus_zero change) (ground arith)

with_change-IsFair :
    (out : Outside) (positions : Shuffles) (before address : Text) (s : Taker)
    → s.my_change_addr ≡ some address
    → IsBalanced out s
    → IsFair out (some before) (with_change out positions address s)
unfolding with_change my_change_value
with_change-IsFair out positions before address s e b =
    elim (Bool-cases (ltb_ℤ (my_change_value s) (negsuc 0))) [
      | inl l ↦ rw l tt
      | inr l ↦ elim (Bool-cases (leb_ℤ (my_change_value s) out.bitcoin_dust_threshold)) [
        | inl d ↦ rw l (
            rw d (
              without_change-IsFair out (some before) positions (record s { my_change_addr = none })
                (IsBalanced-IsPaying out s b)
                (dropped_bounds (my_change_value s) out.bitcoin_dust_threshold l d)))
        | inr d ↦ rw l (
            rw d (
              make_tx-IsFair out (some before) positions
                (record s {
                  outputs =
                      s.outputs ++ record { address = address; value = my_change_value s } ∷ [];
                })
                (my_change_value s) (change-IsPaying out s address (my_change_value s) b)
                (rw e (minus_self (my_change_value s)))))
      ]
    ]

build_for-IsFair :
    (out : Outside) (positions : Shuffles) (a : Option Text) (s : Taker)
    → s.my_change_addr ≡ a
    → IsBalanced out s
    → IsFair out a (build_for out positions a s)
build_for-IsFair out positions none s e b =
    without_change-IsFair out none positions s (IsBalanced-IsPaying out s b)
      (minus_zero (my_change_value s))
build_for-IsFair out positions (some address) s e b =
    with_change-IsFair out positions address address s e b

build_tx-IsFair :
    (out : Outside) (positions : Shuffles) (s : Taker)
    → IsBalanced out s
    → IsFair out s.my_change_addr (build_tx out positions s)
unfolding build_tx
build_tx-IsFair out positions s b = build_for-IsFair out positions s.my_change_addr s refl b

estimate_for-IsBalanced :
    (out : Outside) (a : Option Text) (s : Taker)
    → IsBalanced out s
    → IsBalanced out (estimate_for out a s)
estimate_for-IsBalanced out none s b = b
estimate_for-IsBalanced out (some address) s b = b

estimate_for-my_change_addr :
    (out : Outside) (a : Option Text) (s : Taker)
    → (estimate_for out a s).my_change_addr ≡ s.my_change_addr
estimate_for-my_change_addr out none s = refl
estimate_for-my_change_addr out (some address) s = refl

enough_makers-IsFair :
    (out : Outside) (positions : Shuffles) (s : Taker)
    → IsBalanced out s
    → IsFair out s.my_change_addr (enough_makers out positions s)
unfolding enough_makers
enough_makers-IsFair out positions s b =
    elim (Bool-cases (ltb (length s.maker_utxo_data) out.minimum_makers)) [
      | inl e ↦ rw e tt
      | inr e ↦ rw e (
          subst (λ a. IsFair out a (build_tx out positions (reestimate out (expect_signatures s))))
            (estimate_for-my_change_addr out s.my_change_addr (expect_signatures s))
            (build_tx-IsFair out positions (reestimate out (expect_signatures s))
              (estimate_for-IsBalanced out s.my_change_addr (expect_signatures s) b)))
    ]

add_makers-my_change_addr :
    (ms : List MakerTxData) (s : Taker) → (add_makers ms s).my_change_addr ≡ s.my_change_addr
unfolding add_makers add_maker
add_makers-my_change_addr [] s = refl
add_makers-my_change_addr (m ∷ ms) s = add_makers-my_change_addr ms (add_maker m s)

-- As `initialize` leaves the sums and `prepare_my_bitcoin_data` the coins; the wallet knows what its own
-- coins hold.
pub record IsFresh (out : Outside) (s : Taker) : Type 0 where
  pub no_outputs : s.outputs ≡ []
  pub no_fees : s.cjfee_total ≡ pos 0
  pub no_contributions : s.maker_txfee_contributions ≡ 0
  pub no_makers : s.utxos ≡ []
  pub own_coins : my_total_in s ≡ worth out s.own_utxos

IsFresh-IsBalanced :
    (out : Outside) (s : Taker) (makers : List Text)
    → IsFresh out s
    → IsBalanced out (add_ignored_makers makers (record s { maker_utxo_data = [] }))
unfolding concat
IsFresh-IsBalanced out s makers f =
    rw (f.no_outputs, f.no_fees, f.no_contributions, f.no_makers, f.own_coins)
      (rw (append_none s.own_utxos) (eq_of_parts _ _ (omega int_laws)))
  where
    append_none : (us : List Outpoint) → us ++ [] ≡ us
    append_none [] = refl
    append_none (u ∷ us) = ap (λ vs. u ∷ vs) (append_none us)

none_yet : (ms : List MakerTxData) → All (λ m. contains m.nick [] ≡ false) ms
none_yet [] = tt
none_yet (m ∷ ms) = (refl, none_yet ms)

receive_verified-IsFair :
    (out : Outside) (positions : Shuffles) (d : Dict Text Ioauth) (s : Taker)
    (o : Option (List Text × List MakerTxData))
    → Distinct (keys d)
    → IsFresh out s
    → verify_ioauth_data out d s ≡ o
    → IsFair out s.my_change_addr (receive_verified out positions o s)
receive_verified-IsFair out positions d s none n f q = tt
receive_verified-IsFair out positions d s (some r) n f q =
    let start : Taker = add_ignored_makers r.0 (record s { maker_utxo_data = [] }) in
    let v = verify_ioauth_data-AreVerified out d s r n q in
    let accounts =
      All-weaken (λ m. (a : Ioauth) × IsVerified out s m.nick a m)
        (IsAccounted s.cjamount s.orderbook) r.1 (λ m p. p.1.accounts) v.each in
    let funded =
      All-weaken (λ m. (a : Ioauth) × IsVerified out s m.nick a m) (IsFunded out) r.1
        (λ m p. worth-all_known out m.utxo_list m.utxo_data p.1.known) v.each in
    let balanced =
      add_makers-IsBalanced out r.1 start accounts funded
        (subst (λ d. AreNew r.1 (keys d)) (sym f.no_makers) (none_yet r.1, v.distinct))
        (IsFresh-IsBalanced out s r.0 f) in
    subst (λ a. IsFair out a (enough_makers out positions (add_makers r.1 start)))
      (add_makers-my_change_addr r.1 start)
      (enough_makers-IsFair out positions (add_makers r.1 start) balanced)

unless_aborted :
    (out : Outside) (before : Option Text) (s : Taker) (b : Bool) (r : Taker × Reply)
    → IsFair out before r
    → IsFair out before (if b then (s, user_aborted) else r)
unless_aborted out before s true r f = tt
unless_aborted out before s false r f = f

-- The transaction that `receive_utxos` makes of the answers of different makers, from fresh sums, and
-- with own coins that hold what the wallet thinks, pays a miners' fee (what the node says of its inputs,
-- less its outputs) that is the larger one of the estimated fee and the contributions of the makers,
-- and not a satoshi more if the taker gets change; if its change is dropped, the fee takes at most the
-- dust threshold more and at most 1 less; in a sweep the rest of the amounts goes to the fee.
pub receive_utxos-IsFair :
    (out : Outside) (positions : Shuffles) (d : Dict Text Ioauth) (s : Taker)
    → Distinct (keys d)
    → IsFresh out s
    → IsFair out s.my_change_addr (receive_utxos out positions d s)
unfolding receive_utxos
receive_utxos-IsFair out positions d s n f =
    unless_aborted out s.my_change_addr s s.aborted
      (receive_verified out positions (verify_ioauth_data out d s) s)
      (receive_verified-IsFair out positions d s (verify_ioauth_data out d s) n f refl)
