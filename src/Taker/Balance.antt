-- ===== src/Taker/Balance.antt =====
-- The accounts of a coinjoin: what goes in, what is paid out, and what is left as the miners' fee.
use mathlib.Core.Path.{subst}
use joinmarket_clientserver.Prelude.Split.{concat}
use joinmarket_clientserver.Offers.Choose.{Quote}
use joinmarket_clientserver.Maker.Verify.{sum, Outpoint}
use joinmarket_clientserver.Taker.Ioauth.{maker_change, total_value, all_known}
use joinmarket_clientserver.Taker.Build.{
  add_maker, add_makers, change_output, cj_output, insert_at, shuffle, txfee_of, my_total_in,
  all_utxos,
}
use joinmarket_clientserver.Prelude.Text.{Text, text_eq}
use joinmarket_clientserver.Taker.State.{
  MakerTxData, Taker, TxOutput, UtxoData, Outside, query_utxo_set,
}
use joinmarket_clientserver.Prelude.Dict.{Dict, contains-keys-insert, insert, keys, lookup, values}
use joinmarket_clientserver.Prelude.{
  All, Distinct, List, [], ap, arith, contains, false, int_laws, parts_of_eq, eq_of_parts, map, pos,
  refl, suc, zero, ℕ, ℤ, ◌++◌, ◌+ℤ◌, ◌+◌, ◌∙◌, ◌∷◌, ◌≡◌, ==_iff, ==_refl, Bool-cases, Option-cases,
  inl, inr, none, some, sym, ◌==◌,
}

abbrev pub paid : List TxOutput → ℤ
paid [] = pos 0
paid (o ∷ os) = o.value +ℤ paid os

-- What the node says that a coin holds.
abbrev pub node_value : Outside → Outpoint → ℕ
node_value out u = elim (out.query_utxo u) [ none ↦ 0 | some d ↦ d.value ]

abbrev pub worth : Outside → List Outpoint → ℕ
worth out us = sum (map (node_value out) us)

pub paid-append : (xs ys : List TxOutput) → paid (xs ++ ys) ≡ paid xs +ℤ paid ys
paid-append [] ys = omega int_laws
paid-append (x ∷ xs) ys = grind (int_laws, paid-append xs ys)

paid-insert_at :
    (k : ℕ) (x : TxOutput) (ys : List TxOutput) → paid (insert_at k x ys) ≡ x.value +ℤ paid ys
unfolding insert_at
paid-insert_at zero x ys = refl
paid-insert_at (suc k) x [] = refl
paid-insert_at (suc k) x (y ∷ ys) = grind (int_laws, paid-insert_at k x ys)

-- The order of the outputs does not change their sum.
pub paid-shuffle : (ks : List ℕ) (xs : List TxOutput) → paid (shuffle ks xs) ≡ paid xs
unfolding shuffle
paid-shuffle ks [] = refl
paid-shuffle [] (x ∷ xs) = ap (λ p. x.value +ℤ p) (paid-shuffle [] xs)
paid-shuffle (k ∷ ks) (x ∷ xs) =
    paid-insert_at k x (shuffle ks xs) ∙ ap (λ p. x.value +ℤ p) (paid-shuffle ks xs)

worth-append :
    (out : Outside) (us vs : List Outpoint) → worth out (us ++ vs) ≡ worth out us + worth out vs
worth-append out [] vs = omega arith
worth-append out (u ∷ us) vs = omega (arith, worth-append out us vs)

worth-insert_at :
    (out : Outside) (k : ℕ) (u : Outpoint) (us : List Outpoint)
    → worth out (insert_at k u us) ≡ node_value out u + worth out us
unfolding insert_at
worth-insert_at out zero u us = refl
worth-insert_at out (suc k) u [] = refl
worth-insert_at out (suc k) u (v ∷ us) = omega (arith, worth-insert_at out k u us)

pub worth-shuffle :
    (out : Outside) (ks : List ℕ) (us : List Outpoint) → worth out (shuffle ks us) ≡ worth out us
unfolding shuffle
worth-shuffle out ks [] = refl
worth-shuffle out [] (u ∷ us) = ap (λ w. node_value out u + w) (worth-shuffle out [] us)
worth-shuffle out (k ∷ ks) (u ∷ us) =
    worth-insert_at out k u (shuffle ks us)
    ∙ ap (λ w. node_value out u + w) (worth-shuffle out ks us)

worth-concat-insert :
    (out : Outside) (nick : Text) (us : List Outpoint) (d : Dict Text (List Outpoint))
    → contains nick (keys d) ≡ false
    → worth out (concat (values (insert nick us d))) ≡ worth out (concat (values d)) + worth out us
unfolding insert concat
worth-concat-insert out nick us [] h = omega (arith, worth-append out us [])
worth-concat-insert out nick us ((j, vs) ∷ d) h = elim (Bool-cases (j == nick)) [
  | inl e ↦ absurd (ground (arith, h, e, ==_iff j nick, ==_refl nick))
  | inr e ↦ rw e (
      omega (
        arith,
        worth-append out vs (concat (values d)),
        worth-append out vs (concat (values (insert nick us d))),
        worth-concat-insert out nick us d (ground (arith, h)),
      ))
]

-- What has been paid to the makers so far, what they contribute, and what the taker believes to put in
-- is what all coins hold and the fees that the makers earn.
abbrev pub IsBalanced : Outside → Taker → Type 0
IsBalanced out s =
    paid s.outputs +ℤ pos s.maker_txfee_contributions +ℤ pos (my_total_in s)
    ≡ pos (worth out (all_utxos s)) +ℤ s.cjfee_total

-- The data of the coins are what the node says.
abbrev pub IsFunded : Outside → MakerTxData → Type 0
IsFunded out m = worth out m.utxo_list ≡ total_value m.utxo_data

node_value-some :
    (out : Outside) (u : Outpoint) (d : UtxoData)
    → out.query_utxo u ≡ some d
    → node_value out u ≡ d.value
node_value-some out u d e = ap (λ o. elim o [ none ↦ 0 | some d ↦ d.value ]) e

some_eq : {A : Type 0} {a b : A} → some a ≡ some b → a ≡ b
some_eq h = ground arith

pub worth-all_known :
    (out : Outside) (us : List Outpoint) (ds : List UtxoData)
    → all_known (query_utxo_set out us) ≡ some ds
    → worth out us ≡ total_value ds
unfolding all_known
worth-all_known out [] ds h = ap total_value (some_eq h)
worth-all_known out (u ∷ us) ds h = elim (Option-cases (out.query_utxo u)) [
  | inl e ↦ absurd (ground (arith, h, e))
  | inr (d, e) ↦ elim (Option-cases (all_known (query_utxo_set out us))) [
    | inl q ↦ absurd (ground (arith, h, e, q))
    | inr (es, q) ↦
        let same : (d ∷ es ≡ ds) = some_eq (sym (rw (e, q) refl) ∙ h) in
        subst (λ xs. worth out (u ∷ us) ≡ total_value xs) same
          (omega (arith, node_value-some out u d e, worth-all_known out us es q))
  ]
]

-- The data of a maker fit the amount and the maker's offer.
pub record IsAccounted (cjamount : ℕ) (orderbook : Dict Text Quote) (m : MakerTxData) : Type 0 where
  pub total : m.total_input ≡ total_value m.utxo_data
  pub change :
      m.change_amount
      ≡ maker_change m.total_input cjamount (txfee_of (lookup m.nick orderbook)) m.real_cjfee

-- The sums when a maker with these accounts comes in.
balance_step :
    (paid_before fees fee : ℤ) (contributed own held total cjamount txfee : ℕ)
    → paid_before +ℤ pos contributed +ℤ pos own ≡ pos held +ℤ fees
    → paid_before
        +ℤ (maker_change total cjamount txfee fee +ℤ (pos cjamount +ℤ pos 0))
        +ℤ pos (contributed + txfee)
        +ℤ pos own
      ≡ pos (held + total) +ℤ (fees +ℤ fee)
balance_step paid_before fees fee contributed own held total cjamount txfee b =
    eq_of_parts _ _ (omega (int_laws, parts_of_eq b))

worth-add_maker :
    (out : Outside) (m : MakerTxData) (s : Taker)
    → contains m.nick (keys s.utxos) ≡ false
    → worth out (all_utxos (add_maker m s)) ≡ worth out (all_utxos s) + worth out m.utxo_list
unfolding add_maker
worth-add_maker out m s n = omega (
  arith,
  worth-append out s.own_utxos (concat (values s.utxos)),
  worth-append out s.own_utxos (concat (values (insert m.nick m.utxo_list s.utxos))),
  worth-concat-insert out m.nick m.utxo_list s.utxos n,
)

add_maker-IsBalanced :
    (out : Outside) (m : MakerTxData) (s : Taker)
    → IsAccounted s.cjamount s.orderbook m
    → IsFunded out m
    → contains m.nick (keys s.utxos) ≡ false
    → IsBalanced out s
    → IsBalanced out (add_maker m s)
unfolding add_maker
add_maker-IsBalanced out m s a f n b =
    let x = txfee_of (lookup m.nick s.orderbook) in
    let held = worth-add_maker out m s n ∙ ap (λ w. worth out (all_utxos s) + w) f in
    let step =
      balance_step (paid s.outputs) s.cjfee_total m.real_cjfee s.maker_txfee_contributions
        (my_total_in s) (worth out (all_utxos s)) (total_value m.utxo_data) s.cjamount x b in
    let changed = a.change ∙ ap (λ t. maker_change t s.cjamount x m.real_cjfee) a.total in
    rw (paid-append s.outputs (change_output m ∷ cj_output m.cj_addr s.cjamount ∷ []))
      (rw changed (step ∙ ap (λ w. pos w +ℤ (s.cjfee_total +ℤ m.real_cjfee)) (sym held)))

-- The makers are new to the dict, and no two of them have the same nick.
abbrev pub AreNew : List MakerTxData → List Text → Type 0
AreNew ms nicks = All (λ m. contains m.nick nicks ≡ false) ms × Distinct (map (λ m. m.nick) ms)

AreNew-insert :
    (m : MakerTxData) (ms : List MakerTxData) (d : Dict Text (List Outpoint))
    → contains m.nick (map (λ n. n.nick) ms) ≡ false
    → All (λ n. contains n.nick (keys d) ≡ false) ms
    → All (λ n. contains n.nick (keys (insert m.nick m.utxo_list d)) ≡ false) ms
AreNew-insert m [] d h k = tt
AreNew-insert m (n ∷ ms) d h k = (
  ground (arith, contains-keys-insert m.nick n.nick m.utxo_list d, k.0, h),
  AreNew-insert m ms d (ground (arith, h)) k.1,
)

pub add_makers-IsBalanced :
    (out : Outside) (ms : List MakerTxData) (s : Taker)
    → All (IsAccounted s.cjamount s.orderbook) ms
    → All (IsFunded out) ms
    → AreNew ms (keys s.utxos)
    → IsBalanced out s
    → IsBalanced out (add_makers ms s)
unfolding add_makers add_maker
add_makers-IsBalanced out [] s a f n b = b
add_makers-IsBalanced out (m ∷ ms) s a f n b =
    add_makers-IsBalanced out ms (add_maker m s) a.1 f.1
      (AreNew-insert m ms s.utxos n.1.0 n.0.1, n.1.1) (add_maker-IsBalanced out m s a.0 f.0 n.0.0 b)
