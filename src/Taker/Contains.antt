-- ===== src/Taker/Contains.antt =====
-- What each verified maker gets of the transaction: its coins are inputs, and its two outputs are there.
use joinmarket_clientserver.Taker.Verified.{verify_ioauth_data-AreVerified}
use joinmarket_clientserver.Taker.Ioauth.{Ioauth, verify_ioauth_data}
use joinmarket_clientserver.Maker.Verify.{Outpoint}
use mathlib.Core.Path.{subst}
use joinmarket_clientserver.Prelude.Split.{concat}
use joinmarket_clientserver.Prelude.Text.{Text, text_eq}
use joinmarket_clientserver.Taker.Build.{
  Reply, built, change_output, cj_output, insert_at, shuffle, Shuffles, add_maker, add_makers,
  all_utxos, build_for, build_tx, enough_makers, estimate_for, expect_signatures, make_tx,
  my_change_value, receive_verified, reestimate, unsigned_input, with_change, without_change,
  receive_utxos, user_aborted,
}
use joinmarket_clientserver.Taker.State.{MakerTxData, Taker, TxOutput, Outside, add_ignored_makers}
use joinmarket_clientserver.Prelude.Dict.{
  Dict, lookup, values, lookup-insert, lookup-insert_self, keys,
}
use joinmarket_clientserver.Prelude.{
  Bool-cases, In, In-append_left, In-append_right, List, [], ap, arith, inl, inr, map, some, suc,
  zero, ℕ, ◌==◌, ◌∷◌, ◌≡◌, Distinct, Option, contains, false, leb_ℤ, length, ltb, ltb_ℤ, negsuc,
  none, refl, sym, ◌++◌, ◌+◌, Bool, if◌then◌else◌, true,
}

pub record Pays (cjamount : ℕ) (m : MakerTxData) (inputs : List Outpoint) (outputs : List TxOutput)
    : Type 0 where
  pub change : In (change_output m) outputs
  pub coinjoin : In (cj_output m.cj_addr cjamount) outputs
  pub coins : (u : Outpoint) → In u m.utxo_list → In u inputs

abbrev pub Contains : ℕ → MakerTxData → Taker × Reply → Type 0
Contains cjamount m (s, built nicks tx) =
    Pays cjamount m (map (λ i. i.outpoint) tx.inputs) tx.outputs
Contains cjamount m (s, reply) = Unit

module _ {A : Type 0} where
  In-insert_at : (k : ℕ) (x y : A) (ys : List A) → In x (y ∷ ys) → In x (insert_at k y ys)
  unfolding insert_at
  In-insert_at zero x y ys h = h
  In-insert_at (suc k) x y [] h = h
  In-insert_at (suc k) x y (z ∷ ys) (inl e) = inr (In-insert_at k x y ys (inl e))
  In-insert_at (suc k) x y (z ∷ ys) (inr (inl e)) = inl e
  In-insert_at (suc k) x y (z ∷ ys) (inr (inr h)) = inr (In-insert_at k x y ys (inr h))

  In-shuffle : (ks : List ℕ) (x : A) (xs : List A) → In x xs → In x (shuffle ks xs)
  unfolding shuffle
  In-shuffle ks x [] h = absurd h
  In-shuffle [] x (y ∷ ys) (inl e) = inl e
  In-shuffle [] x (y ∷ ys) (inr h) = inr (In-shuffle [] x ys h)
  In-shuffle (k ∷ ks) x (y ∷ ys) (inl e) = In-insert_at k x y (shuffle ks ys) (inl e)
  In-shuffle (k ∷ ks) x (y ∷ ys) (inr h) =
      In-insert_at k x y (shuffle ks ys) (inr (In-shuffle ks x ys h))

pub In-map : {A B : Type 0} (f : A → B) (x : A) (xs : List A) → In x xs → In (f x) (map f xs)
In-map f x [] h = absurd h
In-map f x (y ∷ xs) (inl e) = inl (ap f e)
In-map f x (y ∷ xs) (inr h) = inr (In-map f x xs h)

In-values :
    (u : Outpoint) (nick : Text) (us : List Outpoint) (d : Dict Text (List Outpoint))
    → lookup nick d ≡ some us
    → In u us
    → In u (concat (values d))
unfolding lookup concat
In-values u nick us [] e h = absurd (cc)
In-values u nick us ((k, vs) ∷ d) e h = elim (Bool-cases (k == nick)) [
  | inl q ↦ In-append_left u vs (concat (values d)) (subst (In u) (grind (arith, e, q)) h)
  | inr q ↦ In-append_right u vs (concat (values d)) (In-values u nick us d (grind (arith, e, q)) h)
]

-- The state has the maker's outputs and its coins.
record Holds (cjamount : ℕ) (m : MakerTxData) (s : Taker) : Type 0 where
  has_change : In (change_output m) s.outputs
  has_coinjoin : In (cj_output m.cj_addr cjamount) s.outputs
  has_coins : lookup m.nick s.utxos ≡ some m.utxo_list

add_maker-Holds : (m : MakerTxData) (s : Taker) → Holds s.cjamount m (add_maker m s)
unfolding add_maker
add_maker-Holds m s =
    let new = change_output m ∷ cj_output m.cj_addr s.cjamount ∷ [] in
    record {
      has_change = In-append_right (change_output m) s.outputs new (inl refl);
      has_coinjoin =
          In-append_right (cj_output m.cj_addr s.cjamount) s.outputs new (inr (inl refl));
      has_coins = lookup-insert_self m.nick m.utxo_list s.utxos;
    }

add_maker-Holds_other :
    (cjamount : ℕ) (m n : MakerTxData) (s : Taker)
    → (n.nick == m.nick) ≡ false
    → Holds cjamount m s
    → Holds cjamount m (add_maker n s)
unfolding add_maker
add_maker-Holds_other cjamount m n s q h =
    let new = change_output n ∷ cj_output n.cj_addr s.cjamount ∷ [] in
    record {
      has_change = In-append_left (change_output m) s.outputs new h.has_change;
      has_coinjoin = In-append_left (cj_output m.cj_addr cjamount) s.outputs new h.has_coinjoin;
      has_coins = grind (arith, lookup-insert n.nick m.nick n.utxo_list s.utxos, q, h.has_coins);
    }

add_makers-Holds_others :
    (cjamount : ℕ) (m : MakerTxData) (ms : List MakerTxData) (s : Taker)
    → contains m.nick (map (λ n. n.nick) ms) ≡ false
    → Holds cjamount m s
    → Holds cjamount m (add_makers ms s)
unfolding add_makers
add_makers-Holds_others cjamount m [] s q h = h
add_makers-Holds_others cjamount m (n ∷ ms) s q h =
    add_makers-Holds_others cjamount m ms (add_maker n s) (ground (arith, q))
      (add_maker-Holds_other cjamount m n s (ground (arith, q)) h)

add_makers-Holds :
    (m : MakerTxData) (ms : List MakerTxData) (s : Taker)
    → Distinct (map (λ n. n.nick) ms)
    → In m ms
    → Holds s.cjamount m (add_makers ms s)
unfolding add_makers add_maker
add_makers-Holds m [] s d h = absurd h
add_makers-Holds m (n ∷ ms) s d (inl e) =
    subst (λ x. Holds s.cjamount x (add_makers ms (add_maker n s))) (sym e)
      (add_makers-Holds_others s.cjamount n ms (add_maker n s) d.0 (add_maker-Holds n s))
add_makers-Holds m (n ∷ ms) s d (inr h) = add_makers-Holds m ms (add_maker n s) d.1 h

make_tx-Contains :
    (cjamount : ℕ) (m : MakerTxData) (positions : Shuffles) (s : Taker)
    → Holds cjamount m s
    → Contains cjamount m (make_tx positions s)
unfolding make_tx
make_tx-Contains cjamount m positions s h =
    let own = cj_output s.my_cj_addr s.cjamount ∷ [] in
    record {
      change =
          In-shuffle positions.1 (change_output m) (s.outputs ++ own)
            (In-append_left (change_output m) s.outputs own h.has_change);
      coinjoin =
          In-shuffle positions.1 (cj_output m.cj_addr cjamount) (s.outputs ++ own)
            (In-append_left (cj_output m.cj_addr cjamount) s.outputs own h.has_coinjoin);
      coins = λ u p.
          In-map (λ i. i.outpoint) (unsigned_input u)
            (map unsigned_input (shuffle positions.0 (all_utxos s)))
            (In-map unsigned_input u (shuffle positions.0 (all_utxos s)) (
              In-shuffle positions.0 u (all_utxos s) (
                In-append_right u s.own_utxos (concat (values s.utxos))
                  (In-values u m.nick m.utxo_list s.utxos h.has_coins p))));
    }

without_change-Contains :
    (cjamount : ℕ) (m : MakerTxData) (out : Outside) (positions : Shuffles) (s : Taker)
    → Holds cjamount m s
    → Contains cjamount m (without_change out positions s)
unfolding without_change
without_change-Contains cjamount m out positions s h =
    elim (Bool-cases (
      out.feerate_ok (out.estimate_tx_fee (length (all_utxos s)) (length s.outputs + 1))
        s.total_txfee)) [
          | inl e ↦ rw e (make_tx-Contains cjamount m positions s h)
          | inr e ↦ rw e tt
        ]

Holds-with_output :
    (cjamount : ℕ) (m : MakerTxData) (s : Taker) (o : TxOutput)
    → Holds cjamount m s
    → Holds cjamount m (record s { outputs = s.outputs ++ o ∷ [] })
Holds-with_output cjamount m s o h = record {
  has_change = In-append_left (change_output m) s.outputs (o ∷ []) h.has_change;
  has_coinjoin = In-append_left (cj_output m.cj_addr cjamount) s.outputs (o ∷ []) h.has_coinjoin;
  has_coins = h.has_coins;
}

with_change-Contains :
    (cjamount : ℕ) (m : MakerTxData) (out : Outside) (positions : Shuffles) (address : Text)
    (s : Taker)
    → Holds cjamount m s
    → Contains cjamount m (with_change out positions address s)
unfolding with_change
with_change-Contains cjamount m out positions address s h =
    elim (Bool-cases (ltb_ℤ (my_change_value s) (negsuc 0))) [
      | inl l ↦ rw l tt
      | inr l ↦ elim (Bool-cases (leb_ℤ (my_change_value s) out.bitcoin_dust_threshold)) [
        | inl d ↦ rw l (
            rw d (
              without_change-Contains cjamount m out positions (record s { my_change_addr = none })
                (record {
                  has_change = h.has_change;
                  has_coinjoin = h.has_coinjoin;
                  has_coins = h.has_coins;
                })))
        | inr d ↦ rw l (
            rw d (
              make_tx-Contains cjamount m positions
                (record s {
                  outputs =
                      s.outputs ++ record { address = address; value = my_change_value s } ∷ [];
                })
                (Holds-with_output cjamount m s
                  (record { address = address; value = my_change_value s }) h)))
      ]
    ]

build_for-Contains :
    (cjamount : ℕ) (m : MakerTxData) (out : Outside) (positions : Shuffles) (a : Option Text)
    (s : Taker)
    → Holds cjamount m s
    → Contains cjamount m (build_for out positions a s)
build_for-Contains cjamount m out positions none s h =
    without_change-Contains cjamount m out positions s h
build_for-Contains cjamount m out positions (some a) s h =
    with_change-Contains cjamount m out positions a s h

estimate_for-Holds :
    (cjamount : ℕ) (m : MakerTxData) (out : Outside) (a : Option Text) (s : Taker)
    → Holds cjamount m s
    → Holds cjamount m (estimate_for out a (expect_signatures s))
estimate_for-Holds cjamount m out none s h = record {
  has_change = h.has_change;
  has_coinjoin = h.has_coinjoin;
  has_coins = h.has_coins;
}
estimate_for-Holds cjamount m out (some a) s h = record {
  has_change = h.has_change;
  has_coinjoin = h.has_coinjoin;
  has_coins = h.has_coins;
}

enough_makers-Contains :
    (cjamount : ℕ) (m : MakerTxData) (out : Outside) (positions : Shuffles) (s : Taker)
    → Holds cjamount m s
    → Contains cjamount m (enough_makers out positions s)
unfolding enough_makers build_tx
enough_makers-Contains cjamount m out positions s h =
    let next = reestimate out (expect_signatures s) in
    elim (Bool-cases (ltb (length s.maker_utxo_data) out.minimum_makers)) [
      | inl e ↦ rw e tt
      | inr e ↦ rw e (
          build_for-Contains cjamount m out positions next.my_change_addr next
            (estimate_for-Holds cjamount m out s.my_change_addr s h))
    ]

-- The outputs and the coins of each verified maker are in the transaction that is made.
pub receive_verified-Contains :
    (out : Outside) (positions : Shuffles) (s : Taker) (r : List Text × List MakerTxData)
    (m : MakerTxData)
    → Distinct (map (λ n. n.nick) r.1)
    → In m r.1
    → Contains s.cjamount m (receive_verified out positions (some r) s)
receive_verified-Contains out positions s r m d h =
    let start : Taker = add_ignored_makers r.0 (record s { maker_utxo_data = [] }) in
    enough_makers-Contains s.cjamount m out positions (add_makers r.1 start)
      (add_makers-Holds m r.1 start d h)

Contains-unless_aborted :
    (cjamount : ℕ) (m : MakerTxData) (s : Taker) (b : Bool) (r : Taker × Reply)
    → Contains cjamount m r
    → Contains cjamount m (if b then (s, user_aborted) else r)
Contains-unless_aborted cjamount m s true r h = tt
Contains-unless_aborted cjamount m s false r h = h

pub receive_utxos-Contains :
    (out : Outside) (positions : Shuffles) (d : Dict Text Ioauth) (s : Taker)
    (r : List Text × List MakerTxData) (m : MakerTxData)
    → Distinct (keys d)
    → verify_ioauth_data out d s ≡ some r
    → In m r.1
    → Contains s.cjamount m (receive_utxos out positions d s)
unfolding receive_utxos
receive_utxos-Contains out positions d s r m n e h =
    Contains-unless_aborted s.cjamount m s s.aborted
      (receive_verified out positions (verify_ioauth_data out d s) s)
      (subst (λ o. Contains s.cjamount m (receive_verified out positions o s)) (sym e)
        (receive_verified-Contains out positions s r m
          (verify_ioauth_data-AreVerified out d s r n e).distinct h))
