-- ===== src/Taker/Complete.antt =====
-- The taker signs only a transaction whose other inputs have all been verified.
-- The node has the coin, and the input verifies with what it says of it.
use joinmarket_clientserver.Maker.Verify.{Outpoint}
use mathlib.Core.Path.{subst}
use joinmarket_clientserver.Taker.Agreement.{scripts}
use joinmarket_clientserver.Prelude.Text.{Text, text_eq}
use joinmarket_clientserver.Taker.Signatures.{
  ScriptKind, Scripts, checked, is_open, is_our_input, is_unsigned, other_kind, p2sh, parse_sig,
  sign_as, signed, try_input, try_known, witness_v0_keyhash, SigReply, Try, after_try,
  assertion_failed, finish_sig, insert_sig, is_signed, junk, on_sig, receive_sig, record_if,
  record_sig, self_sign_and_push, sig_for, skipped, waiting, with_inputs, is_recorded,
}
use joinmarket_clientserver.Taker.State.{Outside, Taker, TxInput, UtxoData, CoinjoinTx}
use joinmarket_clientserver.Prelude.{
  Bool-cases, List, Option, Option-cases, [], ap, arith, inl, inr, none, some, true, ℕ, ◌+◌, ◌∙◌,
  ◌∷◌, ◌≡◌, ◌⊎◌, Bool, contains, every, false, if◌then◌else◌, not, refl, ◌||◌,
}

abbrev pub IsVerifiedInput : Outside → Scripts → ℕ → TxInput → Type 0
IsVerifiedInput out scripts i ins =
    (d : UtxoData) × (out.query_utxo ins.outpoint ≡ some d)
    × (scripts.verify_tx_input i ins d ≡ true)

abbrev pub IsSound : Outside → Scripts → Taker → ℕ → TxInput → Type 0
IsSound out scripts s i ins =
    (is_unsigned ins ≡ true) ⊎ (is_our_input s ins ≡ true) ⊎ IsVerifiedInput out scripts i ins

-- A predicate on every element and its position.
abbrev pub AllFrom {ℓ} : {A : Type 0} → (ℕ → A → Type ℓ) → ℕ → List A → Type ℓ
AllFrom P i [] = Unit
AllFrom P i (x ∷ xs) = P i x × AllFrom P (i + 1) xs

sign_as-outpoint :
    (scripts : Scripts) (kind : ScriptKind) (ver_sig ver_pub : Text) (ins filled : TxInput)
    → sign_as scripts kind ver_sig ver_pub ins ≡ some filled
    → filled.outpoint ≡ ins.outpoint
sign_as-outpoint scripts p2sh ver_sig ver_pub ins filled h =
    elim (Option-cases (scripts.p2wpkh_script ver_pub)) [
      | inl e ↦ absurd (grind (arith, h, e))
      | inr (x, e) ↦ grind (arith, h, e)
    ]
sign_as-outpoint scripts witness_v0_keyhash ver_sig ver_pub ins filled h = grind (arith, h)
sign_as-outpoint scripts other_kind ver_sig ver_pub ins filled h = grind (arith, h)

checked-signed :
    (scripts : Scripts) (i : ℕ) (d : UtxoData) (o : Option TxInput) (filled : TxInput)
    → checked scripts i d o ≡ signed filled
    → (o ≡ some filled) × (scripts.verify_tx_input i filled d ≡ true)
checked-signed scripts i d none filled h = absurd (cc)
checked-signed scripts i d (some ins) filled h =
    elim (Bool-cases (scripts.verify_tx_input i ins d)) [
      | inl e ↦
          let same : ins ≡ filled = grind (arith, h, e) in
          (ap some same, subst (λ x. scripts.verify_tx_input i x d ≡ true) same e)
      | inr e ↦ absurd (grind (arith, h, e))
    ]

try_input-signed :
    (out : Outside) (scripts : Scripts) (sig : Text) (i : ℕ) (ins filled : TxInput) (s : Taker)
    → try_input out scripts sig i ins s ≡ signed filled
    → IsVerifiedInput out scripts i filled
unfolding try_input try_known
try_input-signed out scripts sig i ins filled s h = elim (Bool-cases (is_open s ins)) [
  | inr n ↦ absurd (grind (arith, h, n))
  | inl k ↦ elim (Option-cases (out.query_utxo ins.outpoint)) [
    | inl n ↦ absurd (grind (arith, h, k, n))
    | inr (d, e) ↦ elim (Option-cases (parse_sig scripts sig)) [
      | inl n ↦ absurd (grind (arith, h, k, e, n))
      | inr (p, f) ↦
          let (made, good_sig) =
            checked-signed scripts i d (sign_as scripts (scripts.kind d.script) p.0 p.1 ins) filled
              (grind (arith, h, k, e, f)) in
          (
            d,
            ap out.query_utxo
                  (sign_as-outpoint scripts (scripts.kind d.script) p.0 p.1 ins filled made)
                ∙ e,
            good_sig,
          )
    ]
  ]
]

step_try :
    (out : Outside) (scripts : Scripts) (s : Taker) (i : ℕ) (ins : TxInput) (inputs : List TxInput)
    (rest : List TxInput × Option Outpoint) (t : Try)
    → ((filled : TxInput) → t ≡ signed filled → IsVerifiedInput out scripts i filled)
    → AllFrom (IsSound out scripts s) i (ins ∷ inputs)
    → AllFrom (IsSound out scripts s) (i + 1) rest.0
    → AllFrom (IsSound out scripts s) i (after_try ins inputs rest t).0
step_try out scripts s i ins inputs rest skipped f h k = (h.0, k)
step_try out scripts s i ins inputs rest junk f h k = h
step_try out scripts s i ins inputs rest (signed filled) f h k = (inr (inr (f filled refl)), h.1)

-- Signatures that are put in have been verified.
insert_sig-IsSound :
    (out : Outside) (scripts : Scripts) (sig : Text) (s : Taker) (i : ℕ) (inputs : List TxInput)
    → AllFrom (IsSound out scripts s) i inputs
    → AllFrom (IsSound out scripts s) i (insert_sig out scripts sig s i inputs).0
unfolding insert_sig
insert_sig-IsSound out scripts sig s i [] h = tt
insert_sig-IsSound out scripts sig s i (ins ∷ inputs) h =
    step_try out scripts s i ins inputs (insert_sig out scripts sig s (i + 1) inputs)
      (try_input out scripts sig i ins s)
      (λ filled e. try_input-signed out scripts sig i ins filled s e) h
      (insert_sig-IsSound out scripts sig s (i + 1) inputs h.1)

-- The other inputs of the transaction are verified.
abbrev pub IsReady : Outside → Scripts → Taker → SigReply → Type 0
IsReady out scripts s (self_sign_and_push tx) =
    AllFrom (λ i ins. (is_our_input s ins ≡ true) ⊎ IsVerifiedInput out scripts i ins) 0 tx.inputs
IsReady out scripts s reply = Unit

-- All inputs that have a signature and are not the taker's are verified.
abbrev pub IsSoundTx : Outside → Scripts → Taker → Option CoinjoinTx → Type 0
IsSoundTx out scripts s none = Unit
IsSoundTx out scripts s (some tx) = AllFrom (IsSound out scripts s) 0 tx.inputs

signed-Verified :
    (out : Outside) (scripts : Scripts) (s : Taker) (i : ℕ) (inputs : List TxInput)
    → AllFrom (IsSound out scripts s) i inputs
    → every (λ ins. not (is_unsigned ins) || is_our_input s ins) inputs ≡ true
    → AllFrom (λ j ins. (is_our_input s ins ≡ true) ⊎ IsVerifiedInput out scripts j ins) i inputs
signed-Verified out scripts s i [] h q = tt
signed-Verified out scripts s i (ins ∷ inputs) h q =
    (one h.0, signed-Verified out scripts s (i + 1) inputs h.1 (ground (arith, q)))
  where
    one :
        IsSound out scripts s i ins
        → (is_our_input s ins ≡ true) ⊎ IsVerifiedInput out scripts i ins
    one (inl u) = inl (grind (arith, u, q))
    one (inr p) = p

finish_sig-IsReady :
    (out : Outside) (scripts : Scripts) (s : Taker) (tx : CoinjoinTx)
    → AllFrom (IsSound out scripts s) 0 tx.inputs
    → IsReady out scripts s (finish_sig s tx)
unfolding finish_sig
finish_sig-IsReady out scripts s tx h = done s.nonrespondants (is_signed s tx) refl
  where
    done :
        (ms : List Text) (b : Bool)
        → is_signed s tx ≡ b
        → IsReady out scripts s (elim ms [
          | [] ↦ if b then self_sign_and_push tx else waiting
          | m ∷ rest ↦ if b then assertion_failed else waiting
        ])
    done [] true q = signed-Verified out scripts s 0 tx.inputs h q
    done [] false q = tt
    done (m ∷ ms) true q = tt
    done (m ∷ ms) false q = tt

-- The records of a signature leave the taker's own coins.
record_if-AllFrom :
    (out : Outside) (scripts : Scripts) (nick : Text) (o : Option Outpoint) (s : Taker)
    (tx : Option CoinjoinTx) (inputs : List TxInput)
    → AllFrom (IsSound out scripts s) 0 inputs
    → AllFrom (IsSound out scripts (record (record_if nick o s) { latest_tx = tx })) 0 inputs
unfolding record_sig
record_if-AllFrom out scripts nick none s tx inputs h = h
record_if-AllFrom out scripts nick (some u) s tx inputs h = h

-- What a call leaves and returns.
abbrev pub IsSafe : Outside → Scripts → Taker × SigReply → Type 0
IsSafe out scripts r = IsSoundTx out scripts r.0 r.0.latest_tx × IsReady out scripts r.0 r.1

sig_for-IsSafe :
    (out : Outside) (scripts : Scripts) (nick sig : Text) (o : Option CoinjoinTx) (s : Taker)
    → s.latest_tx ≡ o
    → IsSoundTx out scripts s o
    → IsSafe out scripts (sig_for out scripts nick sig o s)
unfolding receive_sig
sig_for-IsSafe out scripts nick sig none s e h = (rw e tt, tt)
sig_for-IsSafe out scripts nick sig (some tx) s e h =
    let r = insert_sig out scripts sig s 0 tx.inputs in
    let next = record (record_if nick r.1 s) { latest_tx = some (with_inputs r.0 tx) } in
    let sound =
      record_if-AllFrom out scripts nick r.1 s (some (with_inputs r.0 tx)) r.0
        (insert_sig-IsSound out scripts sig s 0 tx.inputs h) in
    elim (Bool-cases (is_recorded nick r.1 s)) [
      | inl k ↦ rw k (sound, finish_sig-IsReady out scripts next (with_inputs r.0 tx) sound)
      | inr k ↦ rw k (insert_sig-IsSound out scripts sig s 0 tx.inputs h, tt)
    ]

unless_ignored :
    (out : Outside) (scripts : Scripts) (s : Taker) (b : Bool) (r : Taker × SigReply)
    → IsSoundTx out scripts s s.latest_tx
    → IsSafe out scripts r
    → IsSafe out scripts (if b then (s, waiting) else r)
unless_ignored out scripts s true r h k = (h, tt)
unless_ignored out scripts s false r h k = k

-- If every input that has a signature and is not the taker's has been verified, that stays so with
-- every signature message; and the taker only signs and pushes a transaction all of whose other
-- inputs have been verified against the coins that the node has.
pub on_sig-IsSafe :
    (out : Outside) (scripts : Scripts) (nick sig : Text) (s : Taker)
    → IsSoundTx out scripts s s.latest_tx
    → IsSafe out scripts (on_sig out scripts nick sig s)
unfolding on_sig
on_sig-IsSafe out scripts nick sig s h =
    unless_ignored out scripts s (s.aborted || not (contains nick s.nonrespondants))
      (sig_for out scripts nick sig s.latest_tx s) h
      (sig_for-IsSafe out scripts nick sig s.latest_tx s refl h)
