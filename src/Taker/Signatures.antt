-- ===== src/Taker/Signatures.antt =====
-- The makers' signatures: `on_sig`.
-- What bitcointx and the node make of a signature message: the items of the script; the kind of a
-- coin's script; the script of a public key, which may not parse; and whether an input of the
-- transaction verifies with a script and a witness.
use joinmarket_clientserver.Maker.Verify.{Outpoint}
use mathlib.Core.Option
use joinmarket_clientserver.Taker.Agreement.{scripts}
use joinmarket_clientserver.Prelude.Dict.{keys, lookup, update}
use joinmarket_clientserver.Prelude.Text.{Text, is_empty, text_eq}
use joinmarket_clientserver.Taker.State.{Outside, Taker, TxInput, UtxoData, CoinjoinTx, remove}
use joinmarket_clientserver.Prelude.{
  Bool, List, Option, [], contains, every, if◌then◌else◌, none, not, some, ℕ, ◌&&◌, ◌+◌, ◌∷◌,
  pair_eq, ℕ_eq, false, true, ◌++◌, ◌==◌, ◌||◌,
}

pub data ScriptKind : Type 0 where
  p2sh : ScriptKind
  witness_v0_keyhash : ScriptKind
  other_kind : ScriptKind

pub record Scripts : Type 0 where
  pub items : Text → Option (List Text)
  pub kind : Text → ScriptKind
  pub p2wpkh_script : Text → Option Text
  pub push : List Text → Text
  pub verify_tx_input : ℕ → TxInput → UtxoData → Bool

-- The signature and the public key of a message of two or three items, none of them empty.
abbrev pub sig_and_pub : List Text → Option (Text × Text)
sig_and_pub (ver_sig ∷ ver_pub ∷ []) = some (ver_sig, ver_pub)
sig_and_pub (ver_sig ∷ ver_pub ∷ script_code ∷ []) = some (ver_sig, ver_pub)
sig_and_pub chunks = none

unfoldable pub parse_sig : Scripts → Text → Option (Text × Text)
parse_sig scripts sig = elim (scripts.items sig) [
  | none ↦ none
  | some chunks ↦ if every (λ x. not (is_empty x)) chunks then sig_and_pub chunks else none
]

-- The input with the signature in it, by the kind of its coin; none if the public key is no key.
abbrev pub sign_as : Scripts → ScriptKind → Text → Text → TxInput → Option TxInput
sign_as scripts p2sh ver_sig ver_pub ins =
    Option.map
      (λ s. record ins { script_sig = scripts.push (s ∷ []); witness = some (ver_sig, ver_pub) })
      (scripts.p2wpkh_script ver_pub)
sign_as scripts witness_v0_keyhash ver_sig ver_pub ins =
    some (record ins { script_sig = []; witness = some (ver_sig, ver_pub) })
sign_as scripts other_kind ver_sig ver_pub ins =
    some (record ins { script_sig = scripts.push (ver_sig ∷ ver_pub ∷ []) })

abbrev pub is_our_input : Taker → TxInput → Bool
is_our_input s ins = contains ins.outpoint (keys s.input_utxos)

-- An input that a signature may be for.
abbrev pub is_open : Taker → TxInput → Bool
is_open s ins = not (is_our_input s ins) && is_empty ins.script_sig

-- What the loop over the inputs does with one of them.
pub data Try : Type 0 where
  skipped : Try
  junk : Try
  signed : TxInput → Try

abbrev pub checked : Scripts → ℕ → UtxoData → Option TxInput → Try
checked scripts index d none = junk
checked scripts index d (some ins) =
    if scripts.verify_tx_input index ins d then signed ins else skipped

unfoldable pub try_known : Scripts → Text → ℕ → TxInput → UtxoData → Try
unfolding parse_sig
try_known scripts sig index ins d = elim (parse_sig scripts sig) [
  | none ↦ junk
  | some p ↦ checked scripts index d (sign_as scripts (scripts.kind d.script) p.0 p.1 ins)
]

unfoldable pub try_input : Outside → Scripts → Text → ℕ → TxInput → Taker → Try
unfolding try_known
try_input out scripts sig index ins s =
    if is_open s ins
    then elim (out.query_utxo ins.outpoint) [
      | none ↦ skipped
      | some d ↦ try_known scripts sig index ins d
    ]
    else skipped

-- The inputs and the coin that is signed, by what is done with the first input.
abbrev pub after_try :
    TxInput → List TxInput → List TxInput × Option Outpoint → Try → List TxInput × Option Outpoint
after_try ins inputs rest skipped = (ins ∷ rest.0, rest.1)
after_try ins inputs rest junk = (ins ∷ inputs, none)
after_try ins inputs rest (signed filled) = (filled ∷ inputs, some ins.outpoint)

-- The inputs with the signature in the first one that it verifies for, and the coin of that one.
unfoldable pub insert_sig :
    Outside → Scripts → Text → Taker → ℕ → List TxInput → List TxInput × Option Outpoint
unfolding try_input
insert_sig out scripts sig s index [] = ([], none)
insert_sig out scripts sig s index (ins ∷ inputs) =
    after_try ins inputs (insert_sig out scripts sig s (index + 1) inputs)
      (try_input out scripts sig index ins s)

abbrev pub remove_outpoint : Outpoint → List Outpoint → List Outpoint
remove_outpoint u [] = []
remove_outpoint u (v ∷ vs) = let rest = remove_outpoint u vs in if v == u then vs else v ∷ rest

abbrev pub has_none : Option (List Outpoint) → Bool
has_none none = true
has_none (some []) = true
has_none (some (u ∷ us)) = false

-- The records of a good signature: a maker whose coins are all signed has responded.
unfoldable pub record_sig : Text → Outpoint → Taker → Taker
unfolding remove
record_sig nick u s =
    let utxos = update nick (λ us. remove_outpoint u us) s.utxos in
    record s {
      utxos = utxos;
      stage2_valid_sig_makers =
          if contains nick s.stage2_valid_sig_makers
          then s.stage2_valid_sig_makers
          else s.stage2_valid_sig_makers ++ nick ∷ [];
      nonrespondants =
          if has_none (lookup nick utxos) then remove nick s.nonrespondants else s.nonrespondants;
    }

abbrev pub record_if : Text → Option Outpoint → Taker → Taker
record_if nick none s = s
record_if nick (some u) s = record_sig nick u s

abbrev pub has_no_witness : Option (Text × Text) → Bool
has_no_witness none = true
has_no_witness (some w) = false

abbrev pub is_unsigned : TxInput → Bool
is_unsigned ins = is_empty ins.script_sig && has_no_witness ins.witness

abbrev pub is_signed : Taker → CoinjoinTx → Bool
is_signed s tx = every (λ ins. not (is_unsigned ins) || is_our_input s ins) tx.inputs

-- What `on_sig` ends in: nothing yet; an error, where no transaction or a maker is left; the KeyError of
-- a maker without coins; or the taker's own signatures and the broadcast.
pub data SigReply : Type 0 where
  waiting : SigReply
  assertion_failed : SigReply
  unknown_maker : SigReply
  self_sign_and_push : CoinjoinTx → SigReply

unfoldable pub finish_sig : Taker → CoinjoinTx → SigReply
finish_sig s tx = elim s.nonrespondants [
  | [] ↦ if is_signed s tx then self_sign_and_push tx else waiting
  | m ∷ ms ↦ if is_signed s tx then assertion_failed else waiting
]

-- The transaction with the inputs that are left, and the maker's record.
abbrev pub with_inputs : List TxInput → CoinjoinTx → CoinjoinTx
with_inputs inputs tx = record tx { inputs = inputs }

-- `self.utxos[nick]` is there, if it is asked for.
abbrev pub is_recorded : Text → Option Outpoint → Taker → Bool
is_recorded nick none s = true
is_recorded nick (some u) s = contains nick (keys s.utxos)

unfoldable pub receive_sig :
    Text → CoinjoinTx → List TxInput × Option Outpoint → Taker → Taker × SigReply
unfolding record_sig finish_sig
receive_sig nick tx r s =
    let next = record (record_if nick r.1 s) { latest_tx = some (with_inputs r.0 tx) } in
    if is_recorded nick r.1 s
    then (next, finish_sig next (with_inputs r.0 tx))
    else (record s { latest_tx = some (with_inputs r.0 tx) }, unknown_maker)

abbrev pub sig_for : Outside → Scripts → Text → Text → Option CoinjoinTx → Taker → Taker × SigReply
sig_for out scripts nick sig none s = (s, assertion_failed)
sig_for out scripts nick sig (some tx) s =
    receive_sig nick tx (insert_sig out scripts sig s 0 tx.inputs) s

unfoldable pub on_sig : Outside → Scripts → Text → Text → Taker → Taker × SigReply
unfolding insert_sig receive_sig
on_sig out scripts nick sig s =
    if s.aborted || not (contains nick s.nonrespondants)
    then (s, waiting)
    else sig_for out scripts nick sig s.latest_tx s
