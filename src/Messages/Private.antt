-- ===== src/Messages/Private.antt =====
-- Private messages: `on_privmsg`, which asks for the check of the signature, and
-- `on_verified_privmsg`.
-- What a channel takes from elsewhere: its host, the boxes of the daemon, `decode_decrypt`,
-- `base64.b64decode`, `hextobin`, and the text of the exception that a bad `fill` raises.
use mathlib.Core.Option
use joinmarket_clientserver.Prelude.Split.{join, split}
use joinmarket_clientserver.Prelude.Decimal.{int}
use joinmarket_clientserver.Messages.Orders.{rest_of}
use joinmarket_clientserver.Prelude.Split.{concat}
use joinmarket_clientserver.Messages.Commands.{
  command_prefix, encrypted_commands, plaintext_commands, space,
}
use joinmarket_clientserver.Prelude.Text.{Text, codes, is_empty, text_eq}
use joinmarket_clientserver.Prelude.{
  ◌>>=◌, List, Option, [], contains, false, if◌then◌else◌, none, not, some, true, ℤ, ◌&&◌, ◌++◌,
  ◌==◌, ◌||◌, ◌∷◌, Bool, ℕ_eq, pair_eq,
}
use joinmarket_clientserver.Prelude.Dict.{Dict, erase, insert, lookup}
use joinmarket_clientserver.Messages.Receive.{
  Call, Hooks, Step, auth_hook, call, calls_of, check_for_commitments, check_for_fidelity_bond,
  check_for_orders, chunk, error_hook, error_seen, first, ioauth_hook, ioauth_seen, message_seen,
  message_trigger, nick_verified, order_fill, order_fill_hook, privmsg_trigger, pubkey_hook,
  pubkey_seen, push_hook, push_tx, request_signature_verify, run_commands, seen_auth, seen_tx,
  send_error, sig_hook, sig_seen, tx_hook,
}

pub record Receiver : Type 0 where
  pub hostid : Text
  pub get_crypto_box_from_nick : Text → Option Text
  pub decode_decrypt : Text → Text → Option Text
  pub b64decode : Text → Option Text
  pub hextobin : Text → Option Text
  pub fill_error : List Text → Text

-- `_pending_privmsg_sources`: the directory for each nick and message
abbrev pub Pending : Type 0
Pending = Dict (Text × Text) Text

-- `parts[:-2]` and `parts[-2:]`
unfoldable pub drop_last_two : List Text → List Text
drop_last_two [] = []
drop_last_two (p ∷ []) = []
drop_last_two (p ∷ q ∷ []) = []
drop_last_two (p ∷ q ∷ r ∷ ps) = p ∷ drop_last_two (q ∷ r ∷ ps)

unfoldable pub last_two : List Text → Option (Text × Text)
last_two [] = none
last_two (p ∷ []) = none
last_two (p ∷ q ∷ []) = some (p, q)
last_two (p ∷ q ∷ r ∷ ps) = last_two (q ∷ r ∷ ps)

abbrev pub not_empty : Text → Option Text
not_empty s = if is_empty s then none else some s

-- The checks of `on_privmsg` on the parts behind the prefix: the raw message, the key and the
-- signature.
unfoldable pub signed_parts : Receiver → List Text → Option (Text × Text × Text)
unfolding last_two drop_last_two join
signed_parts out parts = do
  (pub_key, sig) ← last_two parts
  raw ← not_empty (join (drop_last_two (rest_of parts)) space)
  key_bytes ← out.hextobin pub_key
  sig_bytes ← out.b64decode sig
  some (raw, pub_key, sig)

abbrev pub is_command : Text → Bool
is_command cmd_string = contains cmd_string (plaintext_commands ++ encrypted_commands)

unfoldable pub on_privmsg :
    Receiver → Hooks → Text → Text → Option Text → Pending → Pending × List Call
unfolding signed_parts split
on_privmsg out hooks nick [] directory pending =
    (pending, call hooks message_trigger (message_seen false nick [] directory))
on_privmsg out hooks nick (c ∷ rest) directory pending =
    let seen = call hooks message_trigger (message_seen false nick (c ∷ rest) directory) in
    if is_empty rest || not (c == command_prefix) || not (is_command (first (split rest space)))
    then (pending, seen)
    else elim (signed_parts out (split rest space)) [
      | none ↦ (pending, seen)
      | some p ↦ (
        elim directory [ none ↦ pending | some d ↦ insert (nick, (c ∷ rest)) d pending ],
        seen ++ request_signature_verify (p.0 ++ out.hostid) (c ∷ rest) p.2 p.1 nick ∷ [],
      )
    ]

unfoldable pub decrypted_chunks : Receiver → Text → List Text → Option (List Text)
unfolding split concat
decrypted_chunks out nick chunks = do
  box ← out.get_crypto_box_from_nick nick
  decrypted ← out.decode_decrypt (concat (rest_of chunks)) box
  some (first chunks ∷ split decrypted space)

-- The chunks of a command, decrypted where it is an encrypted one; none where the message is dropped.
unfoldable pub plain_chunks : Receiver → Text → List Text → Option (List Text)
unfolding decrypted_chunks
plain_chunks out nick chunks =
    if contains (first chunks) encrypted_commands
      && not (contains (first chunks) plaintext_commands)
    then decrypted_chunks out nick chunks
    else some chunks

unfoldable pub ioauth_calls : Hooks → Text → List Text → Option (List Call)
unfolding chunk split
ioauth_calls hooks nick chunks = do
  utxos ← chunk chunks 1
  auth_pub ← chunk chunks 2
  cj_addr ← chunk chunks 3
  change_addr ← chunk chunks 4
  btc_sig ← chunk chunks 5
  some (
      call hooks ioauth_hook
        (ioauth_seen nick (split utxos 44) auth_pub cj_addr change_addr btc_sig))

-- The commands to takers; none where a chunk is missing.
unfoldable pub taker_calls : Hooks → Text → List Text → Option (List Call)
unfolding ioauth_calls chunk join
taker_calls hooks nick chunks =
    if first chunks == codes "error"
    then some (call hooks error_hook (error_seen (join (rest_of chunks) space)))
    else if first chunks == codes "pubkey"
    then Option.map (λ pk. call hooks pubkey_hook (pubkey_seen nick pk)) (chunk chunks 1)
    else if first chunks == codes "ioauth"
    then ioauth_calls hooks nick chunks
    else if first chunks == codes "sig"
    then Option.map (λ sig. call hooks sig_hook (sig_seen nick sig)) (chunk chunks 1)
    else some []

-- The commands to the orderbook watch come before those to takers.
unfoldable pub taker_command : Hooks → Text → Option Text → List Text → Option (List Call)
unfolding check_for_orders check_for_fidelity_bond taker_calls
taker_command hooks nick directory chunks = elim (check_for_orders hooks nick chunks directory) [
  | some calls ↦ some calls
  | none ↦ elim (check_for_fidelity_bond hooks nick chunks directory) [
    | some calls ↦ some calls
    | none ↦ taker_calls hooks nick chunks
  ]
]

-- The arguments of a `fill` command.
unfoldable pub fill_arguments : List Text → Option (ℤ × ℤ × Text × Option Text)
unfolding chunk int
fill_arguments chunks = do
  oid_text ← chunk chunks 1
  oid ← int oid_text
  amount_text ← chunk chunks 2
  amount ← int amount_text
  taker_pk ← chunk chunks 3
  some (oid, amount, taker_pk, chunk chunks 4)

-- A base64 text that does not decode raises an error that only the last handler catches.
unfoldable pub decoded : Receiver → List Text → Option Text
unfolding chunk
decoded out chunks = do b64tx ← chunk chunks 1; out.b64decode b64tx

-- A `fill` with bad arguments is answered by an error, and ends the handler.
abbrev pub fill_result :
    Receiver → Hooks → Text → List Text → Option (ℤ × ℤ × Text × Option Text) → Step
fill_result out hooks nick chunks none = (send_error nick (out.fill_error chunks) ∷ [], true)
fill_result out hooks nick chunks (some a) =
    (call hooks order_fill_hook (order_fill nick a.0 a.1 a.2 a.3), false)

-- The commands to makers.
unfoldable pub maker_command : Receiver → Hooks → Text → List Text → Step
unfolding check_for_commitments fill_arguments decoded chunk
maker_command out hooks nick chunks =
    let committed = calls_of (check_for_commitments hooks nick chunks true) in
    if first chunks == codes "fill"
    then (
      committed ++ (fill_result out hooks nick chunks (fill_arguments chunks)).0,
      (fill_result out hooks nick chunks (fill_arguments chunks)).1,
    )
    else if first chunks == codes "auth"
    then elim (chunk chunks 1) [
      | none ↦ (committed, false)
      | some cr ↦ (committed ++ call hooks auth_hook (seen_auth nick cr), false)
    ]
    else if first chunks == codes "tx"
    then elim (decoded out chunks) [
      | none ↦ (committed, false)
      | some tx ↦ (committed ++ call hooks tx_hook (seen_tx nick tx), false)
    ]
    else if first chunks == codes "push"
    then elim (decoded out chunks) [
      | none ↦ (committed, false)
      | some tx ↦ (committed ++ call hooks push_hook (push_tx nick tx), false)
    ]
    else (committed, false)

-- One command of a private message: none stands for a message that is dropped.
unfoldable pub private_parts : Receiver → Hooks → Text → Option Text → Option (List Text) → Step
unfolding taker_command maker_command
private_parts out hooks nick directory none = ([], true)
private_parts out hooks nick directory (some chunks) =
    elim (taker_command hooks nick directory chunks) [
      | none ↦ ([], false)
      | some calls ↦ (
        calls ++ (maker_command out hooks nick chunks).0,
        (maker_command out hooks nick chunks).1,
      )
    ]

unfoldable pub private_command : Receiver → Hooks → Text → Option Text → Text → Step
unfolding plain_chunks private_parts split
private_command out hooks nick directory command =
    private_parts out hooks nick directory (plain_chunks out nick (split command space))

-- The message without its prefix and its signature.
unfoldable pub unsigned_text : Text → Text
unfolding split join drop_last_two
unsigned_text [] = []
unsigned_text (c ∷ rest) = join (drop_last_two (split rest space)) space

unfoldable pub on_verified_privmsg : Receiver → Hooks → Text → Text → Pending → Pending × List Call
unfolding unsigned_text private_command run_commands split
on_verified_privmsg out hooks nick message pending = (
  erase (nick, message) pending,
  call hooks privmsg_trigger (nick_verified nick)
      ++ run_commands (private_command out hooks nick (lookup (nick, message) pending))
          (split (unsigned_text message) command_prefix),
)
