-- ===== src/Messages/Receive.antt =====
-- Public messages: `check_for_orders`, `check_for_commitments`, `check_for_fidelity_bond` and
-- `on_pubmsg`.
-- The callbacks that can be registered.
use joinmarket_clientserver.Prelude.Split.{split}
use joinmarket_clientserver.Prelude.Decimal.{int}
use joinmarket_clientserver.Messages.Commands.{
  command_prefix, commitment_broadcast_list, fidelity_bond_cmd_list, offername_list, space,
}
use joinmarket_clientserver.Prelude.Text.{Text, codes, text_eq}
use joinmarket_clientserver.Prelude.{
  ◌>>=◌, Bool, List, Option, [], contains, false, if◌then◌else◌, keep, length, ltb, none, not, some,
  suc, true, zero, ℕ, ℤ, ◌++◌, ◌==◌, ◌||◌, ◌∷◌, ℕ_eq,
}

pub data Hook : Type 0 where
  message_trigger : Hook
  pubmsg_trigger : Hook
  privmsg_trigger : Hook
  order_seen_hook : Hook
  order_cancel_hook : Hook
  bond_seen_hook : Hook
  commitment_seen_hook : Hook
  commitment_transferred_hook : Hook
  orderbook_requested_hook : Hook
  error_hook : Hook
  pubkey_hook : Hook
  ioauth_hook : Hook
  sig_hook : Hook
  order_fill_hook : Hook
  auth_hook : Hook
  tx_hook : Hook
  push_hook : Hook

-- What `check_for_orders` passes on, as it stands in the message.
pub record OrderLine : Type 0 where
  pub counterparty : Text
  pub oid : Text
  pub ordertype : Text
  pub minsize : Text
  pub maxsize : Text
  pub txfee : Text
  pub cjfee : Text

-- The calls that a channel makes, with their arguments. A nick stands first; the directory that a
-- message came from stands last.
pub data Call : Type 0 where
  message_seen : Bool → Text → Text → Option Text → Call
  nick_seen : Text → Call
  nick_verified : Text → Call
  order_seen : OrderLine → Option Text → Call
  order_cancel : Text → ℤ → Option Text → Call
  fidelity_bond_seen : Text → Text → Text → Option Text → Call
  commitment_seen : Text → Text → Call
  commitment_transferred : Text → Text → Call
  orderbook_requested : Text → Call
  error_seen : Text → Call
  pubkey_seen : Text → Text → Call
  ioauth_seen : Text → List Text → Text → Text → Text → Text → Call
  sig_seen : Text → Text → Call
  order_fill : Text → ℤ → ℤ → Text → Option Text → Call
  seen_auth : Text → Text → Call
  seen_tx : Text → Text → Call
  push_tx : Text → Text → Call
  send_error : Text → Text → Call
  request_signature_verify : Text → Text → Text → Text → Text → Call

abbrev pub Hooks : Type 0
Hooks = Hook → Bool

-- A callback is called if it is registered.
abbrev pub call : Hooks → Hook → Call → List Call
call hooks hook c = if hooks hook then c ∷ [] else []

abbrev pub first : List Text → Text
first [] = []
first (c ∷ chunks) = c

-- `chunks[n]`; none where it raises IndexError.
unfoldable pub chunk : List Text → ℕ → Option Text
chunk [] n = none
chunk (c ∷ chunks) zero = some c
chunk (c ∷ chunks) (suc n) = chunk chunks n

-- An order of the chunks; a field that is missing raises IndexError.
unfoldable pub order_line : Text → List Text → Option OrderLine
unfolding chunk
order_line nick chunks = do
  oid ← chunk chunks 1
  ordertype ← chunk chunks 0
  minsize ← chunk chunks 2
  maxsize ← chunk chunks 3
  txfee ← chunk chunks 4
  cjfee ← chunk chunks 5
  some record {
    counterparty = nick;
    oid = oid;
    ordertype = ordertype;
    minsize = minsize;
    maxsize = maxsize;
    txfee = txfee;
    cjfee = cjfee;
  }

-- The calls of each check; none where it returns False. A missing chunk is logged.
unfoldable pub check_for_orders : Hooks → Text → List Text → Option Text → Option (List Call)
unfolding order_line
check_for_orders hooks nick chunks directory =
    if contains (first chunks) offername_list
    then some (elim (order_line nick chunks) [
      | none ↦ []
      | some line ↦ call hooks order_seen_hook (order_seen line directory)
    ])
    else none

unfoldable pub check_for_commitments : Hooks → Text → List Text → Bool → Option (List Call)
unfolding chunk
check_for_commitments hooks nick chunks is_private =
    if contains (first chunks) commitment_broadcast_list
    then some (elim (chunk chunks 1) [
      | none ↦ []
      | some commitment ↦
          if is_private
          then call hooks commitment_transferred_hook (commitment_transferred nick commitment)
          else call hooks commitment_seen_hook (commitment_seen nick commitment)
    ])
    else none

unfoldable pub check_for_fidelity_bond : Hooks → Text → List Text → Option Text → Option (List Call)
unfolding chunk
check_for_fidelity_bond hooks nick chunks directory =
    if contains (first chunks) fidelity_bond_cmd_list
    then some (elim (chunk chunks 1) [
      | none ↦ []
      | some proof ↦
          call hooks bond_seen_hook (fidelity_bond_seen nick (first chunks) proof directory)
    ])
    else none

abbrev pub calls_of : Option (List Call) → List Call
calls_of none = []
calls_of (some calls) = calls

-- What a command does: the calls, and whether the handler returns after it.
abbrev pub Step : Type 0
Step = List Call × Bool

-- `int(chunks[1])`
unfoldable pub cancelled_oid : List Text → Option ℤ
unfolding chunk int
cancelled_oid chunks = do text ← chunk chunks 1; int text

abbrev pub cancel_result : Hooks → Text → Option Text → Option ℤ → Step
cancel_result hooks nick directory none = ([], true)
cancel_result hooks nick directory (some oid) =
    (call hooks order_cancel_hook (order_cancel nick oid directory), false)

unfoldable pub cancel_step : Hooks → Text → List Text → Option Text → Step
unfolding cancelled_oid
cancel_step hooks nick chunks directory = cancel_result hooks nick directory (cancelled_oid chunks)

-- One command of a public message, split into its chunks.
unfoldable pub public_chunks : Hooks → Text → Option Text → List Text → Step
unfolding check_for_orders check_for_commitments cancel_step
public_chunks hooks nick directory chunks =
    let orders = calls_of (check_for_orders hooks nick chunks directory) in
    elim (check_for_commitments hooks nick chunks false) [
      | some calls ↦ (orders ++ calls, false)
      | none ↦
          if first chunks == codes "cancel"
          then (
            orders ++ (cancel_step hooks nick chunks directory).0,
            (cancel_step hooks nick chunks directory).1,
          )
          else if first chunks == codes "orderbook"
          then (orders ++ call hooks orderbook_requested_hook (orderbook_requested nick), false)
          else (orders, false)
    ]

unfoldable pub public_command : Hooks → Text → Option Text → Text → Step
unfolding public_chunks split
public_command hooks nick directory command =
    public_chunks hooks nick directory (split command space)

-- The loop over the commands of a message.
unfoldable pub run_commands : (Text → Step) → List Text → List Call
run_commands step [] = []
run_commands step (command ∷ commands) =
    let rest = run_commands step commands in
    if (step command).1 then (step command).0 else (step command).0 ++ rest

-- `commands.count(command)`
abbrev pub count : Text → List Text → ℕ
count command commands = length (keep (λ c. c == command) commands)

-- none where the source reads the first character of an empty message.
unfoldable pub on_pubmsg : Hooks → Text → Text → Option Text → Option (List Call)
unfolding public_command run_commands split
on_pubmsg hooks nick [] directory = none
on_pubmsg hooks nick (c ∷ rest) directory =
    let seen =
      call hooks message_trigger (message_seen true nick (c ∷ rest) directory)
      ++ call hooks pubmsg_trigger (nick_seen nick) in
    let commands = split rest command_prefix in
    if not (c == command_prefix) || ltb 1 (count (codes "orderbook") commands)
    then some seen
    else some (seen ++ run_commands (public_command hooks nick directory) commands)
