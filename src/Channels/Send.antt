-- ===== src/Channels/Send.antt =====
-- Private messages: `check_privmsg`, `prepare_privmsg`, `privmsg`, `send_tx` and `fill_orders`.
use mathlib.Core.Option
use joinmarket_clientserver.Prelude.Text.{Text, codes, text_eq}
use joinmarket_clientserver.Messages.Commands.{plaintext_commands}
use joinmarket_clientserver.Prelude.{
  List, Option, [], contains, if◌then◌else◌, keep, none, some, ℕ, ◌++◌, ◌==◌, ◌∷◌, ℕ_eq,
}
use joinmarket_clientserver.Prelude.Dict.{Dict, insert, lookup}
use joinmarket_clientserver.Channels.State.{
  Collection, Effect, available_channels, channel_fill, channel_privmsg, find_channel,
  request_signed_message,
}

-- What a collection takes from elsewhere: a channel's `hostid`, the encryption boxes that the daemon
-- keeps, `encrypt_encode` and `base64.b64encode`.
pub record Outside : Type 0 where
  pub hostid : ℕ → Text
  pub get_crypto_box_from_nick : Text → Option Text
  pub encrypt_encode : Text → Text → Text
  pub b64encode : Text → Text

-- `check_privmsg`: a counterparty without an active channel gets the first available one that has
-- seen it; if there is none, the message is dropped.
unfoldable pub check_privmsg :
    Text → (Collection → Collection × List Effect) → Collection → Collection × List Effect
unfolding find_channel available_channels
check_privmsg cp func s = elim (lookup cp s.active_channels) [
  | some on ↦ func s
  | none ↦ elim (find_channel (available_channels s) s.nicks_seen cp) [
    | none ↦ (s, [])
    | some mc ↦ func (record s { active_channels = insert cp mc s.active_channels })
  ]
]

-- The message as it goes out; none if there is no box to encrypt it with.
unfoldable pub encrypted : Outside → Text → Text → Text → Option Text
encrypted out nick cmd message =
    if contains cmd plaintext_commands
    then some message
    else elim (out.get_crypto_box_from_nick nick) [
      | none ↦ none
      | some box ↦ some (out.encrypt_encode message box)
    ]

-- The channel of a message: the one that is asked for, or the active one.
abbrev pub route : Option ℕ → Text → Collection → Option ℕ
route (some mc) nick s = some mc
route none nick s = lookup nick s.active_channels

unfoldable pub signed_request :
    Outside → Text → Text → Text → Option ℕ → Collection → Collection × List Effect
unfolding encrypted
signed_request out nick cmd message mc s = elim (encrypted out nick cmd message) [
  | none ↦ (s, [])
  | some sent ↦ elim (route mc nick s) [
    | none ↦ (s, [])
    | some c ↦ (s, request_signed_message nick cmd sent (sent ++ out.hostid c) (out.hostid c) ∷ [])
  ]
]

unfoldable pub prepare_privmsg :
    Outside → Text → Text → Text → Option ℕ → Collection → Collection × List Effect
unfolding check_privmsg signed_request
prepare_privmsg out nick cmd message mc s =
    check_privmsg nick (signed_request out nick cmd message mc) s

-- The `mc` that a caller of `privmsg` names: nothing, a channel, or the identifier of its host.
pub data Target : Type 0 where
  anywhere : Target
  channel : ℕ → Target
  host : Text → Target

abbrev only : List ℕ → Option ℕ
only [] = none
only (mc ∷ []) = some mc
only (mc ∷ mc2 ∷ mcs) = none

unfoldable pub privmsg_channel : Outside → Text → Target → Collection → Option ℕ
unfolding available_channels
privmsg_channel out nick anywhere s = lookup nick s.active_channels
privmsg_channel out nick (channel mc) s =
    if contains mc (available_channels s) then some mc else none
privmsg_channel out nick (host h) s = only (keep (λ x. h == out.hostid x) (available_channels s))

unfoldable pub privmsg : Outside → Text → Text → Text → Target → Collection → List Effect
unfolding privmsg_channel
privmsg out nick cmd message mc s = elim (privmsg_channel out nick mc s) [
  | none ↦ []
  | some c ↦ channel_privmsg c nick cmd message ∷ []
]

unfoldable pub send_error : Outside → Text → Text → Collection → Collection × List Effect
unfolding check_privmsg prepare_privmsg
send_error out nick errormsg s =
    check_privmsg nick (prepare_privmsg out nick (codes "error") errormsg none) s

unfoldable pub push_tx : Outside → Text → Text → Collection → Collection × List Effect
unfolding check_privmsg prepare_privmsg
push_tx out nick tx s =
    check_privmsg nick (prepare_privmsg out nick (codes "push") (out.b64encode tx) none) s

unfoldable pub prepare_send_tx :
    Outside → ℕ → List Text → Text → Collection → Collection × List Effect
unfolding prepare_privmsg
prepare_send_tx out mc [] tx s = (s, [])
prepare_send_tx out mc (nick ∷ nicks) tx s =
    let sent = prepare_privmsg out nick (codes "tx") (out.b64encode tx) (some mc) s in
    let rest = prepare_send_tx out mc nicks tx sent.0 in (rest.0, sent.1 ++ rest.1)

-- `tx_nick_sets[mc]` is made, or the nick is appended to it.
unfoldable pub add_to_set : ℕ → Text → Dict ℕ (List Text) → Dict ℕ (List Text)
add_to_set mc nick sets = elim (lookup mc sets) [
  | none ↦ insert mc (nick ∷ []) sets
  | some nicks ↦ insert mc (nicks ++ nick ∷ []) sets
]

-- `tx_nick_sets`: the nicks by their active channels, none if some nick has no active channel.
unfoldable pub tx_nick_sets :
    Dict Text ℕ → List Text → Dict ℕ (List Text) → Option (Dict ℕ (List Text))
unfolding add_to_set
tx_nick_sets active [] sets = some sets
tx_nick_sets active (nick ∷ nicks) sets = elim (lookup nick active) [
  | none ↦ none
  | some mc ↦ tx_nick_sets active nicks (add_to_set mc nick sets)
]

unfoldable pub send_sets :
    Outside → Dict ℕ (List Text) → Text → Collection → Collection × List Effect
unfolding prepare_send_tx
send_sets out [] tx s = (s, [])
send_sets out ((mc, nicks) ∷ sets) tx s =
    let sent = prepare_send_tx out mc nicks tx s in
    let rest = send_sets out sets tx sent.0 in (rest.0, sent.1 ++ rest.1)

unfoldable pub send_tx : Outside → List Text → Text → Collection → Collection × List Effect
unfolding tx_nick_sets send_sets
send_tx out nick_list tx s = elim (tx_nick_sets s.active_channels nick_list []) [
  | none ↦ (s, [])
  | some sets ↦ send_sets out sets tx s
]

-- The makers of `nicks` on `mc`; none stands for the KeyError on a nick without an active channel.
unfoldable pub nicks_on : Dict Text ℕ → ℕ → List Text → Option (List Text)
nicks_on active mc [] = some []
nicks_on active mc (nick ∷ nicks) =
    let rest = nicks_on active mc nicks in
    elim (lookup nick active) [
      | none ↦ none
      | some on ↦ Option.map (λ found. if mc == on then nick ∷ found else found) rest
    ]

unfoldable pub fill_on : Dict Text ℕ → List ℕ → List Text → Option (List Effect)
unfolding nicks_on
fill_on active [] nicks = some []
fill_on active (mc ∷ mcs) nicks =
    let rest = fill_on active mcs nicks in
    elim (nicks_on active mc nicks) [
      | none ↦ none
      | some found ↦ Option.map (λ effects. channel_fill mc found ∷ effects) rest
    ]

unfoldable pub fill_orders : List Text → Collection → Option (List Effect)
unfolding fill_on available_channels
fill_orders nicks s = fill_on s.active_channels (available_channels s) nicks
