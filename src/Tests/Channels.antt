-- ===== src/Tests/Channels.antt =====
-- Runs of the message channels, and their theorems at concrete inputs.
use joinmarket_clientserver.Channels.Welcome.{run, run-welcomes, timeout, welcome, welcomes}
use joinmarket_clientserver.Channels.Broadcast.{send_tx-none}
use joinmarket_clientserver.Channels.Leave.{
  on_nick_leave_trigger-IsTold, on_nick_leave_trigger-others, IsTold,
}
use joinmarket_clientserver.Channels.Presence.{
  on_nick_leave_trigger, flush_channel, flush_channels, flush_nicks, move_to, peers_on, reroute,
  without,
}
use joinmarket_clientserver.Channels.Reachable.{
  disconnected, on_disconnect_trigger-active, on_disconnect_trigger-available, IsMoved,
}
use joinmarket_clientserver.Channels.Connection.{on_disconnect_trigger}
use joinmarket_clientserver.Prelude.Dict.{lookup, insert}
use joinmarket_clientserver.Prelude.Text.{Text, codes, text_eq, text_discrete}
use joinmarket_clientserver.Channels.Send.{Outside, send_tx}
use joinmarket_clientserver.Prelude.{
  List, [], if◌then◌else◌, none, refl, some, true, ◌++◌, ◌∷◌, ◌≡◌, ◌≢◌, ℕ,
}
use joinmarket_clientserver.Channels.Flush.{IsValid}
use joinmarket_clientserver.Channels.State.{
  Callbacks, Collection, Effect, available_channels, find_channel, init, is_available, no_timer,
  started, has_seen, unavailable_channels,
}

abbrev alice : Text
alice = codes "J5alice"

abbrev bob : Text
bob = codes "J5bob"

abbrev callbacks : Callbacks
callbacks = record {
  has_welcome = true;
  has_disconnect = true;
  has_nick_leave = true;
  has_order_seen = true;
  has_order_cancel = true;
  has_fidelity_bond_seen = true;
  has_orderbook_requested = true;
}

-- Both nicks are on channel 0, and one was seen on channel 1 too.
abbrev pit : Collection
pit = record {
  mchannels = 0 ∷ 1 ∷ [];
  mc_status = (0, started) ∷ (1, started) ∷ [];
  nicks_seen = (0, alice ∷ bob ∷ []) ∷ (1, bob ∷ []) ∷ [];
  active_channels = (alice, 0) ∷ (bob, 0) ∷ [];
  welcomed = true;
  on_welcome_announce_id = no_timer;
}

pit-IsValid : IsValid pit
unfolding text_discrete
pit-IsValid = record { distinct = (refl, (refl, tt)); members = (refl, (refl, tt)) }

disconnect_test : lookup bob (on_disconnect_trigger callbacks 0 pit).0.active_channels ≡ some 1
unfolding on_disconnect_trigger flush_nicks flush_channels flush_channel unavailable_channels
    available_channels is_available peers_on reroute without find_channel has_seen move_to insert
    lookup text_discrete
disconnect_test = refl

on_disconnect_trigger-active_example :
    IsMoved
      (disconnected callbacks 0 pit)
      pit.nicks_seen
      bob
      (lookup bob pit.active_channels)
      (lookup bob (disconnected callbacks 0 pit).active_channels)
on_disconnect_trigger-active_example = on_disconnect_trigger-active callbacks 0 pit bob pit-IsValid

on_disconnect_trigger-available_example :
    (is_available (on_disconnect_trigger callbacks 0 pit).0 1 ≡ true) × ◌≢◌ {A = ℕ} 1 0
on_disconnect_trigger-available_example =
    on_disconnect_trigger-available callbacks 0 pit bob 1 pit-IsValid disconnect_test

on_nick_leave_trigger-IsTold_example :
    IsTold alice 0 pit
      (lookup alice pit.active_channels)
      (on_nick_leave_trigger callbacks alice 0 none pit)
on_nick_leave_trigger-IsTold_example =
    on_nick_leave_trigger-IsTold callbacks alice 0 pit pit-IsValid refl

on_nick_leave_trigger-others_example :
    lookup bob (on_nick_leave_trigger callbacks alice 0 none pit).0.active_channels ≡ some 0
unfolding lookup text_discrete
on_nick_leave_trigger-others_example =
    on_nick_leave_trigger-others callbacks alice bob 0 pit pit-IsValid (λ h. cc)

run-welcomes_example :
    (s : Collection) × (es : List Effect) × (run callbacks
        (welcome 1 ∷ timeout ∷ welcome 0 ∷ [])
        (init (0 ∷ 1 ∷ []))
      ≡ some (s, es))
    × (welcomes es ≡ (if s.welcomed then 1 else 0))
run-welcomes_example =
    run-welcomes callbacks (welcome 1 ∷ timeout ∷ welcome 0 ∷ []) (0 ∷ 1 ∷ []) refl

abbrev outside : Outside
outside = record {
  hostid = λ mc. mc ∷ [];
  get_crypto_box_from_nick = λ nick. some nick;
  encrypt_encode = λ message box. box ++ message;
  b64encode = λ tx. tx;
}

send_tx-none_example : send_tx outside (bob ∷ codes "J5eve" ∷ []) (codes "tx0") pit ≡ (pit, [])
unfolding lookup text_discrete
send_tx-none_example =
    send_tx-none outside (codes "tx0") (codes "J5eve") (bob ∷ codes "J5eve" ∷ []) pit refl refl
