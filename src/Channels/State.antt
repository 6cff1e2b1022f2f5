-- ===== src/Channels/State.antt =====
-- The state of `MessageChannelCollection` of jmdaemon/message_channel.py, and what it asks of the
-- rest of the daemon. A channel is named by a number, its position among the objects of the list.
use joinmarket_clientserver.Prelude.Text.{Text, text_eq}
use joinmarket_clientserver.Prelude.Dict.{Dict, holds, insert, lookup}
use joinmarket_clientserver.Prelude.{
  Bool, List, Option, [], contains, false, if◌then◌else◌, keep, none, not, some, true, ℕ, ◌∷◌, ℕ_eq,
}

-- `mc_status`: 0, 1 and 2 in the source
pub data Status : Type 0 where
  not_started : Status
  started : Status
  broken : Status

-- `on_welcome_announce_id`: what became of the call that `reactor.callLater` was asked for
pub data Timer : Type 0 where
  no_timer : Timer
  pending : Timer
  cancelled : Timer
  fired : Timer

pub record Collection : Type 0 where
  pub mchannels : List ℕ
  pub mc_status : Dict ℕ Status
  pub nicks_seen : Dict ℕ (List Text)
  pub active_channels : Dict Text ℕ
  pub welcomed : Bool
  pub on_welcome_announce_id : Timer

-- The calls that a collection makes: its owner's callbacks, and methods of one channel.
pub data Effect : Type 0 where
  on_welcome : Effect
  on_disconnect : Effect
  on_nick_leave : Text → Option Text → Effect
  on_order_seen : Text → List Text → Option Text → Effect
  on_fidelity_bond_seen : Text → Text → Text → Option Text → Effect
  on_order_cancel : Text → Text → Option Text → Effect
  on_orderbook_requested : Text → ℕ → Effect
  start_timer : Effect
  cancel_timer : Effect
  channel_privmsg : ℕ → Text → Text → Text → Effect
  request_signed_message : Text → Text → Text → Text → Text → Effect
  channel_fill : ℕ → List Text → Effect

-- The callbacks that are registered.
pub record Callbacks : Type 0 where
  pub has_welcome : Bool
  pub has_disconnect : Bool
  pub has_nick_leave : Bool
  pub has_order_seen : Bool
  pub has_order_cancel : Bool
  pub has_fidelity_bond_seen : Bool
  pub has_orderbook_requested : Bool

abbrev pub is_started : Option Status → Bool
is_started (some started) = true
is_started _ = false

abbrev pub is_not_started : Status → Bool
is_not_started not_started = true
is_not_started _ = false

-- `bool(on_welcome_announce_id)`
abbrev pub has_timer : Timer → Bool
has_timer no_timer = false
has_timer _ = true

init_status : List ℕ → Dict ℕ Status
init_status [] = []
init_status (mc ∷ mcs) = insert mc not_started (init_status mcs)

init_seen : List ℕ → Dict ℕ (List Text)
init_seen [] = []
init_seen (mc ∷ mcs) = insert mc [] (init_seen mcs)

-- `__init__`
unfoldable pub init : List ℕ → Collection
unfolding init_status init_seen
init mchannels = record {
  mchannels = mchannels;
  mc_status = init_status mchannels;
  nicks_seen = init_seen mchannels;
  active_channels = [];
  welcomed = false;
  on_welcome_announce_id = no_timer;
}

unfoldable pub is_available : Collection → ℕ → Bool
is_available s mc = is_started (lookup mc s.mc_status)

unfoldable pub available_channels : Collection → List ℕ
unfolding is_available
available_channels s = keep (is_available s) s.mchannels

unfoldable pub unavailable_channels : Collection → List ℕ
unfolding is_available
unavailable_channels s = keep (λ mc. not (is_available s mc)) s.mchannels

-- `nick in self.nicks_seen[mc]`
unfoldable pub has_seen : Dict ℕ (List Text) → Text → ℕ → Bool
has_seen seen nick mc = holds (contains nick) (lookup mc seen)

-- The first of the channels on which the nick was seen.
unfoldable pub find_channel : List ℕ → Dict ℕ (List Text) → Text → Option ℕ
unfolding has_seen
find_channel [] seen nick = none
find_channel (mc ∷ mcs) seen nick =
    if has_seen seen nick mc then some mc else find_channel mcs seen nick
