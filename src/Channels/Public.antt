-- ===== src/Channels/Public.antt =====
-- What goes to every available channel: `pubmsg`, `cancel_orders`, `request_orderbook`, the calls to
-- one directory, `shutdown`, `on_nick_change_trigger` and `on_verified_privmsg`.
use joinmarket_clientserver.Channels.Disconnect.{contains-available}
use joinmarket_clientserver.Prelude.Text.{Text, text_eq}
use joinmarket_clientserver.Channels.State.{Collection, available_channels, is_available}
use joinmarket_clientserver.Prelude.{
  Bool, List, Option, [], arith, contains, keep, map, none, refl, some, some_of, ℕ, ◌&&◌, ◌==◌, ◌∙◌,
  ◌∷◌, ◌≡◌, ℕ_eq,
}

-- The method of a channel that is called, with its arguments.
pub data Broadcast : Type 0 where
  pubmsg : Text → Broadcast
  cancel_orders : List ℕ → Broadcast
  request_orderbook : Broadcast
  shutdown : Broadcast
  change_nick : Text → Broadcast
  announce_orders : List Text → Broadcast

-- `for mc in self.available_channels(): ...`
unfoldable pub to_available : Broadcast → Collection → List (ℕ × Broadcast)
unfolding available_channels
to_available message s = map (λ mc. (mc, message)) (available_channels s)

-- A call that tells whether a channel sent something to the directory: each channel is asked.
pub data ToDirectory : Type 0 where
  request_orderbook_from : Text → ToDirectory
  pubmsg_to : Text → Text → ToDirectory
  announce_orders_to : Text → List Text → ToDirectory

unfoldable pub to_directory : (ℕ → ToDirectory → Bool) → ToDirectory → Collection → Bool
unfolding available_channels
to_directory sends message s = some_of (λ mc. sends mc message) (available_channels s)

-- The channels whose `hostid` it is; with none of them the source raises an IndexError.
unfoldable pub on_verified_privmsg : (ℕ → Text) → Text → Collection → Option ℕ
on_verified_privmsg hostid h s = elim (keep (λ x. h == hostid x) s.mchannels) [
  | [] ↦ none
  | mc ∷ mcs ↦ some mc
]

-- A broadcast goes to a channel exactly if it is one of the collection's and available.
pub to_available-contains :
    (message : Broadcast) (s : Collection) (mc : ℕ)
    → contains mc (map (λ (sent : ℕ × Broadcast). sent.0) (to_available message s))
      ≡ (is_available s mc && contains mc s.mchannels)
unfolding to_available
to_available-contains message s mc = go (available_channels s) ∙ contains-available s mc
  where
    go :
        (mcs : List ℕ)
        → contains mc (map (λ (sent : ℕ × Broadcast). sent.0) (map (λ c. (c, message)) mcs))
          ≡ contains mc mcs
    go [] = refl
    go (c ∷ mcs) = ground (arith, go mcs)
