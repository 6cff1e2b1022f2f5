-- ===== src/Channels/Connection.antt =====
-- Connections coming and going: the triggers of connect, disconnect and welcome, and the timer
-- that `on_welcome_trigger` asks the reactor for.
use joinmarket_clientserver.Prelude.Dict.{insert, values}
use joinmarket_clientserver.Channels.Presence.{flush_nicks}
use joinmarket_clientserver.Channels.State.{
  Callbacks, Effect, broken, cancel_timer, cancelled, fired, has_timer, is_not_started, is_started,
  no_timer, on_disconnect, on_welcome, pending, start_timer, started, Collection,
}
use joinmarket_clientserver.Prelude.{
  Bool, List, Option, [], if◌then◌else◌, none, not, some, some_of, true, ℕ, ◌&&◌, ◌∷◌, ℕ_eq,
}

unfoldable pub on_connect_trigger : ℕ → Collection → Collection
on_connect_trigger mc s = record s { mc_status = insert mc started s.mc_status }

-- `any([x == 1 for x in self.mc_status.values()])`
abbrev pub is_connected : Collection → Bool
is_connected s = some_of (λ x. is_started (some x)) (values s.mc_status)

unfoldable pub on_disconnect_trigger : Callbacks → ℕ → Collection → Collection × List Effect
unfolding flush_nicks
on_disconnect_trigger cb mc s =
    let flushed = flush_nicks (record s { mc_status = insert mc broken s.mc_status }) in
    (flushed, if not (is_connected flushed) && cb.has_disconnect then on_disconnect ∷ [] else [])

unfoldable pub on_welcome_setup_finished : Callbacks → Collection → Collection × List Effect
on_welcome_setup_finished cb s =
    (record s { welcomed = true }, if cb.has_welcome then on_welcome ∷ [] else [])

-- To cancel a call that is not pending raises, in which case there is no result.
unfoldable pub on_welcome_trigger : Callbacks → ℕ → Collection → Option (Collection × List Effect)
unfolding on_welcome_setup_finished
on_welcome_trigger cb mc s =
    let up : Collection = record s { mc_status = insert mc started s.mc_status } in
    if up.welcomed
    then some (up, [])
    else if some_of is_not_started (values up.mc_status)
    then if not (has_timer up.on_welcome_announce_id) && cb.has_welcome
      then some (record up { on_welcome_announce_id = pending }, start_timer ∷ [])
      else some (up, [])
    else elim up.on_welcome_announce_id [
      | no_timer ↦ some (on_welcome_setup_finished cb up)
      | pending ↦
          (let done =
              on_welcome_setup_finished cb (record up { on_welcome_announce_id = cancelled }) in
            some (done.0, cancel_timer ∷ done.1))
      | cancelled ↦ none
      | fired ↦ none
    ]

-- The reactor calls `on_welcome_setup_finished` only while the timer is pending.
unfoldable pub timer_fires : Callbacks → Collection → Collection × List Effect
unfolding on_welcome_setup_finished
timer_fires cb s = elim s.on_welcome_announce_id [
  | pending ↦ on_welcome_setup_finished cb (record s { on_welcome_announce_id = fired })
  | _ ↦ (s, [])
]
