-- ===== src/Channels/Welcome.antt =====
-- The owner is welcomed once: `on_welcome_trigger` and the timer it starts.
use joinmarket_clientserver.Prelude.Dict.{insert}
use joinmarket_clientserver.Channels.Connection.{
  on_connect_trigger, on_disconnect_trigger, on_welcome_setup_finished, on_welcome_trigger,
  timer_fires,
}
use joinmarket_clientserver.Channels.Presence.{flush_channel, flush_channels, flush_nicks}
use joinmarket_clientserver.Channels.State.{
  on_welcome, broken, Callbacks, Collection, Effect, cancelled, fired, no_timer, pending, init,
  unavailable_channels,
}
use joinmarket_clientserver.Prelude.{
  Bool, List, Option, [], arith, false, if◌then◌else◌, none, not, refl, some, suc, true, ℕ, ◌++◌,
  ◌+◌, ◌∷◌, ◌≡◌, ℕ_eq,
}

-- What can happen to the connections.
pub data Event : Type 0 where
  connect : ℕ → Event
  disconnect : ℕ → Event
  welcome : ℕ → Event
  timeout : Event

-- One event. No result: an error was raised.
unfoldable pub step : Callbacks → Event → Collection → Option (Collection × List Effect)
unfolding on_connect_trigger on_disconnect_trigger on_welcome_trigger timer_fires
step cb (connect mc) s = some (on_connect_trigger mc s, [])
step cb (disconnect mc) s = some (on_disconnect_trigger cb mc s)
step cb (welcome mc) s = on_welcome_trigger cb mc s
step cb timeout s = some (timer_fires cb s)

unfoldable pub run : Callbacks → List Event → Collection → Option (Collection × List Effect)
unfolding step
run cb [] s = some (s, [])
run cb (event ∷ events) s = elim (step cb event s) [
  | none ↦ none
  | some next ↦ elim (run cb events next.0) [
    | none ↦ none
    | some last ↦ some (last.0, next.1 ++ last.1)
  ]
]

abbrev is_welcome : Effect → Bool
is_welcome on_welcome = true
is_welcome _ = false

-- How often the owner's `on_welcome` is called.
abbrev pub welcomes : List Effect → ℕ
welcomes [] = 0
welcomes (e ∷ es) = if is_welcome e then suc (welcomes es) else welcomes es

welcomes-append : (xs ys : List Effect) → welcomes (xs ++ ys) ≡ welcomes xs + welcomes ys
welcomes-append [] ys = omega arith
welcomes-append (x ∷ xs) ys = ground (arith, welcomes-append xs ys)

-- A timer that has ended belongs to an owner who was welcomed.
unfoldable pub timer_is_sound : Collection → Bool
timer_is_sound s = elim s.on_welcome_announce_id [
  | no_timer ↦ true
  | pending ↦ not s.welcomed
  | cancelled ↦ s.welcomed
  | fired ↦ s.welcomed
]

-- 1 while the owner has not been welcomed
abbrev to_come : Callbacks → Collection → ℕ
to_come cb s = if s.welcomed then 0 else if cb.has_welcome then 1 else 0

abbrev Stepped : Callbacks → Collection → Option (Collection × List Effect) → Type 0
Stepped cb s none = ⊥
Stepped cb s (some (t, es)) =
    (timer_is_sound t ≡ true) × (welcomes es + to_come cb t ≡ to_come cb s)

flush_channels-welcomed :
    (mcs : List ℕ) (s : Collection) → (flush_channels mcs s).welcomed ≡ s.welcomed
unfolding flush_channels flush_channel
flush_channels-welcomed [] s = refl
flush_channels-welcomed (mc ∷ mcs) s = flush_channels-welcomed mcs (flush_channel mc s)

flush_channels-timer :
    (mcs : List ℕ) (s : Collection)
    → (flush_channels mcs s).on_welcome_announce_id ≡ s.on_welcome_announce_id
unfolding flush_channels flush_channel
flush_channels-timer [] s = refl
flush_channels-timer (mc ∷ mcs) s = flush_channels-timer mcs (flush_channel mc s)

disconnect-Stepped :
    (cb : Callbacks) (mc : ℕ) (s : Collection)
    → timer_is_sound s ≡ true
    → Stepped cb s (some (on_disconnect_trigger cb mc s))
unfolding on_disconnect_trigger flush_nicks timer_is_sound
disconnect-Stepped cb mc s h =
    let m : Collection = record s { mc_status = insert mc broken s.mc_status } in
    ground (
      arith,
      flush_channels-welcomed (unavailable_channels m) m,
      flush_channels-timer (unavailable_channels m) m,
    )

welcome-Stepped :
    (cb : Callbacks) (mc : ℕ) (s : Collection)
    → timer_is_sound s ≡ true
    → Stepped cb s (on_welcome_trigger cb mc s)
unfolding on_welcome_trigger on_welcome_setup_finished timer_is_sound
welcome-Stepped cb mc s h = ground arith

timeout-Stepped :
    (cb : Callbacks) (s : Collection)
    → timer_is_sound s ≡ true
    → Stepped cb s (some (timer_fires cb s))
unfolding timer_fires on_welcome_setup_finished timer_is_sound
timeout-Stepped cb s h = ground arith

step-Stepped :
    (cb : Callbacks) (event : Event) (s : Collection)
    → timer_is_sound s ≡ true
    → Stepped cb s (step cb event s)
unfolding step
step-Stepped cb (connect mc) s h = unfold on_connect_trigger timer_is_sound in (h, omega arith)
step-Stepped cb (disconnect mc) s h = disconnect-Stepped cb mc s h
step-Stepped cb (welcome mc) s h = welcome-Stepped cb mc s h
step-Stepped cb timeout s h = timeout-Stepped cb s h

run-Stepped :
    (cb : Callbacks) (events : List Event) (s : Collection)
    → timer_is_sound s ≡ true
    → Stepped cb s (run cb events s)
unfolding run
run-Stepped cb [] s h = (h, omega arith)
run-Stepped cb (event ∷ events) s h =
    go (step cb event s) (step-Stepped cb event s h) (λ t. run-Stepped cb events t)
  where
    join :
        (next : Collection × List Effect) (o : Option (Collection × List Effect))
        → Stepped cb s (some next)
        → Stepped cb next.0 o
        → Stepped cb s (elim o [ none ↦ none | some last ↦ some (last.0, next.1 ++ last.1) ])
    join next none p q = q
    join next (some last) p q = (q.0, ground (arith, welcomes-append next.1 last.1))

    go :
        (o : Option (Collection × List Effect))
        → Stepped cb s o
        → ((t : Collection) → timer_is_sound t ≡ true → Stepped cb t (run cb events t))
        → Stepped cb s (elim o [
          | none ↦ none
          | some next ↦ elim (run cb events next.0) [
            | none ↦ none
            | some last ↦ some (last.0, next.1 ++ last.1)
          ]
        ])
    go none p rest = p
    go (some next) p rest = join next (run cb events next.0) p (rest next.0 p.0)

-- Whatever happens to the connections of a new collection, no error is raised; the owner's
-- `on_welcome`, if there is one, is called once if `welcomed` is set in the end, and else not at all.
pub run-welcomes :
    (cb : Callbacks) (events : List Event) (mchannels : List ℕ)
    → cb.has_welcome ≡ true
    → (s : Collection) × (es : List Effect) × (run cb events (init mchannels) ≡ some (s, es))
      × (welcomes es ≡ (if s.welcomed then 1 else 0))
unfolding init
run-welcomes cb events mchannels has =
    go (run cb events (init mchannels))
      (run-Stepped cb events (init mchannels) (unfold init timer_is_sound in refl))
  where
    go :
        (o : Option (Collection × List Effect))
        → Stepped cb (init mchannels) o
        → (s : Collection) × (es : List Effect) × (o ≡ some (s, es))
          × (welcomes es ≡ (if s.welcomed then 1 else 0))
    go none p = absurd p
    go (some (s, es)) p = (s, es, refl, ground arith)
