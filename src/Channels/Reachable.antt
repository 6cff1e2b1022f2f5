-- ===== src/Channels/Reachable.antt =====
-- After a disconnection every peer is talked to on a channel that is up; what every history of
-- triggers keeps true.
use mathlib.Core.Path.{subst}
use joinmarket_clientserver.Channels.Disconnect.{
  flush_nicks-status, flush_nicks-active, flush_nicks-mchannels, contains-available,
}
use joinmarket_clientserver.Channels.Presence.{flush_nicks}
use joinmarket_clientserver.Channels.Connection.{on_disconnect_trigger}
use joinmarket_clientserver.Prelude.Dict.{insert, lookup, lookup-insert_self, Dict}
use joinmarket_clientserver.Prelude.{
  if◌then◌else◌, none, some, true, ℕ, ◌≡◌, ℕ_eq, arith, ◌≢◌, false, refl, Option, ap, sym, ◌∙◌,
  Bool-cases, List, inl, inr, ◌⊎◌,
}
use joinmarket_clientserver.Prelude.Text.{Text, text_eq}
use joinmarket_clientserver.Channels.Flush.{
  IsValid, find_channel-contains, IsFirst, find_channel-IsFirst,
}
use joinmarket_clientserver.Channels.State.{
  Callbacks, Collection, available_channels, broken, find_channel, is_available,
}

-- The collection after `mc` is marked as disconnected.
abbrev marked : ℕ → Collection → Collection
marked mc s = record s { mc_status = insert mc broken s.mc_status }

marked-IsValid : (mc : ℕ) (s : Collection) → IsValid s → IsValid (marked mc s)
marked-IsValid mc s v = record { distinct = v.distinct; members = v.members }

marked-unavailable : (mc : ℕ) (s : Collection) → is_available (marked mc s) mc ≡ false
unfolding is_available
marked-unavailable mc s = ground (arith, lookup-insert_self mc broken s.mc_status)

is_available-flush_nicks :
    (s : Collection) (c : ℕ) → is_available (flush_nicks s) c ≡ is_available s c
unfolding is_available
is_available-flush_nicks s c = rw (flush_nicks-status s) refl

available_channels-flush_nicks :
    (s : Collection) → available_channels (flush_nicks s) ≡ available_channels s
unfolding available_channels is_available
available_channels-flush_nicks s = rw (flush_nicks-status s, flush_nicks-mchannels s) refl

find_channel-available :
    (s : Collection) (peer : Text) (c : ℕ)
    → find_channel (available_channels s) s.nicks_seen peer ≡ some c
    → is_available s c ≡ true
find_channel-available s peer c h = ground (
  arith,
  find_channel-contains (available_channels s) s.nicks_seen peer c h,
  contains-available s c,
)

-- The collection after the trigger.
abbrev pub disconnected : Callbacks → ℕ → Collection → Collection
disconnected cb mc s = (on_disconnect_trigger cb mc s).0

disconnected_lem :
    (cb : Callbacks) (mc : ℕ) (s : Collection) → disconnected cb mc s ≡ flush_nicks (marked mc s)
unfolding on_disconnect_trigger
disconnected_lem cb mc s = refl

-- Where a peer is talked to now, by where it was.
on_disconnect_trigger-find_channel :
    (cb : Callbacks) (mc : ℕ) (s : Collection) (peer : Text)
    → IsValid s
    → lookup peer (disconnected cb mc s).active_channels ≡ elim (lookup peer s.active_channels) [
      | none ↦ none
      | some on ↦
          if is_available (disconnected cb mc s) on
          then some on
          else find_channel (available_channels (disconnected cb mc s)) s.nicks_seen peer
    ]
unfolding on_disconnect_trigger flush_nicks
on_disconnect_trigger-find_channel cb mc s peer v =
    rw (disconnected_lem cb mc s, flush_nicks-active (marked mc s) peer (marked-IsValid mc s v))
      (go (lookup peer s.active_channels))
  where
    go :
        (o : Option ℕ)
        → ◌≡◌ {A = Option ℕ}
            (elim o [
              | none ↦ none
              | some on ↦
                  if is_available (marked mc s) on
                  then some on
                  else find_channel (available_channels (marked mc s)) s.nicks_seen peer
            ])
            (elim o [
              | none ↦ none
              | some on ↦
                  if is_available (flush_nicks (marked mc s)) on
                  then some on
                  else find_channel
                      (available_channels (flush_nicks (marked mc s)))
                      s.nicks_seen
                      peer
            ])
    go none = refl
    go (some on) =
        rw (is_available-flush_nicks (marked mc s) on, available_channels-flush_nicks (marked mc s))
          refl

-- Where a peer is talked to after a disconnection, by where it was before: an available channel is kept;
-- otherwise it is the first available channel for which the peer is listed, or none.
abbrev pub IsMoved : Collection → Dict ℕ (List Text) → Text → Option ℕ → Option ℕ → Type 0
IsMoved t seen peer none now = now ≡ none
IsMoved t seen peer (some on) now =
    ((is_available t on ≡ true) × (now ≡ some on))
    ⊎ ((is_available t on ≡ false) × IsFirst (available_channels t) seen peer now)

find_channel-IsMoved :
    (t : Collection) (seen : Dict ℕ (List Text)) (peer : Text) (o : Option ℕ)
    → IsMoved t seen peer o (elim o [
      | none ↦ none
      | some on ↦
          if is_available t on then some on else find_channel (available_channels t) seen peer
    ])
find_channel-IsMoved t seen peer none = refl
find_channel-IsMoved t seen peer (some on) = elim (Bool-cases (is_available t on)) [
  | inl e ↦ rw e (inl (refl, refl))
  | inr e ↦ rw e (inr (refl, find_channel-IsFirst (available_channels t) seen peer))
]

-- After `mc` is disconnected, in a valid collection, a peer of a channel that is still available stays
-- there, and any other moves to the first available channel for which it is listed as seen, and to none
-- if there is no such channel.
pub on_disconnect_trigger-active :
    (cb : Callbacks) (mc : ℕ) (s : Collection) (peer : Text)
    → IsValid s
    → IsMoved
        (disconnected cb mc s)
        s.nicks_seen
        peer
        (lookup peer s.active_channels)
        (lookup peer (disconnected cb mc s).active_channels)
on_disconnect_trigger-active cb mc s peer v =
    subst (IsMoved (disconnected cb mc s) s.nicks_seen peer (lookup peer s.active_channels))
      (sym (on_disconnect_trigger-find_channel cb mc s peer v))
      (find_channel-IsMoved (disconnected cb mc s) s.nicks_seen peer
        (lookup peer s.active_channels))

-- After `mc` is disconnected, in a valid collection, no peer is talked to on a channel that is not
-- available, `mc` among these.
pub on_disconnect_trigger-available :
    (cb : Callbacks) (mc : ℕ) (s : Collection) (peer : Text) (c : ℕ)
    → IsValid s
    → lookup peer (on_disconnect_trigger cb mc s).0.active_channels ≡ some c
    → (is_available (on_disconnect_trigger cb mc s).0 c ≡ true) × (c ≢ mc)
on_disconnect_trigger-available cb mc s peer c v h =
    let up : (is_available (marked mc s) c ≡ true) = go (lookup peer s.active_channels) (
      sym (flush_nicks-active (marked mc s) peer (marked-IsValid mc s v))
      ∙ (ap (λ t. lookup peer t.active_channels) (sym (disconnected_lem cb mc s)) ∙ h)) in
    (
      rw (disconnected_lem cb mc s, is_available-flush_nicks (marked mc s) c) up,
      λ e. absurd (ground (arith, marked-unavailable mc s)),
    )
  where
    go :
        (o : Option ℕ)
        → elim o [
          | none ↦ none
          | some on ↦
              if is_available (marked mc s) on
              then some on
              else find_channel (available_channels (marked mc s)) s.nicks_seen peer
        ]
          ≡ some c
        → is_available (marked mc s) c ≡ true
    go none e = absurd (cc)
    go (some on) e = ground (arith, find_channel-available (marked mc s) peer c)
