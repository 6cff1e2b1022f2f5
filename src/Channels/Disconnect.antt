-- ===== src/Channels/Disconnect.antt =====
-- What a disconnection does to the peers that are talked to: `flush_nicks` and
-- `on_disconnect_trigger`.
use joinmarket_clientserver.Channels.Presence.{
  flush_channel, flush_channels, flush_nicks, peers_on, reroute,
}
use joinmarket_clientserver.Channels.State.{
  available_channels, find_channel, is_available, unavailable_channels, Collection,
}
use joinmarket_clientserver.Prelude.Text.{Text, text_eq}
use joinmarket_clientserver.Channels.Flush.{
  IsValid, contains-peers_on, find_channel-contains, find_channel-insert, lookup-reroute,
  lookup-without, reroute-Distinct, without-Distinct,
}
use joinmarket_clientserver.Prelude.Dict.{All-lookup, Dict, insert, keys, lookup}
use joinmarket_clientserver.Prelude.{
  All, Distinct, List, Option, [], arith, contains, contains-keep, false, if◌then◌else◌, keep, none,
  not, refl, some, true, ℕ, ℕ_eq, ◌∷◌, ◌≡◌, ◌&&◌,
}

-- The channel of a peer after the channels of `mcs` are flushed.
abbrev moved : List ℕ → Collection → Text → Option ℕ → Option ℕ
moved mcs s peer none = none
moved mcs s peer (some on) =
    if contains on mcs then find_channel (available_channels s) s.nicks_seen peer else some on

flush_channel-active :
    (mc : ℕ) (s : Collection) (peer : Text)
    → Distinct (keys s.active_channels)
    → contains mc (available_channels s) ≡ false
    → lookup peer (flush_channel mc s).active_channels
      ≡ moved (mc ∷ []) s peer (lookup peer s.active_channels)
unfolding flush_channel
flush_channel-active mc s peer d h =
    let seen : Dict ℕ (List Text) = insert mc [] s.nicks_seen in
    let peers : List Text = peers_on mc s.active_channels in
    ground (
      arith,
      lookup-without mc (reroute (available_channels s) seen peers s.active_channels) peer
          (reroute-Distinct (available_channels s) seen peers s.active_channels d),
      lookup-reroute (available_channels s) seen peers s.active_channels peer,
      contains-peers_on mc s.active_channels peer d,
      find_channel-insert (available_channels s) s.nicks_seen mc peer h,
      find_channel-contains (available_channels s) s.nicks_seen peer mc,
      ℕ_eq.dec mc,
    )

flush_channel-Distinct :
    (mc : ℕ) (s : Collection)
    → Distinct (keys s.active_channels)
    → Distinct (keys (flush_channel mc s).active_channels)
unfolding flush_channel
flush_channel-Distinct mc s d =
    let seen : Dict ℕ (List Text) = insert mc [] s.nicks_seen in
    let peers : List Text = peers_on mc s.active_channels in
    without-Distinct mc (reroute (available_channels s) seen peers s.active_channels)
      (reroute-Distinct (available_channels s) seen peers s.active_channels d)

flush_channel-available :
    (mc : ℕ) (s : Collection) → available_channels (flush_channel mc s) ≡ available_channels s
unfolding flush_channel available_channels is_available
flush_channel-available mc s = refl

flush_channel-seen :
    (mc : ℕ) (s : Collection) → (flush_channel mc s).nicks_seen ≡ insert mc [] s.nicks_seen
unfolding flush_channel
flush_channel-seen mc s = refl

-- A channel that is available is none of `mcs`.
apart :
    (mcs available : List ℕ) (c : ℕ)
    → All (λ mc. contains mc available ≡ false) mcs
    → contains c available ≡ true
    → contains c mcs ≡ false
apart [] available c h a = refl
apart (mc ∷ mcs) available c h a = ground (arith, apart mcs available c h.1 a)

flush_channels-active :
    (mcs : List ℕ) (s : Collection) (peer : Text)
    → Distinct (keys s.active_channels)
    → All (λ mc. contains mc (available_channels s) ≡ false) mcs
    → lookup peer (flush_channels mcs s).active_channels
      ≡ moved mcs s peer (lookup peer s.active_channels)
unfolding flush_channels
flush_channels-active [] s peer d h = ground arith
flush_channels-active (mc ∷ mcs) s peer d h =
    let s1 : Collection = flush_channel mc s in
    ground (
      arith,
      flush_channels-active mcs s1 peer (flush_channel-Distinct mc s d)
          (rw (flush_channel-available mc s) h.1),
      flush_channel-active mc s peer d h.0,
      flush_channel-available mc s,
      flush_channel-seen mc s,
      find_channel-insert (available_channels s) s.nicks_seen mc peer h.0,
      find_channel-contains (available_channels s) s.nicks_seen peer,
      apart mcs (available_channels s),
    )

pub contains-available :
    (s : Collection) (mc : ℕ)
    → contains mc (available_channels s) ≡ (is_available s mc && contains mc s.mchannels)
unfolding available_channels
contains-available s mc = contains-keep (is_available s) mc s.mchannels

contains-unavailable :
    (s : Collection) (mc : ℕ)
    → contains mc (unavailable_channels s) ≡ (not (is_available s mc) && contains mc s.mchannels)
unfolding unavailable_channels
contains-unavailable s mc = contains-keep (λ c. not (is_available s c)) mc s.mchannels

unavailable-apart :
    (s : Collection) (mcs : List ℕ)
    → All
        (λ mc. contains mc (available_channels s) ≡ false)
        (keep (λ mc. not (is_available s mc)) mcs)
unavailable-apart s [] = tt
unavailable-apart s (mc ∷ mcs) = ground (arith, unavailable-apart s mcs, contains-available s mc)

flush_nicks-moved :
    (s : Collection) (peer : Text)
    → IsValid s
    → lookup peer (flush_nicks s).active_channels
      ≡ moved (unavailable_channels s) s peer (lookup peer s.active_channels)
unfolding flush_nicks
flush_nicks-moved s peer v =
    flush_channels-active (unavailable_channels s) s peer v.distinct
      (unfold unavailable_channels in unavailable-apart s s.mchannels)

pub active-member :
    (s : Collection) (peer : Text)
    → IsValid s
    → (c : ℕ) → lookup peer s.active_channels ≡ some c
    → contains c s.mchannels ≡ true
active-member s peer v c h =
    All-lookup (λ mc. contains mc s.mchannels ≡ true) peer s.active_channels v.members h

-- Where a peer is talked to after `flush_nicks`: on its channel if that is available, and else on
-- the first available channel that has seen it.
pub flush_nicks-active :
    (s : Collection) (peer : Text)
    → IsValid s
    → lookup peer (flush_nicks s).active_channels ≡ elim (lookup peer s.active_channels) [
      | none ↦ none
      | some on ↦
          if is_available s on
          then some on
          else find_channel (available_channels s) s.nicks_seen peer
    ]
flush_nicks-active s peer v =
    rw (flush_nicks-moved s peer v) (go (lookup peer s.active_channels) refl)
  where
    go :
        (o : Option ℕ)
        → lookup peer s.active_channels ≡ o
        → moved (unavailable_channels s) s peer o ≡ elim o [
          | none ↦ none
          | some on ↦
              if is_available s on
              then some on
              else find_channel (available_channels s) s.nicks_seen peer
        ]
    go none e = refl
    go (some on) e = ground (arith, contains-unavailable s on, active-member s peer v on e)

flush_channels-status :
    (mcs : List ℕ) (s : Collection) → (flush_channels mcs s).mc_status ≡ s.mc_status
unfolding flush_channels flush_channel
flush_channels-status [] s = refl
flush_channels-status (mc ∷ mcs) s = flush_channels-status mcs (flush_channel mc s)

flush_channels-mchannels :
    (mcs : List ℕ) (s : Collection) → (flush_channels mcs s).mchannels ≡ s.mchannels
unfolding flush_channels flush_channel
flush_channels-mchannels [] s = refl
flush_channels-mchannels (mc ∷ mcs) s = flush_channels-mchannels mcs (flush_channel mc s)

flush_channels-Distinct :
    (mcs : List ℕ) (s : Collection)
    → Distinct (keys s.active_channels)
    → Distinct (keys (flush_channels mcs s).active_channels)
unfolding flush_channels
flush_channels-Distinct [] s d = d
flush_channels-Distinct (mc ∷ mcs) s d =
    flush_channels-Distinct mcs (flush_channel mc s) (flush_channel-Distinct mc s d)

pub flush_nicks-status : (s : Collection) → (flush_nicks s).mc_status ≡ s.mc_status
unfolding flush_nicks
flush_nicks-status s = flush_channels-status (unavailable_channels s) s

pub flush_nicks-mchannels : (s : Collection) → (flush_nicks s).mchannels ≡ s.mchannels
unfolding flush_nicks
flush_nicks-mchannels s = flush_channels-mchannels (unavailable_channels s) s

pub flush_nicks-Distinct :
    (s : Collection)
    → Distinct (keys s.active_channels)
    → Distinct (keys (flush_nicks s).active_channels)
unfolding flush_nicks
flush_nicks-Distinct s d = flush_channels-Distinct (unavailable_channels s) s d
