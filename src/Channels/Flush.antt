-- ===== src/Channels/Flush.antt =====
-- After `flush_nicks`, and so after a disconnection, no peer is talked to on a channel that is down.
use joinmarket_clientserver.Channels.Presence.{peers_on, reroute, without, move_to}
use joinmarket_clientserver.Prelude.Text.{Text, text_eq}
use joinmarket_clientserver.Prelude.Dict.{
  Dict, contains-keys, holds, insert, insert-Distinct, keys, lookup, lookup-insert, values,
}
use joinmarket_clientserver.Channels.State.{Collection, find_channel, has_seen}
use joinmarket_clientserver.Prelude.{
  All, Distinct, List, [], arith, contains, false, if◌then◌else◌, none, refl, some, true, ℕ, ◌==◌,
  ◌∷◌, ◌≡◌, ℕ_eq, ap, Option, Bool-cases, Option-cases, inl, inr, ◌++◌,
}

-- Each active channel is one of the collection's, and each nick has one active channel.
pub record IsValid (s : Collection) : Type 0 where
  pub distinct : Distinct (keys s.active_channels)
  pub members : All (λ mc. contains mc s.mchannels ≡ true) (values s.active_channels)

move_to-Distinct :
    (peer : Text) (o : Option ℕ) (ac : Dict Text ℕ)
    → Distinct (keys ac)
    → Distinct (keys (move_to peer o ac))
unfolding move_to
move_to-Distinct peer none ac d = d
move_to-Distinct peer (some mc2) ac d = insert-Distinct peer mc2 ac d

lookup-move_to :
    (p : Text) (o : Option ℕ) (ac : Dict Text ℕ) (peer : Text)
    → lookup peer (move_to p o ac)
      ≡ (if p == peer then elim o [ none ↦ lookup peer ac | some mc ↦ some mc ] else lookup peer ac)
unfolding move_to
lookup-move_to p none ac peer = ground arith
lookup-move_to p (some mc) ac peer = lookup-insert p peer mc ac

module _ (available : List ℕ) (seen : Dict ℕ (List Text)) where
  pub reroute-Distinct :
      (peers : List Text) (ac : Dict Text ℕ)
      → Distinct (keys ac)
      → Distinct (keys (reroute available seen peers ac))
  unfolding reroute
  reroute-Distinct [] ac d = d
  reroute-Distinct (peer ∷ peers) ac d =
      reroute-Distinct peers (move_to peer (find_channel available seen peer) ac)
        (move_to-Distinct peer (find_channel available seen peer) ac d)

  -- a peer of the list moves where it can
  pub lookup-reroute :
      (peers : List Text) (ac : Dict Text ℕ) (peer : Text)
      → lookup peer (reroute available seen peers ac) ≡ (
          if contains peer peers
          then elim (find_channel available seen peer) [ none ↦ lookup peer ac | some mc ↦ some mc ]
          else lookup peer ac)
  unfolding reroute
  lookup-reroute [] ac peer = refl
  lookup-reroute (p ∷ peers) ac peer = ground (
    arith,
    lookup-reroute peers (move_to p (find_channel available seen p) ac) peer,
    lookup-move_to p (find_channel available seen p) ac peer,
    ap (find_channel available seen),
  )

pub contains-peers_on :
    (mc : ℕ) (ac : Dict Text ℕ) (peer : Text)
    → Distinct (keys ac)
    → contains peer (peers_on mc ac) ≡ holds (λ on. on == mc) (lookup peer ac)
unfolding peers_on lookup
contains-peers_on mc [] peer d = refl
contains-peers_on mc ((p, on) ∷ ac) peer d =
    ground (arith, contains-peers_on mc ac peer d.1, contains-keys peer ac)

contains-keys-without :
    (mc : ℕ) (ac : Dict Text ℕ) (peer : Text)
    → contains peer (keys ac) ≡ false
    → contains peer (keys (without mc ac)) ≡ false
unfolding without
contains-keys-without mc [] peer h = refl
contains-keys-without mc ((p, on) ∷ ac) peer h = ground (arith, contains-keys-without mc ac peer)

pub without-Distinct :
    (mc : ℕ) (ac : Dict Text ℕ) → Distinct (keys ac) → Distinct (keys (without mc ac))
unfolding without
without-Distinct mc [] d = tt
without-Distinct mc ((p, on) ∷ ac) d =
    ground (arith, without-Distinct mc ac d.1, contains-keys-without mc ac p d.0)

pub lookup-without :
    (mc : ℕ) (ac : Dict Text ℕ) (peer : Text)
    → Distinct (keys ac)
    → lookup peer (without mc ac)
      ≡ elim (lookup peer ac) [ none ↦ none | some on ↦ if on == mc then none else some on ]
unfolding without lookup
lookup-without mc [] peer d = refl
lookup-without mc ((p, on) ∷ ac) peer d =
    ground (arith, lookup-without mc ac peer d.1, contains-keys peer ac)

-- What the nicks that a channel has seen are forgotten means for the search.
pub find_channel-insert :
    (mcs : List ℕ) (seen : Dict ℕ (List Text)) (mc : ℕ) (peer : Text)
    → contains mc mcs ≡ false
    → find_channel mcs (insert mc [] seen) peer ≡ find_channel mcs seen peer
unfolding find_channel has_seen
find_channel-insert [] seen mc peer h = refl
find_channel-insert (c ∷ mcs) seen mc peer h =
    ground (arith, find_channel-insert mcs seen mc peer, lookup-insert mc c [] seen)

pub find_channel-contains :
    (mcs : List ℕ) (seen : Dict ℕ (List Text)) (peer : Text) (mc : ℕ)
    → find_channel mcs seen peer ≡ some mc
    → contains mc mcs ≡ true
unfolding find_channel
find_channel-contains [] seen peer mc h = cc
find_channel-contains (c ∷ mcs) seen peer mc h =
    ground (arith, find_channel-contains mcs seen peer mc)

-- The nick is listed for the channel.
abbrev pub WasSeen : Dict ℕ (List Text) → Text → ℕ → Type 0
WasSeen seen nick mc =
    (nicks : List Text) × (lookup mc seen ≡ some nicks) × (contains nick nicks ≡ true)

abbrev pub NotSeen : Dict ℕ (List Text) → Text → ℕ → Type 0
NotSeen seen nick mc =
    (nicks : List Text) → lookup mc seen ≡ some nicks → contains nick nicks ≡ false

-- The first of the channels for which the nick is listed, or none if there is none.
abbrev pub IsFirst : List ℕ → Dict ℕ (List Text) → Text → Option ℕ → Type 0
IsFirst mcs seen nick none = All (NotSeen seen nick) mcs
IsFirst mcs seen nick (some c) =
    (before : List ℕ) × (after : List ℕ) × (mcs ≡ before ++ c ∷ after)
    × WasSeen seen nick c
    × All (NotSeen seen nick) before

has_seen-WasSeen :
    (seen : Dict ℕ (List Text)) (nick : Text) (mc : ℕ)
    → has_seen seen nick mc ≡ true
    → WasSeen seen nick mc
unfolding has_seen
has_seen-WasSeen seen nick mc h = elim (Option-cases (lookup mc seen)) [
  | inl e ↦ absurd (ground (arith, h, e))
  | inr (nicks, e) ↦ (nicks, e, ground (arith, h, e))
]

has_seen-NotSeen :
    (seen : Dict ℕ (List Text)) (nick : Text) (mc : ℕ)
    → has_seen seen nick mc ≡ false
    → NotSeen seen nick mc
unfolding has_seen
has_seen-NotSeen seen nick mc h nicks e = ground (arith, h, e)

IsFirst-behind :
    (seen : Dict ℕ (List Text)) (nick : Text) (mc : ℕ) (mcs : List ℕ) (o : Option ℕ)
    → NotSeen seen nick mc
    → IsFirst mcs seen nick o
    → IsFirst (mc ∷ mcs) seen nick o
IsFirst-behind seen nick mc mcs none n f = (n, f)
IsFirst-behind seen nick mc mcs (some c) n (before, after, e, w, a) =
    (mc ∷ before, after, ap (λ xs. mc ∷ xs) e, w, (n, a))

pub find_channel-IsFirst :
    (mcs : List ℕ) (seen : Dict ℕ (List Text)) (nick : Text)
    → IsFirst mcs seen nick (find_channel mcs seen nick)
unfolding find_channel
find_channel-IsFirst [] seen nick = tt
find_channel-IsFirst (mc ∷ mcs) seen nick = elim (Bool-cases (has_seen seen nick mc)) [
  | inl e ↦ rw e ([], mcs, refl, has_seen-WasSeen seen nick mc e, tt)
  | inr e ↦ rw e (
      IsFirst-behind seen nick mc mcs (find_channel mcs seen nick) (has_seen-NotSeen seen nick mc e)
        (find_channel-IsFirst mcs seen nick))
]
