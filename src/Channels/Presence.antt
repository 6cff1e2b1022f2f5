-- ===== src/Channels/Presence.antt =====
-- Where nicks are present: `see_nick`, `unsee_nick`, `flush_nicks`, `on_nick_leave_trigger` and the
-- triggers of offers and bonds. The channels that call these are in the collection, so
-- `nicks_seen` has an entry for each.
use joinmarket_clientserver.Prelude.Text.{Text, text_eq}
use joinmarket_clientserver.Prelude.Dict.{Dict, erase, insert, lookup, update}
use joinmarket_clientserver.Channels.State.{
  Callbacks, Collection, Effect, available_channels, find_channel, on_fidelity_bond_seen,
  on_nick_leave, on_order_cancel, on_order_seen, on_orderbook_requested, unavailable_channels,
}
use joinmarket_clientserver.Prelude.{
  Bool, List, Option, [], contains, if◌then◌else◌, keep, none, not, some, ℕ, ◌==◌, ◌∷◌, ℕ_eq,
}

-- `set.add`
abbrev pub add_nick : Text → List Text → List Text
add_nick nick nicks = if contains nick nicks then nicks else nick ∷ nicks

unfoldable pub see_nick : Text → ℕ → Collection → Collection
see_nick nick mc s = record s { nicks_seen = update mc (add_nick nick) s.nicks_seen }

unfoldable pub unsee_nick : Text → ℕ → Collection → Collection
unsee_nick nick mc s = record s {
  nicks_seen = update mc (keep (λ other. not (other == nick))) s.nicks_seen;
}

-- The peers whose active channel is `mc`.
unfoldable pub peers_on : ℕ → Dict Text ℕ → List Text
peers_on mc [] = []
peers_on mc ((peer, on) ∷ ac) = if on == mc then peer ∷ peers_on mc ac else peers_on mc ac

-- The peer moves to the channel that was found, if any.
unfoldable pub move_to : Text → Option ℕ → Dict Text ℕ → Dict Text ℕ
move_to peer none ac = ac
move_to peer (some mc2) ac = insert peer mc2 ac

-- Each peer moves to the first available channel that has seen it.
unfoldable pub reroute : List ℕ → Dict ℕ (List Text) → List Text → Dict Text ℕ → Dict Text ℕ
unfolding find_channel move_to
reroute available seen [] ac = ac
reroute available seen (peer ∷ peers) ac =
    reroute available seen peers (move_to peer (find_channel available seen peer) ac)

-- `dict([(a, ac[a]) for a in ac if ac[a] != mc])`
unfoldable pub without : ℕ → Dict Text ℕ → Dict Text ℕ
without mc [] = []
without mc ((peer, on) ∷ ac) = if on == mc then without mc ac else (peer, on) ∷ without mc ac

-- What `flush_nicks` does for one unavailable channel.
unfoldable pub flush_channel : ℕ → Collection → Collection
unfolding available_channels peers_on reroute without
flush_channel mc s =
    let seen = insert mc [] s.nicks_seen in
    record s {
      nicks_seen = seen;
      active_channels =
          without mc
            (reroute (available_channels s) seen (peers_on mc s.active_channels) s.active_channels);
    }

unfoldable pub flush_channels : List ℕ → Collection → Collection
unfolding flush_channel
flush_channels [] s = s
flush_channels (mc ∷ mcs) s = flush_channels mcs (flush_channel mc s)

unfoldable pub flush_nicks : Collection → Collection
unfolding flush_channels unavailable_channels
flush_nicks s = flush_channels (unavailable_channels s) s

abbrev pub call : Bool → Effect → List Effect
call registered effect = if registered then effect ∷ [] else []

-- The nick was found on another channel, or else has left.
unfoldable pub switched :
    Callbacks → Text → Dict Text ℕ → Option ℕ → Collection → Collection × List Effect
switched cb nick left none s =
    (record s { active_channels = left }, call cb.has_nick_leave (on_nick_leave nick none))
switched cb nick left (some oc) s = (record s { active_channels = insert nick oc left }, [])

unfoldable pub on_nick_leave_trigger :
    Callbacks → Text → ℕ → Option Text → Collection → Collection × List Effect
unfolding unsee_nick find_channel available_channels switched
on_nick_leave_trigger cb nick mc (some directory) s =
    (s, call cb.has_nick_leave (on_nick_leave nick (some directory)))
on_nick_leave_trigger cb nick mc none s =
    let unseen = unsee_nick nick mc s in
    elim (lookup nick unseen.active_channels) [
      | none ↦ (unseen, call cb.has_nick_leave (on_nick_leave nick none))
      | some on ↦
          if on == mc
          then switched cb nick (erase nick unseen.active_channels)
              (find_channel (keep (λ oc. not (oc == mc)) (available_channels unseen))
                unseen.nicks_seen nick)
              unseen
          else (unseen, [])
    ]

unfoldable pub on_order_seen_trigger :
    Callbacks → ℕ → Text → List Text → Option Text → Collection → Collection × List Effect
on_order_seen_trigger cb mc counterparty order directory s = (
  record s {
    nicks_seen = update mc (add_nick counterparty) s.nicks_seen;
    active_channels = insert counterparty mc s.active_channels;
  },
  call cb.has_order_seen (on_order_seen counterparty order directory),
)

unfoldable pub on_fidelity_bond_seen_trigger :
    Callbacks → ℕ → Text → Text → Text → Option Text → Collection → Collection × List Effect
on_fidelity_bond_seen_trigger cb mc nick bond_type proof directory s = (
  record s {
    nicks_seen = update mc (add_nick nick) s.nicks_seen;
    active_channels = insert nick mc s.active_channels;
  },
  call cb.has_fidelity_bond_seen (on_fidelity_bond_seen nick bond_type proof directory),
)

unfoldable pub on_order_cancel_trigger :
    Callbacks → Text → Text → Option Text → Collection → Collection × List Effect
on_order_cancel_trigger cb counterparty oid directory s =
    (s, call cb.has_order_cancel (on_order_cancel counterparty oid directory))

unfoldable pub on_orderbook_requested_trigger :
    Callbacks → Text → ℕ → Collection → Collection × List Effect
unfolding see_nick
on_orderbook_requested_trigger cb nick mc s =
    (see_nick nick mc s, call cb.has_orderbook_requested (on_orderbook_requested nick mc))

unfoldable pub on_privmsg : Text → ℕ → Collection → Collection
unfolding available_channels see_nick
on_privmsg nick mchan s = if contains mchan (available_channels s) then see_nick nick mchan s else s
