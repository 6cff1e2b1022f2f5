-- ===== src/Channels/Leave.antt =====
-- Nicks that leave a channel: `on_nick_leave_trigger`; and the invariant of the collection.
use mathlib.Core.Path.{subst}
use joinmarket_clientserver.Channels.Presence.{call, on_nick_leave_trigger, unsee_nick, switched}
use joinmarket_clientserver.Prelude.Text.{Text, text_eq}
use joinmarket_clientserver.Prelude.{
  List, [], arith, contains, keep, none, not, some, true, ℕ, ◌==◌, ◌∷◌, ◌≡◌, ◌≢◌, ℕ_eq, ==_refl,
  Option, refl, ◌∙◌, ==_iff, Bool-cases, ap, false, if◌then◌else◌, inl, inr, sym, ◌⊎◌,
}
use joinmarket_clientserver.Channels.Flush.{IsValid, IsFirst, find_channel-IsFirst}
use joinmarket_clientserver.Prelude.Dict.{
  Dict, lookup, lookup-erase, lookup-insert, erase, lookup-insert_self, holds, lookup-update,
  update,
}
use joinmarket_clientserver.Channels.State.{
  Callbacks, available_channels, find_channel, on_nick_leave, Collection, Effect, has_seen,
}

-- What is seen on the other channels does not change with `mc`.
has_seen-other :
    (mc c : ℕ) (f : List Text → List Text) (seen : Dict ℕ (List Text)) (nick : Text)
    → (c == mc) ≡ false
    → has_seen (update mc f seen) nick c ≡ has_seen seen nick c
unfolding has_seen
has_seen-other mc c f seen nick h =
    ap (holds (contains nick)) (lookup-update mc c f seen ∙ rw (apart mc c h) refl)
  where
    apart : (a b : ℕ) → (b == a) ≡ false → (a == b) ≡ false
    apart a b e = ground (arith, e)

find_channel-other :
    (mc : ℕ) (mcs : List ℕ) (f : List Text → List Text) (seen : Dict ℕ (List Text)) (nick : Text)
    → find_channel (keep (λ oc. not (oc == mc)) mcs) (update mc f seen) nick
      ≡ find_channel (keep (λ oc. not (oc == mc)) mcs) seen nick
unfolding find_channel
find_channel-other mc [] f seen nick = refl
find_channel-other mc (c ∷ mcs) f seen nick = elim (Bool-cases (c == mc)) [
  | inl e ↦ rw e (find_channel-other mc mcs f seen nick)
  | inr e ↦
      rw (e, find_channel, has_seen-other mc c f seen nick e, find_channel-other mc mcs f seen nick)
        refl
]

-- The available channels but `mc`.
abbrev pub others : ℕ → Collection → List ℕ
others mc s = keep (λ oc. not (oc == mc)) (available_channels s)

abbrev told : Text → Option ℕ → List Effect
told nick none = on_nick_leave nick none ∷ []
told nick (some c) = []

-- What follows when a nick leaves `mc`, by where it was talked to before: if nowhere, the owner is told;
-- if on another channel, it stays there; if on `mc`, it is talked to from then on on the first other
-- available channel for which it is listed, or nowhere, and then the owner is told.
abbrev pub IsTold : Text → ℕ → Collection → Option ℕ → Collection × List Effect → Type 0
IsTold nick mc s none (t, effects) =
    (lookup nick t.active_channels ≡ none) × (effects ≡ on_nick_leave nick none ∷ [])
IsTold nick mc s (some on) (t, effects) =
    ((on ≢ mc) × (lookup nick t.active_channels ≡ some on) × (effects ≡ []))
    ⊎ ((on ≡ mc)
        × IsFirst (others mc s) s.nicks_seen nick (lookup nick t.active_channels)
        × (effects ≡ told nick (lookup nick t.active_channels)))

switched-IsTold :
    (cb : Callbacks) (nick : Text) (left : Dict Text ℕ) (o : Option ℕ) (mc on : ℕ)
    (s unseen : Collection)
    → on ≡ mc
    → cb.has_nick_leave ≡ true
    → lookup nick left ≡ none
    → IsFirst (others mc s) s.nicks_seen nick o
    → IsTold nick mc s (some on) (switched cb nick left o unseen)
unfolding switched
switched-IsTold cb nick left none mc on s unseen q has gone first =
    inr (q, subst (IsFirst (others mc s) s.nicks_seen nick) (sym gone) first, rw (gone, has) refl)
switched-IsTold cb nick left (some oc) mc on s unseen q has gone first =
    let there = lookup-insert_self nick oc left in
    inr (
      q,
      subst (IsFirst (others mc s) s.nicks_seen nick) (sym there) first,
      ap (told nick) (sym there),
    )

-- When a nick leaves a channel of a valid collection and the owner has asked to be told: a nick that
-- was talked to nowhere is reported as gone; one that is talked to on another channel stays there; one
-- that was talked to on that channel moves to the first other available channel for which it is listed
-- as seen, and is reported as gone exactly if there is none.
pub on_nick_leave_trigger-IsTold :
    (cb : Callbacks) (nick : Text) (mc : ℕ) (s : Collection)
    → IsValid s
    → cb.has_nick_leave ≡ true
    → IsTold nick mc s (lookup nick s.active_channels) (on_nick_leave_trigger cb nick mc none s)
unfolding on_nick_leave_trigger unsee_nick available_channels
on_nick_leave_trigger-IsTold cb nick mc s v has = go (lookup nick s.active_channels) refl
  where
    unseen : Collection
    unseen = unsee_nick nick mc s

    first :
        IsFirst (others mc s) s.nicks_seen nick (find_channel (others mc s) unseen.nicks_seen nick)
    first =
        subst (IsFirst (others mc s) s.nicks_seen nick)
          (sym (
            find_channel-other mc (available_channels s) (keep (λ other. not (other == nick)))
              s.nicks_seen nick))
          (find_channel-IsFirst (others mc s) s.nicks_seen nick)

    go :
        (o : Option ℕ)
        → lookup nick s.active_channels ≡ o
        → IsTold nick mc s o (elim o [
          | none ↦ (unseen, call cb.has_nick_leave (on_nick_leave nick none))
          | some on ↦
              if on == mc
              then switched cb nick
                  (erase nick s.active_channels)
                  (find_channel (others mc s) unseen.nicks_seen nick)
                  unseen
              else (unseen, [])
        ])
    go none e = (e, rw has refl)
    go (some on) e = elim (Bool-cases (on == mc)) [
      | inl q ↦ rw q (
          switched-IsTold cb nick (erase nick s.active_channels)
            (find_channel (others mc s) unseen.nicks_seen nick) mc on s unseen ((==_iff on mc).0 q)
            has (lookup-erase nick nick s.active_channels v.distinct ∙ rw (==_refl nick) refl)
            first)
      | inr q ↦ rw q (inl ((λ r. absurd (ground (arith, q, (==_iff on mc).1 r))), e, refl))
    ]

lookup-switched :
    (cb : Callbacks) (nick other : Text) (left : Dict Text ℕ) (o : Option ℕ) (s : Collection)
    → nick ≢ other
    → lookup other (switched cb nick left o s).0.active_channels ≡ lookup other left
unfolding switched
lookup-switched cb nick other left none s ne = refl
lookup-switched cb nick other left (some oc) s ne = ground (arith, lookup-insert nick other oc left)

-- The other peers stay where they are when a nick leaves a channel of a valid collection.
pub on_nick_leave_trigger-others :
    (cb : Callbacks) (nick other : Text) (mc : ℕ) (s : Collection)
    → IsValid s
    → nick ≢ other
    → lookup other (on_nick_leave_trigger cb nick mc none s).0.active_channels
      ≡ lookup other s.active_channels
unfolding on_nick_leave_trigger unsee_nick
on_nick_leave_trigger-others cb nick other mc s v ne =
    let unseen : Collection = unsee_nick nick mc s in
    let others : List ℕ = keep (λ oc. not (oc == mc)) (available_channels unseen) in
    ground (
      arith,
      lookup-erase nick other s.active_channels v.distinct,
      lookup-switched cb nick other (erase nick s.active_channels)
          (find_channel others unseen.nicks_seen nick) unseen ne,
    )
