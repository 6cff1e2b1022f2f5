-- ===== src/Refresh/Choice.antt =====
-- Which directory `select_next_refresh` picks: a due one that is connected, and the first of them.
use mathlib.Core.Path.{subst}
use joinmarket_clientserver.Refresh.State.{Peer, Table, coalesce}
use joinmarket_clientserver.Prelude.Dict.{contains-keys, keys, lookup}
use joinmarket_clientserver.Prelude.{
  ◌≡◌, true, arith, ◌||◌, All, Bool, Bool-cases, Distinct, In, List, Option, [], false,
  if◌then◌else◌, inl, inr, ltb, ltb_ℤ, none, refl, some, ℕ, ℤ, ◌&&◌, ◌==◌, ◌∙◌, ◌∷◌, ℤ_eq, ℕ_eq,
  All-append, All-weaken, contains, ==_iff, All-In, In-append_left, In-append_right, In-keep, keep,
  not, sym, pos, ◌<◌, ◌⊎◌,
}
use joinmarket_clientserver.Prelude.Text.{
  text_eq, text_leb_total, text_leb_trans, Text, is_empty, text_leb,
}
use joinmarket_clientserver.Refresh.Selection.{
  Candidate, comes_first, first_candidate, join_row, due_candidates, is_due, Liquidity,
  success_rank, request_rank, select_next_refresh,
}

comes_first_total : (a b : Candidate) → (comes_first a b || comes_first b a) ≡ true
comes_first_total a b = ground (arith, text_leb_total a.runtime.directory b.runtime.directory)

-- One level of an order by several columns is transitive if the levels behind it are.
level_trans :
    (x y z : ℤ) (p q r : Bool)
    → (p ≡ true → q ≡ true → r ≡ true)
    → (ltb_ℤ x y || (x == y && p)) ≡ true
    → (ltb_ℤ y z || (y == z && q)) ≡ true
    → (ltb_ℤ x z || (x == z && r)) ≡ true
level_trans x y z p q r h a b = ground arith

count_trans :
    (x y z : ℕ) (p q r : Bool)
    → (p ≡ true → q ≡ true → r ≡ true)
    → (ltb x y || (x == y && p)) ≡ true
    → (ltb y z || (y == z && q)) ≡ true
    → (ltb x z || (x == z && r)) ≡ true
count_trans x y z p q r h a b = ground arith

comes_first_trans :
    (a b c : Candidate) → comes_first a b ≡ true → comes_first b c ≡ true → comes_first a c ≡ true
comes_first_trans a b c =
    count_trans a.peer.consecutive_missing_count b.peer.consecutive_missing_count
      c.peer.consecutive_missing_count _ _ _
      (level_trans (success_rank a) (success_rank b) (success_rank c) _ _ _ (
        level_trans (request_rank a) (request_rank b) (request_rank c) _ _ _
          (text_leb_trans a.runtime.directory b.runtime.directory c.runtime.directory)))

-- The first candidate is one of the list, and comes before each of them.
Heads : Option Candidate → List Candidate → Type 0
Heads none cs = cs ≡ []
Heads (some c) cs = In c cs × All (λ d. comes_first c d ≡ true) cs

comes_first_refl : (c : Candidate) → comes_first c c ≡ true
comes_first_refl c = ground (arith, comes_first_total c c)

first_candidate-Heads : (cs : List Candidate) → Heads (first_candidate cs) cs
unfolding first_candidate Heads
first_candidate-Heads [] = refl
first_candidate-Heads (c ∷ cs) = go (first_candidate cs) (first_candidate-Heads cs)
  where
    go :
        (o : Option Candidate)
        → Heads o cs
        → Heads
            (elim o [ none ↦ some c | some d ↦ if comes_first c d then some c else some d ])
            (c ∷ cs)
    go none e = (inl refl, (comes_first_refl c, rw e tt))
    go (some d) h = elim (Bool-cases (comes_first c d)) [
      | inl e ↦ rw e (
        inl refl,
        (
          comes_first_refl c,
          All-weaken (λ x. comes_first d x ≡ true) _ cs (λ x. comes_first_trans c d x e) h.1,
        ),
      )
      | inr e ↦ rw e (inr h.0, (ground (arith, comes_first_total c d), h.1))
    ]

-- What the WHERE clause and the join promise of a candidate.
pub record IsCandidate (now : ℤ) (t : Table) (c : Candidate) : Type 0 where
  pub found : lookup c.runtime.directory t ≡ some c.peer
  pub due : is_due now c.peer ≡ true

-- An entry in front with another key hides nothing.
lookup-cons_ne :
    (d j : Text) (r : Peer) (t : Table) → (d == j) ≡ false → lookup j ((d, r) ∷ t) ≡ lookup j t
unfolding lookup
lookup-cons_ne d j r t h = rw h

join_row-IsCandidate :
    (now : ℤ) (t : Table) (d : Text) (r : Peer) (ls : List Liquidity)
    → is_due now r ≡ true
    → All (IsCandidate now ((d, r) ∷ t)) (join_row d r ls)
unfolding join_row lookup
join_row-IsCandidate now t d r [] h = tt
join_row-IsCandidate now t d r (l ∷ ls) h = ground (arith, join_row-IsCandidate now t d r ls h)

behind :
    (now : ℤ) (d : Text) (r : Peer) (t : Table)
    → contains d (keys t) ≡ false
    → (c : Candidate) → IsCandidate now t c
    → IsCandidate now ((d, r) ∷ t) c
behind now d r t h c i = record {
  found =
      lookup-cons_ne d c.runtime.directory r t (ground (arith, contains-keys d t, i.found))
      ∙ i.found;
  due = i.due;
}

due_candidates-IsCandidate :
    (now : ℤ) (t : Table) (ls : List Liquidity)
    → Distinct (keys t)
    → All (IsCandidate now t) (due_candidates now t ls)
unfolding due_candidates
due_candidates-IsCandidate now [] ls h = tt
due_candidates-IsCandidate now ((d, r) ∷ t) ls h =
    let older : All (IsCandidate now ((d, r) ∷ t)) (due_candidates now t ls) =
      All-weaken _ _ _ (behind now d r t h.0) (due_candidates-IsCandidate now t ls h.1) in
    elim (Bool-cases (is_due now r)) [
      | inl e ↦ rw e (All-append _ _ _ (join_row-IsCandidate now t d r ls e) older)
      | inr e ↦ rw e older
    ]

-- The directory that is picked has a row that wants a refresh and is past its cooldown.
pub select_next_refresh-IsCandidate :
    (ls : List Liquidity) (now : ℤ) (t : Table) (c : Candidate)
    → Distinct (keys t)
    → select_next_refresh ls now t ≡ some c
    → IsCandidate now t c
unfolding select_next_refresh
select_next_refresh-IsCandidate ls now t c h e =
    let cs : List Candidate = due_candidates now t (keep (λ l. not (is_empty l.directory)) ls) in
    let picked : Heads (some c) cs = subst (λ o. Heads o cs) e (first_candidate-Heads cs) in
    unfold Heads in All-In (IsCandidate now t) c cs (due_candidates-IsCandidate now t _ h) picked.0

join_row-In :
    (d : Text) (r : Peer) (l : Liquidity) (ls : List Liquidity)
    → l.directory ≡ d
    → In l ls
    → In (record { peer = r; runtime = l }) (join_row d r ls)
unfolding join_row
join_row-In d r l [] q m = absurd m
join_row-In d r l (k ∷ ls) q (inl e) = rw (← e, (==_iff l.directory d).1 q) (inl refl)
join_row-In d r l (k ∷ ls) q (inr m) = elim (Bool-cases (k.directory == d)) [
  | inl e ↦ rw e (inr (join_row-In d r l ls q m))
  | inr e ↦ rw e (join_row-In d r l ls q m)
]

due_candidates-In :
    (now : ℤ) (t : Table) (r : Peer) (l : Liquidity) (ls : List Liquidity)
    → lookup l.directory t ≡ some r
    → is_due now r ≡ true
    → In l ls
    → In (record { peer = r; runtime = l }) (due_candidates now t ls)
unfolding due_candidates lookup
due_candidates-In now [] r l ls found due m = cc
due_candidates-In now ((d, q) ∷ t) r l ls found due m = elim (Bool-cases (d == l.directory)) [
  | inl e ↦
      let same : (q ≡ r) = ground arith in
      rw (same, due)
        (In-append_left _ _ _ (join_row-In d r l ls (sym ((==_iff d l.directory).0 e)) m))
  | inr e ↦
      let rest = due_candidates-In now t r l ls (ground arith) due m in
      elim (Bool-cases (is_due now q)) [
        | inl f ↦ rw f (In-append_right _ _ _ rest)
        | inr f ↦ rw f rest
      ]
]

-- Fewest missing answers; then the longest time without a success, then without a request, where never
-- is 0; then the name.
abbrev pub IsBefore : Candidate → Candidate → Type 0
IsBefore a b =
    (a.peer.consecutive_missing_count < b.peer.consecutive_missing_count)
    ⊎ ((a.peer.consecutive_missing_count ≡ b.peer.consecutive_missing_count)
        × ((ltb_ℤ (coalesce a.peer.last_successful_refresh_at (pos 0))
                (coalesce b.peer.last_successful_refresh_at (pos 0))
              ≡ true)
            ⊎ ((coalesce a.peer.last_successful_refresh_at (pos 0)
                  ≡ coalesce b.peer.last_successful_refresh_at (pos 0))
                × ((ltb_ℤ (coalesce a.peer.last_request_at (pos 0))
                        (coalesce b.peer.last_request_at (pos 0))
                      ≡ true)
                    ⊎ ((coalesce a.peer.last_request_at (pos 0)
                          ≡ coalesce b.peer.last_request_at (pos 0))
                        × (text_leb a.runtime.directory b.runtime.directory ≡ true))))))

-- One level of the order.
level :
    (x y : ℤ) (p : Bool) (P : Type 0)
    → (p ≡ true → P)
    → (ltb_ℤ x y || (x == y && p)) ≡ true
    → (ltb_ℤ x y ≡ true) ⊎ ((x ≡ y) × P)
level x y p P f h = elim (Bool-cases (ltb_ℤ x y)) [
  | inl e ↦ inl e
  | inr e ↦ inr ((==_iff x y).0 (ground (arith, h)), f (ground (arith, h)))
]

comes_first-IsBefore : (a b : Candidate) → comes_first a b ≡ true → IsBefore a b
comes_first-IsBefore a b h =
    elim (Bool-cases (ltb a.peer.consecutive_missing_count b.peer.consecutive_missing_count)) [
      | inl e ↦ inl (ground arith)
      | inr e ↦ inr (
        ground (arith, h),
        level (success_rank a) (success_rank b) _ _
            (level (request_rank a) (request_rank b) _ _ (λ q. q)) (ground (arith, h)),
      )
    ]

-- If a connected directory wants a refresh and is past its cooldown, one is picked; its row is in the
-- table, wants a refresh and is past its cooldown; and no directory that can be picked comes before
-- it: by fewest missing answers, then the longest time without a success, then without a request, then
-- the name.
pub select_next_refresh-first :
    (ls : List Liquidity) (now : ℤ) (t : Table) (l : Liquidity) (r : Peer)
    → Distinct (keys t)
    → In l ls
    → is_empty l.directory ≡ false
    → lookup l.directory t ≡ some r
    → r.need_refresh ≡ true
    → ltb_ℤ r.cooldown_time now ≡ true
    → (c : Candidate) × (select_next_refresh ls now t ≡ some c)
      × (lookup c.runtime.directory t ≡ some c.peer)
      × (c.peer.need_refresh ≡ true)
      × (ltb_ℤ c.peer.cooldown_time now ≡ true)
      × IsBefore c (record { peer = r; runtime = l })
unfolding select_next_refresh
select_next_refresh-first ls now t l r n m nonempty found wants cool =
    go (first_candidate cs) refl (first_candidate-Heads cs)
  where
    cs : List Candidate
    cs = due_candidates now t (keep (λ k. not (is_empty k.directory)) ls)

    here : In (record { peer = r; runtime = l }) cs
    here =
        due_candidates-In now t r l _ found (rw (wants, cool) refl) (In-keep _ l ls (rw nonempty) m)

    due : (c : Candidate) → In c cs → IsCandidate now t c
    due c picked = All-In (IsCandidate now t) c cs (due_candidates-IsCandidate now t _ n) picked

    go :
        (o : Option Candidate)
        → first_candidate cs ≡ o
        → Heads o cs
        → (c : Candidate) × (first_candidate cs ≡ some c)
          × (lookup c.runtime.directory t ≡ some c.peer)
          × (c.peer.need_refresh ≡ true)
          × (ltb_ℤ c.peer.cooldown_time now ≡ true)
          × IsBefore c (record { peer = r; runtime = l })
    go none e h = absurd (unfold Heads in subst (In (record { peer = r; runtime = l })) h here)
    go (some c) e h =
        unfold Heads in
        (
          c,
          e,
          (due c h.0).found,
          ground (arith, (due c h.0).due),
          ground (arith, (due c h.0).due),
          comes_first-IsBefore c (record { peer = r; runtime = l })
              (All-In (λ d. comes_first c d ≡ true) _ cs h.1 here),
        )
