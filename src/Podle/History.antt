-- ===== src/Podle/History.antt =====
-- The commitments that are given out over a history of requests and of commitments from elsewhere.
use joinmarket_clientserver.Maker.Verify.{Outpoint}
use mathlib.Core.Path.{subst}
use joinmarket_clientserver.Prelude.Text.{Text, text_eq}
use joinmarket_clientserver.Podle.Fresh.{
  IsIndexed, IsIndexedEntry, IsNew, HasDigests, generate_podle-IsNew,
}
use joinmarket_clientserver.Prelude.Dict.{Dict, insert, lookup-insert}
use joinmarket_clientserver.Podle.State.{Curve}
use joinmarket_clientserver.Podle.Commitments.{
  Commitments, External, Nonces, Sourced, add_external, add_external_commitments, generate_podle,
  sourced, unavailable, raised,
}
use joinmarket_clientserver.Prelude.{
  All, All-weaken, Bool-cases, Distinct, List, [], contains, false, inl, inr, refl, true, ℕ, ◌++◌,
  ◌==◌, ◌∷◌, ◌≡◌, ==_iff, ==_refl, Bool, arith, some, sym, ◌||◌, ◌∙◌, pair_eq, ℕ_eq,
}

pub data Event : Type 0 where
  requested : Nonces → ℕ → List Outpoint → List (ℕ × Outpoint) → Event
  added : Dict Outpoint External → Event

-- The commitment of a proof that was given out.
abbrev given : Sourced → List Text
given raised = []
given unavailable = []
given (sourced p) = p.commitment ∷ []

abbrev step : Curve → Event → Commitments → Commitments × Sourced
step c (requested nonces max_tries allow_external pairs) s =
    generate_podle c nonces max_tries allow_external pairs s
step c (added ecs) s = (add_external_commitments ecs s, unavailable)

-- The store after the events, and the commitments given out, in their order.
unfoldable pub run : Curve → List Event → Commitments → Commitments × List Text
run c [] s = (s, [])
run c (event ∷ events) s =
    let r = step c event s in let rest = run c events r.0 in (rest.0, given r.1 ++ rest.1)

abbrev pub HasIndices : Event → Type 0
HasIndices (requested nonces max_tries allow_external pairs) = Unit
HasIndices (added ecs) = All (λ entry. IsIndexedEntry entry.1) ecs

some_eq : {A : Type 0} {a b : A} → some a ≡ some b → a ≡ b
some_eq h = ground arith

insert-IsIndexed :
    (u : Outpoint) (entry : External) (external : Dict Outpoint External)
    → IsIndexedEntry entry
    → IsIndexed external
    → IsIndexed (insert u entry external)
insert-IsIndexed u entry external e w v ec h = elim (Bool-cases (u == v)) [
  | inl q ↦
      subst IsIndexedEntry
        (some_eq {a = entry} {b = ec} (sym (lookup-insert u v entry external ∙ (rw q refl)) ∙ h)) e
  | inr q ↦ w v ec (sym (lookup-insert u v entry external ∙ rw q refl) ∙ h)
]

add_external-IsIndexed :
    (ecs external : Dict Outpoint External)
    → All (λ entry. IsIndexedEntry entry.1) ecs
    → IsIndexed external
    → IsIndexed (add_external ecs external)
unfolding add_external
add_external-IsIndexed [] external a w = w
add_external-IsIndexed ((u, entry) ∷ ecs) external (e, a) w =
    add_external-IsIndexed ecs (insert u entry external) a (insert-IsIndexed u entry external e w)

-- Neither used before nor listed twice.
abbrev pub AreNew : Commitments → List Text → Type 0
AreNew s xs = Distinct xs × All (λ x. contains x s.used ≡ false) xs

used-contains :
    (k : Text) (used xs : List Text)
    → contains k used ≡ true
    → All (λ x. contains x used ≡ false) xs
    → contains k xs ≡ false
used-contains k used [] h a = refl
used-contains k used (x ∷ xs) h (a, b) = elim (Bool-cases (k == x)) [
  | inl q ↦ ground (arith, ==_iff k x)
  | inr q ↦ rw q (used-contains k used xs h b)
]

unused_before : (a b c : Bool) → a ≡ (b || c) → a ≡ false → c ≡ false
unused_before a b c h q = ground arith

given-AreNew :
    (s : Commitments) (r : Commitments × Sourced) (xs : List Text)
    → IsNew s r
    → AreNew r.0 xs
    → AreNew s (given r.1 ++ xs)
given-AreNew s (s', raised) xs h a = subst (λ t. AreNew t xs) h a
given-AreNew s (s', unavailable) xs h a = subst (λ t. AreNew t xs) h a
given-AreNew s (s', sourced p) xs (n, h, e) (d, a) = (
  (used-contains p.commitment s'.used xs (h p.commitment ∙ rw (==_refl p.commitment) refl) a, d),
  (
    n,
    All-weaken (λ x. contains x s'.used ≡ false) (λ x. contains x s.used ≡ false) xs
        (λ x q. unused_before _ _ _ (h x) q) a,
  ),
)

step-AreNew :
    (c : Curve) (event : Event) (s : Commitments) (xs : List Text)
    → HasDigests c
    → IsIndexed s.external
    → AreNew (step c event s).0 xs
    → AreNew s (given (step c event s).1 ++ xs)
unfolding add_external_commitments
step-AreNew c (requested nonces max_tries allow_external pairs) s xs d w a =
    given-AreNew s _ xs (generate_podle-IsNew c nonces max_tries allow_external pairs s d w) a
step-AreNew c (added ecs) s xs d w a = a

IsNew-IsIndexed :
    (s : Commitments) (r : Commitments × Sourced)
    → IsNew s r
    → IsIndexed s.external
    → IsIndexed r.0.external
IsNew-IsIndexed s (s', raised) h w = subst (λ t. IsIndexed t.external) (sym h) w
IsNew-IsIndexed s (s', unavailable) h w = subst (λ t. IsIndexed t.external) (sym h) w
IsNew-IsIndexed s (s', sourced p) (n, h, e) w = subst IsIndexed (sym e) w

step-IsIndexed :
    (c : Curve) (event : Event) (s : Commitments)
    → HasDigests c
    → HasIndices event
    → IsIndexed s.external
    → IsIndexed (step c event s).0.external
unfolding add_external_commitments
step-IsIndexed c (requested nonces max_tries allow_external pairs) s d i w =
    IsNew-IsIndexed s _ (generate_podle-IsNew c nonces max_tries allow_external pairs s d w) w
step-IsIndexed c (added ecs) s d i w = add_external-IsIndexed ecs s.external i w

-- Over any history of requests and of commitments from elsewhere, no commitment is given out twice, and
-- none that was used before, if the hash is never empty and the external entries count from 0.
pub run-AreNew :
    (c : Curve) (events : List Event) (s : Commitments)
    → HasDigests c
    → All HasIndices events
    → IsIndexed s.external
    → AreNew s (run c events s).1
unfolding run
run-AreNew c [] s d i w = (tt, tt)
run-AreNew c (event ∷ events) s d i w =
    step-AreNew c event s _ d w
      (run-AreNew c events (step c event s).0 d i.1 (step-IsIndexed c event s d i.0 w))
