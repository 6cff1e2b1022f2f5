-- ===== src/Offers/Outcome.antt =====
-- The outcome of `choose_orders`: the offers suit, their makers are as many as asked for, and
-- excluded makers are never among them.
use joinmarket_clientserver.Offers.Exclusions.{
  Label, Exclusions, Omits, hard_makers, exclusion_passes, exclusion_passes-Omits,
}
use joinmarket_clientserver.Prelude.Text.{Text, text_eq}
use joinmarket_clientserver.Offers.Suitable.{
  IsSuitable, PicksOne, considered-All, filter_offers-Fits, pick_orders-Picked, price-Suits,
}
use joinmarket_clientserver.Offers.Choose.{
  Choice, Limits, Priced, choose_orders_once, chosen, considered, counterparty_of, filter_offers,
  pick_orders, price, raised, result_of, unavailable, Quote, choose_in, choose_orders,
}
use joinmarket_clientserver.Prelude.Dict.{
  All-insert, Dict, contains-keys-insert, insert, keys, values,
}
use joinmarket_clientserver.Prelude.{
  All, Bool, Bool-cases, Distinct, List, Option, [], arith, contains, dedup, false, if◌then◌else◌,
  inl, inr, length, ltb, map, none, refl, some, suc, ℕ, ℤ, ◌+◌, ◌∷◌, ◌≡◌, All-weaken, true,
}

result_of-All :
    (P : Quote → Type 0) (d : Dict Text Quote) (ps : List Priced)
    → All P (values d)
    → All (λ p. P p.quote) ps
    → All P (values (result_of d ps))
unfolding result_of
result_of-All P d [] h k = h
result_of-All P d (p ∷ ps) h k =
    result_of-All P (insert (counterparty_of p) p.quote d) ps
      (All-insert P (counterparty_of p) p.quote d k.0 h) k.1

-- each maker of the list is new to the dict
abbrev New : Dict Text Quote → List Priced → Type 0
New d ps = All (λ p. contains (counterparty_of p) (keys d) ≡ false) ps

New-insert :
    (c : Text) (q : Quote) (d : Dict Text Quote) (ps : List Priced)
    → contains c (map counterparty_of ps) ≡ false
    → New d ps
    → New (insert c q d) ps
New-insert c q d [] h k = tt
New-insert c q d (p ∷ ps) h k = (
  ground (arith, contains-keys-insert c (counterparty_of p) q d),
  New-insert c q d ps (ground arith) k.1,
)

length-insert_new :
    (c : Text) (q : Quote) (d : Dict Text Quote)
    → contains c (keys d) ≡ false
    → length (insert c q d) ≡ suc (length d)
unfolding insert
length-insert_new c q [] h = refl
length-insert_new c q ((k, v) ∷ d) h = ground (arith, length-insert_new c q d)

length-result_of :
    (d : Dict Text Quote) (ps : List Priced)
    → New d ps
    → Distinct (map counterparty_of ps)
    → length (result_of d ps) ≡ length d + length ps
unfolding result_of
length-result_of d [] h k = omega arith
length-result_of d (p ∷ ps) h k =
    let next : Dict Text Quote = insert (counterparty_of p) p.quote d in
    omega (
      arith,
      length-result_of next ps (New-insert (counterparty_of p) p.quote d ps k.0 h.1) k.1,
      length-insert_new (counterparty_of p) p.quote d h.0,
    )

New-empty : (ps : List Priced) → New [] ps
New-empty [] = tt
New-empty (p ∷ ps) = (refl, New-empty ps)

-- What a choice promises of the offers it returns.
abbrev pub IsChoice : (Quote → Type 0) → ℕ → Choice → Type 0
IsChoice P n (chosen result total) = All P (values result) × (length result ≡ n)
IsChoice P n _ = Unit

module _ (choose : List Priced → ℕ → Option Priced) (picks : PicksOne choose) (limits : Limits)
    (offers : List Quote) (cj_amount n : ℕ) (pick : Bool) (allowed_types : List Text) where
  choose_orders_once-IsChoice :
      (ignored : List Text)
      → IsChoice
          (IsSuitable limits cj_amount ignored allowed_types)
          n
          (choose_orders_once choose limits offers cj_amount n ignored pick allowed_types)
  unfolding choose_orders_once
  choose_orders_once-IsChoice ignored =
      priced (price limits cj_amount (filter_offers ignored allowed_types cj_amount offers))
        (λ ps e.
          price-Suits limits cj_amount ignored allowed_types
            (filter_offers ignored allowed_types cj_amount offers) ps
            (filter_offers-Fits ignored allowed_types cj_amount offers) e)
    where
      P : Quote → Type 0
      P q = IsSuitable limits cj_amount ignored allowed_types q

      picked :
          (o : Option (List Priced × ℤ))
          → ((ps : List Priced) (total : ℤ)
              → o ≡ some (ps, total)
              → All (λ p. P p.quote) ps × (length ps ≡ n) × Distinct (map counterparty_of ps))
          → IsChoice P n
              (elim o [ none ↦ raised | some (ps, total) ↦ chosen (result_of [] ps) total ])
      picked none f = tt
      picked (some (ps, total)) f =
          let found = f ps total refl in
          (
            result_of-All P [] ps tt found.0,
            omega (arith, length-result_of [] ps (New-empty ps) found.2, found.1),
          )

      priced :
          (o : Option (List Priced))
          → ((ps : List Priced) → o ≡ some ps → All (λ p. P p.quote) ps)
          → IsChoice P n (elim o [
            | none ↦ raised
            | some orders_fees ↦
                if ltb (length (dedup (map counterparty_of orders_fees))) n
                then unavailable
                else elim (pick_orders choose n n (considered pick orders_fees)) [
                  | none ↦ raised
                  | some (ps, total) ↦ chosen (result_of [] ps) total
                ]
          ])
      priced none f = tt
      priced (some os) f = elim (Bool-cases (ltb (length (dedup (map counterparty_of os))) n)) [
        | inl e ↦ rw e tt
        | inr e ↦ rw e (
            picked (pick_orders choose n n (considered pick os)) (λ ps total q.
              pick_orders-Picked choose picks n (λ p. P p.quote) n (considered pick os) ps total
                (considered-All (λ p. P p.quote) pick os (f os refl)) q))
      ]

  -- Suitable offers of makers that a pass leaves in are offers of makers that are not excluded hard.
  IsSuitable-weaken :
      (hard excluded : List Text)
      → ((m : Text) → contains m hard ≡ true → contains m excluded ≡ true)
      → (q : Quote) → IsSuitable limits cj_amount excluded allowed_types q
      → IsSuitable limits cj_amount hard allowed_types q
  IsSuitable-weaken hard excluded f q s = record {
    kept = ground (arith, f q.counterparty, s.kept);
    above = s.above;
    below = s.below;
    allowed = s.allowed;
    fee = s.fee;
    priced = s.priced;
    limited = s.limited;
  }

  choose_in-IsChoice :
      (hard : List Text) (ps : List (Label × List Text))
      → ((m : Text) → contains m hard ≡ true → All (Omits m) ps)
      → IsChoice (IsSuitable limits cj_amount hard allowed_types) n (
          choose_in
            (λ excluded.
              choose_orders_once choose limits offers cj_amount n excluded pick allowed_types)
            ps)
  unfolding choose_in
  choose_in-IsChoice hard [] f = tt
  choose_in-IsChoice hard ((label, excluded) ∷ ps) f =
      go (choose_orders_once choose limits offers cj_amount n excluded pick allowed_types)
        (choose_orders_once-IsChoice excluded) (choose_in-IsChoice hard ps (λ m h. (f m h).1))
    where
      once : List Text → Choice
      once other = choose_orders_once choose limits offers cj_amount n other pick allowed_types

      go :
          (c : Choice)
          → IsChoice (IsSuitable limits cj_amount excluded allowed_types) n c
          → IsChoice (IsSuitable limits cj_amount hard allowed_types) n (choose_in once ps)
          → IsChoice (IsSuitable limits cj_amount hard allowed_types) n (elim c [
            | raised ↦ raised
            | unavailable ↦ choose_in once ps
            | chosen result total ↦ chosen result total
          ])
      go raised h rest = tt
      go unavailable h rest = rest
      go (chosen result total) h rest = (
        All-weaken (IsSuitable limits cj_amount excluded allowed_types)
            (IsSuitable limits cj_amount hard allowed_types) (values result)
            (IsSuitable-weaken hard excluded (λ m k. (f m k).0)) h.0,
        h.1,
      )

  -- With an algorithm that picks one of the offers it is given, `choose_orders` returns, if it
  -- returns offers at all, offers of exactly `n` makers, each of which suits the amount and the limits
  -- and is of a maker that is neither ignored nor excluded hard, whatever exclusions were relaxed.
  pub choose_orders-IsChoice :
      (exclusions : Exclusions)
      → IsChoice
          (IsSuitable limits cj_amount (hard_makers exclusions) allowed_types)
          n
          (choose_orders choose limits offers cj_amount n exclusions pick allowed_types)
  unfolding choose_orders
  choose_orders-IsChoice exclusions =
      choose_in-IsChoice (hard_makers exclusions) (exclusion_passes exclusions)
        (exclusion_passes-Omits exclusions)
