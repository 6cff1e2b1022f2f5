-- ===== src/Offers/Suitable.antt =====
-- What the choice of offers returns: suitable offers of as many makers as were asked for.
use mathlib.Core.Path.{subst}
use joinmarket_clientserver.Prelude.Sort.{sort, sort-All}
use joinmarket_clientserver.Offers.Fees.{calc_cj_fee}
use joinmarket_clientserver.Prelude.Text.{Text, text_eq}
use joinmarket_clientserver.Offers.Choose.{
  Limits, Priced, Quote, by_counterparty, considered, counterparty_of, filter_offers,
  is_within_max_limits, pick_orders, price,
}
use joinmarket_clientserver.Prelude.Dict.{All-insert, Dict, insert, values}
use joinmarket_clientserver.Prelude.{
  All, Bool, Bool-cases, Distinct, In, List, Option, Option-cases, [], arith, contains, false, inl,
  inr, keep, leb_ℤ, length, ltb, map, not, pos, refl, some, suc, true, zero, ℕ, ℤ, ◌-ℤ◌, ◌==◌, ◌∷◌,
  ◌≡◌, All-In, All-keep,
}

-- The algorithm that picks an offer picks one of those it is given.
abbrev pub PicksOne : (List Priced → ℕ → Option Priced) → Type 0
PicksOne choose = (ps : List Priced) (n : ℕ) (p : Priced) → choose ps n ≡ some p → In p ps

-- The offer suits the amount, its maker is not left out, its type is allowed, and its fee, less the
-- maker's contribution to the transaction fee, is within the limits.
pub record IsSuitable (limits : Limits) (cj_amount : ℕ) (ignored allowed_types : List Text)
    (o : Quote) : Type 0 where
  pub kept : contains o.counterparty ignored ≡ false
  pub above : ltb o.offer.minsize cj_amount ≡ true
  pub below : ltb cj_amount o.offer.maxsize ≡ true
  pub allowed : contains o.offer.ordertype allowed_types ≡ true
  pub fee : ℤ
  pub priced : calc_cj_fee o.offer.ordertype o.offer.cjfee cj_amount ≡ some fee
  pub limited : is_within_max_limits limits (fee -ℤ pos o.offer.txfee) ≡ true

-- What the filter leaves.
abbrev pub Fits : ℕ → List Text → List Text → Quote → Type 0
Fits cj_amount ignored allowed_types o =
    (contains o.counterparty ignored ≡ false)
    × (ltb o.offer.minsize cj_amount ≡ true)
    × (ltb cj_amount o.offer.maxsize ≡ true)
    × (contains o.offer.ordertype allowed_types ≡ true)

pub filter_offers-Fits :
    (ignored allowed_types : List Text) (cj_amount : ℕ) (offers : List Quote)
    → All
        (Fits cj_amount ignored allowed_types)
        (filter_offers ignored allowed_types cj_amount offers)
unfolding filter_offers
filter_offers-Fits ignored allowed_types cj_amount [] = tt
filter_offers-Fits ignored allowed_types cj_amount (o ∷ os) =
    ground (arith, filter_offers-Fits ignored allowed_types cj_amount os)

module _ (limits : Limits) (cj_amount : ℕ) (ignored allowed_types : List Text) where
  abbrev Suits : Quote → Type 0
  Suits o = IsSuitable limits cj_amount ignored allowed_types o

  abbrev PricedSuits : Priced → Type 0
  PricedSuits p = Suits p.quote

  pub price-Suits :
      (os : List Quote) (ps : List Priced)
      → All (Fits cj_amount ignored allowed_types) os
      → price limits cj_amount os ≡ some ps
      → All PricedSuits ps
  unfolding price
  price-Suits [] ps h e = subst (All PricedSuits) {x = []} (cc) tt
  price-Suits (o ∷ os) ps h e = elim (Option-cases (price limits cj_amount os)) [
    | inl q ↦ absurd (ground (arith, q))
    | inr (rest, q) ↦ elim (Option-cases (calc_cj_fee o.offer.ordertype o.offer.cjfee cj_amount)) [
      | inl r ↦ absurd (ground (arith, q, r))
      | inr (f, r) ↦ elim (Bool-cases (is_within_max_limits limits (f -ℤ pos o.offer.txfee))) [
        | inl w ↦
            subst (All PricedSuits) {x = record { quote = o; fee = f -ℤ pos o.offer.txfee } ∷ rest}
              (ground (arith, q, r, w))
              (
                record {
                  kept = h.0.0;
                  above = h.0.1;
                  below = h.0.2;
                  allowed = h.0.3;
                  fee = f;
                  priced = r;
                  limited = w;
                },
                price-Suits os rest h.1 q,
              )
        | inr w ↦
            subst (All PricedSuits) {x = rest} (ground (arith, q, r, w)) (price-Suits os rest h.1 q)
      ]
    ]
  ]

module _ (P : Priced → Type 0) where
  by_counterparty-All :
      (d : Dict Text Priced) (ps : List Priced)
      → All P (values d)
      → All P ps
      → All P (values (by_counterparty d ps))
  unfolding by_counterparty
  by_counterparty-All d [] h k = h
  by_counterparty-All d (p ∷ ps) h k =
      by_counterparty-All (insert (counterparty_of p) p d) ps
        (All-insert P (counterparty_of p) p d k.0 h) k.1

  pub considered-All : (pick : Bool) (ps : List Priced) → All P ps → All P (considered pick ps)
  unfolding considered
  considered-All true ps h = sort-All (λ p q. leb_ℤ p.fee q.fee) P ps h
  considered-All false ps h =
      sort-All (λ p q. leb_ℤ p.fee q.fee) P
        (values (by_counterparty [] (sort (λ p q. leb_ℤ q.fee p.fee) ps)))
        (by_counterparty-All [] (sort (λ p q. leb_ℤ q.fee p.fee) ps) tt
          (sort-All (λ p q. leb_ℤ q.fee p.fee) P ps h))

-- What was picked: offers of the list, as many as asked for, of different makers.
module _ (choose : List Priced → ℕ → Option Priced) (picks : PicksOne choose) (n : ℕ) where
  abbrev Picked : (Priced → Type 0) → ℕ → List Priced → Type 0
  Picked P i ps = All P ps × (length ps ≡ i) × Distinct (map counterparty_of ps)

  -- no offer of the list is the counterparty's
  abbrev Absent : Text → Priced → Type 0
  Absent c p = (counterparty_of p == c) ≡ false

  keep-Absent :
      (c : Text) (ps : List Priced) → All (Absent c) (keep (λ o. not (counterparty_of o == c)) ps)
  keep-Absent c [] = tt
  keep-Absent c (p ∷ ps) = ground (arith, keep-Absent c ps)

  Absent-contains :
      (c : Text) (ps : List Priced)
      → All (Absent c) ps
      → contains c (map counterparty_of ps) ≡ false
  Absent-contains c [] h = refl
  Absent-contains c (p ∷ ps) h = ground (arith, Absent-contains c ps h.1)

  pub pick_orders-Picked :
      (P : Priced → Type 0) (i : ℕ) (os ps : List Priced) (total : ℤ)
      → All P os
      → pick_orders choose n i os ≡ some (ps, total)
      → Picked P i ps
  unfolding pick_orders
  pick_orders-Picked P zero os ps total h e = subst (Picked P 0) {x = []} (cc) (tt, refl, tt)
  pick_orders-Picked P (suc i) os ps total h e = elim (Option-cases (choose os n)) [
    | inl q ↦ absurd (ground (arith, q))
    | inr (p, q) ↦
        (let others : List Priced = keep (λ o. not (counterparty_of o == counterparty_of p)) os in
          elim (Option-cases (pick_orders choose n i others)) [
            | inl r ↦ absurd (ground (arith, q, r))
            | inr ((qs, t), r) ↦
                (let rest : Picked P i qs =
                    pick_orders-Picked P i others qs t
                      (All-keep P (λ o. not (counterparty_of o == counterparty_of p)) os h) r in
                  let fresh : Picked (Absent (counterparty_of p)) i qs =
                    pick_orders-Picked (Absent (counterparty_of p)) i others qs t
                      (keep-Absent (counterparty_of p) os) r in
                  let here : P p = All-In P p os h (picks os n p q) in
                  subst (Picked P (suc i)) {x = p ∷ qs} (ground (arith, q, r)) (
                    (here, rest.0),
                    omega (arith, rest.1),
                    (Absent-contains (counterparty_of p) qs fresh.0, rest.2),
                  ))
          ])
  ]
