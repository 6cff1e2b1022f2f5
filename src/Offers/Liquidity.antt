-- ===== src/Offers/Liquidity.antt =====
-- Offers are found exactly when enough makers have suitable ones: `_choose_orders_once`.
use joinmarket_clientserver.Prelude.Sort.{insert_sorted, sort}
use joinmarket_clientserver.Prelude.Text.{Text, text_eq}
use joinmarket_clientserver.Offers.Choose.{
  Limits, Quote, by_counterparty, choose_orders_once, chosen, considered, counterparty_of,
  filter_offers, pick_orders, price, result_of, unavailable, Priced,
}
use joinmarket_clientserver.Prelude.Dict.{Dict, contains-keys-insert, insert, keys, values}
use joinmarket_clientserver.Prelude.{
  ==_refl, Bool, Distinct, List, Option, Option-cases, [], arith, contains, contains-dedup,
  contains-keep, dedup, dedup-Distinct, false, inl, inr, keep, leb_ℤ, length, map, none, not, pos,
  refl, some, suc, true, zero, ℕ, ℤ, ◌&&◌, ◌+ℤ◌, ◌<◌, ◌==◌, ◌||◌, ◌∷◌, ◌≡◌, ◌≢◌, ◌≤◌,
}

-- Distinct elements that are all in a list are no more than that list is long.
remove-length :
    (x : Text) (ys : List Text)
    → contains x ys ≡ true
    → suc (length (keep (λ y. not (y == x)) ys)) ≤ length ys
remove-length x [] h = absurd (cc)
remove-length x (y ∷ ys) h = ground (arith, remove-length x ys, keep_all x ys)
  where
    keep_all : (a : Text) (zs : List Text) → length (keep (λ z. not (z == a)) zs) ≤ length zs
    keep_all a [] = omega arith
    keep_all a (z ∷ zs) = ground (arith, keep_all a zs)

pigeonhole :
    (xs ys : List Text)
    → Distinct xs
    → ((a : Text) → contains a xs ≡ true → contains a ys ≡ true)
    → length xs ≤ length ys
pigeonhole [] ys d f = omega arith
pigeonhole (x ∷ xs) ys d f =
    let rest : (length xs ≤ length (keep (λ y. not (y == x)) ys)) =
      pigeonhole xs (keep (λ y. not (y == x)) ys) d.1
        (λ a h. ground (arith, contains-keep (λ y. not (y == x)) a ys, f a, d.0)) in
    omega (arith, rest, remove-length x ys (f x (ground (arith, ==_refl x))))

-- The makers of the offers, each once.
abbrev pub makers : List Priced → List Text
makers ps = dedup (map counterparty_of ps)

contains-makers :
    (a : Text) (ps : List Priced) → contains a (makers ps) ≡ contains a (map counterparty_of ps)
contains-makers a ps = contains-dedup a (map counterparty_of ps)

contains-keep_others :
    (a c : Text) (ps : List Priced)
    → contains a (map counterparty_of (keep (λ o. not (counterparty_of o == c)) ps))
      ≡ (not (a == c) && contains a (map counterparty_of ps))
contains-keep_others a c [] = ground arith
contains-keep_others a c (p ∷ ps) = ground (arith, contains-keep_others a c ps)

-- Without one maker's offers at most one maker is lost.
makers-keep :
    (c : Text) (ps : List Priced)
    → length (makers ps) ≤ suc (length (makers (keep (λ o. not (counterparty_of o == c)) ps)))
makers-keep c ps =
    let others : List Priced = keep (λ o. not (counterparty_of o == c)) ps in
    pigeonhole (makers ps) (c ∷ makers others) (dedup-Distinct (map counterparty_of ps)) (λ a h.
      ground (arith, contains-makers a ps, contains-makers a others, contains-keep_others a c ps))

contains-insert_sorted :
    (before : Priced → Priced → Bool) (a : Text) (p : Priced) (ps : List Priced)
    → contains a (map counterparty_of (insert_sorted before p ps))
      ≡ contains a (map counterparty_of (p ∷ ps))
unfolding insert_sorted
contains-insert_sorted before a p [] = refl
contains-insert_sorted before a p (q ∷ ps) = ground (arith, contains-insert_sorted before a p ps)

contains-sort_makers :
    (before : Priced → Priced → Bool) (a : Text) (ps : List Priced)
    → contains a (map counterparty_of (sort before ps)) ≡ contains a (map counterparty_of ps)
unfolding sort
contains-sort_makers before a [] = refl
contains-sort_makers before a (p ∷ ps) =
    ground
      (arith, contains-insert_sorted before a p (sort before ps), contains-sort_makers before a ps)

-- Each value stands under its own maker.
abbrev Keyed : Dict Text Priced → Type 0
Keyed d = map counterparty_of (values d) ≡ keys d

Keyed-insert :
    (p : Priced) (d : Dict Text Priced) → Keyed d → Keyed (insert (counterparty_of p) p d)
unfolding insert
Keyed-insert p [] h = refl
Keyed-insert p ((k, v) ∷ d) h = ground (arith, Keyed-insert p d)

contains-by_counterparty :
    (a : Text) (d : Dict Text Priced) (ps : List Priced)
    → Keyed d
    → contains a (map counterparty_of (values (by_counterparty d ps)))
      ≡ (contains a (keys d) || contains a (map counterparty_of ps))
unfolding by_counterparty
contains-by_counterparty a d [] h = ground arith
contains-by_counterparty a d (p ∷ ps) h = ground (
  arith,
  contains-by_counterparty a (insert (counterparty_of p) p d) ps (Keyed-insert p d h),
  contains-keys-insert (counterparty_of p) a p d,
)

contains-considered :
    (pick : Bool) (a : Text) (ps : List Priced)
    → contains a (map counterparty_of (considered pick ps)) ≡ contains a (map counterparty_of ps)
unfolding considered
contains-considered true a ps = contains-sort_makers (λ p q. leb_ℤ p.fee q.fee) a ps
contains-considered false a ps =
    let sorted : List Priced = sort (λ p q. leb_ℤ q.fee p.fee) ps in
    ground (
      arith,
      contains-sort_makers (λ p q. leb_ℤ p.fee q.fee) a (values (by_counterparty [] sorted)),
      contains-by_counterparty a [] sorted refl,
      contains-sort_makers (λ p q. leb_ℤ q.fee p.fee) a ps,
    )

makers-considered :
    (pick : Bool) (ps : List Priced) → length (makers ps) ≤ length (makers (considered pick ps))
makers-considered pick ps =
    pigeonhole (makers ps) (makers (considered pick ps)) (dedup-Distinct (map counterparty_of ps))
      (λ a h. ground (
        arith,
        contains-makers a ps,
        contains-makers a (considered pick ps),
        contains-considered pick a ps,
      ))

-- The algorithm finds one when there is one.
abbrev pub AlwaysPicks : (List Priced → ℕ → Option Priced) → Type 0
AlwaysPicks choose = (p : Priced) (ps : List Priced) (n : ℕ) → choose (p ∷ ps) n ≢ none

pick_orders-some :
    (choose : List Priced → ℕ → Option Priced)
    → AlwaysPicks choose
    → (n i : ℕ) (os : List Priced) → i ≤ length (makers os)
    → (ps : List Priced) × (total : ℤ) × (pick_orders choose n i os ≡ some (ps, total))
unfolding pick_orders
pick_orders-some choose always n zero os h = ([], pos 0, refl)
pick_orders-some choose always n (suc i) [] h = absurd (omega arith)
pick_orders-some choose always n (suc i) (o ∷ os) h = elim (Option-cases (choose (o ∷ os) n)) [
  | inl q ↦ absurd (always o os n q)
  | inr (p, q) ↦
      (let others : List Priced =
          keep (λ r. not (counterparty_of r == counterparty_of p)) (o ∷ os) in
        let rest =
          pick_orders-some choose always n i others
            (omega (arith, makers-keep (counterparty_of p) (o ∷ os), h)) in
        (p ∷ rest.0, p.fee +ℤ rest.1, ground (arith, q, rest.2)))
]

-- If every fee can be calculated and the algorithm finds an offer whenever there is one,
-- `_choose_orders_once` finds offers if at least `n` makers have suitable ones, and else reports that
-- there are none.
pub choose_orders_once-found :
    (choose : List Priced → ℕ → Option Priced) (limits : Limits) (offers : List Quote)
    (cj_amount n : ℕ) (ignored : List Text) (pick : Bool) (allowed_types : List Text)
    (ps : List Priced)
    → AlwaysPicks choose
    → price limits cj_amount (filter_offers ignored allowed_types cj_amount offers) ≡ some ps
    → (n ≤ length (makers ps)
        → (result : Dict Text Quote) × (total : ℤ) × (choose_orders_once choose limits offers
              cj_amount n ignored pick allowed_types
            ≡ chosen result total))
      × (length (makers ps) < n
          → choose_orders_once choose limits offers cj_amount n ignored pick allowed_types
            ≡ unavailable)
unfolding choose_orders_once
choose_orders_once-found choose limits offers cj_amount n ignored pick allowed_types ps always e = (
  λ enough.
      (let found =
          pick_orders-some choose always n n (considered pick ps)
            (omega (arith, enough, makers-considered pick ps)) in
        (result_of [] found.0, found.1, ground (arith, e, found.2))),
  λ few. ground (arith, e),
)
