-- ===== src/Offers/Choose.antt =====
-- The choice of offers for an amount: `_choose_orders_once` and `choose_orders` of
-- jmclient/support.py. The algorithm that picks one offer (`chooseOrdersBy`) and the comparisons of a
-- fee with the limits, which are floating-point numbers, are parameters.
use joinmarket_clientserver.Prelude.Sort.{sort}
use joinmarket_clientserver.Offers.Fees.{calc_cj_fee}
use joinmarket_clientserver.Prelude.Text.{Text, text_eq}
use joinmarket_clientserver.Offers.State.{Offer}
use joinmarket_clientserver.Offers.Exclusions.{Exclusions, Label, exclusion_passes}
use joinmarket_clientserver.Prelude.Dict.{Dict, insert, values}
use joinmarket_clientserver.Prelude.{
  Bool, List, Option, [], contains, dedup, if◌then◌else◌, keep, leb_ℤ, length, ltb, map, none, not,
  pos, some, suc, ℕ, ℤ, ◌&&◌, ◌+ℤ◌, ◌-ℤ◌, ◌==◌, ◌∷◌, zero,
}

-- A row of the orderbook.
pub record Quote : Type 0 where
  pub counterparty : Text
  pub offer : Offer

pub record Priced : Type 0 where
  pub quote : Quote
  pub fee : ℤ

-- `fee > max_fee_abs` and `fee > cjvalue * max_fee_rel`
pub record Limits : Type 0 where
  pub over_abs : ℤ → Bool
  pub over_rel : ℤ → Bool

-- What a choice ends in: an exception, `(None, 0)`, or offers and their total fee.
pub data Choice : Type 0 where
  raised : Choice
  unavailable : Choice
  chosen : Dict Text Quote → ℤ → Choice

-- `_get_is_within_max_limits`
abbrev pub is_within_max_limits : Limits → ℤ → Bool
is_within_max_limits limits fee = not (limits.over_abs fee && limits.over_rel fee)

-- The offers of makers that are not left out, for the amount, and of an allowed type.
unfoldable pub filter_offers : List Text → List Text → ℕ → List Quote → List Quote
filter_offers ignored allowed_types cj_amount offers =
    keep (λ o. contains o.offer.ordertype allowed_types)
      (keep (λ o. ltb cj_amount o.offer.maxsize)
        (keep (λ o. ltb o.offer.minsize cj_amount)
          (keep (λ o. not (contains o.counterparty ignored)) offers)))

-- `orders_fees`; none if the fee of some offer cannot be calculated.
unfoldable pub price : Limits → ℕ → List Quote → Option (List Priced)
unfolding calc_cj_fee
price limits cj_amount [] = some []
price limits cj_amount (o ∷ os) = elim (price limits cj_amount os) [
  | none ↦ none
  | some ps ↦ elim (calc_cj_fee o.offer.ordertype o.offer.cjfee cj_amount) [
    | none ↦ none
    | some f ↦ some (
        if is_within_max_limits limits (f -ℤ pos o.offer.txfee)
        then record { quote = o; fee = f -ℤ pos o.offer.txfee } ∷ ps
        else ps)
  ]
]

abbrev pub counterparty_of : Priced → Text
counterparty_of p = p.quote.counterparty

-- The last offer of each counterparty.
unfoldable pub by_counterparty : Dict Text Priced → List Priced → Dict Text Priced
by_counterparty d [] = d
by_counterparty d (p ∷ ps) = by_counterparty (insert (counterparty_of p) p d) ps

abbrev up : Priced → Priced → Bool
up p q = leb_ℤ p.fee q.fee

abbrev down : Priced → Priced → Bool
down p q = leb_ℤ q.fee p.fee

-- The cheapest offer of each counterparty, the cheapest first; with `pick` every offer.
unfoldable pub considered : Bool → List Priced → List Priced
unfolding sort by_counterparty
considered pick orders_fees =
    if pick
    then sort up orders_fees
    else sort up (values (by_counterparty [] (sort down orders_fees)))

-- The loop that picks `i` offers of different counterparties.
unfoldable pub pick_orders :
    (List Priced → ℕ → Option Priced) → ℕ → ℕ → List Priced → Option (List Priced × ℤ)
pick_orders choose n zero orders_fees = some ([], pos 0)
pick_orders choose n (suc i) orders_fees = elim (choose orders_fees n) [
  | none ↦ none
  | some p ↦
      elim (pick_orders choose n i
        (keep (λ o. not (counterparty_of o == counterparty_of p)) orders_fees)) [
          | none ↦ none
          | some (ps, total) ↦ some (p ∷ ps, p.fee +ℤ total)
        ]
]

-- `dict([(o['counterparty'], o) for o in chosen_orders])`
unfoldable pub result_of : Dict Text Quote → List Priced → Dict Text Quote
result_of d [] = d
result_of d (p ∷ ps) = result_of (insert (counterparty_of p) p.quote d) ps

unfoldable pub choose_orders_once :
    (List Priced → ℕ → Option Priced)
    → Limits
    → List Quote
    → ℕ
    → ℕ
    → List Text
    → Bool
    → List Text
    → Choice
unfolding price filter_offers considered pick_orders result_of
choose_orders_once choose limits offers cj_amount n ignored pick allowed_types =
    elim (price limits cj_amount (filter_offers ignored allowed_types cj_amount offers)) [
      | none ↦ raised
      | some orders_fees ↦
          if ltb (length (dedup (map counterparty_of orders_fees))) n
          then unavailable
          else elim (pick_orders choose n n (considered pick orders_fees)) [
            | none ↦ raised
            | some (ps, total) ↦ chosen (result_of [] ps) total
          ]
    ]

-- The first pass that finds offers.
unfoldable pub choose_in : (List Text → Choice) → List (Label × List Text) → Choice
choose_in once [] = unavailable
choose_in once ((label, excluded) ∷ ps) = elim (once excluded) [
  | raised ↦ raised
  | unavailable ↦ choose_in once ps
  | chosen result total ↦ chosen result total
]

unfoldable pub choose_orders :
    (List Priced → ℕ → Option Priced)
    → Limits
    → List Quote
    → ℕ
    → ℕ
    → Exclusions
    → Bool
    → List Text
    → Choice
unfolding choose_in exclusion_passes choose_orders_once
choose_orders choose limits offers cj_amount n exclusions pick allowed_types =
    choose_in
      (λ excluded. choose_orders_once choose limits offers cj_amount n excluded pick allowed_types)
      (exclusion_passes exclusions)
