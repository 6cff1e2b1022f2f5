-- ===== src/Tests/Choices.antt =====
-- A run of the choice of offers, and its theorem at that input.
use joinmarket_clientserver.Offers.Fees.{calc_cj_fee, is_absolute, is_relative, to_int}
use joinmarket_clientserver.Offers.Liquidity.{makers, AlwaysPicks, choose_orders_once-found}
use joinmarket_clientserver.Prelude.Dict.{Dict}
use joinmarket_clientserver.Prelude.Text.{Text, codes, text_discrete}
use joinmarket_clientserver.Offers.Choose.{
  Limits, Priced, Quote, choose_orders, price, filter_offers, choose_orders_once, chosen,
  unavailable,
}
use joinmarket_clientserver.Offers.Suitable.{IsSuitable, PicksOne}
use joinmarket_clientserver.Offers.Outcome.{IsChoice, choose_orders-IsChoice}
use joinmarket_clientserver.Offers.Exclusions.{
  Excludes, Exclusions, exclusion_passes, exclusion_passes-Excludes, hard_makers, many_makers,
  no_makers, one_maker,
}
use joinmarket_clientserver.Prelude.{
  All, List, Option, [], false, inl, none, pos, refl, some, true, ℕ, ◌∷◌, length, ℤ, ◌-ℤ◌, ◌<◌, ◌≡◌,
  ◌≤◌,
}

abbrev quote_of : Text → ℕ → Quote
quote_of maker fee = record {
  counterparty = maker;
  offer = record {
    oid = 0;
    ordertype = codes "sw0absoffer";
    minsize = 1000;
    maxsize = 500000;
    txfee = 0;
    cjfee = record { coefficient = pos fee; places = 0 };
  };
}

abbrev quotes : List Quote
quotes = quote_of (codes "J5a") 90 ∷ quote_of (codes "J5b") 70 ∷ quote_of (codes "J5c") 10 ∷ []

-- `cheapest_order_choose`
abbrev cheapest : List Priced → ℕ → Option Priced
cheapest [] n = none
cheapest (p ∷ ps) n = some p

abbrev no_limits : Limits
no_limits = record { over_abs = λ fee. false; over_rel = λ fee. false }

-- One maker is excluded for good, and one is ignored unless needed.
abbrev excluding : Exclusions
excluding = record {
  ignored_makers = no_makers;
  hard_excluded_makers = one_maker (codes "J5c");
  cooldown_makers = no_makers;
  soft_ignored_makers = many_makers (codes "J5a" ∷ []);
  relax_cooldowns = false;
  relax_soft_ignored = true;
}

cheapest-PicksOne : PicksOne cheapest
cheapest-PicksOne [] n p h = absurd (cc)
cheapest-PicksOne (q ∷ ps) n p h = inl (cc)

exclusion_passes-Excludes_example :
    All (Excludes excluding (codes "J5c")) (exclusion_passes excluding)
exclusion_passes-Excludes_example = exclusion_passes-Excludes excluding (codes "J5c")

choose_orders-IsChoice_example :
    IsChoice
      (IsSuitable no_limits 20000 (hard_makers excluding) (codes "sw0absoffer" ∷ []))
      2
      (choose_orders cheapest no_limits quotes 20000 2 excluding false (codes "sw0absoffer" ∷ []))
choose_orders-IsChoice_example =
    choose_orders-IsChoice cheapest cheapest-PicksOne no_limits quotes 20000 2 false
      (codes "sw0absoffer" ∷ []) excluding

cheapest-AlwaysPicks : AlwaysPicks cheapest
cheapest-AlwaysPicks p ps n h = cc

-- the offers that are left, with their fees
abbrev two_priced : List Priced
two_priced =
    record { quote = quote_of (codes "J5a") 90; fee = pos 90 }
    ∷ record { quote = quote_of (codes "J5b") 70; fee = pos 70 }
    ∷ []

two_priced_run :
    price no_limits 20000 (filter_offers (codes "J5c" ∷ []) (codes "sw0absoffer" ∷ []) 20000 quotes)
    ≡ some two_priced
unfolding price filter_offers calc_cj_fee is_absolute is_relative to_int ◌-ℤ◌ text_discrete
two_priced_run = refl

choose_orders_once-found_example :
    (2 ≤ length (makers two_priced)
      → (result : Dict Text Quote) × (total : ℤ) × (choose_orders_once cheapest no_limits quotes
            20000 2
            (codes "J5c" ∷ [])
            false
            (codes "sw0absoffer" ∷ [])
          ≡ chosen result total))
    × (length (makers two_priced) < 2
        → choose_orders_once cheapest no_limits quotes 20000 2
            (codes "J5c" ∷ [])
            false
            (codes "sw0absoffer" ∷ [])
          ≡ unavailable)
choose_orders_once-found_example =
    choose_orders_once-found cheapest no_limits quotes 20000 2 (codes "J5c" ∷ []) false
      (codes "sw0absoffer" ∷ []) two_priced cheapest-AlwaysPicks two_priced_run
