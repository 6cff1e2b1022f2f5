-- ===== src/Tests/Orders.antt =====
-- A run of the maker's offers, and its theorem at that input. The rest of an offer is a number here.
use native.Mathlib.Decide.{ℕ_discrete}
use joinmarket_clientserver.Maker.Orders.{
  cancel_all, modify_orders, modify_orders-on_tx_unconfirmed, on_tx_unconfirmed,
}
use joinmarket_clientserver.Prelude.{[], none, refl, some, ℕ, ◌∷◌, ◌≡◌, ℕ_eq}
use joinmarket_clientserver.Prelude.Dict.{Dict, lookup}

abbrev old_offers : Dict ℕ ℕ
old_offers = (0, 10) ∷ (1, 20) ∷ (2, 30) ∷ []

abbrev new_offers : Dict ℕ ℕ
new_offers = (0, 10) ∷ (2, 35) ∷ (3, 40) ∷ []

-- Cancelling an offer that does not exist raises.
cancel_test : modify_orders (7 ∷ []) [] old_offers ≡ none
unfolding modify_orders cancel_all ℕ_discrete
cancel_test = refl

modify_orders-on_tx_unconfirmed_example :
    (out : Dict ℕ ℕ) × (modify_orders
        (on_tx_unconfirmed old_offers new_offers).0
        (on_tx_unconfirmed old_offers new_offers).1
        old_offers
      ≡ some out)
    × ((oid : ℕ) → lookup oid out ≡ lookup oid new_offers)
unfolding ℕ_discrete
modify_orders-on_tx_unconfirmed_example =
    modify_orders-on_tx_unconfirmed old_offers new_offers (refl, (refl, (refl, tt)))
      (refl, (refl, (refl, tt)))
