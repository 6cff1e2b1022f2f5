-- ===== src/Maker/Orders.antt =====
-- The maker's list of offers: `modify_orders` of jmclient/maker.py, and the difference that
-- `YieldGenerator.on_tx_unconfirmed` of jmclient/yieldgenerator.py makes for it. An offer is its
-- `oid` with the rest of its fields; the new offers (`create_my_orders`) are an argument.
use joinmarket_clientserver.Prelude.Dict.{
  Dict, contains-keys, erase, erase-Distinct, holds, keys, lookup, lookup-erase,
}
use joinmarket_clientserver.Prelude.{
  ==_refl, Distinct, Eq, List, Option, [], ap, arith, contains, if◌then◌else◌, keep, none, not,
  refl, some, true, ℕ, ◌++◌, ◌==◌, ◌∷◌, ◌≡◌, ℕ_eq, contains-keep, ◌&&◌, keep-Distinct,
}

module _ {B : Type 0} ⦃e : Eq B⦄ where
  -- Offers to cancel are removed; none is the IndexError on an `oid` that no offer has.
  unfoldable pub cancel_all : List ℕ → Dict ℕ B → Option (Dict ℕ B)
  cancel_all [] offerlist = some offerlist
  cancel_all (oid ∷ oids) offerlist =
      let rest = cancel_all oids (erase oid offerlist) in
      if contains oid (keys offerlist) then rest else none

  -- An old offer with the `oid` of one to announce is removed.
  unfoldable pub remove_old : Dict ℕ B → Dict ℕ B → Dict ℕ B
  remove_old [] offerlist = offerlist
  remove_old ((oid, ann) ∷ to_announce) offerlist = remove_old to_announce (erase oid offerlist)

  unfoldable pub modify_orders : List ℕ → Dict ℕ B → Dict ℕ B → Option (Dict ℕ B)
  unfolding cancel_all remove_old
  modify_orders to_cancel to_announce offerlist = elim (cancel_all to_cancel offerlist) [
    | none ↦ none
    | some left ↦ some (remove_old to_announce left ++ to_announce)
  ]

  -- The new offers that are not among the old ones as they are.
  unfoldable pub changed_offers : Dict ℕ B → Dict ℕ B → Dict ℕ B
  changed_offers old [] = []
  changed_offers old ((oid, offer) ∷ newoffers) =
      if holds (λ was. was == offer) (lookup oid old)
      then changed_offers old newoffers
      else (oid, offer) ∷ changed_offers old newoffers

  -- The old offers, each with an `oid` of its own, of which no new one has the `oid`.
  unfoldable pub dropped_oids : Dict ℕ B → Dict ℕ B → List ℕ
  dropped_oids old newoffers = keep (λ oid. not (contains oid (keys newoffers))) (keys old)

  unfoldable pub on_tx_unconfirmed : Dict ℕ B → Dict ℕ B → List ℕ × Dict ℕ B
  unfolding changed_offers dropped_oids
  on_tx_unconfirmed offerlist newoffers =
      (dropped_oids offerlist newoffers, changed_offers offerlist newoffers)

  lookup-cancel_all :
      (oids : List ℕ) (l : Dict ℕ B)
      → Distinct (keys l)
      → Distinct oids
      → ((k : ℕ) → contains k oids ≡ true → contains k (keys l) ≡ true)
      → (out : Dict ℕ B) × (cancel_all oids l ≡ some out)
        × Distinct (keys out)
        × ((k : ℕ) → lookup k out ≡ (if contains k oids then none else lookup k l))
  unfolding cancel_all
  lookup-cancel_all [] l d u f = (l, refl, d, λ k. refl)
  lookup-cancel_all (oid ∷ oids) l d u f =
      let rest = lookup-cancel_all oids (erase oid l) (erase-Distinct oid l d) u.1 (λ k h. ground (
        arith,
        contains-keys k (erase oid l),
        contains-keys k l,
        lookup-erase oid k l d,
        f k,
        u.0,
      )) in
      (
        rest.0,
        ground (arith, rest.1, f oid (ground (arith, ==_refl oid))),
        rest.2,
        λ k. ground (arith, rest.3 k, lookup-erase oid k l d),
      )

  lookup-remove_old :
      (anns l : Dict ℕ B) (k : ℕ)
      → Distinct (keys l)
      → lookup k (remove_old anns l) ≡ (if contains k (keys anns) then none else lookup k l)
  unfolding remove_old
  lookup-remove_old [] l k d = refl
  lookup-remove_old ((oid, ann) ∷ anns) l k d = ground (
    arith,
    lookup-remove_old anns (erase oid l) k (erase-Distinct oid l d),
    lookup-erase oid k l d,
  )

  lookup-append :
      (xs ys : Dict ℕ B) (k : ℕ)
      → lookup k (xs ++ ys) ≡ elim (lookup k xs) [ none ↦ lookup k ys | some v ↦ some v ]
  unfolding lookup
  lookup-append [] ys k = refl
  lookup-append ((j, v) ∷ xs) ys k = ground (arith, lookup-append xs ys k)

  lookup-changed_offers :
      (old new : Dict ℕ B) (k : ℕ)
      → Distinct (keys new)
      → lookup k (changed_offers old new) ≡ elim (lookup k new) [
        | none ↦ none
        | some offer ↦ if holds (λ was. was == offer) (lookup k old) then none else some offer
      ]
  unfolding lookup changed_offers
  lookup-changed_offers old [] k d = refl
  lookup-changed_offers old ((oid, offer) ∷ new) k d =
      ground
        (arith, lookup-changed_offers old new k d.1, contains-keys k new, ap (λ j. lookup j old))

  contains-dropped_oids :
      (old new : Dict ℕ B) (k : ℕ)
      → contains k (dropped_oids old new) ≡ (not (contains k (keys new)) && contains k (keys old))
  unfolding dropped_oids
  contains-dropped_oids old new k =
      contains-keep (λ oid. not (contains oid (keys new))) k (keys old)

  dropped_oids-Distinct :
      (old new : Dict ℕ B) → Distinct (keys old) → Distinct (dropped_oids old new)
  unfolding dropped_oids
  dropped_oids-Distinct old new d =
      keep-Distinct (λ oid. not (contains oid (keys new))) (keys old) d

  -- If no two old offers and no two new ones have the same `oid`, what `on_tx_unconfirmed` returns
  -- makes `modify_orders` turn the old offers into the new ones, without an error.
  pub modify_orders-on_tx_unconfirmed :
      (offerlist newoffers : Dict ℕ B)
      → Distinct (keys offerlist)
      → Distinct (keys newoffers)
      → (out : Dict ℕ B) × (modify_orders
            (on_tx_unconfirmed offerlist newoffers).0
            (on_tx_unconfirmed offerlist newoffers).1
            offerlist
          ≡ some out)
        × ((oid : ℕ) → lookup oid out ≡ lookup oid newoffers)
  unfolding modify_orders on_tx_unconfirmed
  modify_orders-on_tx_unconfirmed old new d u =
      let dropped : List ℕ = dropped_oids old new in
      let changed : Dict ℕ B = changed_offers old new in
      let left =
        lookup-cancel_all dropped old d (dropped_oids-Distinct old new d)
          (λ k h. ground (arith, contains-dropped_oids old new k)) in
      (
        remove_old changed left.0 ++ changed,
        ground (arith, left.1),
        λ k. ground (
          arith,
          lookup-append (remove_old changed left.0) changed k,
          lookup-remove_old changed left.0 k left.2,
          left.3 k,
          lookup-changed_offers old new k u,
          contains-keys k changed,
          contains-keys k old,
          contains-keys k new,
          contains-dropped_oids old new k,
        ),
      )
