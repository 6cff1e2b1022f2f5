-- ===== src/Tests/Podles.antt =====
-- Runs of the commitments of jmclient/podle.py.
use joinmarket_clientserver.Maker.Verify.{Outpoint}
use joinmarket_clientserver.Prelude.Dict.{lookup, insert}
use joinmarket_clientserver.Prelude.Text.{codes, text_discrete}
use joinmarket_clientserver.Prelude.{
  List, [], arith, if◌then◌else◌, length, ltb, map, none, refl, some, true, ◌%◌, ◌*◌, ◌+◌, ◌∷◌, ◌≡◌,
  pair_dec,
}
use joinmarket_clientserver.Podle.Fresh.{IsIndexedEntry, IsIndexed}
use joinmarket_clientserver.Podle.State.{Curve}
use joinmarket_clientserver.Podle.Commitments.{
  Commitments, External, Nonces, generate_podle, raised, add_external_commitments,
}
use joinmarket_clientserver.Podle.History.{AreNew, Event, added, requested, run, run-AreNew}

-- The numbers modulo 7 in place of the curve.
abbrev curve : Curve
curve = record {
  order = 7;
  generator = λ compressed. 3 ∷ [];
  is_fullyvalid = λ P. true;
  public_key = λ x. if ltb 0 x then some (x % 7 ∷ []) else none;
  multiply = λ x P. if ltb 0 x then some (map (λ b. x * b % 7) P) else none;
  add_pubkeys = λ P Q. none;
  sha256 = λ x. 1 ∷ x;
}

abbrev nonces : Nonces
nonces = record { tried = λ u i. i + 1; given = λ u. 5 }

abbrev coin : Outpoint
coin = (codes "aa", 0)

abbrev other : Outpoint
other = (codes "bb", 1)

abbrev entry : External
entry = record { P = 4 ∷ []; reveal = (0, record { P2 = 9 ∷ []; s = 2; e = 6 ∷ [] }) ∷ [] }

abbrev empty_file : Commitments
empty_file = record { used = []; external = [] }

abbrev request : Event
request = requested nonces 1 (other ∷ []) ((2, coin) ∷ [])

abbrev history : List Event
history = added ((other, entry) ∷ []) ∷ request ∷ request ∷ request ∷ []

-- The coin gives a proof, then the external one, then neither.
run_test : length (run curve history empty_file).1 ≡ 2
unfolding run generate_podle add_external_commitments text_discrete insert pair_dec
run_test = refl

-- The entry whose only proof has been used stays in the file.
kept_test : length (run curve history empty_file).0.external ≡ 1
unfolding run generate_podle add_external_commitments text_discrete insert pair_dec
kept_test = refl

-- With more tries allowed than an entry has, a used one ends in an exception.
missing_test :
    (generate_podle curve nonces 2
      (other ∷ [])
      []
      (record { used = (1 ∷ 9 ∷ []) ∷ []; external = (other, entry) ∷ [] })).1
    ≡ raised
unfolding generate_podle pair_dec text_discrete
missing_test = refl

entry-IsIndexedEntry : IsIndexedEntry entry
unfolding lookup
entry-IsIndexedEntry i r h = ground arith

empty-IsIndexed : IsIndexed empty_file.external
unfolding lookup
empty-IsIndexed u ec h = ground arith

run-AreNew_example : AreNew empty_file (run curve history empty_file).1
run-AreNew_example =
    run-AreNew curve history empty_file (λ x. refl)
      ((entry-IsIndexedEntry, tt), (tt, (tt, (tt, tt)))) empty-IsIndexed
