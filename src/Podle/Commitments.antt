-- ===== src/Podle/Commitments.antt =====
-- The commitments that were used, and those that were made elsewhere: `update_commitments`,
-- `get_podle_tries` and `generate_podle` of jmclient/podle.py. The file of commitments is the state; its
-- JSON format is left out.
use joinmarket_clientserver.Maker.Verify.{Outpoint}
use Prim.Native.Nat.{min}
use joinmarket_clientserver.Prelude.Text.{Text, is_empty, text_eq}
use joinmarket_clientserver.Prelude.Dict.{Dict, insert, lookup}
use joinmarket_clientserver.Podle.State.{Curve, Podle, generate}
use joinmarket_clientserver.Prelude.{
  ◌>>=◌, Bool, List, Option, [], contains, dedup, false, if◌then◌else◌, keep, leb, length, none,
  not, some, suc, zero, ℕ, ◌++◌, ◌+◌, ◌∷◌, pair_eq, ℕ_eq,
}

pub record Reveal : Type 0 where
  pub P2 : Text
  pub s : ℕ
  pub e : Text

-- The entry of a coin in the external commitments.
pub record External : Type 0 where
  pub P : Text
  pub reveal : Dict ℕ Reveal

pub record Commitments : Type 0 where
  pub used : List Text
  pub external : Dict Outpoint External

-- The nonces of `os.urandom`: for the tries, and for the proof.
pub record Nonces : Type 0 where
  pub tried : Outpoint → ℕ → ℕ
  pub given : Outpoint → ℕ

-- `update_commitments(commitment=c)`: an empty one is not added.
unfoldable pub update_used : Text → Commitments → Commitments
update_used c s = if is_empty c then s else record s { used = dedup (s.used ++ c ∷ []) }

-- Whether `k in u` for the pair of a txid and an index that `generate_podle` hands over as
-- `external_to_remove`: the key of a coin is itself a pair, and so neither of the two.
abbrev pub in_pair : Outpoint → Outpoint → Bool
in_pair k u = false

-- `update_commitments(external_to_remove=u)`
unfoldable pub remove_external : Outpoint → Commitments → Commitments
remove_external u s = record s { external = keep (λ kv. not (in_pair kv.0 u)) s.external }

-- `external.update(external_to_add)`
unfoldable pub add_external :
    Dict Outpoint External → Dict Outpoint External → Dict Outpoint External
add_external [] external = external
add_external ((u, entry) ∷ added) external = add_external added (insert u entry external)

unfoldable pub add_external_commitments : Dict Outpoint External → Commitments → Commitments
unfolding add_external
add_external_commitments ecs s = record s { external = add_external ecs s.external }

-- The number after the largest index below `n` whose commitment was used; none if one raises.
unfoldable pub tries_below : (ℕ → Option Text) → List Text → ℕ → Option ℕ
tries_below commitment used zero = some 0
tries_below commitment used (suc i) = do
  c ← commitment i
  if contains c used then some (i + 1) else tries_below commitment used i

abbrev pub commitment_of : Option Podle → Option Text
commitment_of none = none
commitment_of (some p) = some p.commitment

-- `get_podle_tries` for a coin of the wallet.
unfoldable pub get_podle_tries : Curve → Nonces → Outpoint → ℕ → ℕ → Commitments → Option ℕ
unfolding tries_below generate
get_podle_tries c nonces u priv max_tries s =
    tries_below (λ i. commitment_of (generate c (nonces.tried u i) i u priv)) s.used max_tries

-- A proof of an external coin; without a P2, `get_commitment` raises.
abbrev pub revealed : Curve → Outpoint → External → Reveal → Option Podle
revealed c u ec r =
    if is_empty r.P2
    then none
    else some (record { u = u; P = ec.P; P2 = r.P2; s = r.s; e = r.e; commitment = c.sha256 r.P2 })

-- That of `ec["reveal"][i]`; a missing index raises KeyError.
unfoldable pub external_podle : Curve → Outpoint → External → ℕ → Option Podle
unfolding lookup
external_podle c u ec i = do r ← lookup i ec.reveal; revealed c u ec r

-- `get_podle_tries` with `external=True`, of the entry that it finds.
unfoldable pub get_external_tries : Curve → Outpoint → ℕ → Option External → List Text → Option ℕ
unfolding tries_below external_podle
get_external_tries c u max_tries none used = some 0
get_external_tries c u max_tries (some ec) used =
    tries_below (λ i. commitment_of (external_podle c u ec i)) used
      (min (length ec.reveal) max_tries)

-- What `generate_podle` ends in: an exception, None, or a proof.
pub data Sourced : Type 0 where
  raised : Sourced
  unavailable : Sourced
  sourced : Podle → Sourced

-- A proof is given out once its commitment is stored.
abbrev pub give : Option Podle → Commitments → Commitments × Sourced
give none s = (s, raised)
give (some p) s = (update_used p.commitment s, sourced p)

abbrev pub external_at : Curve → Outpoint → Option External → ℕ → Option Podle
external_at c u none tries = none
external_at c u (some ec) tries = external_podle c u ec tries

-- A coin whose tries are used up leaves the turn to the rest; another one gives its proof.
abbrev pub turn :
    ℕ → Option ℕ → (ℕ → Option Podle) → Commitments → Commitments × Sourced → Commitments × Sourced
turn max_tries none proof s rest = (s, raised)
turn max_tries (some tries) proof s rest =
    if leb max_tries tries then rest else give (proof tries) s

-- The loop over the external coins; `external_commitments` was read at the start.
unfoldable pub from_external :
    Curve → ℕ → Commitments → List Outpoint → Commitments → Commitments × Sourced
unfolding get_external_tries remove_external update_used lookup
from_external c max_tries start [] s = (s, unavailable)
from_external c max_tries start (u ∷ us) s =
    turn max_tries (get_external_tries c u max_tries (lookup u s.external) s.used)
      (external_at c u (lookup u start.external)) s
      (from_external c max_tries start us (remove_external u s))

-- The loop over the wallet's coins, then the external ones.
unfoldable pub generate_podle :
    Curve → Nonces → ℕ → List Outpoint → List (ℕ × Outpoint) → Commitments → Commitments × Sourced
unfolding get_podle_tries generate update_used from_external
generate_podle c nonces max_tries allow_external [] s = from_external c max_tries s allow_external s
generate_podle c nonces max_tries allow_external ((priv, u) ∷ pairs) s =
    turn max_tries (get_podle_tries c nonces u priv max_tries s)
      (λ tries. generate c (nonces.given u) tries u priv) s
      (generate_podle c nonces max_tries allow_external pairs s)
