-- ===== src/Podle/State.antt =====
-- `PoDLE` of jmclient/podle.py, with `getNUMS`. libsecp256k1 and sha256 are parameters; none stands for
-- an exception. A scalar is the number that its 32 bytes spell, bytes are a list of numbers.
use joinmarket_clientserver.Maker.Verify.{Outpoint}
use joinmarket_clientserver.Prelude.Text.{Text}
use joinmarket_clientserver.Prelude.{
  ◌>>=◌, Bool, Option, [], false, if◌then◌else◌, ltb, none, some, suc, true, zero, ℕ, ◌%◌, ◌*◌,
  ◌++◌, ◌+◌, ◌∷◌,
}

-- `Curve.public_key` is the key of a private key, `generator` is `getG`.
pub record Curve : Type 0 where
  pub order : ℕ
  pub generator : Bool → Text
  pub is_fullyvalid : Text → Bool
  pub public_key : ℕ → Option Text
  pub multiply : ℕ → Text → Option Text
  pub add_pubkeys : Text → Text → Option Text
  pub sha256 : Text → Text

pub record Podle : Type 0 where
  pub u : Outpoint
  pub P : Text
  pub P2 : Text
  pub s : ℕ
  pub e : Text
  pub commitment : Text

-- `int.from_bytes(x, byteorder="big")`
unfoldable pub from_bytes : ℕ → Text → ℕ
from_bytes n [] = n
from_bytes n (b ∷ bs) = from_bytes (n * 256 + b) bs

-- The first valid point of so many counters, from the counter on.
unfoldable pub nums_of_seed : Curve → Text → ℕ → ℕ → Option Text
nums_of_seed c seed counter zero = none
nums_of_seed c seed counter (suc n) =
    let claimed_point = 2 ∷ c.sha256 (seed ++ counter ∷ []) in
    let rest = nums_of_seed c seed (counter + 1) n in
    if c.is_fullyvalid claimed_point then some claimed_point else rest

-- The compressed generator comes first.
unfoldable pub get_nums : Curve → ℕ → Option Text
unfolding nums_of_seed
get_nums c index =
    if ltb index 256
    then elim (nums_of_seed c (c.generator true ++ index ∷ []) 0 256) [
      | some point ↦ some point
      | none ↦ nums_of_seed c (c.generator false ++ index ∷ []) 0 256
    ]
    else none

-- The proof of the private key `priv` from the points of `generate_podle`.
abbrev pub opened : Curve → Outpoint → ℕ → ℕ → Text → Text → Text → Podle
opened c u priv k P P2 e = record {
  u = u;
  P = P;
  P2 = P2;
  s = (k + priv * from_bytes 0 e) % c.order;
  e = e;
  commitment = c.sha256 P2;
}

-- `PoDLE.generate_podle`, for the nonce `k`.
unfoldable pub generate : Curve → ℕ → ℕ → Outpoint → ℕ → Option Podle
unfolding get_nums from_bytes
generate c k index u priv = do
  P ← c.public_key priv
  J ← get_nums c index
  KG ← c.public_key k
  KJ ← c.multiply k J
  P2 ← c.multiply priv J
  some (opened c u priv k P P2 (c.sha256 (KG ++ KJ ++ P ++ P2)))
