-- ===== src/Offers/State.antt =====
-- An offer as a maker announces it and a taker's orderbook holds it: the keys of the dicts that the
-- source passes around. Sizes and contributions are natural numbers of satoshis, as the orderbook
-- admits them.
use joinmarket_clientserver.Prelude.{ℕ}
use joinmarket_clientserver.Prelude.Text.{Text}
use joinmarket_clientserver.Offers.Fees.{Decimal}

pub record Offer : Type 0 where
  pub oid : ℕ
  pub ordertype : Text
  pub minsize : ℕ
  pub maxsize : ℕ
  pub txfee : ℕ
  pub cjfee : Decimal
