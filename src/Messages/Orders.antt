-- ===== src/Messages/Orders.antt =====
-- The texts that are sent: `_make_orderlines` and `announce_orders` of the collection, `cancel_orders`
-- and `fill_orders` of a channel.
-- An offer of the order list; its fee is the text that `str` makes of it.
use joinmarket_clientserver.Prelude.Decimal.{str}
use joinmarket_clientserver.Prelude.Split.{join, split, concat}
use joinmarket_clientserver.Messages.Commands.{command_prefix, space}
use joinmarket_clientserver.Prelude.Text.{Text, codes, is_empty}
use joinmarket_clientserver.Prelude.{List, Option, [], if◌then◌else◌, map, none, some, ℕ, ◌++◌, ◌∷◌}

pub record Order : Type 0 where
  pub ordertype : Text
  pub oid : ℕ
  pub minsize : ℕ
  pub maxsize : ℕ
  pub txfee : ℕ
  pub cjfee : Text

-- The parts of an order line behind the prefix, which spaces join.
abbrev pub order_parts : Order → List Text
order_parts o = o.ordertype ∷ str o.oid ∷ str o.minsize ∷ str o.maxsize ∷ str o.txfee ∷ o.cjfee ∷ []

unfoldable pub order_command : Order → Text
unfolding join
order_command o = join (order_parts o) space

-- `_make_orderlines`
unfoldable pub make_orderlines : List Order → List Text
unfolding order_command
make_orderlines orders = map (λ o. command_prefix ∷ order_command o) orders

abbrev pub bond_suffix : Option Text → Text
bond_suffix none = []
bond_suffix (some proof) =
    if is_empty proof then [] else command_prefix ∷ (codes "tbond" ++ space ∷ proof)

-- `parts[1:]`
abbrev pub rest_of : List Text → List Text
rest_of [] = []
rest_of (p ∷ ps) = ps

-- The command and the message of a private announcement; none where the source reads the first of no
-- orders.
unfoldable pub announcement : List Order → Option Text → Option (Text × Text)
unfolding make_orderlines split join concat
announcement [] proof = none
announcement (o ∷ orders) proof = some (
  o.ordertype,
  (join (rest_of (split (command_prefix ∷ order_command o) space)) space
        ++ concat (make_orderlines orders))
      ++ bond_suffix proof,
)

unfoldable pub cancel_command : ℕ → Text
cancel_command oid = codes "cancel " ++ str oid

-- The message of `cancel_orders`.
unfoldable pub cancel_orders : List ℕ → Text
unfolding cancel_command concat
cancel_orders oids = concat (map (λ oid. command_prefix ∷ cancel_command oid) oids)

-- The message of `fill_orders` to one maker.
unfoldable pub fill_message : ℕ → ℕ → Text → Text → Text
fill_message oid cj_amount taker_pubkey commitment =
    str oid ++ space ∷ (str cj_amount ++ space ∷ (taker_pubkey ++ space ∷ commitment))

-- The text that reaches the channel of the other side: the command, the message and its signature.
unfoldable pub signed_text : Text → Text → Text → Text → Text
signed_text cmd message pub_key sig =
    command_prefix ∷ (cmd ++ space ∷ (message ++ space ∷ (pub_key ++ space ∷ sig)))
