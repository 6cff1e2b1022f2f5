-- ===== src/Tests/Messages.antt =====
-- Messages at concrete inputs, and the theorems on them.
use joinmarket_clientserver.Messages.Private.{on_privmsg}
use joinmarket_clientserver.Messages.Signed.{fill_message-read, verify_call}
use joinmarket_clientserver.Orderbook.State.{empty_book, integer}
use joinmarket_clientserver.Orderbook.Visible.{visible_orderbook}
use joinmarket_clientserver.Offers.Fees.{is_absolute}
use joinmarket_clientserver.Orderbook.Events.{stored_fee}
use native.Mathlib.Decide.{ℕ_discrete}
use joinmarket_clientserver.Prelude.Dict.{lookup}
use joinmarket_clientserver.Prelude.Split.{join}
use joinmarket_clientserver.Prelude.Decimal.{scan, digits, int, signed, str}
use joinmarket_clientserver.Messages.PublicTrip.{
  first_calls, on_pubmsg-make_orderlines, order_calls,
}
use joinmarket_clientserver.Messages.CancelTrip.{cancel_calls, on_pubmsg-cancel_orders}
use joinmarket_clientserver.Prelude.Text.{
  Text, codes, is_space, lstrip, strip, text_discrete, text_eq,
}
use joinmarket_clientserver.Messages.Private.{
  Receiver, decoded, fill_arguments, maker_command, on_verified_privmsg,
}
use joinmarket_clientserver.Messages.Orders.{
  Order, cancel_orders, fill_message, make_orderlines, order_command, signed_text,
}
use joinmarket_clientserver.Prelude.Split.{concat}
use joinmarket_clientserver.Prelude.{
  List, Option, [], arith, false, if◌then◌else◌, map, negsuc, none, pos, refl, some, true, ◌++◌,
  ◌==◌, ◌∷◌, ◌≡◌, ℕ_eq, pair_eq,
}
use joinmarket_clientserver.Messages.Lines.{IsSendable}
use joinmarket_clientserver.Messages.PrivateTrip.{IsFill, fill_calls}
use joinmarket_clientserver.Messages.Delivered.{Fits, Watch, announced-visible, deliver_all, row_of}
use joinmarket_clientserver.Messages.Receive.{
  Call, Hooks, call, check_for_commitments, chunk, nick_verified, on_pubmsg, privmsg_trigger,
  send_error, message_seen, message_trigger,
}

abbrev every_hook : Hooks
every_hook hook = true

abbrev nick : Text
nick = codes "J5maker"

abbrev dn : Text
dn = codes "dn1.onion:5222"

abbrev offer : Order
offer = record {
  ordertype = codes "sw0absoffer";
  oid = 7;
  minsize = 30000;
  maxsize = 90000;
  txfee = 12;
  cjfee = codes "250";
}

abbrev other_offer : Order
other_offer = record offer { ordertype = codes "sw0reloffer"; oid = 8; cjfee = codes "0.002" }

orderlines_test :
    concat (make_orderlines (offer ∷ other_offer ∷ []))
    ≡ codes "!sw0absoffer 7 30000 90000 12 250!sw0reloffer 8 30000 90000 12 0.002"
unfolding make_orderlines order_command join str digits concat ℕ_discrete
orderlines_test = refl

int_test :
    (int (codes " -1_0 ") ≡ some (negsuc 9)) × (int (codes "1__0") ≡ none) × (int (codes "") ≡ none)
unfolding int signed scan strip lstrip is_space ℕ_discrete
int_test = (refl, refl, refl)

offer-IsSendable : IsSendable offer
unfolding text_discrete ℕ_discrete
offer-IsSendable = (refl, ((refl, (refl, (refl, tt))), (refl, (refl, (refl, tt)))))

other_offer-IsSendable : IsSendable other_offer
unfolding text_discrete ℕ_discrete
other_offer-IsSendable =
    (refl, ((refl, (refl, (refl, (refl, (refl, tt))))), (refl, (refl, (refl, (refl, (refl, tt)))))))

on_pubmsg-make_orderlines_example :
    on_pubmsg every_hook nick (concat (make_orderlines (offer ∷ other_offer ∷ []))) (some dn)
    ≡ some (
        first_calls every_hook nick (concat (make_orderlines (offer ∷ other_offer ∷ []))) (some dn)
        ++ concat (map (order_calls every_hook nick (some dn)) (offer ∷ other_offer ∷ [])))
on_pubmsg-make_orderlines_example =
    on_pubmsg-make_orderlines every_hook nick (some dn) offer (other_offer ∷ [])
      (offer-IsSendable, (other_offer-IsSendable, tt))

on_pubmsg-cancel_orders_example :
    on_pubmsg every_hook nick (cancel_orders (7 ∷ 8 ∷ [])) (some dn)
    ≡ some (
        first_calls every_hook nick (cancel_orders (7 ∷ 8 ∷ [])) (some dn)
        ++ concat (map (cancel_calls every_hook nick (some dn)) (7 ∷ 8 ∷ [])))
on_pubmsg-cancel_orders_example = on_pubmsg-cancel_orders every_hook nick (some dn) 7 (8 ∷ [])

-- Base64 texts are the ones that start with an "A" here.
abbrev decode_test : Text → Option Text
decode_test [] = none
decode_test (c ∷ s) = if c == 65 then some s else none

abbrev receiver : Receiver
receiver = record {
  hostid = codes "onion";
  get_crypto_box_from_nick = λ n. none;
  decode_decrypt = λ s box. none;
  b64decode = decode_test;
  hextobin = λ s. some s;
  fill_error = λ chunks. codes "list index out of range";
}

-- A transaction that does not decode is not answered by an error.
bad_tx_test : maker_command receiver every_hook nick (codes "tx" ∷ codes "?" ∷ []) ≡ ([], false)
unfolding maker_command check_for_commitments decoded chunk text_discrete ℕ_discrete
bad_tx_test = refl

-- A `fill` without arguments is answered by one.
bad_fill_test :
    maker_command receiver every_hook nick (codes "fill" ∷ [])
    ≡ (send_error nick (codes "list index out of range") ∷ [], true)
unfolding maker_command check_for_commitments fill_arguments chunk text_discrete ℕ_discrete
bad_fill_test = refl

texts-IsFill : IsFill (codes "02ab") (codes "P1f") (codes "03cd") (codes "Ab=")
unfolding ℕ_discrete
texts-IsFill = record {
  pk_chunk = ((refl, (refl, (refl, (refl, tt)))), (refl, (refl, (refl, (refl, tt)))));
  commitment_chunk = ((refl, (refl, (refl, tt))), (refl, (refl, (refl, tt))));
  key_lacks = (refl, (refl, (refl, (refl, tt))));
  sig_lacks = (refl, (refl, (refl, tt)));
}

abbrev fill_text : Text
fill_text =
    signed_text (codes "fill") (fill_message 7 50000 (codes "02ab") (codes "P1f")) (codes "03cd")
      (codes "Ab=")

fill_message-read_example :
    ((on_privmsg receiver every_hook nick fill_text (some dn) []).1
      ≡ call every_hook message_trigger (message_seen false nick fill_text (some dn))
        ++ verify_call receiver nick
            (fill_message 7 50000 (codes "02ab") (codes "P1f"))
            fill_text
            (codes "03cd")
            (codes "Ab=")
          ∷ [])
    × ((on_verified_privmsg receiver every_hook nick fill_text []).1
        ≡ call every_hook privmsg_trigger (nick_verified nick)
          ++ fill_calls every_hook nick 7 50000 (codes "02ab") (codes "P1f"))
unfolding ℕ_discrete
fill_message-read_example =
    fill_message-read receiver every_hook nick (some dn) [] 7 50000 (codes "02ab") (codes "P1f")
      (codes "03cd") (codes "Ab=") (codes "03cd") (codes "b=") texts-IsFill refl refl

abbrev watch : Watch
watch = record {
  settings = record {
    grace_seconds = negsuc 0;
    retention_seconds = pos 0;
    dust_threshold = pos 27300;
  };
  refresh_ids = λ d. codes "initial-1";
  to_decimal = λ s. some s;
  is_sane = λ proof. true;
  taker_nick = codes "J5taker";
}

offer-Fits : Fits watch.settings offer
offer-Fits = record { oid = refl; dust = refl; sizes = omega arith; amount = refl }

announced-visible_example :
    (calls : List Call) × (on_pubmsg every_hook nick
        (concat (make_orderlines (offer ∷ [])))
        (some dn)
      ≡ some calls)
    × (lookup (nick, 7) (visible_orderbook (deliver_all watch (pos 10) calls empty_book))
        ≡ some (row_of offer (integer (pos 250))))
unfolding stored_fee is_absolute int signed scan strip lstrip is_space text_discrete ℕ_discrete
announced-visible_example =
    announced-visible every_hook watch (pos 10) nick offer (integer (pos 250)) dn empty_book refl
      offer-IsSendable refl offer-Fits refl
