-- ===== src/Messages/Signed.antt =====
-- The check of a private `fill` message before its signature is verified.
use native.Mathlib.Decide.{ℕ_discrete}
use joinmarket_clientserver.Prelude.Decimal.{str}
use joinmarket_clientserver.Messages.Commands.{space}
use joinmarket_clientserver.Prelude.Split.{join, split}
use joinmarket_clientserver.Messages.Orders.{fill_message, signed_text}
use joinmarket_clientserver.Prelude.Text.{Text, codes, is_empty, text_discrete}
use joinmarket_clientserver.Messages.PrivateTrip.{
  IsFill, fill_calls, fill_parts, on_verified_privmsg-fill_message, split-signed_text,
}
use joinmarket_clientserver.Prelude.{
  ◌>>=◌, Bool, Option, [], ap, arith, false, if◌then◌else◌, none, refl, some, true, ℕ, ◌++◌, ◌∙◌,
  ◌∷◌, ◌≡◌,
}
use joinmarket_clientserver.Messages.Receive.{
  Call, Hooks, call, first, message_seen, message_trigger, nick_verified, privmsg_trigger,
  request_signature_verify,
}
use joinmarket_clientserver.Messages.Private.{
  on_privmsg, on_verified_privmsg, Pending, Receiver, drop_last_two, is_command, last_two,
  not_empty, signed_parts,
}

is_empty-append : (a b : Text) (c : ℕ) → is_empty (a ++ c ∷ b) ≡ false
is_empty-append [] b c = refl
is_empty-append (x ∷ a) b c = refl

not_empty-some : (s : Text) → is_empty s ≡ false → not_empty s ≡ some s
not_empty-some s q = ap (λ (b : Bool). if b then none else some s) q

module _ (out : Receiver) (oid amount : ℕ) (pk commitment key sig key_bytes sig_bytes : Text) where
  signed_parts-fill :
      out.hextobin key ≡ some key_bytes
      → out.b64decode sig ≡ some sig_bytes
      → signed_parts out (fill_parts oid amount pk commitment ++ key ∷ sig ∷ [])
        ≡ some (fill_message oid amount pk commitment, key, sig)
  unfolding signed_parts last_two drop_last_two join fill_message
  signed_parts-fill k b =
      ap
        (λ (o : Option Text).
          o >>= λ raw. out.hextobin key >>= λ x. out.b64decode sig >>= λ y. some (raw, key, sig))
        (not_empty-some (fill_message oid amount pk commitment)
          (is_empty-append (str oid) (str amount ++ space ∷ (pk ++ space ∷ commitment)) space))
      ∙ ap
          (λ (o : Option Text). o >>= λ x.
            out.b64decode sig >>= λ y. some (fill_message oid amount pk commitment, key, sig))
          k
      ∙ ap (λ (o : Option Text). o >>= λ y. some (fill_message oid amount pk commitment, key, sig))
          b

-- What is called for a message that is to be verified.
abbrev pub verify_call : Receiver → Text → Text → Text → Text → Text → Call
verify_call out nick raw message key sig =
    request_signature_verify (raw ++ out.hostid) message sig key nick

-- The `fill` message of a taker makes the channel ask for the check of the signature of its message
-- and the host, and then, once it is verified, reaches the maker's callback with what was sent, if the
-- key and the signature can be decoded and have no spaces, and what the taker sends has no spaces and
-- no command prefixes.
pub fill_message-read :
    (out : Receiver) (hooks : Hooks) (nick : Text) (directory : Option Text) (pending : Pending)
    (oid amount : ℕ) (pk commitment key sig key_bytes sig_bytes : Text)
    → IsFill pk commitment key sig
    → out.hextobin key ≡ some key_bytes
    → out.b64decode sig ≡ some sig_bytes
    → ((on_privmsg out hooks nick
          (signed_text (codes "fill") (fill_message oid amount pk commitment) key sig)
          directory
          pending).1
        ≡ call hooks message_trigger (
            message_seen false nick
              (signed_text (codes "fill") (fill_message oid amount pk commitment) key sig)
              directory)
          ++ verify_call out nick
              (fill_message oid amount pk commitment)
              (signed_text (codes "fill") (fill_message oid amount pk commitment) key sig)
              key
              sig
            ∷ [])
      × ((on_verified_privmsg out hooks nick
            (signed_text (codes "fill") (fill_message oid amount pk commitment) key sig)
            pending).1
          ≡ call hooks privmsg_trigger (nick_verified nick)
            ++ fill_calls hooks nick oid amount pk commitment)
unfolding on_privmsg signed_text text_discrete ℕ_discrete
fill_message-read out hooks nick directory pending oid amount pk commitment key sig kb sb h k b =
    let text =
      codes "fill"
      ++ space ∷ (fill_message oid amount pk commitment ++ space ∷ (key ++ space ∷ sig)) in
    let parts : split text space ≡ fill_parts oid amount pk commitment ++ key ∷ sig ∷ [] =
      split-signed_text oid amount pk commitment key sig h in
    let checked =
      ap (signed_parts out) parts
      ∙ signed_parts-fill out oid amount pk commitment key sig kb sb k b in
    let named : is_command (first (split text space)) ≡ true =
      ap (λ ps. is_command (first ps)) parts in
    (
      grind (arith, checked, named),
      on_verified_privmsg-fill_message out hooks nick pending oid amount pk commitment key sig h,
    )
