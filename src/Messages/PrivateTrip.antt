-- ===== src/Messages/PrivateTrip.antt =====
-- A private `fill` message that is sent is read back.
use joinmarket_clientserver.Prelude.Dict.{lookup}
use joinmarket_clientserver.Messages.Receive.{
  Call, Hooks, Step, call, check_for_commitments, check_for_fidelity_bond, check_for_orders, chunk,
  nick_verified, order_fill, order_fill_hook, privmsg_trigger, run_commands,
}
use native.Mathlib.Decide.{ℕ_discrete}
use joinmarket_clientserver.Prelude.Decimal.{str, int, int-str}
use joinmarket_clientserver.Messages.Orders.{fill_message, signed_text}
use joinmarket_clientserver.Messages.Private.{
  drop_last_two, unsigned_text, Pending, Receiver, fill_arguments, fill_result, maker_command,
  on_verified_privmsg, plain_chunks, private_command, private_parts, taker_calls, taker_command,
}
use joinmarket_clientserver.Messages.Commands.{command_prefix, space}
use joinmarket_clientserver.Prelude.Text.{text_eq, Text, codes, text_discrete}
use joinmarket_clientserver.Prelude.Split.{Lacks, join, split, split-join, split_one}
use joinmarket_clientserver.Messages.Lines.{IsChunk, Lacks-join, str-IsChunk}
use joinmarket_clientserver.Prelude.{
  ◌>>=◌, pair_eq, All, All-append, All-weaken, List, [], ap, refl, ℕ, ◌++◌, ◌∙◌, ◌∷◌, ◌≡◌, Option,
  false, if◌then◌else◌, pos, some, ℤ, pair_eq,
}
use mathlib.Core.List.{append-nil, append_assoc}

-- Two signed parts behind the rest.
drop_last_two-append : (ps : List Text) (p q : Text) → drop_last_two (ps ++ p ∷ q ∷ []) ≡ ps
unfolding drop_last_two
drop_last_two-append [] p q = refl
drop_last_two-append (a ∷ []) p q = refl
drop_last_two-append (a ∷ b ∷ []) p q = refl
drop_last_two-append (a ∷ b ∷ c ∷ ps) p q = ap (λ r. a ∷ r) (drop_last_two-append (b ∷ c ∷ ps) p q)

abbrev pub fill_parts : ℕ → ℕ → Text → Text → List Text
fill_parts oid amount taker_pubkey commitment =
    codes "fill" ∷ str oid ∷ str amount ∷ taker_pubkey ∷ commitment ∷ []

fill_text_assoc :
    (oid amount : ℕ) (pk commitment key sig : Text)
    → signed_text (codes "fill") (fill_message oid amount pk commitment) key sig
      ≡ command_prefix ∷ join (fill_parts oid amount pk commitment ++ key ∷ sig ∷ []) space
unfolding signed_text fill_message join
fill_text_assoc oid amount pk commitment key sig =
    ap (λ r. command_prefix ∷ (codes "fill" ++ space ∷ r))
      (append_assoc (str oid) (space ∷ (str amount ++ space ∷ (pk ++ space ∷ commitment)))
          (space ∷ (key ++ space ∷ sig))
        ∙ ap (λ r. str oid ++ space ∷ r)
            (append_assoc (str amount) (space ∷ (pk ++ space ∷ commitment))
                (space ∷ (key ++ space ∷ sig))
              ∙ ap (λ r. str amount ++ space ∷ r)
                  (append_assoc pk (space ∷ commitment) (space ∷ (key ++ space ∷ sig)))))

-- The keys and texts of a `fill` message have no spaces and command prefixes, the signature no spaces.
pub record IsFill (pk commitment key sig : Text) : Type 0 where
  pub pk_chunk : IsChunk pk
  pub commitment_chunk : IsChunk commitment
  pub key_lacks : Lacks space key
  pub sig_lacks : Lacks space sig

fill-IsChunk : IsChunk (codes "fill")
unfolding ℕ_discrete
fill-IsChunk = ((refl, (refl, (refl, (refl, tt)))), (refl, (refl, (refl, (refl, tt)))))

-- The text behind the prefix.
abbrev text_behind : Text → Text
text_behind [] = []
text_behind (c ∷ s) = s

module _ (oid amount : ℕ) (pk commitment key sig : Text) (h : IsFill pk commitment key sig) where
  fill_parts-IsChunk : All IsChunk (fill_parts oid amount pk commitment)
  fill_parts-IsChunk = (
    fill-IsChunk,
    (str-IsChunk oid, (str-IsChunk amount, (h.pk_chunk, (h.commitment_chunk, tt)))),
  )

  fill_parts-spaces : All (Lacks space) (fill_parts oid amount pk commitment)
  fill_parts-spaces =
      All-weaken IsChunk (Lacks space) (fill_parts oid amount pk commitment) (λ s p. p.0)
        fill_parts-IsChunk

  split-fill_text :
      split (join (fill_parts oid amount pk commitment ++ key ∷ sig ∷ []) space) space
      ≡ fill_parts oid amount pk commitment ++ key ∷ sig ∷ []
  split-fill_text =
      split-join (codes "fill") (str oid ∷ str amount ∷ pk ∷ commitment ∷ key ∷ sig ∷ []) space (
        All-append (Lacks space) (fill_parts oid amount pk commitment) (key ∷ sig ∷ [])
          fill_parts-spaces (h.key_lacks, (h.sig_lacks, tt)))

  pub split-signed_text :
      split
        (codes "fill"
          ++ space ∷ (fill_message oid amount pk commitment ++ space ∷ (key ++ space ∷ sig)))
        space
      ≡ fill_parts oid amount pk commitment ++ key ∷ sig ∷ []
  unfolding signed_text
  split-signed_text =
      ap (λ s. split (text_behind s) space) (fill_text_assoc oid amount pk commitment key sig)
      ∙ split-fill_text

  unsigned-fill :
      unsigned_text (signed_text (codes "fill") (fill_message oid amount pk commitment) key sig)
      ≡ join (fill_parts oid amount pk commitment) space
  unfolding unsigned_text
  unsigned-fill =
      ap unsigned_text (fill_text_assoc oid amount pk commitment key sig)
      ∙ ap (λ parts. join (drop_last_two parts) space) split-fill_text
      ∙ ap (λ parts. join parts space)
          (drop_last_two-append (fill_parts oid amount pk commitment) key sig)

  fill_commands :
      split (join (fill_parts oid amount pk commitment) space) command_prefix
      ≡ join (fill_parts oid amount pk commitment) space ∷ []
  unfolding ℕ_discrete
  fill_commands = split_one (join (fill_parts oid amount pk commitment) space) command_prefix (
      Lacks-join command_prefix space (codes "fill") (str oid ∷ str amount ∷ pk ∷ commitment ∷ [])
        refl
        (All-weaken IsChunk (Lacks command_prefix) (fill_parts oid amount pk commitment)
          (λ s p. p.1) fill_parts-IsChunk))

  split-fill :
      split (join (fill_parts oid amount pk commitment) space) space
      ≡ fill_parts oid amount pk commitment
  split-fill =
      split-join (codes "fill") (str oid ∷ str amount ∷ pk ∷ commitment ∷ []) space
        fill_parts-spaces

-- What the other side calls for a `fill` message.
abbrev pub fill_calls : Hooks → Text → ℕ → ℕ → Text → Text → List Call
fill_calls hooks nick oid amount pk commitment =
    call hooks order_fill_hook (order_fill nick (pos oid) (pos amount) pk (some commitment))

fill_arguments-fill_parts :
    (oid amount : ℕ) (pk commitment : Text)
    → fill_arguments (fill_parts oid amount pk commitment)
      ≡ some (pos oid, pos amount, pk, some commitment)
unfolding fill_arguments chunk
fill_arguments-fill_parts oid amount pk commitment =
    ap (λ (o : Option ℤ). o >>= λ a. int (str amount) >>= λ b. some (a, b, pk, some commitment))
      (int-str oid)
    ∙ ap (λ (o : Option ℤ). o >>= λ b. some (pos oid, b, pk, some commitment)) (int-str amount)

private_parts-fill :
    (out : Receiver) (hooks : Hooks) (nick : Text) (directory : Option Text) (oid amount : ℕ)
    (pk commitment : Text)
    → private_parts out hooks nick directory
        (plain_chunks out nick (fill_parts oid amount pk commitment))
      ≡ (fill_calls hooks nick oid amount pk commitment, false)
unfolding plain_chunks private_parts taker_command check_for_orders check_for_fidelity_bond
    taker_calls maker_command check_for_commitments text_discrete ℕ_discrete
private_parts-fill out hooks nick directory oid amount pk commitment =
    ap (fill_result out hooks nick (fill_parts oid amount pk commitment))
      (fill_arguments-fill_parts oid amount pk commitment)

-- The `fill` message of a taker, whose signature has been checked, reaches the maker's callback with
-- the numbers, the key and the commitment that were sent.
pub on_verified_privmsg-fill_message :
    (out : Receiver) (hooks : Hooks) (nick : Text) (pending : Pending) (oid amount : ℕ)
    (pk commitment key sig : Text)
    → IsFill pk commitment key sig
    → (on_verified_privmsg out hooks nick
        (signed_text (codes "fill") (fill_message oid amount pk commitment) key sig)
        pending).1
      ≡ call hooks privmsg_trigger (nick_verified nick)
        ++ fill_calls hooks nick oid amount pk commitment
unfolding on_verified_privmsg run_commands private_command
on_verified_privmsg-fill_message out hooks nick pending oid amount pk commitment key sig h =
    let message = signed_text (codes "fill") (fill_message oid amount pk commitment) key sig in
    let directory = lookup (nick, message) pending in
    let step = private_command out hooks nick directory in
    let fill = join (fill_parts oid amount pk commitment) space in
    let done : step fill ≡ (fill_calls hooks nick oid amount pk commitment, false) =
      ap (λ parts. private_parts out hooks nick directory (plain_chunks out nick parts))
        (split-fill oid amount pk commitment key sig h)
      ∙ private_parts-fill out hooks nick directory oid amount pk commitment in
    ap
      (λ text.
        call hooks privmsg_trigger (nick_verified nick)
        ++ run_commands step (split text command_prefix))
      (unsigned-fill oid amount pk commitment key sig h)
    ∙ ap (λ commands. call hooks privmsg_trigger (nick_verified nick) ++ run_commands step commands)
        (fill_commands oid amount pk commitment key sig h)
    ∙ ap
        (λ (r : Step).
          call hooks privmsg_trigger (nick_verified nick) ++ (if r.1 then r.0 else r.0 ++ []))
        done
    ∙ ap (λ r. call hooks privmsg_trigger (nick_verified nick) ++ r)
        (append-nil (fill_calls hooks nick oid amount pk commitment))
