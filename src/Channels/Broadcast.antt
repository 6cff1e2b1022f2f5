-- ===== src/Channels/Broadcast.antt =====
-- No maker gets the transaction if one of them cannot be reached: `send_tx`.
use joinmarket_clientserver.Channels.Send.{add_to_set, tx_nick_sets, Outside, send_tx}
use joinmarket_clientserver.Prelude.Text.{Text, text_eq}
use joinmarket_clientserver.Channels.State.{Collection}
use joinmarket_clientserver.Prelude.Dict.{Dict, contains-keys, keys, lookup}
use joinmarket_clientserver.Prelude.{
  List, [], arith, contains, none, refl, some, true, ℕ, ◌∷◌, ◌≡◌, ℕ_eq, false,
}

tx_nick_sets-none :
    (active : Dict Text ℕ) (nick : Text)
    → contains nick (keys active) ≡ false
    → (nicks : List Text) (sets : Dict ℕ (List Text)) → contains nick nicks ≡ true
    → tx_nick_sets active nicks sets ≡ none
unfolding tx_nick_sets
tx_nick_sets-none active nick h [] sets m = absurd (cc)
tx_nick_sets-none active nick h (n ∷ nicks) sets m =
    elim (lookup n active)
        as (λ o.
          lookup n active ≡ o
          → (elim o [ none ↦ none | some mc ↦ tx_nick_sets active nicks (add_to_set mc n sets) ]
              ≡ none)) [
                | none ↦ λ q. refl
                | some mc ↦ λ q.
                    tx_nick_sets-none active nick h nicks (add_to_set mc n sets)
                      (ground (arith, contains-keys nick active, contains-keys n active))
              ]
      refl

-- If some nick of the list has no active channel, nothing is sent to anyone.
pub send_tx-none :
    (out : Outside) (tx : Text) (nick : Text) (nick_list : List Text) (s : Collection)
    → contains nick nick_list ≡ true
    → contains nick (keys s.active_channels) ≡ false
    → send_tx out nick_list tx s ≡ (s, [])
unfolding send_tx
send_tx-none out tx nick nick_list s m h =
    rw (send_tx, tx_nick_sets-none s.active_channels nick h nick_list [] m) refl
