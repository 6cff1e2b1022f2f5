-- ===== src/Refresh/Rows.antt =====
-- What the methods of the refresh store do to the row of each directory.
use mathlib.Core.Option
use joinmarket_clientserver.Prelude.{
  ◌≡◌, refl, ap, Option, none, some, List, [], ◌∷◌, arith, if◌then◌else◌, ◌==◌, ℤ, Distinct, All,
}
use joinmarket_clientserver.Prelude.Dict.{
  keys, values, lookup, insert, lookup-insert, lookup-update, insert-Distinct, keys-update,
  All-insert, All-update,
}
use joinmarket_clientserver.Prelude.Text.{Text, text_eq}
use joinmarket_clientserver.Refresh.State.{Peer, Table, new_peer, coalesce}
use joinmarket_clientserver.Refresh.Updates.{
  migrate, migrate_peer, ensure_directory, touch, touch_all,
}

lookup-ensure_directory :
    (d : Text) (now : ℤ) (j : Text) (t : Table)
    → lookup j (ensure_directory d now t)
      ≡ (if d == j then some (coalesce (lookup j t) (new_peer now)) else lookup j t)
unfolding ensure_directory
lookup-ensure_directory d now j t = ground (arith, lookup-insert d j (new_peer now) t)

-- The row of `d` is updated, from a new one if there was none; the others stay.
pub lookup-touch :
    (d : Text) (now : ℤ) (f : Peer → Peer) (j : Text) (t : Table)
    → lookup j (touch d now f t)
      ≡ (if d == j then some (f (coalesce (lookup j t) (new_peer now))) else lookup j t)
unfolding touch
lookup-touch d now f j t =
    ground
      (arith, lookup-update d j f (ensure_directory d now t), lookup-ensure_directory d now j t)

pub lookup-migrate :
    (now : ℤ) (j : Text) (t : Table)
    → lookup j (migrate now t) ≡ Option.map (migrate_peer now) (lookup j t)
unfolding migrate lookup
lookup-migrate now j [] = refl
lookup-migrate now j ((d, r) ∷ t) = ground (arith, lookup-migrate now j t)

-- A fact about rows that new rows have and an update keeps.
module _ (P : Peer → Type 0) where
  pub touch-All :
      (d : Text) (now : ℤ) (f : Peer → Peer) (t : Table)
      → P (new_peer now)
      → ((r : Peer) → P r → P (f r))
      → All P (values t)
      → All P (values (touch d now f t))
  unfolding touch
  touch-All d now f t fresh keeps h =
      All-update P d f (ensure_directory d now t) keeps (go (lookup d t))
    where
      go :
          (o : Option Peer)
          → All P (values (elim o [ none ↦ insert d (new_peer now) t | some _ ↦ t ]))
      go none = All-insert P d (new_peer now) t fresh h
      go (some _) = h

  pub touch_all-All :
      (ds : List Text) (now : ℤ) (f : Peer → Peer) (t : Table)
      → P (new_peer now)
      → ((r : Peer) → P r → P (f r))
      → All P (values t)
      → All P (values (touch_all ds now f t))
  unfolding touch_all
  touch_all-All [] now f t fresh keeps h = h
  touch_all-All (d ∷ ds) now f t fresh keeps h =
      touch_all-All ds now f (touch d now f t) fresh keeps (touch-All d now f t fresh keeps h)

  pub migrate-All :
      (now : ℤ) (t : Table)
      → ((r : Peer) → P r → P (migrate_peer now r))
      → All P (values t)
      → All P (values (migrate now t))
  unfolding migrate
  migrate-All now [] keeps h = tt
  migrate-All now ((d, r) ∷ t) keeps h = (keeps r h.0, migrate-All now t keeps h.1)

pub touch-Distinct :
    (d : Text) (now : ℤ) (f : Peer → Peer) (t : Table)
    → Distinct (keys t)
    → Distinct (keys (touch d now f t))
unfolding touch
touch-Distinct d now f t h = rw (keys-update d f (ensure_directory d now t)) (go (lookup d t))
  where
    go :
        (o : Option Peer)
        → Distinct (keys (elim o [ none ↦ insert d (new_peer now) t | some _ ↦ t ]))
    go none = insert-Distinct d (new_peer now) t h
    go (some _) = h

pub touch_all-Distinct :
    (ds : List Text) (now : ℤ) (f : Peer → Peer) (t : Table)
    → Distinct (keys t)
    → Distinct (keys (touch_all ds now f t))
unfolding touch_all
touch_all-Distinct [] now f t h = h
touch_all-Distinct (d ∷ ds) now f t h =
    touch_all-Distinct ds now f (touch d now f t) (touch-Distinct d now f t h)

pub keys-migrate : (now : ℤ) (t : Table) → keys (migrate now t) ≡ keys t
unfolding migrate
keys-migrate now [] = refl
keys-migrate now ((d, r) ∷ t) = ap (◌∷◌ d) (keys-migrate now t)
