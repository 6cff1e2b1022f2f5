-- ===== src/Orderbook/Invariant.antt =====
-- What every history of events keeps true of the book.
use joinmarket_clientserver.Refresh.State.{is_none}
use joinmarket_clientserver.Orderbook.Events.{max_amount, max_oid}
use joinmarket_clientserver.Orderbook.Peers.{get_or_create_refresh_id}
use joinmarket_clientserver.Orderbook.Prune.{deactivate_stale, delete_orphans, is_stale}
use joinmarket_clientserver.Orderbook.Sources.{
  active_directories, deactivate_source, deactivated, delete_where, last_alive,
  refresh_active_sources, refresh_directories, update_where, upsert_source,
}
use joinmarket_clientserver.Prelude.Text.{Text, text_eq}
use joinmarket_clientserver.Orderbook.State.{Book, OrderKey, OrderRow, Peers, Sources, Source}
use joinmarket_clientserver.Prelude.Dict.{
  All-insert, Dict, insert, insert-Distinct, keys, lookup, values,
}
use joinmarket_clientserver.Prelude.{
  All, Bool, Bool-cases, Distinct, Eq, List, [], ap, arith, contains, false, inl, inr, leb_ℤ, ltb_ℤ,
  none, not, pos, refl, some, true, ℤ, ◌&&◌, ◌-ℤ◌, ◌==◌, ◌||◌, ◌∷◌, ◌≡◌, ◌≤ℤ◌, pair_eq, ℕ_eq, ℤ_eq,
}

-- An offer that passed the checks: its sizes are amounts, in order, and not below the dust
-- threshold, and its contribution is not negative.
abbrev pub RowIsValid : ℤ → OrderRow → Type 0
RowIsValid dust_threshold row =
    (pos 0 ≤ℤ row.minsize)
    × (dust_threshold ≤ℤ row.minsize)
    × (row.minsize ≤ℤ row.maxsize)
    × (row.maxsize ≤ℤ max_amount)
    × (pos 0 ≤ℤ row.txfee)

-- A source is active exactly while it has no time at which it became inactive.
abbrev pub SourceIsValid : Source → Type 0
SourceIsValid r = r.active ≡ is_none r.inactive_at

abbrev pub SourcesAreValid : {K : Type 0} ⦃e : Eq K⦄ → Sources K → Type 0
SourcesAreValid t = Distinct (keys t) × All SourceIsValid (values t)

-- The offers, with keys that occur once and an `oid` that `on_order_seen` admits.
abbrev pub OrdersAreValid : ℤ → Dict OrderKey OrderRow → Type 0
OrdersAreValid dust_threshold t =
    Distinct (keys t)
    × All (RowIsValid dust_threshold) (values t)
    × All (λ (k : OrderKey). ltb_ℤ max_oid (pos k.1) ≡ false) (keys t)

pub record IsValid (dust_threshold : ℤ) (s : Book) : Type 0 where
  pub orders : OrdersAreValid dust_threshold s.orderbook
  pub bonds : Distinct (keys s.fidelitybonds)
  pub order_sources : SourcesAreValid s.orderbook_sources
  pub bond_sources : SourcesAreValid s.fidelitybond_sources

-- Sources.
module _ {K : Type 0} ⦃e : Eq K⦄ where
  keys-update_where :
      (p : K → Text → Source → Bool) (f : Source → Source) (t : Sources K)
      → keys (update_where p f t) ≡ keys t
  unfolding update_where
  keys-update_where p f [] = refl
  keys-update_where p f (((k, d), r) ∷ t) = ap (λ ks. (k, d) ∷ ks) (keys-update_where p f t)

  update_where-All :
      (p : K → Text → Source → Bool) (f : Source → Source) (t : Sources K)
      → ((k : K) (d : Text) (r : Source) → p k d r ≡ true → SourceIsValid r → SourceIsValid (f r))
      → All SourceIsValid (values t)
      → All SourceIsValid (values (update_where p f t))
  unfolding update_where
  update_where-All p f [] keeps h = tt
  update_where-All p f (((k, d), r) ∷ t) keeps h =
      ground (arith, keeps k d r, update_where-All p f t keeps h.1)

  pub update_where-Valid :
      (p : K → Text → Source → Bool) (f : Source → Source) (t : Sources K)
      → ((k : K) (d : Text) (r : Source) → p k d r ≡ true → SourceIsValid r → SourceIsValid (f r))
      → SourcesAreValid t
      → SourcesAreValid (update_where p f t)
  update_where-Valid p f t keeps v =
      (rw (keys-update_where p f t) v.0, update_where-All p f t keeps v.1)

  contains-delete_where :
      (p : K → Text → Source → Bool) (t : Sources K) (j : K × Text)
      → contains j (keys t) ≡ false
      → contains j (keys (delete_where p t)) ≡ false
  unfolding delete_where
  contains-delete_where p [] j h = refl
  contains-delete_where p (((k, d), r) ∷ t) j h = ground (arith, contains-delete_where p t j)

  pub delete_where-Valid :
      (p : K → Text → Source → Bool) (t : Sources K)
      → SourcesAreValid t
      → SourcesAreValid (delete_where p t)
  unfolding delete_where
  delete_where-Valid p [] v = v
  delete_where-Valid p (((k, d), r) ∷ t) v =
      ground (arith, delete_where-Valid p t (v.0.1, v.1.1), contains-delete_where p t (k, d))

  pub deactivate_source-Valid :
      (k : K) (d : Text) (now : ℤ) (t : Sources K)
      → SourcesAreValid t
      → SourcesAreValid (deactivate_source k d now t)
  unfolding deactivate_source
  deactivate_source-Valid k d now t v =
      update_where-Valid (λ j c r. j == k && c == d) (deactivated now) t (λ j c r p h. ground arith)
        v

  pub refresh_directories-Valid :
      (ids : Text → Text) (k : K) (now : ℤ) (ds : List Text) (peers : Peers) (t : Sources K)
      → SourcesAreValid t
      → SourcesAreValid (refresh_directories ids k now ds peers t).1
  unfolding refresh_directories
  refresh_directories-Valid ids k now [] peers t v = v
  refresh_directories-Valid ids k now (d ∷ ds) peers t v =
      let found = get_or_create_refresh_id ids d peers in
      refresh_directories-Valid ids k now ds found.0
        (update_where (λ j c r. j == k && c == d && r.active)
          (λ r. record r { last_seen_at = now; last_refresh_id = found.1; inactive_at = none }) t)
        (update_where-Valid (λ j c r. j == k && c == d && r.active)
          (λ r. record r { last_seen_at = now; last_refresh_id = found.1; inactive_at = none }) t
          (λ j c r p h. ground arith) v)

  pub upsert_source-Valid :
      (ids : Text → Text) (k : K) (d : Text) (now : ℤ) (peers : Peers) (t : Sources K)
      → SourcesAreValid t
      → SourcesAreValid (upsert_source ids k d now peers t).1
  unfolding upsert_source refresh_active_sources
  upsert_source-Valid ids k d now peers t v =
      let found = get_or_create_refresh_id ids d peers in
      let row : Source = record {
        first_seen_at = elim (lookup (k, d) t) [ none ↦ now | some r ↦ r.first_seen_at ];
        last_seen_at = now;
        last_refresh_id = found.1;
        active = true;
        inactive_at = none;
      } in
      refresh_directories-Valid ids k now (active_directories k (insert (k, d) row t)) found.0
        (insert (k, d) row t)
        (insert-Distinct (k, d) row t v.0, All-insert SourceIsValid (k, d) row t (refl) v.1)

  pub delete_orphans-Valid :
      {V : Type 0} (now retention_seconds : ℤ) (rows : Dict K V) (t : Sources K)
      → SourcesAreValid t
      → SourcesAreValid (delete_orphans now retention_seconds rows t)
  unfolding delete_orphans
  delete_orphans-Valid now retention_seconds rows t v =
      elim (Bool-cases (ltb_ℤ retention_seconds (pos 0))) [
        | inl q ↦ rw q v
        | inr q ↦ rw q (
            delete_where-Valid
              (λ k d r.
                not (contains k (keys rows))
                && (retention_seconds == pos 0 || leb_ℤ retention_seconds (now -ℤ last_alive r)))
              t v)
      ]

  pub deactivate_stale-Valid :
      (now ttl : ℤ) (t : Sources K)
      → SourcesAreValid t
      → SourcesAreValid (deactivate_stale now ttl t)
  unfolding deactivate_stale
  deactivate_stale-Valid now ttl t v = elim (Bool-cases (ltb_ℤ (pos 0) ttl)) [
    | inl q ↦ rw q (
        update_where-Valid (λ k d r. is_stale now ttl r) (deactivated now) t
          (λ j c r p h. ground arith) v)
    | inr q ↦ rw q v
  ]
