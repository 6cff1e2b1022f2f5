-- ===== src/Penalty/Queries.antt =====
-- What `MakerPenaltyStore` reads: the configured bans and the active cooldowns and bans. Each method
-- takes the time that `_now_int` returns.
use joinmarket_clientserver.Prelude.{
  Bool, not, ◌&&◌, ◌||◌, none, some, List, [], ◌∷◌, ◌++◌, map, if◌then◌else◌, ◌==◌, keep, dedup, ℤ,
  pos, ltb_ℤ, ℤ_eq,
}
use joinmarket_clientserver.Prelude.Dict.{Dict}
use joinmarket_clientserver.Prelude.Sort.{sort}
use joinmarket_clientserver.Prelude.Text.{
  is_empty, Text, text_eq, text_leb, strip, splitlines, replace_code,
}
use joinmarket_clientserver.Penalty.State.{Row, Store, Policy, starts_with_hash}

unfoldable pub split_nicks : Text → List Text
split_nicks value = dedup (
    keep (λ nick. not (is_empty nick || starts_with_hash nick))
      (map strip (splitlines (replace_code b',' 10 value))))

unfoldable pub configured_bans : Policy → List Text
unfolding split_nicks
configured_bans p =
    sort text_leb (
      dedup
        (split_nicks p.ban_list ++ elim p.ban_file [ none ↦ [] | some text ↦ split_nicks text ]))

-- `[nick for nick, row in rows if p(row)]`, which a SELECT then orders by nick
unfoldable pub nicks_where : (Row → Bool) → Dict Text Row → List Text
nicks_where p [] = []
nicks_where p ((k, r) ∷ d) = if p r then k ∷ nicks_where p d else nicks_where p d

unfoldable pub active_cooldowns : ℤ → Store → List Text
active_cooldowns now s = sort text_leb (nicks_where (λ r. ltb_ℤ now r.cooldown_until) s.penalties)

abbrev pub is_banned : ℤ → Row → Bool
is_banned now r = r.banned && (r.banned_until == pos 0 || ltb_ℤ now r.banned_until)

unfoldable pub active_db_bans : ℤ → Store → List Text
active_db_bans now s = sort text_leb (nicks_where (is_banned now) s.penalties)

unfoldable pub active_hard_bans : Policy → ℤ → Store → List Text
unfolding configured_bans active_db_bans
active_hard_bans p now s = sort text_leb (dedup (configured_bans p ++ active_db_bans now s))
