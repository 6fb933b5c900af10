-- ===== src/Cache/Aliasing.antt =====
-- rate-limiter/internal/cache/cache.go: the results that the cache shares with its callers, and the
-- pool that they go back to.
use rate_limiter.Base.{
  ℕ, zero, suc, ◌<◌, ◌≡◌, ◌≢◌, refl, sym, ap, ◌∙◌, inl, inr, false, Option, none, some, List, [],
  ◌∷◌, arith, Option-cases, All,
}
use rate_limiter.Base.Dict.{lookup, lookup-delete}
use rate_limiter.Base.Sync.{Time, after}
use rate_limiter.Base.Text.{Text, text_eq_ne}
use rate_limiter.Cache.{Memory, Entry, LocalCache, copy_to, take_pooled, get, delete_key, results}
use rate_limiter.Cache.Expiry.{get-copy_to}

-- An address is not in a list.
abbrev pub Apart : ℕ → List ℕ → Type 0
Apart p = All (λ q. p ≢ q)

-- The entries' results are in use, and none of them is in the pool.
abbrev pub IsSeparate : Memory → LocalCache → Type 0
IsSeparate m c = All (λ p. (p < m.next) × Apart p c.result_pool) (results c.entries)

taken_from :
    (pick : ℕ) (ps : List ℕ) (r p : ℕ) (qs : List ℕ)
    → Apart r ps
    → take_pooled pick ps ≡ some (p, qs)
    → r ≢ p
unfolding take_pooled
taken_from pick [] r p qs a h = cc
taken_from zero (x ∷ ps) r p qs a h = ground arith
taken_from (suc pick) (x ∷ ps) r p qs a h = elim (Option-cases (take_pooled pick ps)) [
  | inl gone ↦ absurd (ground (arith, gone))
  | inr ((y, ys), kept) ↦ ground (arith, kept, taken_from pick ps r y ys a.1 kept)
]

untouched :
    (o : Option (ℕ × List ℕ)) (r e : ℕ) (m : Memory) (c : LocalCache)
    → r < m.next
    → ((p : ℕ) (qs : List ℕ) → o ≡ some (p, qs) → r ≢ p)
    → (copy_to o e m c).memory.cell r ≡ m.cell r
unfolding copy_to
untouched none r e m c used h = ground arith
untouched (some (p, qs)) r e m c used h = ground (arith, h p qs refl)

All-untouched :
    (o : Option (ℕ × List ℕ)) (e : ℕ) (m : Memory) (c : LocalCache) (pick : ℕ) (rs : List ℕ)
    → o ≡ take_pooled pick c.result_pool
    → All (λ p. (p < m.next) × Apart p c.result_pool) rs
    → All (λ r. (copy_to o e m c).memory.cell r ≡ m.cell r) rs
All-untouched o e m c pick [] h s = tt
All-untouched o e m c pick (r ∷ rs) h s = (
  untouched o r e m c s.0.0 (λ p qs q. taken_from pick c.result_pool r p qs s.0.1 (sym h ∙ q)),
  All-untouched o e m c pick rs h s.1,
)

-- While no entry's result is in the pool, a hit changes the result of no entry.
pub get_keeps_results :
    (now : Time) (pick : ℕ) (key : Text) (m : Memory) (c : LocalCache) (e : Entry)
    → lookup key c.entries ≡ some e
    → after now e.expiry ≡ false
    → IsSeparate m c
    → All (λ r. (get now pick none key m c).memory.cell r ≡ m.cell r) (results c.entries)
get_keeps_results now pick key m c e at live s =
    rw (get-copy_to now pick key m c e at live)
      (All-untouched (take_pooled pick c.result_pool) e.result m c pick (results c.entries) refl s)

-- The bug: after `Delete` of a key that is in the cache, a hit on another key, whose entry has not
-- expired, is given the very result of the deleted entry, if the pool gives what it took last, and
-- copies the other key's result into it: whoever still holds the deleted result now reads the
-- other key's.
pub deleted_result_overwritten :
    (now : Time) (key other : Text) (m : Memory) (c : LocalCache) (e f : Entry)
    → key ≢ other
    → lookup key c.entries ≡ some e
    → lookup other c.entries ≡ some f
    → after now f.expiry ≡ false
    → let g = get now 0 none other m (delete_key none key c).0 in
      (g.found ≡ some e.result) × (g.memory.cell e.result ≡ m.cell f.result)
deleted_result_overwritten now key other m c e f differ at there live =
    let c' = (delete_key none key c).0 in
    let still : lookup other c'.entries ≡ some f =
      unfold delete_key in
      ground (arith, at, lookup-delete key other c.entries, text_eq_ne key other differ) in
    let pooled : take_pooled 0 c'.result_pool ≡ some (e.result, c.result_pool) =
      unfold delete_key take_pooled in ground (arith, at) in
    let eq = get-copy_to now 0 other m c' f still live in
    (
      ap (λ g. g.found) eq ∙ unfold copy_to in ground (arith, pooled),
      ap (λ g. g.memory.cell e.result) eq ∙ unfold copy_to in ground (arith, pooled),
    )
