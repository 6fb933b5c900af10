-- ===== src/Cache/Expiry.antt =====
-- rate-limiter/internal/cache/cache.go: what expires, and a deletion that comes too late.
use rate_limiter.Base.{
  ℕ, ◌≡◌, refl, ap, ◌∙◌, ◌⊎◌, inl, inr, Bool, true, false, ◌||◌, Option, none, some, List, [], ◌∷◌,
  ◌++◌, arith, if◌then◌else◌, Bool-cases, Option-cases,
}
use rate_limiter.Base.Dict.{Dict, lookup, lookup-insert, lookup-delete}
use rate_limiter.Base.Sync.{Time, Duration, after}
use rate_limiter.Base.Text.{Text, text_eq, text_eq_iff, text_eq_refl}
use rate_limiter.Cache.{
  Memory, Entry, LocalCache, copy_to, take_pooled, run_pending, SetReadings, get, set, delete_key,
  settle, expired_keys, drop_expired, clean_expired,
}
use rate_limiter.Cache.Bounds.{new_entry, set_cases}

-- An entry that has not expired.
abbrev pub alive : Time → Option Entry → Option Entry
alive now none = none
alive now (some e) = if after now e.expiry then none else some e

abbrev member : Text → List Text → Bool
member j [] = false
member j (k ∷ ks) = text_eq k j || member j ks

alive_twice : (now : Time) (o : Option Entry) → alive now (alive now o) ≡ alive now o
alive_twice now none = refl
alive_twice now (some e) = ground arith

drop_one :
    (now : Time) (j k : Text) (c : LocalCache)
    → lookup j (drop_expired now (k ∷ []) c).entries
      ≡ (if text_eq k j then alive now (lookup j c.entries) else lookup j c.entries)
unfolding drop_expired
drop_one now j k c = elim (Option-cases (lookup k c.entries)) [
  | inl new ↦ ground (arith, new, text_eq_iff k j)
  | inr (w, old) ↦ ground (arith, old, text_eq_iff k j, lookup-delete k j c.entries)
]

drop_more :
    (now : Time) (k : Text) (ks : List Text) (c : LocalCache)
    → drop_expired now (k ∷ ks) c ≡ drop_expired now ks (drop_expired now (k ∷ []) c)
unfolding drop_expired
drop_more now k ks c = refl

drop-lookup :
    (now : Time) (j : Text) (ks : List Text) (c : LocalCache)
    → lookup j (drop_expired now ks c).entries
      ≡ (if member j ks then alive now (lookup j c.entries) else lookup j c.entries)
drop-lookup now j [] c = unfold drop_expired in refl
drop-lookup now j (k ∷ ks) c = ground (
  arith,
  drop_more now k ks c,
  drop-lookup now j ks (drop_expired now (k ∷ []) c),
  drop_one now j k c,
  alive_twice now (lookup j c.entries),
)

unlisted_alive :
    (now : Time) (j : Text) (es : Dict Entry)
    → member j (expired_keys now es) ≡ false
    → alive now (lookup j es) ≡ lookup j es
unfolding expired_keys lookup
unlisted_alive now j [] h = refl
unlisted_alive now j ((k, e) ∷ es) h = ground (arith, unlisted_alive now j es)

-- The janitor's cleaning drops the expired entries and no other: every key has its entry if that
-- has not expired, and none otherwise.
pub lookup-clean_expired :
    (now : Time) (j : Text) (c : LocalCache)
    → lookup j (clean_expired now c).entries ≡ alive now (lookup j c.entries)
unfolding clean_expired
lookup-clean_expired now j c =
    ground (arith, drop-lookup now j (expired_keys now c.entries) c, unlisted_alive now j c.entries)

pub lookup-set_self :
    (t : SetReadings) (key : Text) (result : ℕ) (ttl : Duration) (c : LocalCache)
    → lookup key (set t none key result ttl c).0.entries ≡ some (new_entry t key result ttl c)
lookup-set_self t key result ttl c = elim (set_cases t key result ttl c) [
  | inl (_, e) ↦ rw (e, lookup-insert key key, text_eq_refl key)
  | inr (inl (_, e)) ↦ rw (e, lookup-insert key key, text_eq_refl key)
  | inr (inr (_, _, e)) ↦ rw (e, lookup-insert key key, text_eq_refl key)
]

pub copied :
    (o : Option (ℕ × List ℕ)) (r : ℕ) (m : Memory) (c : LocalCache)
    → (p : ℕ) × ((copy_to o r m c).found ≡ some p)
      × ((copy_to o r m c).memory.cell p ≡ m.cell r)
      × ((copy_to o r m c).cache.entries ≡ c.entries)
unfolding copy_to
copied none r m c = (m.next, refl, ground arith, refl)
copied (some (p, ps)) r m c = (p, refl, ground arith, refl)

-- `get` of a key whose entry has not expired.
pub get-copy_to :
    (now : Time) (pick : ℕ) (key : Text) (m : Memory) (c : LocalCache) (e : Entry)
    → lookup key c.entries ≡ some e
    → after now e.expiry ≡ false
    → get now pick none key m c ≡ copy_to (take_pooled pick c.result_pool) e.result m c
unfolding get
get-copy_to now pick key m c e at live = ground (arith, at)

pub get_expired :
    (now : Time) (pick : ℕ) (key : Text) (m : Memory) (c : LocalCache) (e : Entry)
    → lookup key c.entries ≡ some e
    → after now e.expiry ≡ true
    → get now pick none key m c
      ≡ record { cache = record c { pending = c.pending ++ key ∷ [] }; memory = m; found = none }
unfolding get
get_expired now pick key m c e at late = ground (arith, at)

-- `Set`, then `Get` of the key: until the entry's time to live has passed (the default one, if none
-- is given), the result that comes back is a copy of the one that was stored, whatever the pool
-- gives; afterwards nothing comes back, and a deletion of the key is left to a goroutine.
pub get-set :
    (t : SetReadings) (key : Text) (result : ℕ) (ttl : Duration) (c : LocalCache) (now : Time)
    (pick : ℕ) (m : Memory)
    → let c' = (set t none key result ttl c).0 in
      let g = get now pick none key m c' in
      ((after now (new_entry t key result ttl c).expiry ≡ false)
        × ((p : ℕ) × (g.found ≡ some p) × (g.memory.cell p ≡ m.cell result)))
      ⊎ ((after now (new_entry t key result ttl c).expiry ≡ true)
          × (g.found ≡ none)
          × (g.cache.pending ≡ c'.pending ++ key ∷ []))
get-set t key result ttl c now pick m =
    let e = new_entry t key result ttl c in
    let c' = (set t none key result ttl c).0 in
    let at = lookup-set_self t key result ttl c in
    elim (Bool-cases (after now e.expiry)) [
      | inl late ↦
          let gone = get_expired now pick key m c' e at late in
          inr (late, ap (λ g. g.found) gone, ap (λ g. g.cache.pending) gone)
      | inr live ↦
          let (p, found, copy, same) = copied (take_pooled pick c'.result_pool) result m c' in
          let eq = get-copy_to now pick key m c' e at live in
          inl (live, (p, ap (λ g. g.found) eq ∙ found, ap (λ g. g.memory.cell p) eq ∙ copy))
    ]

delete-lookup :
    (key : Text) (c : LocalCache) (e : Entry)
    → lookup key c.entries ≡ some e
    → lookup key (delete_key none key c).0.entries ≡ none
unfolding delete_key
delete-lookup key c e at = ground (arith, at, lookup-delete key key c.entries, text_eq_refl key)

set-pending :
    (t : SetReadings) (key : Text) (result : ℕ) (ttl : Duration) (c : LocalCache)
    → (set t none key result ttl c).0.pending ≡ c.pending
unfolding set
set-pending t key result ttl c = refl

settle_one :
    (key : Text) (c : LocalCache) (e : Entry)
    → c.pending ≡ key ∷ []
    → lookup key c.entries ≡ some e
    → lookup key (settle c).entries ≡ none
unfolding settle
settle_one key c e waits at =
    ap (λ ks. lookup key (run_pending ks (record c { pending = [] })).entries) waits
    ∙ delete-lookup key (record c { pending = [] }) e at

-- The bug: when `Get` meets an expired entry and `Set` stores a new one before the goroutine that
-- `Get` started has run, the deletion removes the new entry.
pub stale_deletion :
    (now : Time) (pick : ℕ) (m : Memory) (c : LocalCache) (e : Entry) (t : SetReadings) (key : Text)
    (result : ℕ) (ttl : Duration)
    → lookup key c.entries ≡ some e
    → after now e.expiry ≡ true
    → c.pending ≡ []
    → let c' = (set t none key result ttl (get now pick none key m c).cache).0 in
      (lookup key c'.entries ≡ some (new_entry t key result ttl c))
      × (lookup key (settle c').entries ≡ none)
stale_deletion now pick m c e t key result ttl at late idle =
    let c₁ = record c { pending = c.pending ++ key ∷ [] } in
    let gone = ap (λ g. g.cache) (get_expired now pick key m c e at late) in
    let stored = lookup-set_self t key result ttl c₁ in
    (
      ap (λ d. lookup key (set t none key result ttl d).0.entries) gone ∙ stored,
      ap (λ d. lookup key (settle (set t none key result ttl d).0).entries) gone
          ∙ settle_one key (set t none key result ttl c₁).0 (new_entry t key result ttl c)
              (set-pending t key result ttl c₁ ∙ ap (λ l. l ++ key ∷ []) idle) stored,
    )
