-- ===== src/Cache/Bounds.antt =====
-- rate-limiter/internal/cache/cache.go: `Set` keeps the cache within its size, and evicts the
-- entry that was updated the longest ago.
use rate_limiter.Base.{
  ℕ, ◌+◌, ◌≤◌, ◌<◌, ◌≡◌, ◌≢◌, refl, ◌∙◌, sym, ◌⊎◌, inl, inr, none, some, [], ◌∷◌, arith, length,
  All, Bool-cases, Option-cases, ap, if◌then◌else◌,
}
use rate_limiter.Base.Dict.{
  Dict, lookup, insert, delete, length-insert, length-insert_present, length-delete_present,
  lookup-insert, lookup-delete,
}
use rate_limiter.Base.Int.{pos, leb_ℤ, ◌≤ℤ◌, ◌<ℤ◌}
use rate_limiter.Base.Sync.{Time, Duration, before, add_time}
use rate_limiter.Base.Text.{Text, text_eq, text_eq_iff, text_eq_refl, text_eq_ne}
use rate_limiter.Cache.{Entry, LocalCache, SetReadings, oldest, evict, set}

-- No two entries have one key.
abbrev pub Unique {ℓ} : {V : Type ℓ} → Dict V → Type ℓ
Unique [] = Unit
Unique ((k, v) ∷ m) = (lookup k m ≡ none) × Unique m

-- No key is empty, and every entry was updated before `now`.
abbrev pub Stamped : Time → Dict Entry → Type 0
Stamped now = All (λ kv. (kv.0 ≢ []) × (kv.1.last_updated <ℤ now))

abbrev pub NotBefore : Time → Dict Entry → Type 0
NotBefore t = All (λ kv. t ≤ℤ kv.1.last_updated)

NotBefore-mono : (t u : Time) (es : Dict Entry) → t ≤ℤ u → NotBefore u es → NotBefore t es
NotBefore-mono t u [] h n = tt
NotBefore-mono t u ((k, e) ∷ es) h n = (omega arith, NotBefore-mono t u es h n.1)

-- What the loop finds, started from a key and a time.
abbrev Finds : Text → Time → Text → Dict Entry → Type 0
Finds key best found es =
    ((found ≡ key) × NotBefore best es)
    ⊎ ((e : Entry) × (lookup found es ≡ some e)
        × (e.last_updated <ℤ best)
        × NotBefore e.last_updated es)

lookup-skip :
    (k r : Text) (e x : Entry) (es : Dict Entry)
    → lookup k es ≡ none
    → lookup r es ≡ some x
    → lookup r ((k, e) ∷ es) ≡ some x
unfolding lookup
lookup-skip k r e x es h f = ground (arith, text_eq_iff k r)

lookup-first : (k : Text) (e : Entry) (es : Dict Entry) → lookup k ((k, e) ∷ es) ≡ some e
unfolding lookup
lookup-first k e es = rw (text_eq_refl k)

oldest-Finds :
    (key : Text) (best : Time) (es : Dict Entry)
    → Unique es
    → Finds key best (oldest key best es) es
unfolding oldest
oldest-Finds key best [] u = inl (refl, tt)
oldest-Finds key best ((k, e) ∷ es) u = elim (Bool-cases (before e.last_updated best)) [
  | inl older ↦ rw older (elim (oldest-Finds k e.last_updated es u.1) [
    | inl (same, rest) ↦ inr (e, rw same (lookup-first k e es), ground arith, (ground arith, rest))
    | inr (x, at, lt, rest) ↦
        inr (x, lookup-skip k _ e x es u.0 at, ground arith, (ground arith, rest))
  ])
  | inr newer ↦ rw newer (elim (oldest-Finds key best es u.1) [
    | inl (same, rest) ↦ inl (same, (ground arith, rest))
    | inr (x, at, lt, rest) ↦ inr (x, lookup-skip k _ e x es u.0 at, lt, (ground arith, rest))
  ])
]

-- Of entries with different keys, all updated before now, the loop finds one than which no other
-- was updated longer ago.
oldest_least :
    (now : Time) (kv : Text × Entry) (es : Dict Entry)
    → Unique (kv ∷ es)
    → Stamped now (kv ∷ es)
    → (e : Entry) × (lookup (oldest [] now (kv ∷ es)) (kv ∷ es) ≡ some e)
      × NotBefore e.last_updated (kv ∷ es)
oldest_least now kv es u s = elim (oldest-Finds [] now (kv ∷ es) u) [
  | inl (same, none_older) ↦ absurd (omega arith)
  | inr (e, at, lt, least) ↦ (e, at, least)
]

Stamped-key :
    (now : Time) (k : Text) (e : Entry) (es : Dict Entry)
    → Stamped now es
    → lookup k es ≡ some e
    → k ≢ []
unfolding lookup
Stamped-key now k e [] s h = cc
Stamped-key now k e ((j, f) ∷ es) s h = ground (arith, text_eq_iff j k, Stamped-key now k e es s.1)

-- The cache is full, and `key` would be a new entry.
abbrev pub Evicts : Text → LocalCache → Type 0
Evicts key c = (c.max_size ≤ℤ pos (length c.entries)) × (lookup key c.entries ≡ none)

-- `evict` on entries that are there: the oldest goes.
evict_lem :
    (now : Time) (kv : Text × Entry) (es : Dict Entry)
    → Unique (kv ∷ es)
    → Stamped now (kv ∷ es)
    → (victim : Text) × (e : Entry) × (evict now (kv ∷ es) ≡ delete victim (kv ∷ es))
      × (lookup victim (kv ∷ es) ≡ some e)
      × NotBefore e.last_updated (kv ∷ es)
unfolding evict
evict_lem now kv es u s =
    let (e, at, least) = oldest_least now kv es u s in
    let victim = oldest [] now (kv ∷ es) in
    let named = text_eq_ne victim [] (Stamped-key now victim e (kv ∷ es) s at) in
    (victim, e, rw named, at, least)

-- What an eviction does to the entry of a key.
abbrev pub Kept : Text → Dict Entry → Dict Entry → Type 0
Kept j before_it after_it =
    (lookup j after_it ≡ lookup j before_it)
    ⊎ ((e : Entry) × (lookup j before_it ≡ some e)
        × (lookup j after_it ≡ none)
        × NotBefore e.last_updated before_it)

evict-Kept :
    (now : Time) (es : Dict Entry) (j : Text)
    → Unique es
    → Stamped now es
    → Kept j es (evict now es)
evict-Kept now [] j u s = unfold evict oldest text_eq in inl refl
evict-Kept now (kv ∷ es) j u s =
    let (victim, e, eq, at, least) = evict_lem now kv es u s in
    elim (Bool-cases (text_eq victim j)) [
      | inl hit ↦
          let same = (text_eq_iff victim j).0 hit in
          inr (e, rw (← same) at, rw (eq, lookup-delete victim j (kv ∷ es), hit), least)
      | inr miss ↦ inl (rw (eq, lookup-delete victim j (kv ∷ es), miss))
    ]

evict-shorter :
    (now : Time) (es : Dict Entry)
    → 0 < length es
    → Unique es
    → Stamped now es
    → length (evict now es) + 1 ≤ length es
evict-shorter now [] h u s = absurd (omega arith)
evict-shorter now (kv ∷ es) h u s =
    let (victim, e, eq, at, least) = evict_lem now kv es u s in
    rw eq (length-delete_present victim e (kv ∷ es) at)

module _ (t : SetReadings) (key : Text) (result : ℕ) (ttl : Duration) (c : LocalCache) where
  -- The entry that `Set` makes.
  abbrev pub new_entry : Entry
  new_entry = record {
    result = result;
    expiry = add_time t.expires (if leb_ℤ ttl (pos 0) then c.default_ttl else ttl);
    last_updated = t.updated;
  }

  pub set_cases :
      let c' = (set t none key result ttl c).0 in
      (Evicts key c × (c'.entries ≡ insert key new_entry (evict t.evicts c.entries)))
      ⊎ ((pos (length c.entries) <ℤ c.max_size) × (c'.entries ≡ insert key new_entry c.entries))
      ⊎ ((w : Entry) × (lookup key c.entries ≡ some w)
          × (c'.entries ≡ insert key new_entry c.entries))
  unfolding set
  set_cases = elim (Option-cases (lookup key c.entries)) [
    | inl new ↦ ground (arith, new)
    | inr (w, old) ↦ inr (inr (w, old, ground (arith, old)))
  ]

  -- `Set` keeps a cache within a positive size, if no key is empty, no two entries have one key,
  -- and every entry was updated before the moment of the eviction.
  pub set_bound :
      pos 1 ≤ℤ c.max_size
      → pos (length c.entries) ≤ℤ c.max_size
      → Unique c.entries
      → Stamped t.evicts c.entries
      → pos (length (set t none key result ttl c).0.entries) ≤ℤ c.max_size
  set_bound one within u s = elim set_cases [
    | inl (full, e) ↦ rw e (
        omega (
          arith,
          evict-shorter t.evicts c.entries (omega arith) u s,
          length-insert key new_entry (evict t.evicts c.entries),
        ))
    | inr (inl (roomy, e)) ↦ rw e (omega (arith, length-insert key new_entry c.entries))
    | inr (inr (w, old, e)) ↦ rw (e, length-insert_present key new_entry w c.entries old) within
  ]

  -- After `Set` the key has the new entry, and any other key has the entry it had, unless the cache
  -- was full, the key new and that entry the one to go: then no other was updated longer ago. (No
  -- key is empty, no two entries have one key, and all were updated before the moment of the
  -- eviction.)
  pub set_evicts_oldest :
      Unique c.entries
      → Stamped t.evicts c.entries
      → let c' = (set t none key result ttl c).0 in
        (lookup key c'.entries ≡ some new_entry)
        × ((j : Text)
            → j ≢ key
            → (lookup j c'.entries ≡ lookup j c.entries)
              ⊎ ((e : Entry) × Evicts key c
                  × (lookup j c.entries ≡ some e)
                  × (lookup j c'.entries ≡ none)
                  × NotBefore e.last_updated c.entries))
  set_evicts_oldest u s = elim set_cases [
    | inl (full, e) ↦ (
      rw (e, lookup-insert key key new_entry (evict t.evicts c.entries), text_eq_refl key),
      λ j other. elim (evict-Kept t.evicts c.entries j u s) [
        | inl same ↦ inl (rw (e, past j other (evict t.evicts c.entries)) same)
        | inr (x, at, gone, least) ↦
            inr (x, full, at, rw (e, past j other (evict t.evicts c.entries)) gone, least)
      ],
    )
    | inr (inl (roomy, e)) ↦ (
      rw (e, lookup-insert key key new_entry c.entries, text_eq_refl key),
      λ j other. inl (rw e (past j other c.entries)),
    )
    | inr (inr (w, old, e)) ↦ (
      rw (e, lookup-insert key key new_entry c.entries, text_eq_refl key),
      λ j other. inl (rw e (past j other c.entries)),
    )
  ]
    where
      past :
          (j : Text) → j ≢ key → (m : Dict Entry) → lookup j (insert key new_entry m) ≡ lookup j m
      past j other m =
          lookup-insert key j new_entry m
          ∙ ap (λ b. if b then some new_entry else lookup j m)
              (text_eq_ne key j (λ q. other (sym q)))
