-- ===== src/Cache/Tests.antt =====
-- rate-limiter/internal/cache/cache.go: the theorems at concrete caches.
use rate_limiter.Base.{
  ℕ, ◌≡◌, ◌≢◌, refl, ◌⊎◌, true, false, none, some, [], ◌∷◌, ◌++◌, ◌+◌, arith, length,
}
use rate_limiter.Base.Dict.{lookup, insert, delete}
use rate_limiter.Base.Int.{pos, ◌≤ℤ◌, ◌+ℤ◌}
use rate_limiter.Base.Sync.{add_time, after}
use rate_limiter.Base.Text.{Text, codes, text_eq, ne_of_text_eq}
use rate_limiter.Service.{unlimited}
use rate_limiter.Cache.{
  Memory, Entry, LocalCache, SetReadings, new_local_cache, get, set, oldest, evict, delete_key,
  settle, clean_expired, drop_expired, expired_keys,
}
use rate_limiter.Cache.Bounds.{Evicts, NotBefore, new_entry, set_bound, set_evicts_oldest}
use rate_limiter.Cache.Expiry.{get-set, stale_deletion}
use rate_limiter.Cache.Calls.{setting, cleaning, perform_all, promised_all, Shows}
use rate_limiter.Cache.Refinement.{cache_refines_map}
use rate_limiter.Cache.Aliasing.{deleted_result_overwritten}

abbrev a : Entry
a = record { result = 0; expiry = pos 100; last_updated = pos 10 }

abbrev b : Entry
b = record { result = 1; expiry = pos 200; last_updated = pos 20 }

-- Two entries, and room for two.
abbrev two : LocalCache
two = record {
  entries = (codes "b", b) ∷ (codes "a", a) ∷ [];
  max_size = pos 2;
  default_ttl = pos 1000;
  result_pool = [];
  pending = [];
  stopped = false;
}

abbrev memory : Memory
memory = record { cell = λ p. unlimited (p ∷ []); next = 3 }

abbrev at30 : SetReadings
at30 = record { expires = pos 30; updated = pos 30; evicts = pos 30 }

evicts_the_oldest :
    (set at30 none (codes "c") 2 (pos 0) two).0.entries
    ≡ (codes "b", b)
      ∷ (codes "c", record { result = 2; expiry = pos 1030; last_updated = pos 30 })
      ∷ []
unfolding set oldest evict insert delete lookup text_eq add_time ◌+ℤ◌
evicts_the_oldest = refl

set_bound_example : pos (length (set at30 none (codes "c") 2 (pos 0) two).0.entries) ≤ℤ pos 2
unfolding lookup text_eq
set_bound_example =
    set_bound at30 (codes "c") 2 (pos 0) two (omega arith) (omega arith) (refl, (refl, tt))
      ((ne_of_text_eq _ _ refl, omega arith), ((ne_of_text_eq _ _ refl, omega arith), tt))

set_evicts_oldest_example :
    let c' = (set at30 none (codes "c") 2 (pos 0) two).0 in
    (lookup (codes "c") c'.entries ≡ some (new_entry at30 (codes "c") 2 (pos 0) two))
    × ((j : Text)
        → j ≢ codes "c"
        → (lookup j c'.entries ≡ lookup j two.entries)
          ⊎ ((e : Entry) × Evicts (codes "c") two
              × (lookup j two.entries ≡ some e)
              × (lookup j c'.entries ≡ none)
              × NotBefore e.last_updated two.entries))
unfolding lookup text_eq
set_evicts_oldest_example =
    set_evicts_oldest at30 (codes "c") 2 (pos 0) two (refl, (refl, tt))
      ((ne_of_text_eq _ _ refl, omega arith), ((ne_of_text_eq _ _ refl, omega arith), tt))

get-set_example :
    let c' = (set at30 none (codes "c") 2 (pos 0) two).0 in
    let g = get (pos 40) 0 none (codes "c") memory c' in
    ((after (pos 40) (new_entry at30 (codes "c") 2 (pos 0) two).expiry ≡ false)
      × ((p : ℕ) × (g.found ≡ some p) × (g.memory.cell p ≡ memory.cell 2)))
    ⊎ ((after (pos 40) (new_entry at30 (codes "c") 2 (pos 0) two).expiry ≡ true)
        × (g.found ≡ none)
        × (g.cache.pending ≡ c'.pending ++ codes "c" ∷ []))
get-set_example = get-set at30 (codes "c") 2 (pos 0) two (pos 40) 0 memory

abbrev at150 : SetReadings
at150 = record { expires = pos 150; updated = pos 150; evicts = pos 150 }

stale_deletion_example :
    let c' =
      (set at150 none
        (codes "a")
        2
        (pos 0)
        (get (pos 150) 0 none (codes "a") memory two).cache).0 in
    (lookup (codes "a") c'.entries ≡ some (new_entry at150 (codes "a") 2 (pos 0) two))
    × (lookup (codes "a") (settle c').entries ≡ none)
unfolding lookup text_eq
stale_deletion_example =
    stale_deletion (pos 150) 0 memory two a at150 (codes "a") 2 (pos 0) refl refl refl

-- The result of "a" is deleted, and then reads as that of "b".
deleted_result_overwritten_example :
    let g = get (pos 50) 0 none (codes "b") memory (delete_key none (codes "a") two).0 in
    (g.found ≡ some 0) × (g.memory.cell 0 ≡ unlimited (1 ∷ []))
unfolding lookup text_eq
deleted_result_overwritten_example =
    deleted_result_overwritten (pos 50) (codes "a") (codes "b") memory two a b
      (ne_of_text_eq _ _ refl) refl refl refl

abbrev fresh : LocalCache
fresh = record {
  entries = [];
  max_size = pos 1;
  default_ttl = pos 1000;
  result_pool = [];
  pending = [];
  stopped = false;
}

abbrev set_at : ℕ → SetReadings
set_at n = record { expires = pos n; updated = pos n; evicts = pos (n + 1) }

-- In a cache of one place "b" is set after "a", and found.
cache_refines_map_example :
    let calls =
      setting (set_at 5) none (codes "a") 0 (pos 50)
      ∷ setting (set_at 6) none (codes "b") 1 (pos 50)
      ∷ cleaning (pos 20)
      ∷ [] in
    let last = promised_all (pos 1000) calls (λ j. none) in
    Shows (perform_all calls fresh) last
    × ((e : Entry) × (last (codes "b") ≡ some e)
        × (after (pos 30) e.expiry ≡ false)
        × ((get (pos 30) 0 none (codes "b") memory (perform_all calls fresh)).memory.cell 3
            ≡ memory.cell e.result))
unfolding new_local_cache perform_all set oldest evict clean_expired get lookup insert delete
    text_eq add_time ◌+ℤ◌ drop_expired expired_keys
cache_refines_map_example =
    cache_refines_map (pos 1) (pos 1000) fresh
      (setting (set_at 5) none (codes "a") 0 (pos 50)
        ∷ setting (set_at 6) none (codes "b") 1 (pos 50)
        ∷ cleaning (pos 20)
        ∷ [])
      (pos 30) 0 none (codes "b") memory 3 refl refl
