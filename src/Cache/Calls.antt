-- ===== src/Cache/Calls.antt =====
-- rate-limiter/internal/cache/cache.go: calls of the local cache's methods one after the other, and a
-- map without a bound, an expiry or goroutines that is given the same calls.
use rate_limiter.Base.{ℕ, ◌≡◌, ◌⊎◌, Option, none, some, List, [], ◌∷◌, if◌then◌else◌}
use rate_limiter.Base.Dict.{lookup}
use rate_limiter.Base.Int.{leb_ℤ, pos}
use rate_limiter.Base.Sync.{Time, Duration, Context, add_time}
use rate_limiter.Base.Text.{Text, text_eq}
use rate_limiter.Cache.{
  Memory, Entry, LocalCache, SetReadings, get, set, delete_key, clear, settle, clean_expired,
}

-- A call of a method, with what it reads; a run of the janitor's cleaning; or the end of the
-- deletions that `Get` has started.
pub data CacheCall : Type 0 where
  setting : SetReadings → Context → Text → ℕ → Duration → CacheCall
  getting : Time → ℕ → Context → Text → Memory → CacheCall
  deleting : Context → Text → CacheCall
  clearing : Context → CacheCall
  cleaning : Time → CacheCall
  settling : CacheCall

unfoldable pub perform : CacheCall → LocalCache → LocalCache
perform (setting t ctx key result ttl) c = (set t ctx key result ttl c).0
perform (getting now pick ctx key m) c = (get now pick ctx key m c).cache
perform (deleting ctx key) c = (delete_key ctx key c).0
perform (clearing ctx) c = (clear ctx c).0
perform (cleaning now) c = clean_expired now c
perform settling c = settle c

unfoldable pub perform_all : List CacheCall → LocalCache → LocalCache
unfolding perform
perform_all [] c = c
perform_all (call ∷ calls) c = perform_all calls (perform call c)

-- The map: the last entry that was set for a key and not deleted since.
abbrev pub EntryMap : Type 0
EntryMap = Text → Option Entry

abbrev pub put : Text → Option Entry → EntryMap → EntryMap
put key o m j = if text_eq key j then o else m j

-- The entry of a call of `Set`, by the cache's default time to live.
abbrev pub entry_for : Duration → SetReadings → ℕ → Duration → Entry
entry_for default t result ttl = record {
  result = result;
  expiry = add_time t.expires (if leb_ℤ ttl (pos 0) then default else ttl);
  last_updated = t.updated;
}

-- A call whose context is done changes nothing.
unfoldable pub promised : Duration → CacheCall → EntryMap → EntryMap
promised default (setting t none key result ttl) m =
    put key (some (entry_for default t result ttl)) m
promised default (setting t (some e) key result ttl) m = m
promised default (getting now pick ctx key mem) m = m
promised default (deleting none key) m = put key none m
promised default (deleting (some e) key) m = m
promised default (clearing none) m = λ j. none
promised default (clearing (some e)) m = m
promised default (cleaning now) m = m
promised default settling m = m

unfoldable pub promised_all : Duration → List CacheCall → EntryMap → EntryMap
unfolding promised
promised_all default [] m = m
promised_all default (call ∷ calls) m = promised_all default calls (promised default call m)

-- Nothing, or the same.
abbrev pub Below : Option Entry → Option Entry → Type 0
Below o p = (o ≡ none) ⊎ (o ≡ p)

-- What the cache has of any key is what the map has.
abbrev pub Shows : LocalCache → EntryMap → Type 0
Shows c m = (j : Text) → Below (lookup j c.entries) (m j)
