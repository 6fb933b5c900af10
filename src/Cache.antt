-- ===== src/Cache.antt =====
-- rate-limiter/internal/cache/cache.go: the local cache. Results are cells of a memory that callers
-- share with the cache; entries and the pool hold their addresses. Deletions that `Get` leaves to a
-- goroutine wait in `pending`. The clock's readings are arguments; a method runs at one moment
-- under its lock.
pub mod Bounds
pub mod Expiry
pub mod Aliasing
pub mod Calls
pub mod Refinement
pub mod MultiLevel
mod Tests
use rate_limiter.Base.{
  ℕ, zero, suc, ◌+◌, Bool, true, false, ◌&&◌, not, Option, none, some, List, [], ◌∷◌, ◌++◌, ◌==◌,
  if◌then◌else◌, length,
}
use rate_limiter.Base.Dict.{Dict, lookup, insert, delete}
use rate_limiter.Base.Exec.{Result, ok, err}
use rate_limiter.Base.Int.{ℤ, pos, leb_ℤ}
use rate_limiter.Base.Sync.{Time, Duration, Context, ContextError, after, before, add_time}
use rate_limiter.Base.Text.{Text, text_eq}
use rate_limiter.Service.{LimitResult}

-- The results that addresses stand for; addresses from `next` on are not in use.
pub record Memory : Type 0 where
  pub cell : ℕ → LimitResult
  pub next : ℕ

abbrev pub write : ℕ → LimitResult → (ℕ → LimitResult) → ℕ → LimitResult
write p v cell q = if p == q then v else cell q

pub record Entry : Type 0 where
  pub result : ℕ
  pub expiry : Time
  pub last_updated : Time

pub record LocalCache : Type 0 where
  pub entries : Dict Entry
  pub max_size : ℤ
  pub default_ttl : Duration
  pub result_pool : List ℕ
  pub pending : List Text
  pub stopped : Bool  -- `janitorStop` is closed

-- `enabled`, `size` and `ttl` are the configuration's `LocalCache…` fields; `none` is nil.
unfoldable pub new_local_cache : Bool → ℤ → Duration → Option LocalCache
new_local_cache enabled size ttl =
    if enabled
    then some (record {
      entries = [];
      max_size = size;
      default_ttl = ttl;
      result_pool = [];
      pending = [];
      stopped = false;
    })
    else none

-- `resultPool.Get()`: the pool gives up any of its items, the one at `pick`, or else a new cell.
unfoldable pub take_pooled : ℕ → List ℕ → Option (ℕ × List ℕ)
take_pooled pick [] = none
take_pooled zero (p ∷ ps) = some (p, ps)
take_pooled (suc pick) (p ∷ ps) = elim (take_pooled pick ps) [
  | none ↦ none
  | some (q, qs) ↦ some (q, p ∷ qs)
]

pub record Got : Type 0 where
  pub cache : LocalCache
  pub memory : Memory
  pub found : Option ℕ

unfoldable pub copy_to : Option (ℕ × List ℕ) → ℕ → Memory → LocalCache → Got
copy_to (some (p, ps)) r m c = record {
  cache = record c { result_pool = ps };
  memory = record m { cell = write p (m.cell r) m.cell };
  found = some p;
}
copy_to none r m c = record {
  cache = c;
  memory = record { cell = write m.next (m.cell r) m.cell; next = suc m.next };
  found = some m.next;
}

get_entry : Time → ℕ → Text → Option Entry → Memory → LocalCache → Got
unfolding copy_to take_pooled
get_entry now pick key none m c = record { cache = c; memory = m; found = none }
get_entry now pick key (some e) m c =
    if after now e.expiry
    then record { cache = record c { pending = c.pending ++ key ∷ [] }; memory = m; found = none }
    else copy_to (take_pooled pick c.result_pool) e.result m c

unfoldable pub get : Time → ℕ → Context → Text → Memory → LocalCache → Got
unfolding get_entry
get now pick (some e) key m c = record { cache = c; memory = m; found = none }
get now pick none key m c = get_entry now pick key (lookup key c.entries) m c

-- The clock as `Set` reads it.
pub record SetReadings : Type 0 where
  pub expires : Time
  pub updated : Time
  pub evicts : Time

-- The loop over the entries: the key and the time of the oldest that is before `best`.
unfoldable pub oldest : Text → Time → Dict Entry → Text
oldest key best [] = key
oldest key best ((k, e) ∷ es) =
    oldest (if before e.last_updated best then k else key)
      (if before e.last_updated best then e.last_updated else best) es

-- The eviction, where the cache is full and the key is new.
unfoldable pub evict : Time → Dict Entry → Dict Entry
evict now es = let key = oldest [] now es in if text_eq key [] then es else delete key es

is_new : Option Entry → Bool
is_new none = true
is_new (some e) = false

unfoldable pub set :
    SetReadings
    → Context
    → Text
    → ℕ
    → Duration
    → LocalCache
    → LocalCache × Result ContextError (Unit {0})
unfolding is_new
set t (some e) key result ttl c = (c, err e)
set t none key result ttl c =
    let ttl' = if leb_ℤ ttl (pos 0) then c.default_ttl else ttl in
    let entry : Entry = record {
      result = result;
      expiry = add_time t.expires ttl';
      last_updated = t.updated;
    } in
    let room =
      if leb_ℤ c.max_size (pos (length c.entries)) && is_new (lookup key c.entries)
      then evict t.evicts c.entries
      else c.entries in
    (record c { entries = insert key entry room }, ok tt)

delete_entry : Text → Option Entry → LocalCache → LocalCache
delete_entry key none c = c
delete_entry key (some e) c = record c {
  result_pool = e.result ∷ c.result_pool;
  entries = delete key c.entries;
}

unfoldable pub delete_key :
    Context → Text → LocalCache → LocalCache × Result ContextError (Unit {0})
unfolding delete_entry
delete_key (some e) key c = (c, err e)
delete_key none key c = (delete_entry key (lookup key c.entries) c, ok tt)

-- The deletions that `Get` started, run one after the other.
run_pending : List Text → LocalCache → LocalCache
run_pending [] c = c
run_pending (k ∷ ks) c = run_pending ks (delete_key none k c).0

unfoldable pub settle : LocalCache → LocalCache
unfolding run_pending
settle c = run_pending c.pending (record c { pending = [] })

abbrev results : Dict Entry → List ℕ
results [] = []
results ((k, e) ∷ es) = e.result ∷ results es

unfoldable pub clear : Context → LocalCache → LocalCache × Result ContextError (Unit {0})
clear (some e) c = (c, err e)
clear none c = (record c { entries = []; result_pool = results c.entries ++ c.result_pool }, ok tt)

-- The keys that the first half of `cleanExpired` collects, under the read lock.
unfoldable pub expired_keys : Time → Dict Entry → List Text
expired_keys now [] = []
expired_keys now ((k, e) ∷ es) =
    let rest = expired_keys now es in if after now e.expiry then k ∷ rest else rest

drop_entry : Time → Text → Option Entry → LocalCache → LocalCache
drop_entry now key none c = c
drop_entry now key (some e) c =
    if after now e.expiry
    then record c { result_pool = e.result ∷ c.result_pool; entries = delete key c.entries }
    else c

-- The second half, under the write lock: an entry is looked at again.
unfoldable pub drop_expired : Time → List Text → LocalCache → LocalCache
unfolding drop_entry
drop_expired now [] c = c
drop_expired now (k ∷ ks) c = drop_expired now ks (drop_entry now k (lookup k c.entries) c)

unfoldable pub clean_expired : Time → LocalCache → LocalCache
clean_expired now c = drop_expired now (expired_keys now c.entries) c

-- `Close`: closing a closed channel panics, which is `none`.
unfoldable pub close : LocalCache → Option LocalCache
close c = if c.stopped then none else some (record c { stopped = true })

-- The goroutine `janitor`, by what it receives: a tick at some time, or the stop.
pub data Signal : Type 0 where
  tick : Time → Signal
  stop : Signal

unfoldable pub janitor : List Signal → LocalCache → LocalCache
janitor [] c = c
janitor (tick now ∷ ss) c = janitor ss (clean_expired now c)
janitor (stop ∷ ss) c = c
