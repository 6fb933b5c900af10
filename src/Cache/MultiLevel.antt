-- ===== src/Cache/MultiLevel.antt =====
-- rate-limiter/internal/cache/cache.go: the cache of two levels. The remote level is any `Cache`, an
-- interface: its operations are a parameter. Of an error only its presence matters here.
use rate_limiter.Base.{
  ℕ, ◌+◌, ◌%◌, ◌^◌, ◌≡◌, refl, ap, ◌⊎◌, inl, inr, Bool, true, false, ◌||◌, Option, none, some, ◌==◌,
  if◌then◌else◌,
}
use rate_limiter.Base.Exec.{Result, ok, err}
use rate_limiter.Base.Int.{pos, inc64}
use rate_limiter.Base.Sync.{Time, Duration, Context, ContextError}
use rate_limiter.Base.Text.{Text}
use rate_limiter.Cache.{Memory, LocalCache, Got, SetReadings, get, set, delete_key, clear, close}

-- `Cache`: a hit is an address; the flag of the others says that they returned an error.
pub record Remote : Type 1 where
  pub State : Type 0
  pub get_remote : Context → Text → Memory → State → Memory × State × Option ℕ
  pub set_remote : Context → Text → ℕ → Duration → State → State × Bool
  pub delete_remote : Context → Text → State → State × Bool
  pub clear_remote : Context → State → State × Bool

abbrev failed : Result ContextError (Unit {0}) → Bool
failed (ok _) = false
failed (err e) = true

-- The clock and the pool as one `Get` meets them.
pub record GetReadings : Type 0 where
  pub looked : Time
  pub pick : ℕ
  pub stored : SetReadings

module _ (R : Remote) where
  open R use {State}

  pub record MultiLevelCache : Type 0 where
    pub local : Option LocalCache
    pub remote : Option State
    pub hit_counter : ℕ
    pub miss_counter : ℕ

  pub record MultiGot : Type 0 where
    pub cache : MultiLevelCache
    pub memory : Memory
    pub found : Option ℕ

  pub new_multi_level_cache : Option LocalCache → Option State → MultiLevelCache
  new_multi_level_cache l r = record { local = l; remote = r; hit_counter = 0; miss_counter = 0 }

  hit : ℕ → Memory → MultiLevelCache → MultiGot
  hit p m c = record {
    cache = record c { hit_counter = inc64 c.hit_counter };
    memory = m;
    found = some p;
  }

  miss : Memory → MultiLevelCache → MultiGot
  miss m c = record {
    cache = record c { miss_counter = inc64 c.miss_counter };
    memory = m;
    found = none;
  }

  -- A remote hit is stored in the local level, under its default time to live.
  store_local :
      GetReadings → Context → Text → ℕ → Option LocalCache → MultiLevelCache → MultiLevelCache
  store_local t ctx key p none c = c
  store_local t ctx key p (some l) c = record c {
    local = some (set t.stored ctx key p (pos 0) l).0;
  }

  from_remote :
      GetReadings → Context → Text → Memory × State × Option ℕ → MultiLevelCache → MultiGot
  unfolding hit miss store_local
  from_remote t ctx key (m, st, none) c = miss m (record c { remote = some st })
  from_remote t ctx key (m, st, some p) c =
      hit p m (store_local t ctx key p c.local (record c { remote = some st }))

  try_remote : GetReadings → Context → Text → Option State → Memory → MultiLevelCache → MultiGot
  unfolding miss from_remote
  try_remote t ctx key none m c = miss m c
  try_remote t ctx key (some st) m c = from_remote t ctx key (R.get_remote ctx key m st) c

  after_local : GetReadings → Context → Text → Got → Option ℕ → MultiLevelCache → MultiGot
  unfolding hit try_remote
  after_local t ctx key g (some p) c = hit p g.memory (record c { local = some g.cache })
  after_local t ctx key g none c =
      try_remote t ctx key c.remote g.memory (record c { local = some g.cache })

  try_local : GetReadings → Context → Text → Option LocalCache → Memory → MultiLevelCache → MultiGot
  unfolding after_local try_remote
  try_local t ctx key none m c = try_remote t ctx key c.remote m c
  try_local t ctx key (some l) m c =
      let g = get t.looked t.pick ctx key m l in after_local t ctx key g g.found c

  pub get_multi : GetReadings → Context → Text → Memory → MultiLevelCache → MultiGot
  unfolding try_local
  get_multi t ctx key m c = try_local t ctx key c.local m c

  -- `Set`, `Delete` and `Clear` go to both levels, and fail if one of them fails.
  on_local :
      (LocalCache → LocalCache × Result ContextError (Unit {0}))
      → Option LocalCache
      → Option LocalCache × Bool
  on_local f none = (none, false)
  on_local f (some l) = let (l', r) = f l in (some l', failed r)

  on_remote : (State → State × Bool) → Option State → Option State × Bool
  on_remote f none = (none, false)
  on_remote f (some st) = let (st', b) = f st in (some st', b)

  on_both :
      (LocalCache → LocalCache × Result ContextError (Unit {0}))
      → (State → State × Bool)
      → MultiLevelCache
      → MultiLevelCache × Bool
  unfolding on_local on_remote
  on_both f g c =
      let (l, fails) = on_local f c.local in
      let (r, fails') = on_remote g c.remote in
      (record c { local = l; remote = r }, fails || fails')

  pub set_multi :
      SetReadings → Context → Text → ℕ → Duration → MultiLevelCache → MultiLevelCache × Bool
  unfolding on_both
  set_multi t ctx key p ttl = on_both (set t ctx key p ttl) (R.set_remote ctx key p ttl)

  pub delete_multi : Context → Text → MultiLevelCache → MultiLevelCache × Bool
  unfolding on_both
  delete_multi ctx key = on_both (delete_key ctx key) (R.delete_remote ctx key)

  pub clear_multi : Context → MultiLevelCache → MultiLevelCache × Bool
  unfolding on_both
  clear_multi ctx = on_both (clear ctx) (R.clear_remote ctx)

  -- The rate as a fraction; the sum of the counters wraps before the test.
  pub get_hit_rate : MultiLevelCache → ℕ × ℕ
  get_hit_rate c =
      let total = (c.hit_counter + c.miss_counter) % 2 ^ 64 in
      if total == 0 then (0, 1) else (c.hit_counter, total)

  close_local : Option LocalCache → MultiLevelCache → Option MultiLevelCache
  close_local none c = some c
  close_local (some l) c = elim (close l) [
    | none ↦ none
    | some l' ↦ some (record c { local = some l' })
  ]

  -- `none` is the panic of a second close.
  pub close_multi : MultiLevelCache → Option MultiLevelCache
  unfolding close_local
  close_multi c = close_local c.local c

  abbrev pub Counted : MultiLevelCache → MultiGot → Type 0
  Counted c g =
      ((p : ℕ) × (g.found ≡ some p)
        × (g.cache.hit_counter ≡ inc64 c.hit_counter)
        × (g.cache.miss_counter ≡ c.miss_counter))
      ⊎ ((g.found ≡ none)
          × (g.cache.hit_counter ≡ c.hit_counter)
          × (g.cache.miss_counter ≡ inc64 c.miss_counter))

  store_local-counters :
      (t : GetReadings) (ctx : Context) (key : Text) (p : ℕ) (o : Option LocalCache)
      (c : MultiLevelCache)
      → ((store_local t ctx key p o c).hit_counter ≡ c.hit_counter)
        × ((store_local t ctx key p o c).miss_counter ≡ c.miss_counter)
  unfolding store_local
  store_local-counters t ctx key p none c = (refl, refl)
  store_local-counters t ctx key p (some l) c = (refl, refl)

  from_remote-Counted :
      (t : GetReadings) (ctx : Context) (key : Text) (r : Memory × State × Option ℕ)
      (c : MultiLevelCache)
      → Counted c (from_remote t ctx key r c)
  unfolding from_remote
  from_remote-Counted t ctx key (m, st, none) c = inr (refl, refl, refl)
  from_remote-Counted t ctx key (m, st, some p) c =
      let (hits, misses) =
        store_local-counters t ctx key p c.local (record c { remote = some st }) in
      inl (p, refl, ap inc64 hits, misses)

  try_remote-Counted :
      (t : GetReadings) (ctx : Context) (key : Text) (o : Option State) (m : Memory)
      (c : MultiLevelCache)
      → Counted c (try_remote t ctx key o m c)
  unfolding try_remote
  try_remote-Counted t ctx key none m c = inr (refl, refl, refl)
  try_remote-Counted t ctx key (some st) m c = from_remote-Counted t ctx key _ c

  after_local-Counted :
      (t : GetReadings) (ctx : Context) (key : Text) (g : Got) (o : Option ℕ) (c : MultiLevelCache)
      → Counted c (after_local t ctx key g o c)
  unfolding after_local
  after_local-Counted t ctx key g (some p) c = inl (p, refl, refl, refl)
  after_local-Counted t ctx key g none c =
      try_remote-Counted t ctx key c.remote g.memory (record c { local = some g.cache })

  try_local-Counted :
      (t : GetReadings) (ctx : Context) (key : Text) (o : Option LocalCache) (m : Memory)
      (c : MultiLevelCache)
      → Counted c (try_local t ctx key o m c)
  unfolding try_local
  try_local-Counted t ctx key none m c = try_remote-Counted t ctx key c.remote m c
  try_local-Counted t ctx key (some l) m c =
      after_local-Counted t ctx key (get t.looked t.pick ctx key m l)
        (get t.looked t.pick ctx key m l).found c

  -- Every `Get` counts once, whatever the levels hold and whether the context is done: a hit if
  -- something comes back, and otherwise a miss.
  pub get_multi_counts :
      (t : GetReadings) (ctx : Context) (key : Text) (m : Memory) (c : MultiLevelCache)
      → Counted c (get_multi t ctx key m c)
  unfolding get_multi
  get_multi_counts t ctx key m c = try_local-Counted t ctx key c.local m c
