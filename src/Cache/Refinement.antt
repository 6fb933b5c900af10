-- ===== src/Cache/Refinement.antt =====
-- rate-limiter/internal/cache/cache.go: the local cache beside a map.
use rate_limiter.Base.{
  ℕ, ◌≡◌, refl, subst, ◌∙◌, inl, inr, true, false, Option, none, some, List, [], ◌∷◌, arith,
  Bool-cases,
}
use rate_limiter.Base.Dict.{Dict, lookup, insert, lookup-insert, lookup-delete}
use rate_limiter.Base.Int.{ℤ}
use rate_limiter.Base.Sync.{Time, Duration, Context, after}
use rate_limiter.Base.Text.{Text, text_eq_iff}
use rate_limiter.Cache.{
  Memory, Got, Entry, LocalCache, SetReadings, new_local_cache, get_entry, get, set, delete_key,
  delete_entry, clear, settle, clean_expired, drop_expired, drop_entry, expired_keys, copy_to,
  take_pooled, run_pending, oldest, evict,
}
use rate_limiter.Cache.Bounds.{new_entry, set_cases}
use rate_limiter.Cache.Expiry.{alive, copied, lookup-clean_expired}
use rate_limiter.Cache.Calls.{
  CacheCall, perform, perform_all, EntryMap, put, promised, promised_all, Below, Shows, setting,
  getting, deleting, clearing, cleaning, settling,
}

Below-trans : (o p q : Option Entry) → Below o p → Below p q → Below o q
Below-trans o p q h k = ground arith

evict-Below :
    (now : Time) (es : Dict Entry) (j : Text) → Below (lookup j (evict now es)) (lookup j es)
unfolding evict
evict-Below now es j = ground (arith, lookup-delete (oldest [] now es) j es)

put-Below :
    (key j : Text) (e : Entry) (es : Dict Entry) (m : EntryMap)
    → Below (lookup j es) (m j)
    → Below (lookup j (insert key e es)) (put key (some e) m j)
put-Below key j e es m h = ground (arith, lookup-insert key j e es)

delete-Below :
    (ctx : Context) (key j : Text) (c : LocalCache)
    → Below (lookup j (delete_key ctx key c).0.entries) (lookup j c.entries)
unfolding delete_key
delete-Below (some e) key j c = inr refl
delete-Below none key j c = ground (arith, lookup-delete key j c.entries)

run-Below :
    (ks : List Text) (j : Text) (c : LocalCache)
    → Below (lookup j (run_pending ks c).entries) (lookup j c.entries)
unfolding run_pending
run-Below [] j c = inr refl
run-Below (k ∷ ks) j c =
    Below-trans _ _ _ (run-Below ks j (delete_key none k c).0) (delete-Below none k j c)

alive-Below : (now : Time) (o : Option Entry) → Below (alive now o) o
alive-Below now none = inr refl
alive-Below now (some e) = ground arith

set-Below :
    (t : SetReadings) (key : Text) (result : ℕ) (ttl : Duration) (c : LocalCache) (m : EntryMap)
    (j : Text)
    → Shows c m
    → Below
        (lookup j (set t none key result ttl c).0.entries)
        (put key (some (new_entry t key result ttl c)) m j)
set-Below t key result ttl c m j h =
    let e = new_entry t key result ttl c in
    let stored : Below (lookup j (insert key e c.entries)) (put key (some e) m j) =
      put-Below key j e c.entries m (h j) in
    elim (set_cases t key result ttl c) [
      | inl (_, q) ↦ rw q (
          put-Below key j e (evict t.evicts c.entries) m
            (Below-trans _ _ _ (evict-Below t.evicts c.entries j) (h j)))
      | inr (inl (_, q)) ↦ rw q stored
      | inr (inr (_, _, q)) ↦ rw q stored
    ]

delete-put :
    (key j : Text) (o : Option Entry) (c : LocalCache) (m : EntryMap)
    → lookup key c.entries ≡ o
    → Below (lookup j c.entries) (m j)
    → Below (lookup j (delete_entry key o c).entries) (put key none m j)
unfolding delete_entry
delete-put key j none c m e h = ground (arith, text_eq_iff key j)
delete-put key j (some x) c m e h = ground (arith, lookup-delete key j c.entries)

get-entries :
    (now : Time) (pick : ℕ) (ctx : Context) (key : Text) (m : Memory) (c : LocalCache)
    → (get now pick ctx key m c).cache.entries ≡ c.entries
unfolding get copy_to
get-entries now pick (some e) key m c = refl
get-entries now pick none key m c = ground arith

run-ttl : (ks : List Text) (c : LocalCache) → (run_pending ks c).default_ttl ≡ c.default_ttl
unfolding run_pending delete_key delete_entry
run-ttl [] c = refl
run-ttl (k ∷ ks) c = run-ttl ks (delete_key none k c).0 ∙ ground arith

drop-ttl :
    (now : Time) (ks : List Text) (c : LocalCache)
    → (drop_expired now ks c).default_ttl ≡ c.default_ttl
unfolding drop_expired
drop-ttl now [] c = refl
drop-ttl now (k ∷ ks) c =
    drop-ttl now ks (drop_entry now k (lookup k c.entries) c) ∙ unfold drop_entry in ground arith

perform-ttl : (call : CacheCall) (c : LocalCache) → (perform call c).default_ttl ≡ c.default_ttl
unfolding perform set get copy_to delete_key delete_entry clear clean_expired settle
perform-ttl (setting t none key result ttl) c = refl
perform-ttl (setting t (some e) key result ttl) c = refl
perform-ttl (getting now pick none key m) c = ground arith
perform-ttl (getting now pick (some e) key m) c = refl
perform-ttl (deleting none key) c = ground arith
perform-ttl (deleting (some e) key) c = refl
perform-ttl (clearing none) c = refl
perform-ttl (clearing (some e)) c = refl
perform-ttl (cleaning now) c = drop-ttl now (expired_keys now c.entries) c
perform-ttl settling c = run-ttl c.pending (record c { pending = [] })

perform-Shows :
    (call : CacheCall) (c : LocalCache) (m : EntryMap)
    → Shows c m
    → Shows (perform call c) (promised c.default_ttl call m)
unfolding perform promised
perform-Shows (setting t none key result ttl) c m h j = set-Below t key result ttl c m j h
perform-Shows (setting t (some e) key result ttl) c m h j = unfold set in h j
perform-Shows (getting now pick ctx key mem) c m h j = rw (get-entries now pick ctx key mem c) (h j)
perform-Shows (deleting none key) c m h j =
    unfold delete_key in delete-put key j (lookup key c.entries) c m refl (h j)
perform-Shows (deleting (some e) key) c m h j = unfold delete_key in h j
perform-Shows (clearing none) c m h j = unfold clear lookup in inl refl
perform-Shows (clearing (some e)) c m h j = unfold clear in h j
perform-Shows (cleaning now) c m h j =
    rw (lookup-clean_expired now j c)
      (Below-trans _ _ _ (alive-Below now (lookup j c.entries)) (h j))
perform-Shows settling c m h j =
    unfold settle in Below-trans _ _ _ (run-Below c.pending j (record c { pending = [] })) (h j)

-- What `Get` finds stands for an entry of the cache that has not expired.
abbrev pub Stands : Time → Memory → LocalCache → Text → Got → ℕ → Type 0
Stands now mem c key g p =
    (e : Entry) × (lookup key c.entries ≡ some e)
    × (after now e.expiry ≡ false)
    × (g.memory.cell p ≡ mem.cell e.result)

entry_found :
    (now : Time) (pick : ℕ) (key : Text) (mem : Memory) (c : LocalCache) (p : ℕ) (o : Option Entry)
    → lookup key c.entries ≡ o
    → (get_entry now pick key o mem c).found ≡ some p
    → Stands now mem c key (get_entry now pick key o mem c) p
unfolding get_entry
entry_found now pick key mem c p none at h = cc
entry_found now pick key mem c p (some e) at h = elim (Bool-cases (after now e.expiry)) [
  | inl late ↦ ground (arith, late)
  | inr live ↦
      let (q, found, copy, same) = copied (take_pooled pick c.result_pool) e.result mem c in
      (e, at, live, ground (arith, live, found, copy))
]

get-Stands :
    (now : Time) (pick : ℕ) (ctx : Context) (key : Text) (mem : Memory) (c : LocalCache) (p : ℕ)
    → (get now pick ctx key mem c).found ≡ some p
    → Stands now mem c key (get now pick ctx key mem c) p
unfolding get
get-Stands now pick (some x) key mem c p h = cc
get-Stands now pick none key mem c p h =
    entry_found now pick key mem c p (lookup key c.entries) refl h

perform_all-Shows :
    (calls : List CacheCall) (c : LocalCache) (m : EntryMap)
    → Shows c m
    → Shows (perform_all calls c) (promised_all c.default_ttl calls m)
unfolding perform_all promised_all
perform_all-Shows [] c m h = h
perform_all-Shows (call ∷ calls) c m h =
    subst
      (λ d.
        Shows (perform_all calls (perform call c))
          (promised_all d calls (promised c.default_ttl call m)))
      (perform-ttl call c)
      (perform_all-Shows calls (perform call c) (promised c.default_ttl call m)
        (perform-Shows call c m h))

same_entry : (o q : Option Entry) (e : Entry) → Below o q → o ≡ some e → q ≡ some e
same_entry o q e h at = ground arith

-- A new cache never serves what is stale. After any sequence of calls, whatever they evict, let
-- expire and delete late, a result that `Get` finds is a copy of the result of the last `Set` of
-- that key, no `Delete` of the key and no `Clear` came after that `Set`, and its time to live has not
-- passed; and an entry that the cache has at all is the one of that `Set`. (Calls whose context is
-- done are not counted. The copy is of what the memory holds at the result's address when it is
-- read.)
pub cache_refines_map :
    (size : ℤ) (ttl : Duration) (c : LocalCache) (calls : List CacheCall) (now : Time) (pick : ℕ)
    (ctx : Context) (key : Text) (mem : Memory) (p : ℕ)
    → new_local_cache true size ttl ≡ some c
    → (get now pick ctx key mem (perform_all calls c)).found ≡ some p
    → let last = promised_all ttl calls (λ j. none) in
      Shows (perform_all calls c) last
      × ((e : Entry) × (last key ≡ some e)
          × (after now e.expiry ≡ false)
          × ((get now pick ctx key mem (perform_all calls c)).memory.cell p ≡ mem.cell e.result))
cache_refines_map size ttl c calls now pick ctx key mem p made found =
    let start : LocalCache = record {
      entries = [];
      max_size = size;
      default_ttl = ttl;
      result_pool = [];
      pending = [];
      stopped = false;
    } in
    let new : start ≡ c = unfold new_local_cache in cc in
    let shown : Shows (perform_all calls c) (promised_all ttl calls (λ j. none)) =
      subst (λ d. Shows (perform_all calls d) (promised_all ttl calls (λ j. none))) new
        (perform_all-Shows calls start (λ j. none) (λ j. unfold lookup in inl refl)) in
    let (e, at, live, copy) = get-Stands now pick ctx key mem (perform_all calls c) p found in
    (shown, (e, same_entry _ _ e (shown key) at, live, copy))
