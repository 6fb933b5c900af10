-- ===== src/Auth/Keys.antt =====
-- rate-limiter/internal/auth/auth.go: what `GetKey` returns and changes, and a key that is deleted
-- while it runs.
use rate_limiter.Base.{◌≡◌, refl, ap, ◌∙◌, true, false, Option, none, some, arith, if◌then◌else◌}
use rate_limiter.Base.Dict.{lookup, insert, delete, lookup-insert}
use rate_limiter.Base.Exec.{Exec, pure}
use rate_limiter.Base.Sync.{Time, done, unlocked, r_lock, r_unlock, lock, unlock}
use rate_limiter.Base.Text.{Text, text_eq, text_eq_refl}
use rate_limiter.Auth.{ApiKey, ApiKeyStore, get_key, delete_key, active, get_active}

-- The key as it is written back.
abbrev pub used_at : Time → ApiKey → ApiKey
used_at now a = record a { last_used = now }

-- The store after the call, where the key is active or not.
abbrev pub touched : Time → Text → Option ApiKey → ApiKeyStore → ApiKeyStore
touched now k none s = s
touched now k (some a) s = record s { keys = insert k (used_at now a) s.keys }

abbrev pub returned : Time → Option ApiKey → Option ApiKey
returned now none = none
returned now (some a) = some (used_at now a)

get_active_lem :
    (now : Time) (k : Text) (s : ApiKeyStore) (o : Option ApiKey)
    → get_active now (pure tt) k o (record s { mutex = record { readers = 1; writing = false } })
      ≡ done (returned now o, touched now k o (record s { mutex = unlocked }))
unfolding get_active r_lock r_unlock lock unlock
get_active_lem now k s none = refl
get_active_lem now k s (some a) = refl

-- A call on a free mutex starts with one reader.
get_key-active :
    (now : Time) (between : Exec ApiKeyStore (Unit {0})) (k : Text) (s : ApiKeyStore)
    → s.mutex ≡ unlocked
    → get_key now between k s
      ≡ get_active now between k
          (active (lookup k s.keys))
          (record s { mutex = record { readers = 1; writing = false } })
unfolding get_key r_lock
get_key-active now between k s free =
    ap (λ m. get_key now between k (record { keys = s.keys; mutex = m })) free

lookup-touched :
    (now : Time) (k j : Text) (o : Option ApiKey) (s : ApiKeyStore)
    → lookup j (touched now k o (record s { mutex = unlocked })).keys ≡ (
        if text_eq k j
        then elim o [ none ↦ lookup j s.keys | some a ↦ some (used_at now a) ]
        else lookup j s.keys)
lookup-touched now k j none s = ground arith
lookup-touched now k j (some a) s = lookup-insert k j (used_at now a) s.keys

touched_free :
    (now : Time) (k : Text) (o : Option ApiKey) (s : ApiKeyStore)
    → (touched now k o (record s { mutex = unlocked })).mutex ≡ unlocked
touched_free now k none s = refl
touched_free now k (some a) s = refl

-- Called on a free mutex, with no other goroutine in between, `GetKey` comes back with the mutex
-- free. It returns the key if it exists and is active, with the time of this use, and nothing
-- otherwise; and in the store that time is all that changes.
pub get_key_lem :
    (now : Time) (k : Text) (s : ApiKeyStore)
    → s.mutex ≡ unlocked
    → let found = active (lookup k s.keys) in
      (s' : ApiKeyStore) × (get_key now (pure tt) k s ≡ done (returned now found, s'))
      × (s'.mutex ≡ unlocked)
      × ((j : Text)
          → lookup j s'.keys ≡ (
              if text_eq k j
              then elim found [ none ↦ lookup j s.keys | some a ↦ some (used_at now a) ]
              else lookup j s.keys))
get_key_lem now k s free =
    let found = active (lookup k s.keys) in
    (
      touched now k found (record s { mutex = unlocked }),
      get_key-active now (pure tt) k s free ∙ get_active_lem now k s found,
      touched_free now k found s,
      λ j. lookup-touched now k j found s,
    )

over_deletion :
    (now : Time) (k : Text) (s : ApiKeyStore) (a : ApiKey)
    → get_active now
        (delete_key k)
        k
        (some a)
        (record s { mutex = record { readers = 1; writing = false } })
      ≡ done (
        some (used_at now a),
        record { keys = insert k (used_at now a) (delete k s.keys); mutex = unlocked },
      )
unfolding get_active delete_key r_lock r_unlock lock unlock
over_deletion now k s a = refl

-- With the mutex free, an active key that is deleted while `GetKey` is between its two locks comes
-- back: the copy that `GetKey` read is written over the deletion and returned, the mutex is free,
-- and the key is in the store and active.
pub deleted_key_returns :
    (now : Time) (k : Text) (s : ApiKeyStore) (a : ApiKey)
    → s.mutex ≡ unlocked
    → lookup k s.keys ≡ some a
    → a.is_active ≡ true
    → (s' : ApiKeyStore) × (get_key now (delete_key k) k s ≡ done (some (used_at now a), s'))
      × (s'.mutex ≡ unlocked)
      × (active (lookup k s'.keys) ≡ some (used_at now a))
deleted_key_returns now k s a free h on =
    let found : active (lookup k s.keys) ≡ some a = ground arith in
    let back : lookup k (insert k (used_at now a) (delete k s.keys)) ≡ some (used_at now a) =
      ground (arith, lookup-insert k k (used_at now a) (delete k s.keys), text_eq_refl k) in
    (
      record { keys = insert k (used_at now a) (delete k s.keys); mutex = unlocked },
      get_key-active now (delete_key k) k s free
          ∙ ap
              (λ o.
                get_active now (delete_key k) k o
                  (record s { mutex = record { readers = 1; writing = false } }))
              found
          ∙ over_deletion now k s a,
      refl,
      ap active back ∙ ground arith,
    )
