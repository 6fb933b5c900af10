-- ===== src/Auth/Refinement.antt =====
-- rate-limiter/internal/auth/auth.go: the key store as a map from texts to keys, which its mutex and
-- its representation do not show.
use rate_limiter.Base.{
  ◌≡◌, refl, ap, ◌∙◌, Bool, Option, none, some, List, [], ◌∷◌, arith, if◌then◌else◌,
}
use mathlib.Core.Path.{fun_ext}
use rate_limiter.Base.Dict.{lookup, insert, delete, lookup-insert, lookup-delete}
use rate_limiter.Base.Exec.{Exec, pure, ◌>>=◌, ◌>>◌}
use rate_limiter.Base.Sync.{Time, done, zero_time, unlocked, lock, unlock}
use rate_limiter.Base.Text.{Text, text_eq}
use rate_limiter.Auth.{ApiKey, ApiKeyStore, add_key, delete_key, get_key, active}
use rate_limiter.Auth.Keys.{used_at, returned, get_key_lem}

-- A call of one of the methods.
pub data KeyCall : Type 0 where
  adding : Text → Text → Bool → KeyCall
  deleting : Text → KeyCall
  getting : Time → Text → KeyCall

-- The call, with what it returns; a method without a result returns nothing.
unfoldable pub perform : KeyCall → Exec ApiKeyStore (Option ApiKey)
perform (adding k role on) = do add_key k role on; pure none
perform (deleting k) = do delete_key k; pure none
perform (getting now k) = get_key now (pure tt) k

unfoldable pub perform_all : List KeyCall → Exec ApiKeyStore (List (Option ApiKey))
unfolding perform
perform_all [] = pure []
perform_all (c ∷ cs) = do o ← perform c; os ← perform_all cs; pure (o ∷ os)

-- The abstract store: no lock, no list.
abbrev pub KeyMap : Type 0
KeyMap = Text → Option ApiKey

abbrev pub view : ApiKeyStore → KeyMap
view s k = lookup k s.keys

abbrev pub put : Text → Option ApiKey → KeyMap → KeyMap
put k o m j = if text_eq k j then o else m j

abbrev pub touch : Time → Text → Option ApiKey → KeyMap → KeyMap
touch now k none m = m
touch now k (some a) m = put k (some (used_at now a)) m

-- A key that may be used.
abbrev pub usable : Option ApiKey → Option ApiKey
usable none = none
usable (some a) = if a.is_active then some a else none

usable_lem : (o : Option ApiKey) → active o ≡ usable o
usable_lem none = refl
usable_lem (some a) = ground arith

-- What each call promises: the map after it, and its result.
unfoldable pub promised : KeyCall → KeyMap → KeyMap × Option ApiKey
promised (adding k role on) m =
    (put k (some (record { key = k; role = role; is_active = on; last_used = zero_time })) m, none)
promised (deleting k) m = (put k none m, none)
promised (getting now k) m = (touch now k (usable (m k)) m, returned now (usable (m k)))

unfoldable pub promised_all : List KeyCall → KeyMap → KeyMap × List (Option ApiKey)
unfolding promised
promised_all [] m = (m, [])
promised_all (c ∷ cs) m =
    let (m', o) = promised c m in let (m'', os) = promised_all cs m' in (m'', o ∷ os)

-- The concrete store ends as promised, with its mutex free.
pub record Keeps (c : KeyCall) (s : ApiKeyStore) : Type 0 where
  pub store : ApiKeyStore
  pub runs : perform c s ≡ done ((promised c (view s)).1, store)
  pub free : store.mutex ≡ unlocked
  pub seen : view store ≡ (promised c (view s)).0

adding-free :
    (k role : Text) (on : Bool) (s : ApiKeyStore)
    → s.mutex ≡ unlocked
    → perform (adding k role on) s
      ≡ done (
        none,
        record {
          keys =
              insert k
                (record { key = k; role = role; is_active = on; last_used = zero_time })
                s.keys;
          mutex = unlocked;
        },
      )
unfolding perform add_key lock unlock
adding-free k role on s free =
    ap (λ m. perform (adding k role on) (record { keys = s.keys; mutex = m })) free

deleting-free :
    (k : Text) (s : ApiKeyStore)
    → s.mutex ≡ unlocked
    → perform (deleting k) s ≡ done (none, record { keys = delete k s.keys; mutex = unlocked })
unfolding perform delete_key lock unlock
deleting-free k s free = ap (λ m. perform (deleting k) (record { keys = s.keys; mutex = m })) free

touch-lookup :
    (now : Time) (k j : Text) (o held : Option ApiKey) (m : KeyMap)
    → held ≡ (if text_eq k j then elim o [ none ↦ m j | some a ↦ some (used_at now a) ] else m j)
    → held ≡ touch now k o m j
touch-lookup now k j none held m h = ground arith
touch-lookup now k j (some a) held m h = h

perform-Keeps : (c : KeyCall) (s : ApiKeyStore) → s.mutex ≡ unlocked → Keeps c s
unfolding promised
perform-Keeps (adding k role on) s free = record {
  store = record {
    keys = insert k (record { key = k; role = role; is_active = on; last_used = zero_time }) s.keys;
    mutex = unlocked;
  };
  runs = adding-free k role on s free;
  free = refl;
  seen = fun_ext λ j. lookup-insert k j _ s.keys;
}
perform-Keeps (deleting k) s free = record {
  store = record { keys = delete k s.keys; mutex = unlocked };
  runs = deleting-free k s free;
  free = refl;
  seen = fun_ext λ j. lookup-delete k j s.keys;
}
perform-Keeps (getting now k) s free =
    let (s', e, m, held) = get_key_lem now k s free in
    let q = usable_lem (lookup k s.keys) in
    let ran : perform (getting now k) s ≡ done (returned now (active (lookup k s.keys)), s') =
      unfold perform in e in
    record {
      store = s';
      runs = ran ∙ ap (λ x. done (returned now x, s')) q;
      free = m;
      seen = fun_ext λ j.
          touch-lookup now k j (active (lookup k s.keys)) (lookup j s'.keys) (view s) (held j)
          ∙ ap (λ x. touch now k x (view s) j) q;
    }

perform_all-cons :
    (c : KeyCall) (cs : List KeyCall) (s t s' : ApiKeyStore) (o : Option ApiKey)
    (os : List (Option ApiKey))
    → perform c s ≡ done (o, t)
    → perform_all cs t ≡ done (os, s')
    → perform_all (c ∷ cs) s ≡ done (o ∷ os, s')
unfolding perform_all
perform_all-cons c cs s t s' o os e e' = rw (e, ◌>>=◌) (rw (e', ◌>>=◌) refl)

-- The key store refines a map from texts to keys. Any sequence of calls of AddKey, DeleteKey and
-- GetKey by one goroutine on a free mutex comes back, with the mutex free, with the results that the
-- map promises, and with a store that shows the map as the sequence leaves it.
pub store_refines_map :
    (cs : List KeyCall) (s : ApiKeyStore)
    → s.mutex ≡ unlocked
    → (s' : ApiKeyStore) × (perform_all cs s ≡ done ((promised_all cs (view s)).1, s'))
      × (s'.mutex ≡ unlocked)
      × (view s' ≡ (promised_all cs (view s)).0)
unfolding perform_all promised_all
store_refines_map [] s free = (s, refl, free, refl)
store_refines_map (c ∷ cs) s free =
    let first = perform-Keeps c s free in
    let (s', e, m, v) = store_refines_map cs first.store first.free in
    (
      s',
      perform_all-cons c cs s first.store s' _ _ first.runs
          (e ∙ ap (λ m. done ((promised_all cs m).1, s')) first.seen),
      m,
      v ∙ ap (λ m. (promised_all cs m).0) first.seen,
    )
