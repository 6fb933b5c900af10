-- ===== src/Service/Updates.antt =====
-- rate-limiter/internal/service/ratelimiter.go: `SetLimit` and `UpdateWhitelist` on every answer of
-- the storage, and what an update that went through says of it.
use rate_limiter.Base.{Bool, ◌≡◌, refl, subst, arith}
use rate_limiter.Base.Exec.{Result, ok, err}
use rate_limiter.Base.Int.{ℤ}
use rate_limiter.Base.Sync.{Context, done}
use rate_limiter.Base.Text.{Text}
use rate_limiter.Storage.{Storage}
use rate_limiter.Service.{
  Service, set_limit_failed, update_whitelist_failed, Readings, full_key, set_limit,
  update_whitelist,
}
use rate_limiter.Service.Breaker.{
  is_open-steady, after_failure, after_success, increment_failure_lem, reset_failure_lem,
}
use rate_limiter.Service.Decision.{Ready}

module _ (S : Storage) (t : Readings) (ctx : Context) (key identifier window_name : Text) where
  open S use {Store, Err}

  -- An update that went through: what the storage answered, and the service after it.
  pub record Updated (call : Store → Store × Result Err (Unit {0})) (s s' : Service Store)
      : Type 0 where
    pub store : Store
    pub stored : call s.store ≡ (store, ok tt)
    pub held : s'.store ≡ store
    pub kept : s'.default_limits ≡ s.default_limits
    pub ready : Ready S t ctx key identifier window_name s'

  settled :
      (call : Store → Store × Result Err (Unit {0})) (s : Service Store) (st : Store)
      (r : Ready S t ctx key identifier window_name s)
      → call s.store ≡ (st, ok tt)
      → Updated call s (after_success (record s { store = st }) r.free)
  settled call s st r a = record {
    store = st;
    stored = a;
    held = refl;
    kept = refl;
    ready = record { free = r.free; shut = r.shut };
  }

  set_limit-ok :
      (limit : ℤ) (s : Service Store) (st : Store) (r : Ready S t ctx key identifier window_name s)
      → S.set_limit t.called ctx (full_key key identifier) window_name limit s.store ≡ (st, ok tt)
      → set_limit S t ctx key identifier window_name limit s
        ≡ done (ok tt, after_success (record s { store = st }) r.free)
  unfolding set_limit
  set_limit-ok limit s st r a = ground (
    arith,
    is_open-steady t s r.free (ground (arith, r.shut)),
    reset_failure_lem (record s { store = st }) r.free,
  )

  set_limit-err :
      (limit : ℤ) (s : Service Store) (st : Store) (e : Err)
      (r : Ready S t ctx key identifier window_name s)
      → S.set_limit t.called ctx (full_key key identifier) window_name limit s.store ≡ (st, err e)
      → set_limit S t ctx key identifier window_name limit s
        ≡ done (err (set_limit_failed e), after_failure (record s { store = st }) r.free t.noted)
  unfolding set_limit
  set_limit-err limit s st e r a = ground (
    arith,
    is_open-steady t s r.free (ground (arith, r.shut)),
    increment_failure_lem (record s { store = st }) r.free t.noted,
  )

  pub set_limit-answered :
      (limit : ℤ) (s s' : Service Store) (o : Store × Result Err (Unit {0}))
      → Ready S t ctx key identifier window_name s
      → S.set_limit t.called ctx (full_key key identifier) window_name limit s.store ≡ o
      → set_limit S t ctx key identifier window_name limit s ≡ done (ok tt, s')
      → Updated (S.set_limit t.called ctx (full_key key identifier) window_name limit) s s'
  set_limit-answered limit s s' (st, ok u) r a e =
      let q : after_success (record s { store = st }) r.free ≡ s' =
        cc (set_limit-ok limit s st r a) in
      subst (Updated (S.set_limit t.called ctx (full_key key identifier) window_name limit) s) q
        (settled (S.set_limit t.called ctx (full_key key identifier) window_name limit) s st r a)
  set_limit-answered limit s s' (st, err x) r a e = cc (set_limit-err limit s st x r a)

  update_whitelist-ok :
      (whitelisted : Bool) (s : Service Store) (st : Store)
      (r : Ready S t ctx key identifier window_name s)
      → S.update_whitelist t.called ctx (full_key key identifier) whitelisted s.store ≡ (st, ok tt)
      → update_whitelist S t ctx key identifier whitelisted s
        ≡ done (ok tt, after_success (record s { store = st }) r.free)
  unfolding update_whitelist
  update_whitelist-ok whitelisted s st r a = ground (
    arith,
    is_open-steady t s r.free (ground (arith, r.shut)),
    reset_failure_lem (record s { store = st }) r.free,
  )

  update_whitelist-err :
      (whitelisted : Bool) (s : Service Store) (st : Store) (e : Err)
      (r : Ready S t ctx key identifier window_name s)
      → S.update_whitelist t.called ctx (full_key key identifier) whitelisted s.store ≡ (st, err e)
      → update_whitelist S t ctx key identifier whitelisted s
        ≡ done (
          err (update_whitelist_failed e),
          after_failure (record s { store = st }) r.free t.noted,
        )
  unfolding update_whitelist
  update_whitelist-err whitelisted s st e r a = ground (
    arith,
    is_open-steady t s r.free (ground (arith, r.shut)),
    increment_failure_lem (record s { store = st }) r.free t.noted,
  )

  pub update_whitelist-answered :
      (whitelisted : Bool) (s s' : Service Store) (o : Store × Result Err (Unit {0}))
      → Ready S t ctx key identifier window_name s
      → S.update_whitelist t.called ctx (full_key key identifier) whitelisted s.store ≡ o
      → update_whitelist S t ctx key identifier whitelisted s ≡ done (ok tt, s')
      → Updated (S.update_whitelist t.called ctx (full_key key identifier) whitelisted) s s'
  update_whitelist-answered whitelisted s s' (st, ok u) r a e =
      let q : after_success (record s { store = st }) r.free ≡ s' =
        cc (update_whitelist-ok whitelisted s st r a) in
      subst (Updated (S.update_whitelist t.called ctx (full_key key identifier) whitelisted) s) q
        (settled (S.update_whitelist t.called ctx (full_key key identifier) whitelisted) s st r a)
  update_whitelist-answered whitelisted s s' (st, err x) r a e =
      cc (update_whitelist-err whitelisted s st x r a)
