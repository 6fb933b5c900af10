-- ===== src/Handler/Updates.antt =====
-- rate-limiter/internal/handler/http.go and grpc.go: which updates reach the service.
use rate_limiter.Base.{
  ◌≡◌, ◌≢◌, refl, ap, ◌∙◌, sym, subst, ◌⊎◌, All, Option, none, some, Option-cases, inl, inr, Bool,
  true, false, List, [], ◌∷◌, arith, if◌then◌else◌,
}
use rate_limiter.Base.Exec.{Result, ok, err, ◌>>=◌, pure}
use rate_limiter.Base.Int.{pos, ◌<ℤ◌, leb_ℤ}
use rate_limiter.Base.Sync.{Context, done}
use rate_limiter.Base.Text.{Text, codes, text_eq, text_eq_iff}
use rate_limiter.Storage.{Storage}
use rate_limiter.Service.{Service, Readings, update_whitelist, set_limit}
use rate_limiter.Handler.Http.{
  failure, WhitelistRequest, FieldValue, text_field, bool_field, int_field, whitelist_required,
  bind, or_refused, whitelist_bound, update_whitelist_http, changed,
}
use rate_limiter.Handler.Grpc.{
  invalid_argument, SetRequest, set_limit_grpc, set_with, set_problem, finished,
}

-- The zero value of a field's type.
abbrev pub IsZero : FieldValue → Type 0
IsZero (text_field t) = t ≡ []
IsZero (bool_field b) = b ≡ false
IsZero (int_field n) = n ≡ pos 0

-- gin's rule for fields that are `required`: there is an error exactly if one of them is the zero
-- value of its type.
pub record FindsZeros (missing : List FieldValue → Option Text) : Type 0 where
  pub passes : (vs : List FieldValue) → missing vs ≡ none → All (λ v. IsZero v → ⊥) vs
  pub refuses :
      (vs : List FieldValue) (e : Text) → missing vs ≡ some e → All (λ v. IsZero v → ⊥) vs → ⊥

-- Everything that is needed to put a key on the whitelist.
abbrev pub HasAll : WhitelistRequest → Type 0
HasAll r = (r.key ≢ []) × (r.identifier ≢ []) × (r.whitelisted ≡ true)

-- Everything that is needed to set a limit.
abbrev pub IsComplete : SetRequest → Type 0
IsComplete r = (r.key ≢ []) × (r.identifier ≢ []) × (r.window ≢ []) × (pos 0 <ℤ r.limit)

-- The first test that holds names the problem.
first_problem :
    (a b c d : Bool) (p q u v : Text)
    → let found : List Text =
        if a
        then p ∷ []
        else if b
        then q ∷ []
        else if c
        then u ∷ []
        else if d
        then v ∷ []
        else [] in
      ((a ≡ false) × (b ≡ false) × (c ≡ false) × (d ≡ false) × (found ≡ []))
      ⊎ ((x : Text) × (found ≡ x ∷ []) × ((a ≡ true) ⊎ ((b ≡ true) ⊎ ((c ≡ true) ⊎ (d ≡ true)))))
first_problem true b c d p q u v = inr (p, refl, inl refl)
first_problem false true c d p q u v = inr (q, refl, inr (inl refl))
first_problem false false true d p q u v = inr (u, refl, inr (inr (inl refl)))
first_problem false false false true p q u v = inr (v, refl, inr (inr (inr refl)))
first_problem false false false false p q u v = inl (refl, refl, refl, refl, refl)

true_of_not-false : (b : Bool) → (b ≡ false → ⊥) → b ≡ true
true_of_not-false true h = refl
true_of_not-false false h = absurd (h refl)

required_of-HasAll :
    (r r' : WhitelistRequest)
    → ◌≡◌ {A = Result Text WhitelistRequest} (ok r) (ok r')
    → HasAll r'
    → All (λ v. IsZero v → ⊥) (whitelist_required r)
unfolding whitelist_required
required_of-HasAll r r' q h =
    let same : r ≡ r' = cc in
    let (k, i, w) = subst HasAll (sym same) h in (k, (i, ((λ n. ground (arith, n, w)), tt)))

bind-passed :
    (missing : List FieldValue → Option Text) (r : WhitelistRequest)
    → missing (whitelist_required r) ≡ none
    → bind missing whitelist_required (ok r) ≡ ok r
unfolding bind
bind-passed missing r h = ap (or_refused r) h

bind-refused :
    (missing : List FieldValue → Option Text) (r : WhitelistRequest) (e : Text)
    → missing (whitelist_required r) ≡ some e
    → bind missing whitelist_required (ok r) ≡ err e
unfolding bind
bind-refused missing r e h = ap (or_refused r) h

module _ (S : Storage) (describe : S.Err → Text) (t : Readings) (ctx : Context) where
  open S use {Store, Err}

  -- A whitelist update over HTTP can only add: whatever the body decodes to, where gin keeps its rule
  -- for required fields, one that has a key and an identifier and sets `whitelisted` puts the key on
  -- the whitelist, and any other, one that takes a key off the whitelist among them, is refused with
  -- the status 400 and without a change.
  pub http_only_adds :
      (missing : List FieldValue → Option Text) (decoded : Result Text WhitelistRequest)
      (s : Service Store)
      → FindsZeros missing
      → ((r : WhitelistRequest) × (decoded ≡ ok r)
          × HasAll r
          × (update_whitelist_http S describe missing t ctx decoded s
              ≡ (update_whitelist S t ctx r.key r.identifier true >>= λ reply.
                    pure (changed S describe reply))
                  s))
        ⊎ (((r : WhitelistRequest) → decoded ≡ ok r → HasAll r → ⊥)
            × ((e : Text) × (update_whitelist_http S describe missing t ctx decoded s
                  ≡ done (record { status = 400; body = failure e }, s))))
  unfolding update_whitelist_http whitelist_bound whitelist_required bind
  http_only_adds missing (err e) s law = inr ((λ r q h. cc), (e, refl))
  http_only_adds missing (ok r) s law = elim (Option-cases (missing (whitelist_required r))) [
    | inl passed ↦
        let all = law.passes (whitelist_required r) passed in
        let on = true_of_not-false r.whitelisted all.1.1.0 in
        inl (
          r,
          refl,
          (all.0, all.1.0, on),
          ap (λ b. whitelist_bound S describe t ctx b s) (bind-passed missing r passed)
              ∙ ap
                  (λ b.
                    (update_whitelist S t ctx r.key r.identifier b >>= λ reply.
                    pure (changed S describe reply))
                      s)
                  on,
        )
    | inr (e, found) ↦ inr (
      (λ r' q h. law.refuses (whitelist_required r) e found (required_of-HasAll r r' q h)),
      (e, ap (λ b. whitelist_bound S describe t ctx b s) (bind-refused missing r e found)),
    )
  ]

  set_problem-IsComplete :
      (r : SetRequest)
      → (IsComplete r × (set_problem r ≡ []))
        ⊎ ((IsComplete r → ⊥) × ((p : Text) × (set_problem r ≡ p ∷ [])))
  unfolding set_problem
  set_problem-IsComplete r =
      let k = text_eq_iff r.key [] in
      let i = text_eq_iff r.identifier [] in
      let w = text_eq_iff r.window [] in
      elim (first_problem (text_eq r.key []) (text_eq r.identifier []) (text_eq r.window [])
        (leb_ℤ r.limit (pos 0)) (codes "key is required") (codes "identifier is required")
        (codes "window is required") (codes "limit must be positive")) [
          | inl (a, b, c, d, e) ↦ inl (ground (arith, k, i, w), e)
          | inr (x, e, why) ↦ inr (ground (arith, k, i, w), (x, e))
        ]

  -- A limit that is set over gRPC reaches the service exactly when the key, the identifier and the
  -- window are given and the limit is positive; otherwise the answer is an invalid argument and
  -- nothing changes.
  pub set_limit_guarded :
      (r : SetRequest) (s : Service Store)
      → (IsComplete r
          × (set_limit_grpc S describe t ctx r s
              ≡ (set_limit S t ctx r.key r.identifier r.window r.limit >>= λ reply.
                    pure (finished S describe (codes "failed to set limit: ") reply))
                  s))
        ⊎ ((IsComplete r → ⊥)
            × ((p : Text) × (set_limit_grpc S describe t ctx r s
                  ≡ done (err (invalid_argument p), s))))
  unfolding set_limit_grpc set_with
  set_limit_guarded r s = elim (set_problem-IsComplete r) [
    | inl (c, e) ↦ inl (c, ap (λ p. set_with S describe t ctx r p s) e)
    | inr (n, (p, e)) ↦ inr (n, (p, ap (λ q. set_with S describe t ctx r q s) e))
  ]
