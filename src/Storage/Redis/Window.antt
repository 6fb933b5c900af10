-- ===== src/Storage/Redis/Window.antt =====
-- rate-limiter/internal/storage/redis.go: what the sliding window counts. The documented behaviour
-- of the four commands is a hypothesis on how they change the members of a key.
use rate_limiter.Base.{
  ℕ, ◌+◌, ◌≤◌, ◌<◌, ◌≡◌, ◌≢◌, refl, ap, sym, ◌∙◌, Option, some, if◌then◌else◌, List, [], ◌∷◌, ltb,
  arith, length, Bool-cases, inl, inr,
}
use rate_limiter.Base.Int.{ℤ, pos, pos_part, ◌<ℤ◌, ◌≤ℤ◌, ◌+ℤ◌, ◌-ℤ◌}
use rate_limiter.Base.Text.{Text}
use rate_limiter.Storage.Redis.{Commands, sliding_window}
use rate_limiter.Storage.Redis.Members.{
  place, keep_above, has, distinct, within, Falling, cutoff_lem, AllLe, AllLe-mono, AllLe-keep,
  AllLe-place, length-place, has-place, keep-place_in, keep-place_out, keep-keep,
}

-- What the commands do to the members of a key, where every member was added with itself as its
-- score: they are listed by score, and a key that has expired has none. `left` is what is left of
-- the key's time to live, in milliseconds on the server's clock, and `elapse` lets time pass there.
pub record Documented (C : Commands) : Type 0 where
  pub members : Text → C.Server → List ℕ
  pub left : Text → C.Server → Option ℕ
  pub elapse : ℕ → C.Server → C.Server
  pub removes :
      (k : Text) (cutoff : ℤ) (st : C.Server)
      → members k (C.zremrangebyscore k (pos 0) cutoff st) ≡ keep_above cutoff (members k st)
  pub adds :
      (k : Text) (t : ℕ) (st : C.Server)
      → members k (C.zadd k (pos t) (pos t) st) ≡ place t (members k st)
  -- a key that is there is given a time to live; one that is not positive deletes it
  pub expires :
      (k : Text) (ms : ℤ) (st : C.Server)
      → pos 0 <ℤ ms
      → members k st ≢ []
      → (members k (C.pexpire k ms st) ≡ members k st)
        × (left k (C.pexpire k ms st) ≡ some (pos_part ms))
  pub deletes :
      (k : Text) (ms : ℤ) (st : C.Server) → ms ≤ℤ pos 0 → members k (C.pexpire k ms st) ≡ []
  pub counts : (k : Text) (st : C.Server) → C.zcard k st ≡ (st, pos (length (members k st)))
  -- the key is there until its time to live has passed
  pub lives :
      (k : Text) (ms e : ℕ) (st : C.Server)
      → left k st ≡ some ms
      → members k (elapse e st) ≡ (if ltb e ms then members k st else [])
  pub stays_empty :
      (k : Text) (e : ℕ) (st : C.Server) → members k st ≡ [] → members k (elapse e st) ≡ []

-- The server's clock runs at most a second faster than the callers' clocks from one call to the
-- next: `waited h` is the time that passes on the server before the latest call of a history.
abbrev pub KeepsPace : (List ℕ → ℕ) → Type 0
KeepsPace waited =
    (now prev : ℕ) (h : List ℕ) → prev ≤ now → prev + waited (now ∷ prev ∷ h) < now + 1000

-- The members that the calls at the times of a history leave, latest call first.
held : ℕ → List ℕ → List ℕ
held window [] = []
held window (now ∷ h) = place now (keep_above (pos now -ℤ pos window) (held window h))

held-AllLe : (window now : ℕ) (h : List ℕ) → Falling now h → AllLe now (held window h)
unfolding held
held-AllLe window now [] f = tt
held-AllLe window now (t ∷ h) f = AllLe-mono t now _ f.0 (
    AllLe-place t _
      (AllLe-keep t (pos t -ℤ pos window) (held window h) (held-AllLe window t h f.1)))

cut_mono : (window a b : ℕ) → a ≤ b → (pos a -ℤ pos window) ≤ℤ (pos b -ℤ pos window)
unfolding ◌-ℤ◌
cut_mono window a b h = ground arith

-- Seen from any later time, the members and the history have the same times in the window.
abbrev Agrees : ℕ → ℕ → List ℕ → List ℕ → Type 0
Agrees window now members history =
    (length (keep_above (pos now -ℤ pos window) members) ≡ distinct (within window now history))
    × ((y : ℕ)
        → has y (keep_above (pos now -ℤ pos window) members) ≡ has y (within window now history))

held-Agrees :
    (window now later : ℕ) (h : List ℕ)
    → Falling now h
    → now ≤ later
    → Agrees window later (held window h) h
unfolding held
held-Agrees window now later [] f le = (refl, λ y. refl)
held-Agrees window now later (t ∷ h) f le =
    let (len, same) = held-Agrees window t later h f.1 (omega arith) in
    let below = held-AllLe window t h f.1 in
    let cut = pos later -ℤ pos window in
    let kept = keep_above (pos t -ℤ pos window) (held window h) in
    let kept_below = AllLe-keep t (pos t -ℤ pos window) (held window h) below in
    let twice =
      keep-keep (pos t -ℤ pos window) cut (held window h) (cut_mono window t later (omega arith)) in
    let bridge = cutoff_lem window later t in
    elim (Bool-cases (ltb later (t + window))) [
      | inl inside ↦ (
        ground (
          arith,
          inside,
          bridge,
          twice,
          len,
          same t,
          keep-place_in cut t kept kept_below (bridge ∙ inside),
          length-place t (keep_above cut kept) (AllLe-keep t cut kept kept_below),
        ),
        λ y. ground (
          arith,
          inside,
          bridge,
          twice,
          same y,
          keep-place_in cut t kept kept_below (bridge ∙ inside),
          has-place y t (keep_above cut kept) (AllLe-keep t cut kept kept_below),
        ),
      )
      | inr outside ↦ (
        ground
            (arith, outside, twice, len, keep-place_out cut t kept kept_below (bridge ∙ outside)),
        λ y. ground (
          arith,
          outside,
          twice,
          same y,
          keep-place_out cut t kept kept_below (bridge ∙ outside),
        ),
      )
    ]

-- What is not in the window any more is removed.
keep-none :
    (window prev now : ℕ) (xs : List ℕ)
    → AllLe prev xs
    → prev + window ≤ now
    → keep_above (pos now -ℤ pos window) xs ≡ []
keep-none window prev now [] l h = refl
keep-none window prev now (x ∷ xs) l h =
    ground (arith, cutoff_lem window now x, keep-none window prev now xs l.1 h)

place-some : (t : ℕ) (xs : List ℕ) → place t xs ≢ []
place-some t [] e = cc
place-some t (x ∷ xs) e = ground arith

module _ (C : Commands) (doc : Documented C) (waited : List ℕ → ℕ) (k : Text) (window : ℕ) where
  -- Runs of the script on the key at the times of a history, latest first, with the time that
  -- passes before each.
  unfoldable pub calls : List ℕ → C.Server → C.Server
  calls [] st = st
  calls (now ∷ h) st =
      (sliding_window C k (pos now) (pos window) (doc.elapse (waited (now ∷ h)) (calls h st))).0

  -- The server as the next call finds it.
  abbrev pub found : ℕ → List ℕ → C.Server → C.Server
  found now h st = doc.elapse (waited (now ∷ h)) (calls h st)

  script-members :
      (now : ℕ) (st : C.Server)
      → let left_over = place now (keep_above (pos now -ℤ pos window) (doc.members k st)) in
        let after = sliding_window C k (pos now) (pos window) st in
        (doc.members k after.0 ≡ left_over)
        × (doc.left k after.0 ≡ some (window + 1000))
        × (after.1 ≡ pos (length left_over))
  unfolding sliding_window ◌+ℤ◌
  script-members now st =
      let st₁ = C.zremrangebyscore k (pos 0) (pos now -ℤ pos window) st in
      let st₂ = C.zadd k (pos now) (pos now) st₁ in
      let st₃ = C.pexpire k (pos window +ℤ pos 1000) st₂ in
      let added : doc.members k st₂
          ≡ place now (keep_above (pos now -ℤ pos window) (doc.members k st)) =
        doc.adds k now st₁ ∙ ap (place now) (doc.removes k (pos now -ℤ pos window) st) in
      let (same, lives) =
        doc.expires k (pos window +ℤ pos 1000) st₂ (ground arith)
          (λ e. place-some now _ (sym added ∙ e)) in
      (
        ap (λ r. doc.members k r.0) (doc.counts k st₃) ∙ same ∙ added,
        ap (λ r. doc.left k r.0) (doc.counts k st₃) ∙ lives ∙ ground arith,
        ap (λ r. r.1) (doc.counts k st₃) ∙ ap (λ l. pos (length l)) (same ∙ added),
      )

  calls-left :
      (now : ℕ) (h : List ℕ) (st : C.Server)
      → doc.left k (calls (now ∷ h) st) ≡ some (window + 1000)
  unfolding calls
  calls-left now h st = (script-members now (found now h st)).1

  -- What the next call finds in its window is what the calls before it left there: a key that has
  -- expired held nothing that is still in the window.
  found-held :
      (now : ℕ) (h : List ℕ) (st : C.Server)
      → doc.members k st ≡ []
      → KeepsPace waited
      → Falling now h
      → doc.members k (calls h st) ≡ held window h
      → keep_above (pos now -ℤ pos window) (doc.members k (found now h st))
        ≡ keep_above (pos now -ℤ pos window) (held window h)
  unfolding calls held
  found-held now [] st e pace f same =
      ap (keep_above (pos now -ℤ pos window)) (doc.stays_empty k (waited (now ∷ [])) st e)
  found-held now (prev ∷ h) st e pace f same =
      let cut = keep_above (pos now -ℤ pos window) in
      let gap = waited (now ∷ prev ∷ h) in
      let alive = doc.lives k (window + 1000) gap (calls (prev ∷ h) st) (calls-left prev h st) in
      elim (Bool-cases (ltb gap (window + 1000))) [
        | inl early ↦
            ap cut
              (alive ∙ ap (λ b. if b then doc.members k (calls (prev ∷ h) st) else []) early ∙ same)
        | inr late ↦
            ap cut (alive ∙ ap (λ b. if b then doc.members k (calls (prev ∷ h) st) else []) late)
            ∙ sym (
                keep-none window prev now (held window (prev ∷ h))
                  (held-AllLe window prev (prev ∷ h) (omega arith, f.1))
                  (ground (arith, pace now prev h f.0, late)))
      ]

  calls-held :
      (now : ℕ) (h : List ℕ) (st : C.Server)
      → doc.members k st ≡ []
      → KeepsPace waited
      → Falling now h
      → doc.members k (calls h st) ≡ held window h
  unfolding calls held
  calls-held now [] st e pace f = e
  calls-held now (t ∷ h) st e pace f =
      (script-members t (found t h st)).0
      ∙ ap (place t) (found-held t h st e pace f.1 (calls-held t h st e pace f.1))

  -- The bug: the script returns the number of distinct milliseconds at which it was called in the
  -- window that ends now, this call's included, and not the number of calls: what comes within one
  -- millisecond counts once. (Calls on a key that starts empty, none of them out of order, with a
  -- positive window; the times are milliseconds. Between two calls any time passes on the server's
  -- clock, by which the key expires, that is not a second more than the difference of their times.)
  pub script_counts_distinct :
      (now : ℕ) (h : List ℕ) (st : C.Server)
      → doc.members k st ≡ []
      → KeepsPace waited
      → Falling now h
      → 0 < window
      → (sliding_window C k (pos now) (pos window) (found now h st)).1
        ≡ pos (distinct (within window now (now ∷ h)))
  script_counts_distinct now h st e pace f w =
      let below = held-AllLe window now h f in
      let kept = keep_above (pos now -ℤ pos window) (held window h) in
      let (len, same) = held-Agrees window now now h f (omega arith) in
      (script-members now (found now h st)).2
      ∙ ap (λ l. pos (length (place now l)))
          (found-held now h st e pace f (calls-held now h st e pace f))
      ∙ ground (
        arith,
        len,
        same now,
        length-place now kept (AllLe-keep now (pos now -ℤ pos window) (held window h) below),
      )
