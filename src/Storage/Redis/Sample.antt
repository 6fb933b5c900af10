-- ===== src/Storage/Redis/Sample.antt =====
-- rate-limiter/internal/storage/redis.go: a server for the script, on which the tests run.
use rate_limiter.Base.{
  ℕ, ◌-◌, ◌≡◌, refl, Option, none, some, List, [], if◌then◌else◌, length, ltb, arith,
}
use rate_limiter.Base.Int.{ℤ, pos, pos_part, ltb_ℤ, ◌<ℤ◌, ◌≤ℤ◌}
use rate_limiter.Base.Text.{Text, text_eq, text_eq_refl}
use rate_limiter.Storage.Redis.{Commands}
use rate_limiter.Storage.Redis.Members.{place, keep_above}
use rate_limiter.Storage.Redis.Window.{Documented}

-- A key with its members and what is left of its time to live.
pub record Slot : Type 0 where
  pub members : List ℕ
  pub left : Option ℕ

abbrev pub empty_slot : Slot
empty_slot = record { members = []; left = none }

abbrev pub changed : (Slot → Slot) → Text → (Text → Slot) → Text → Slot
changed f k st j = if text_eq k j then f (st j) else st j

abbrev pub aged : ℕ → Option ℕ → List ℕ → Slot
aged e none members = record { members = members; left = none }
aged e (some ms) members =
    if ltb e ms then record { members = members; left = some (ms - e) } else empty_slot

abbrev pub timed : Text → ℤ → (Text → Slot) → Text → Slot
timed k ms =
    changed (λ s. if ltb_ℤ (pos 0) ms then record s { left = some (pos_part ms) } else empty_slot) k

-- A server that keeps the members of each key until it expires.
abbrev pub server : Commands
server = record {
  Server = Text → Slot;
  zremrangebyscore =
      λ k lo hi st. changed (λ s. record s { members = keep_above hi s.members }) k st;
  zadd = λ k score member st.
      changed (λ s. record s { members = place (pos_part member) s.members }) k st;
  pexpire = timed;
  zcard = λ k st. (st, pos (length (st k).members));
}

pub aged-empty : (e : ℕ) (o : Option ℕ) (xs : List ℕ) → xs ≡ [] → (aged e o xs).members ≡ []
aged-empty e none xs h = h
aged-empty e (some ms) xs h = ground (arith, h)

pub aged-lives :
    (ms e : ℕ) (o : Option ℕ) (xs : List ℕ)
    → o ≡ some ms
    → (aged e o xs).members ≡ (if ltb e ms then xs else [])
aged-lives ms e o xs h = ground (arith, h)

pub timed_live :
    (k : Text) (ms : ℤ) (st : Text → Slot)
    → pos 0 <ℤ ms
    → ((timed k ms st k).members ≡ (st k).members) × ((timed k ms st k).left ≡ some (pos_part ms))
timed_live k ms st h = (ground (arith, text_eq_refl k), ground (arith, text_eq_refl k))

pub timed_dead :
    (k : Text) (ms : ℤ) (st : Text → Slot) → ms ≤ℤ pos 0 → (timed k ms st k).members ≡ []
timed_dead k ms st h = ground (arith, text_eq_refl k)

abbrev pub server_documented : Documented server
server_documented = record {
  members = λ k st. (st k).members;
  left = λ k st. (st k).left;
  elapse = λ e st j. aged e (st j).left (st j).members;
  removes = λ k cutoff st. rw (text_eq_refl k) refl;
  adds = λ k t st. rw (text_eq_refl k) refl;
  expires = λ k ms st positive there. timed_live k ms st positive;
  deletes = λ k ms st h. timed_dead k ms st h;
  counts = λ k st. refl;
  lives = λ k ms e st h. aged-lives ms e (st k).left (st k).members h;
  stays_empty = λ k e st h. aged-empty e (st k).left (st k).members h;
}
