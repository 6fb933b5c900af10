-- ===== src/Config/Keys.antt =====
-- rate-limiter/internal/config/config.go: the API keys that the environment adds.
use rate_limiter.Base.{◌≡◌, refl, ap, ◌∙◌, Bool, true, false, ◌&&◌, List, [], ◌∷◌, ◌++◌, map, arith}
use rate_limiter.Base.Split.{
  split, join, lacks, all_lack, spaceless, trim_space, split-join, trim_space-spaceless,
  spaceless-append, lacks-append,
}
use rate_limiter.Base.Text.{Text, text_eq}
use rate_limiter.Config.{ApiKeyConfig, key_of, keys_of, env_keys}

-- A key and its role, as they are written: "key:role".
abbrev pub entry : Text × Text → Text
entry (key, role) = key ++ 58 ∷ role

-- "key:role,key:role"
abbrev pub listing : Text × Text → List (Text × Text) → Text
listing p ps = join 44 (entry p) (map entry ps)

abbrev pub granted : Text × Text → ApiKeyConfig
granted (key, role) = record { key = key; role = role; is_active = true }

-- No space, comma or colon.
unfoldable pub plain : Text → Bool
plain t = spaceless t && lacks 44 t && lacks 58 t

unfoldable pub all_plain : List (Text × Text) → Bool
unfolding plain
all_plain [] = true
all_plain ((key, role) ∷ ps) = plain key && plain role && all_plain ps

lacks-entry :
    (key role : Text) → plain key ≡ true → plain role ≡ true → lacks 44 (entry (key, role)) ≡ true
unfolding plain lacks
lacks-entry key role h k = lacks-append 44 key (58 ∷ role) (ground arith) (ground arith)

key_of-entry :
    (key role : Text)
    → plain key ≡ true
    → plain role ≡ true
    → key_of (split 58 (trim_space (entry (key, role)))) ≡ granted (key, role) ∷ []
unfolding plain key_of
key_of-entry key role h k =
    let whole : trim_space (key ++ 58 ∷ role) ≡ key ++ 58 ∷ role =
      trim_space-spaceless (key ++ 58 ∷ role)
        (spaceless-append key (58 ∷ role) (ground arith) (unfold spaceless in ground arith)) in
    let parts : split 58 (key ++ 58 ∷ role) ≡ key ∷ role ∷ [] =
      unfold join all_lack in split-join 58 key (role ∷ []) (ground arith) (ground arith) in
    rw (whole, parts) refl

keys_of-entries :
    (ps : List (Text × Text))
    → all_plain ps ≡ true
    → (keys_of (map entry ps) ≡ map granted ps) × (all_lack 44 (map entry ps) ≡ true)
unfolding all_plain keys_of all_lack
keys_of-entries [] h = (refl, refl)
keys_of-entries ((key, role) ∷ ps) h =
    let k : plain key ≡ true = ground arith in
    let r : plain role ≡ true = ground arith in
    let (keys, separate) = keys_of-entries ps (ground arith) in
    (
      ap (λ l. l ++ keys_of (map entry ps)) (key_of-entry key role k r)
          ∙ ap (λ l. granted (key, role) ∷ l) keys,
      ground (arith, lacks-entry key role k r),
    )

entry-ne : (p : Text × Text) (ps : List (Text × Text)) → text_eq (listing p ps) [] ≡ false
unfolding join text_eq
entry-ne ([], r) [] = refl
entry-ne (c ∷ k, r) [] = refl
entry-ne ([], r) (q ∷ ps) = refl
entry-ne (c ∷ k, r) (q ∷ ps) = refl

-- A variable that lists keys and roles, none of which has a space, a comma or a colon, adds just
-- these keys with these roles, active and in order.
pub env_keys-listing :
    (p : Text × Text) (ps : List (Text × Text))
    → all_plain (p ∷ ps) ≡ true
    → env_keys (listing p ps) ≡ map granted (p ∷ ps)
unfolding env_keys
env_keys-listing p ps h =
    let (keys, separate) = keys_of-entries (p ∷ ps) h in
    let parts : split 44 (listing p ps) ≡ map entry (p ∷ ps) =
      unfold all_lack in split-join 44 (entry p) (map entry ps) (ground arith) (ground arith) in
    rw (entry-ne p ps) (ap keys_of parts ∙ keys)
