-- ===== src/Config/Tests.antt =====
-- rate-limiter/internal/config/config.go: keys in the environment, and the defaults.
use rate_limiter.Base.{◌≡◌, refl, Bool, true, false, ◌||◌, not, ◌&&◌, List, [], ◌∷◌, map}
use rate_limiter.Base.Split.{split, trim_space}
use rate_limiter.Base.Text.{Text, codes, text_eq}
use rate_limiter.Config.{ViperCall, set_default, set_defaults, key_of, env_keys}
use rate_limiter.Config.Keys.{granted}

-- An entry without a role is passed over, and what follows a second colon is dropped.
odd_entries :
    env_keys (codes "k1:admin, bad ,k2:user:x")
    ≡ map granted ((codes "k1", codes "admin") ∷ (codes "k2", codes "user") ∷ [])
unfolding env_keys split trim_space text_eq key_of
odd_entries = refl

abbrev sets : Text → List ViperCall → Bool
sets k [] = false
sets k (set_default j v ∷ cs) = text_eq j k || sets k cs
sets k (c ∷ cs) = sets k cs

abbrev sets_once : List ViperCall → Bool
sets_once [] = true
sets_once (set_default k v ∷ cs) = not (sets k cs) && sets_once cs
sets_once (c ∷ cs) = sets_once cs

one_default : sets_once set_defaults ≡ true
unfolding set_defaults text_eq
one_default = refl

goes_unset : sets (codes "rate_limiter.whitelist") set_defaults ≡ false
unfolding set_defaults text_eq
goes_unset = refl
