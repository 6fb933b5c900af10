-- ===== src/Storage/Redis/Tests.antt =====
-- rate-limiter/internal/storage/redis.go: the theorems at a concrete server.
use rate_limiter.Base.{◌≡◌, refl, none, [], ◌∷◌, arith}
use rate_limiter.Base.Int.{pos}
use rate_limiter.Base.Text.{Text, codes}
use rate_limiter.Storage.Redis.{sliding_window}
use rate_limiter.Base.Sync.{fatal, index_out_of_range}
use rate_limiter.Config.Sample.{sample_redis}
use rate_limiter.Storage.Redis.Connect.{new_redis_storage}
use rate_limiter.Storage.Redis.Sample.{server, empty_slot, server_documented}
use rate_limiter.Storage.Redis.Window.{found, script_counts_distinct}

-- Three calls at 5000 and one at 4500, in a window of a second: two.
script_counts_distinct_example :
    (sliding_window server (codes "k") (pos 5000) (pos 1000) (
      found server server_documented
        (λ h. 0)
        (codes "k")
        1000
        5000
        (5000 ∷ 5000 ∷ 4500 ∷ 3000 ∷ [])
        (λ j. empty_slot))).1
    ≡ pos 2
script_counts_distinct_example =
    script_counts_distinct server server_documented (λ h. 0) (codes "k") 1000 5000
      (5000 ∷ 5000 ∷ 4500 ∷ 3000 ∷ []) (λ j. empty_slot) refl (λ now prev h le. omega arith)
      (omega arith) (omega arith)

-- A list of addresses that is empty panics, unless the cluster mode is on.
no_address :
    new_redis_storage {E = Text} (record sample_redis { addresses = [] }) (λ client. none)
    ≡ fatal index_out_of_range
unfolding new_redis_storage
no_address = refl
