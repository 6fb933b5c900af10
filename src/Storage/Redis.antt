-- ===== src/Storage/Redis.antt =====
-- rate-limiter/internal/storage/redis.go (and errors.go): the Redis storage. The client and the
-- commands of the server are a library's: they are parameters, and the Lua script of the sliding
-- window is translated to calls of them. Times and durations are in nanoseconds; the script is
-- given milliseconds.
pub mod Members
pub mod Distinct
pub mod Window
pub mod Limits
pub mod Sample
pub mod Connect
mod Tests
use rate_limiter.Base.{
  ℕ, ◌+◌, ◌/◌, Bool, true, false, Option, none, some, List, [], ◌∷◌, ◌++◌, if◌then◌else◌,
}
use rate_limiter.Base.Dict.{Dict, insert}
use rate_limiter.Base.Exec.{Result, ok, err}
use rate_limiter.Base.Int.{ℤ, pos, negsuc, ltb_ℤ, sub_ℕ, ◌+ℤ◌, ◌-ℤ◌}
use rate_limiter.Base.Sync.{Time, Duration, Context, ContextError, millisecond, hour}
use rate_limiter.Base.Decimal.{atoi}
use rate_limiter.Base.Text.{Text, codes}
use rate_limiter.Storage.{Storage}

-- The commands that the script calls, on the server's data.
pub record Commands : Type 1 where
  pub Server : Type 0
  pub zremrangebyscore : Text → ℤ → ℤ → Server → Server
  pub zadd : Text → ℤ → ℤ → Server → Server  -- key, score, member
  pub pexpire : Text → ℤ → Server → Server
  pub zcard : Text → Server → Server × ℤ

-- The script `slidingWindowLua`: KEYS[1], ARGV[1], ARGV[2].
unfoldable pub sliding_window : (C : Commands) → Text → ℤ → ℤ → C.Server → C.Server × ℤ
sliding_window C key now window st =
    let cutoff = now -ℤ window in
    let st₁ = C.zremrangebyscore key (pos 0) cutoff st in
    let st₂ = C.zadd key now now st₁ in
    let st₃ = C.pexpire key (window +ℤ pos 1000) st₂ in C.zcard key st₃

-- What a failed command returns: `redis.Nil` for a missing key, or another error.
pub data ClientError : Type 0 where
  redis_nil : ClientError
  client_failed : Text → ClientError

-- The client's methods that the storage calls. A value that is set goes over as decimal text.
pub record Client : Type 1 where
  pub commands : Commands
  pub open commands use {Server}
  pub run_script : Context → (Server → Server × ℤ) → Server → Server × Result ClientError ℤ
  pub exists : Time → Context → Text → Server → Server × Result ClientError ℤ
  pub set : Time → Context → Text → ℤ → Duration → Server → Server × Result ClientError (Unit {0})
  pub del : Time → Context → Text → Server → Server × Result ClientError ℤ
  pub get : Time → Context → Text → Server → Server × Result ClientError Text
  pub ping : Context → Server → Server × Result ClientError (Unit {0})
  pub flush_all : Context → Server → Server × Result ClientError (Unit {0})
  pub run_pipeline :
      Context
      → List (Text × (Server → Server × ℤ))
      → Server
      → Server × Result ClientError (List (Text × Result ClientError ℤ))

abbrev pub prefix_counter : Text
prefix_counter = codes "ratelimit:counter:"

abbrev pub prefix_whitelist : Text
prefix_whitelist = codes "ratelimit:whitelist:"

abbrev pub prefix_limit : Text
prefix_limit = codes "ratelimit:limit:"

-- The errors of the methods: the context's, or the client's with the method's message.
pub data StoreError : Type 0 where
  context_error : ContextError → StoreError
  script_failed whitelist_failed add_failed remove_failed set_failed get_failed :
      ClientError → StoreError
  invalid_limit : Text → StoreError
  pipeline_failed : ClientError → StoreError
  count_failed : Text → ClientError → StoreError

-- Division of a signed number by a positive one, towards zero as Go's is.
abbrev pub quot : ℤ → ℕ → ℤ
quot (pos n) d = pos (n / d)
quot (negsuc n) d = sub_ℕ 0 ((n + 1) / d)

-- `time.Now().UnixNano() / int64(time.Millisecond)`; `epoch` is 1970 on the clock's scale.
abbrev pub unix_ms : Time → Time → ℤ
unix_ms epoch now = quot (now -ℤ epoch) millisecond

-- `window.Milliseconds()`
abbrev pub milliseconds : Duration → ℤ
milliseconds d = quot d millisecond

-- A client's result with the method's message put on its error.
abbrev pub wrap {ℓ} :
    {A : Type 0} {S : Type ℓ}
    → (ClientError → StoreError)
    → S × Result ClientError A
    → S × Result StoreError A
wrap f (st, ok a) = (st, ok a)
wrap f (st, err e) = (st, err (f e))

-- A method's body is run unless the context is done.
abbrev pub unless_done :
    {S A : Type 0} → Context → S → S × Result StoreError A → S × Result StoreError A
unless_done none st r = r
unless_done (some e) st r = (st, err (context_error e))

module _ (R : Client) (epoch : Time) where
  open R use {commands, Server}

  unfoldable pub increment_and_count :
      Time → Context → Text → Duration → Server → Server × Result StoreError ℤ
  increment_and_count now ctx key window st = unless_done ctx st (
      wrap script_failed (
        R.run_script ctx
          (sliding_window commands (prefix_counter ++ key) (unix_ms epoch now)
            (milliseconds window))
          st))

  unfoldable pub listed : Server × Result ClientError ℤ → Server × Result StoreError Bool
  listed (st, ok n) = (st, ok (ltb_ℤ (pos 0) n))
  listed (st, err e) = (st, err (whitelist_failed e))

  unfoldable pub is_whitelisted : Time → Context → Text → Server → Server × Result StoreError Bool
  unfolding listed
  is_whitelisted now ctx key st =
      unless_done ctx st (listed (R.exists now ctx (prefix_whitelist ++ key) st))

  removed : Server × Result ClientError ℤ → Server × Result StoreError (Unit {0})
  removed (st, ok n) = (st, ok tt)
  removed (st, err e) = (st, err (remove_failed e))

  -- The entry lives for a day.
  unfoldable pub update_whitelist :
      Time → Context → Text → Bool → Server → Server × Result StoreError (Unit {0})
  unfolding removed
  update_whitelist now ctx key true st =
      unless_done ctx st
        (wrap add_failed (R.set now ctx (prefix_whitelist ++ key) (pos 1) (pos 86400000000000) st))
  update_whitelist now ctx key false st =
      unless_done ctx st (removed (R.del now ctx (prefix_whitelist ++ key) st))

  -- fmt.Sprintf("%s%s:%s", prefixLimit, key, window)
  unfoldable pub limit_key : Text → Text → Text
  limit_key key window = prefix_limit ++ key ++ codes ":" ++ window

  unfoldable pub set_limit :
      Time → Context → Text → Text → ℤ → Server → Server × Result StoreError (Unit {0})
  unfolding limit_key
  set_limit now ctx key window limit st =
      unless_done ctx st
        (wrap set_failed (R.set now ctx (limit_key key window) limit (pos 86400000000000) st))

  unfoldable pub parsed : Server → Text → Option ℤ → Server × Result StoreError ℤ
  parsed st text none = (st, err (invalid_limit text))
  parsed st text (some n) = (st, ok n)

  unfoldable pub got : Server × Result ClientError Text → Server × Result StoreError ℤ
  unfolding parsed
  got (st, ok text) = parsed st text (atoi text)
  got (st, err redis_nil) = (st, ok (pos 0))
  got (st, err (client_failed m)) = (st, err (get_failed (client_failed m)))

  unfoldable pub get_limit : Time → Context → Text → Text → Server → Server × Result StoreError ℤ
  unfolding got limit_key
  get_limit now ctx key window st =
      unless_done ctx st (got (R.get now ctx (limit_key key window) st))

  -- One command for each key, in order.
  batch_commands : ℤ → ℤ → List Text → List (Text × (Server → Server × ℤ))
  batch_commands now window [] = []
  batch_commands now window (key ∷ keys) =
      (key, sliding_window commands (prefix_counter ++ key) now window)
      ∷ batch_commands now window keys

  -- `cmdMap`: a key that is given twice keeps its last command.
  cmd_map :
      List (Text × Result ClientError ℤ) → Dict (Result ClientError ℤ) → Dict (Result ClientError ℤ)
  cmd_map [] m = m
  cmd_map ((key, cmd) ∷ cmds) m = cmd_map cmds (insert key cmd m)

  -- The results by key: the first failed command ends the loop with its error.
  collect : Server → Dict (Result ClientError ℤ) → Dict ℤ → Server × Result StoreError (Dict ℤ)
  collect st [] results = (st, ok results)
  collect st ((key, ok n) ∷ cmds) results = collect st cmds (insert key n results)
  collect st ((key, err e) ∷ cmds) results = (st, err (count_failed key e))

  batch_results :
      Server × Result ClientError (List (Text × Result ClientError ℤ))
      → Server × Result StoreError (Dict ℤ)
  unfolding cmd_map collect
  batch_results (st, ok cmds) = collect st (cmd_map cmds []) []
  batch_results (st, err e) = (st, err (pipeline_failed e))

  unfoldable pub batch_increment_and_count :
      Time → Context → List Text → Duration → Server → Server × Result StoreError (Dict ℤ)
  unfolding batch_commands batch_results
  batch_increment_and_count now ctx keys window st = unless_done ctx st (
      batch_results
        (R.run_pipeline ctx (batch_commands (unix_ms epoch now) (milliseconds window) keys) st))

  unfoldable pub ping_with_context : Context → Server → Server × Result ClientError (Unit {0})
  ping_with_context ctx st = R.ping ctx st

  unfoldable pub flush_all_data : Context → Server → Server × Result ClientError (Unit {0})
  flush_all_data ctx st = R.flush_all ctx st

  -- The storage that the service is given.
  abbrev pub redis_storage : Storage
  redis_storage = record {
    Store = Server;
    Err = StoreError;
    increment_and_count = increment_and_count;
    is_whitelisted = is_whitelisted;
    update_whitelist = update_whitelist;
    set_limit = set_limit;
    get_limit = get_limit;
  }
