-- ===== src/Gin.antt =====
-- What the middlewares under rate-limiter/internal/ ask of gin, a library: what a handler reads of the
-- request and its context is an argument, and what it asks for is a list of calls, in order. Header
-- and query values are empty where they are missing, as gin's are.
use rate_limiter.Base.{if◌then◌else◌, some, ℕ, Bool, true, false, Option, List, [], ◌∷◌}
use rate_limiter.Base.Text.{Text, text_eq}

pub record Request : Type 0 where
  pub get_header : Text → Text
  pub query : Text → Text
  pub get : Text → Option Text  -- values that earlier handlers set, all of them strings here
  pub client_ip : Text
  pub method : Text

-- An aborted request carries its status, and of its JSON body the text under "error".
pub data GinCall : Type 0 where
  header set : Text → Text → GinCall
  abort_json : ℕ → Text → GinCall
  abort_status : ℕ → GinCall
  next : GinCall

-- The rest of the chain is run.
unfoldable pub passes : List GinCall → Bool
passes [] = false
passes (next ∷ cs) = true
passes (header k v ∷ cs) = passes cs
passes (set k v ∷ cs) = passes cs
passes (abort_json n e ∷ cs) = false
passes (abort_status n ∷ cs) = false

-- The request as the next handler sees it: with the values that were set.
unfoldable pub after : List GinCall → Request → Request
after [] r = r
after (set k v ∷ cs) r = after cs (record r { get = λ j. if text_eq k j then some v else r.get j })
after (header k v ∷ cs) r = after cs r
after (abort_json n e ∷ cs) r = after cs r
after (abort_status n ∷ cs) r = after cs r
after (next ∷ cs) r = after cs r
