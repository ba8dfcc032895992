-- ===== src/Service/RateLimit.antt =====
-- api-gateway/middleware/rate_limit.py. Times are whole ticks, and the window is given in ticks.
pub mod History
use realityai_agents.Prelude.{
  ℕ, String, Bool, true, false, ◌+◌, ◌||◌, Option, none, some, List, [], ◌∷◌, ◌++◌, ◌==◌,
  if◌then◌else◌, ltb, leb, length, lookup, keep, contains, starts_with, ◌+++◌,
}
use realityai_agents.Service.Cache.{store_at}

pub record Limiter : Type 0 where
  pub rpm : ℕ
  pub window : ℕ
  pub requests : List (String × List ℕ)

abbrev pub new_limiter : ℕ → ℕ → Limiter
new_limiter rpm window = record { rpm = rpm; window = window; requests = [] }

abbrev pub times_of : Option (List ℕ) → List ℕ
times_of none = []
times_of (some ts) = ts

-- `t > now - window`
abbrev pub recent : ℕ → ℕ → ℕ → Bool
recent window now t = ltb now (t + window)

-- `_is_rate_limited`: the answer and the new state.
unfoldable pub is_rate_limited : ℕ → String → Limiter → Bool × Limiter
is_rate_limited now key l =
    let pruned = keep (recent l.window now) (times_of (lookup key l.requests)) in
    if leb l.rpm (length pruned)
    then (true, record l { requests = store_at key pruned l.requests })
    else (false, record l { requests = store_at key (pruned ++ now ∷ []) l.requests })

pub record Request : Type 0 where
  pub path : String
  pub authorization : String  -- empty where the header is absent
  pub client_host : Option String

abbrev host_text : Option String → String
host_text none = "unknown"
host_text (some host) = host

pub data Response : Type 0 where
  passed_on : Response  -- what `call_next` answers
  too_many_requests : Response  -- status 429

module _ (hash_text : String → String) where
  -- `_get_key`; `hash_text` is the text of Python's `hash`.
  unfoldable pub get_key : Request → String
  get_key r =
      if starts_with r.authorization "Bearer "
      then "token:" +++ hash_text r.authorization
      else "ip:" +++ host_text r.client_host

  unfoldable pub dispatch : ℕ → Request → Limiter → Response × Limiter
  unfolding get_key is_rate_limited
  dispatch now r l =
      if contains r.path ("/health" ∷ "/" ∷ [])
      then (passed_on, l)
      else let (limited, l') = is_rate_limited now (get_key r) l in
        ((if limited then too_many_requests else passed_on), l')
