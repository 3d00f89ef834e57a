-- ===== src/Emit/Codes.antt =====
-- The responses that are counted: crawler/crawling/redis_stats_middleware.py and
-- log_retry_middleware.py.
use Prim.Native.String.{◌++◌}
use scrapy_cluster.Prelude.{
  ℕ, String, Bool, true, false, Option, none, some, List, [], ◌∷◌, ◌==◌, Dict, lookup, insert,
  if◌then◌else◌,
}
use scrapy_cluster.Redis.{Redis}
use scrapy_cluster.Throttle.Clock.{TimeText}
use scrapy_cluster.Statistics.Queues.{and_then}
use scrapy_cluster.Statistics.Groups.{Group, setup_group, increment_group}

-- the collectors of a spider by status code
abbrev pub ByCode : Type 0
ByCode = List (ℕ × Group)

abbrev pub at_code : ℕ → ByCode → Option Group
at_code code [] = none
at_code code ((n, g) ∷ l) = if n == code then some g else at_code code l

abbrev pub is_in : ℕ → List ℕ → Bool
is_in n [] = false
is_in n (m ∷ l) = if m == n then true else is_in n l

module _ (date : ℕ → String) (r : Redis) (t : TimeText) (now : ℕ) (host : String) where
  open r use {Db}

  abbrev pub code_key : String → ℕ → String
  code_key name code = "stats:crawler:" ++ (host ++ (":" ++ (name ++ (":" ++ r.number code))))

  -- RedisStatsMiddleware._setup_stats_status_codes, over STATS_RESPONSE_CODES and STATS_TIMES
  unfoldable pub setup_status_codes : List String → String → List ℕ → Option ByCode
  setup_status_codes times name [] = some []
  setup_status_codes times name (code ∷ codes) =
      and_then (setup_group date r now (code_key name code) times)
        (λ g. and_then (setup_status_codes times name codes) (λ l. some ((code, g) ∷ l)))

  -- RedisStatsMiddleware.process_spider_input of a response with this status and URL; `codes` is
  -- STATS_RESPONSE_CODES, `on` STATS_STATUS_CODES, and the result the collectors of the spiders
  unfoldable pub count_code : List ℕ → ℕ → String → ByCode → Db → Db
  count_code codes status url groups d =
      if is_in status codes
      then (elim (at_code status groups) [
        | none ↦ d
        | some g ↦ increment_group date r t now (url ++ (r.number status ++ t.show now)) g d
      ])
      else d

  unfoldable pub process_spider_input :
      Bool
      → List String
      → List ℕ
      → String
      → ℕ
      → String
      → Dict ByCode
      → Db
      → Option (Dict ByCode × Db)
  process_spider_input on times codes spider status url all d =
      if on
      then (elim (lookup spider all) [
        | some groups ↦ some (all, count_code codes status url groups d)
        | none ↦
            and_then (setup_status_codes times spider codes)
              (λ groups. some (insert spider groups all, count_code codes status url groups d))
      ])
      else some (all, d)

  -- LogRetryMiddleware._setup_stats_status_codes, for the one code 504
  unfoldable pub setup_504 : List String → String → Option Group
  setup_504 times name =
      setup_group date r now
        ("stats:crawler:" ++ (host ++ (":" ++ (name ++ (":" ++ r.number 504))))) times

  -- LogRetryMiddleware._increment_504_stat; without STATS_STATUS_CODES there are no collectors
  unfoldable pub increment_504 : Option Group → String → Db → Db
  increment_504 none url d = d
  increment_504 (some g) url d = increment_group date r t now (url ++ t.show now) g d

  -- LogRetryMiddleware.process_exception
  unfoldable pub process_exception : Bool → Option Group → String → Db → Db
  process_exception to_retry g url d = if to_retry then increment_504 g url d else d
