-- ===== src/Statistics/Groups.antt =====
-- The collectors of the monitors: the set-up, the increments and the dumps of redis-monitor/
-- redis_monitor.py and kafka-monitor/kafka_monitor.py, which differ in the name of the monitor only
-- where nothing is said. Times are whole microseconds.
use Prim.Native.String.{◌++◌}
use scrapy_cluster.Prelude.{
  ℕ, ◌/◌, String, ◌⊎◌, inl, inr, Bool, true, false, Option, none, some, List, [], ◌∷◌, ◌==◌, Dict,
  lookup, insert, if◌then◌else◌,
}
use scrapy_cluster.Redis.{Redis}
use scrapy_cluster.Throttle.{second}
use scrapy_cluster.Throttle.Clock.{TimeText}
use scrapy_cluster.Counters.{Threaded, rolling_increment, rolling_value, hll_increment, hll_value}
use scrapy_cluster.Counters.Factory.{seconds_of, hour, get_rolling_time_window, get_hll_counter}
use scrapy_cluster.Statistics.Queues.{and_then}

-- the collectors of one name: the rolling windows by their length, and the lifetime's counter
pub record Group : Type 0 where
  pub windows : List (ℕ × Threaded)
  pub lifetime : Threaded

-- stats_dict: 'total' and 'fail' together, and 'plugins', where they are set up
pub record StatsDict : Type 0 where
  pub totals : Option (Group × Group)
  pub plugins : Option (Dict Group)

abbrev pub no_stats : StatsDict
no_stats = record { totals = none; plugins = none }

-- windows[time] = collector
abbrev pub put_window : ℕ → Threaded → List (ℕ × Threaded) → List (ℕ × Threaded)
put_window w c [] = (w, c) ∷ []
put_window w c ((v, b) ∷ l) = if v == w then (v, c) ∷ l else (v, b) ∷ put_window w c l

module _ (date : ℕ → String) (r : Redis) (now : ℕ) where
  -- the collector of one item of STATS_TIMES; none is an AttributeError, which is logged
  unfoldable pub window_of : String → String → Option (ℕ × Threaded)
  window_of prefix item = and_then (seconds_of item) (λ w.
      and_then
        (get_rolling_time_window date true true true now (prefix ++ (":" ++ r.number (w / second)))
          w)
        (λ c. some (w, c)))

  unfoldable pub add_windows : String → List String → List (ℕ × Threaded) → List (ℕ × Threaded)
  add_windows prefix [] l = l
  add_windows prefix (item ∷ items) l = elim (window_of prefix item) [
    | none ↦ add_windows prefix items l
    | some found ↦ add_windows prefix items (put_window found.0 found.1 l)
  ]

  unfoldable pub setup_group : String → List String → Option Group
  setup_group prefix times =
      and_then
        (get_hll_counter date true true true now (prefix ++ ":lifetime") none (some hour) false
          (some 12))
        (λ c. some (record { windows = add_windows prefix times []; lifetime = c }))

  -- _setup_stats_total
  unfoldable pub setup_stats_total : String → List String → Option (Group × Group)
  setup_stats_total monitor times =
      and_then (setup_group ("stats:" ++ (monitor ++ ":total")) times) (λ total.
        and_then (setup_group ("stats:" ++ (monitor ++ ":fail")) times)
          (λ fail. some (total, fail)))

  -- _setup_stats_plugins over the names of the plugins' classes
  unfoldable pub setup_stats_plugins :
      String → List String → List String → Dict Group → Option (Dict Group)
  setup_stats_plugins monitor times [] d = some d
  setup_stats_plugins monitor times (name ∷ names) d =
      and_then (setup_group ("stats:" ++ (monitor ++ (":" ++ name))) times)
        (λ g. setup_stats_plugins monitor times names (insert name g d))

  -- _setup_stats, from STATS_TOTAL and STATS_PLUGINS
  unfoldable pub setup_stats : String → Bool → Bool → List String → List String → StatsDict
  setup_stats monitor total plugins times names = record {
    totals = if total then setup_stats_total monitor times else none;
    plugins = if plugins then setup_stats_plugins monitor times names [] else none;
  }

  -- _setup_stats_total and _setup_stats_plugins of the Kafka monitor
  unfoldable pub setup_kafka_total : List String → Option (Group × Group)
  setup_kafka_total times = setup_stats_total "kafka-monitor" times

  unfoldable pub setup_kafka_plugins : List String → List String → Option (Dict Group)
  setup_kafka_plugins times names = setup_stats_plugins "kafka-monitor" times names []

  -- _setup_stats of the Kafka monitor, which has no collectors where Redis is not there
  unfoldable pub setup_kafka_stats : Bool → Bool → Bool → List String → List String → StatsDict
  setup_kafka_stats false total plugins times names = no_stats
  setup_kafka_stats true total plugins times names = record {
    totals = if total then setup_kafka_total times else none;
    plugins = if plugins then setup_kafka_plugins times names else none;
  }

module _ (date : ℕ → String) (r : Redis) (t : TimeText) (now : ℕ) where
  open r use {Db}

  unfoldable pub increment_windows : List (ℕ × Threaded) → Db → Db
  increment_windows [] d = d
  increment_windows ((w, c) ∷ l) d = increment_windows l (rolling_increment date r t now c d)

  -- the loop of the three increments
  unfoldable pub increment_group : String → Group → Db → Db
  increment_group item g d = hll_increment date r item g.lifetime (increment_windows g.windows d)

  -- _increment_total_stat
  unfoldable pub increment_total_stat : String → StatsDict → Db → Db
  increment_total_stat item s d = elim s.totals [
    | none ↦ d
    | some g ↦ increment_group (item ++ t.show now) g.0 d
  ]

  -- _increment_fail_stat
  unfoldable pub increment_fail_stat : String → StatsDict → Db → Db
  increment_fail_stat item s d = elim s.totals [
    | none ↦ d
    | some g ↦ increment_group (item ++ t.show now) g.1 d
  ]

  -- _increment_plugin_stat; none is a KeyError
  unfoldable pub increment_plugin_stat : String → String → StatsDict → Db → Option Db
  increment_plugin_stat name item s d = elim s.plugins [
    | none ↦ some d
    | some groups ↦ elim (lookup name groups) [
      | none ↦ none
      | some g ↦ some (increment_group (item ++ t.show now) g d)
    ]
  ]

  -- What the Kafka monitor counts: a message's text, or a loaded dict, which gets the time under 'ts';
  -- `stamped` is the text of such a dict.
  module _ {D : Type 0} (stamped : D → ℕ → String) where
    -- _increment_fail_stat of the Kafka monitor
    unfoldable pub kafka_fail_stat : String ⊎ D → StatsDict → Db → Db
    kafka_fail_stat item s d =
        let counted : String = elim item [
          | inl text ↦ text ++ t.show now
          | inr x ↦ stamped x now
        ] in
        elim s.totals [ none ↦ d | some g ↦ increment_group counted g.1 d ]

    -- _increment_plugin_stat of the Kafka monitor
    unfoldable pub kafka_plugin_stat : String → D → StatsDict → Db → Option Db
    kafka_plugin_stat name x s d = elim s.plugins [
      | none ↦ some d
      | some groups ↦ elim (lookup name groups) [
        | none ↦ none
        | some g ↦ some (increment_group (stamped x now) g d)
      ]
    ]

  -- _increment_total_stat of the Kafka monitor
  unfoldable pub kafka_total_stat : String → StatsDict → Db → Db
  kafka_total_stat string s d = elim s.totals [
    | none ↦ d
    | some g ↦ increment_group (string ++ t.show now) g.0 d
  ]

module _ (date : ℕ → String) (r : Redis) (t : TimeText) (d : r.Db) where
  unfoldable pub dump_windows : String → List (ℕ × Threaded) → Dict ℕ → Dict ℕ
  dump_windows prefix [] extras = extras
  dump_windows prefix ((w, c) ∷ l) extras =
      dump_windows prefix l
        (insert (prefix ++ r.number (w / second)) (rolling_value date r t c d) extras)

  unfoldable pub dump_group : String → Group → Dict ℕ → Dict ℕ
  dump_group prefix g extras =
      insert (prefix ++ "lifetime") (hll_value date r g.lifetime d)
        (dump_windows prefix g.windows extras)

  unfoldable pub dump_plugins : Dict Group → Dict ℕ → Dict ℕ
  dump_plugins [] extras = extras
  dump_plugins ((name, g) ∷ groups) extras =
      dump_plugins groups (dump_group ("plugin_" ++ (name ++ "_")) g extras)

  -- the extras of _dump_stats
  unfoldable pub dump_stats : StatsDict → Dict ℕ
  dump_stats s =
      let totals : Dict ℕ = elim s.totals [
        | none ↦ []
        | some g ↦ dump_group "fail_" g.1 (dump_group "total_" g.0 [])
      ] in
      elim s.plugins [ none ↦ totals | some groups ↦ dump_plugins groups totals ]

  -- the extras of _dump_stats of the Kafka monitor
  unfoldable pub dump_kafka_stats : StatsDict → Dict ℕ
  dump_kafka_stats s =
      let totals : Dict ℕ = elim s.totals [
        | none ↦ []
        | some g ↦ dump_group "fail_" g.1 (dump_group "total_" g.0 [])
      ] in
      elim s.plugins [ none ↦ totals | some groups ↦ dump_plugins groups totals ]
