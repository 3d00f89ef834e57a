-- ===== src/Loop.antt =====
-- What both monitors do around their work: the loading of plugins, the rounds of the main loop with
-- the dumps, the report of oneself, and the feed of the Kafka monitor (redis-monitor/redis_monitor.py
-- and kafka-monitor/kafka_monitor.py).
pub mod Plugins
pub mod Dumps
mod Tests
use Prim.Native.String.{◌++◌}
use scrapy_cluster.Prelude.{
  ℕ, ◌+◌, ◌/◌, String, Bool, true, false, not, ◌&&◌, Option, none, some, List, [], ◌∷◌, ltb, ◌==◌,
  if◌then◌else◌,
}
use scrapy_cluster.Redis.{Redis}

-- plugins_dict by the order that PLUGINS gives to each class
abbrev pub Table {ℓ} : Type ℓ → Type ℓ
Table A = List (ℕ × A)

module _ {A : Type 0} where
  -- plugins_dict[plugins[key]] = mini
  abbrev pub put_plugin : ℕ → A → Table A → Table A
  put_plugin order x [] = (order, x) ∷ []
  put_plugin order x ((o, y) ∷ l) = if o == order then (o, x) ∷ l else (o, y) ∷ put_plugin order x l

  abbrev pub place : ℕ → A → Table A → Table A
  place order x [] = (order, x) ∷ []
  place order x ((o, y) ∷ l) =
      if ltb o order then (o, y) ∷ place order x l else (order, x) ∷ (o, y) ∷ l

  -- sorted(..., key=lambda t: t[0])
  abbrev pub sort_plugins : Table A → Table A
  sort_plugins [] = []
  sort_plugins ((order, x) ∷ l) = place order x (sort_plugins l)

  -- the loop of _load_plugins over PLUGINS; `load` sets a class up, with none for an exception
  unfoldable pub load_each :
      (String → Option A) → List (String × Option ℕ) → Table A → Option (Table A)
  load_each load [] l = some l
  load_each load ((key, none) ∷ plugins) l = load_each load plugins l
  load_each load ((key, some order) ∷ plugins) l = elim (load key) [
    | none ↦ none
    | some x ↦ load_each load plugins (put_plugin order x l)
  ]

  -- _load_plugins of the Redis monitor, whose plugins need a regex (an ImportError without one)
  unfoldable pub load_plugins : (String → Option A) → List (String × Option ℕ) → Option (Table A)
  load_plugins load plugins = elim (load_each load plugins []) [
    | none ↦ none
    | some l ↦ some (sort_plugins l)
  ]

-- The Redis monitor's class and the regex of its instance
unfoldable pub load_monitor_plugin :
    {I : Type 0} → (String → Option I) → (I → Option String) → String → Option (I × String)
load_monitor_plugin import_class regex key = elim (import_class key) [
  | none ↦ none
  | some instance ↦ elim (regex instance) [ none ↦ none | some r ↦ some (instance, r) ]
]

-- The Kafka monitor's class and the schema of its instance, read from the plugins' directory
unfoldable pub load_handler :
    {I S : Type 0} → (String → Option I) → (I → Option S) → String → Option (I × S)
load_handler import_class schema key = elim (import_class key) [
  | none ↦ none
  | some instance ↦ elim (schema instance) [ none ↦ none | some s ↦ some (instance, s) ]
]

-- what _dump_stats, _dump_crawl_stats and _dump_queue_stats are called for
pub data Dump : Type 0 where
  stats : Dump
  crawl : Dump
  queue : Dump

pub record DumpSettings : Type 0 where
  -- STATS_DUMP in the clock's unit, STATS_DUMP_CRAWL and STATS_DUMP_QUEUE
  pub stats_dump : ℕ
  pub stats_dump_crawl : Bool
  pub stats_dump_queue : Bool

-- the part of _main_loop after the plugins: the dumps, and the next old_time
unfoldable pub dump_round : DumpSettings → ℕ → ℕ → List Dump × ℕ
dump_round cfg now old_time =
    let new_time = now / cfg.stats_dump in
    if not (cfg.stats_dump == 0) && not (new_time == old_time)
    then (
      stats
          ∷ (let more = if cfg.stats_dump_queue then queue ∷ [] else [] in
              if cfg.stats_dump_crawl then crawl ∷ more else more),
      new_time,
    )
    else ([], old_time)

-- what is called at a time
abbrev pub stamp_all : ℕ → List Dump → List (ℕ × Dump) → List (ℕ × Dump)
stamp_all now [] later = later
stamp_all now (x ∷ dumps) later = (now, x) ∷ stamp_all now dumps later

-- the dumps of the rounds of _main_loop, whose times are given
unfoldable pub main_loop : DumpSettings → ℕ → List ℕ → List (ℕ × Dump)
main_loop cfg old_time [] = []
main_loop cfg old_time (now ∷ times) =
    let (dumps, next) = dump_round cfg now old_time in
    stamp_all now dumps (main_loop cfg next times)

module _ (r : Redis) where
  open r use {Db}

  -- _report_self of the Redis monitor, over the host's name, the monitor's id, the text of the time and
  -- HEARTBEAT_TIMEOUT
  unfoldable pub report_self : String → String → String → ℕ → Db → Db
  report_self host my_uuid now timeout d =
      let key = "stats:redis-monitor:self:" ++ (host ++ (":" ++ my_uuid)) in
      r.expire key timeout (r.put key now d)

  -- _report_self of the Kafka monitor
  unfoldable pub kafka_report_self : String → String → String → ℕ → Db → Db
  kafka_report_self host my_uuid now timeout d =
      let key = "stats:kafka-monitor:self:" ++ (host ++ (":" ++ my_uuid)) in
      r.expire key timeout (r.put key now d)

-- the Kafka monitor's main loop has the dump of its own statistics only
unfoldable pub kafka_main_loop : ℕ → ℕ → List ℕ → List (ℕ × Dump)
kafka_main_loop stats_dump =
    main_loop
      (record { stats_dump = stats_dump; stats_dump_crawl = false; stats_dump_queue = false })

-- how the timed part of feed ends: there is no producer, the timer of KAFKA_FEED_TIMEOUT ends it
-- before or after the send, or it returns
pub data FeedEnd : Type 0 where
  no_producer : FeedEnd
  timed_out : (sent : Bool) → FeedEnd
  returned : FeedEnd

-- feed of the Kafka monitor: whether it logs a success, and what the topic has, the last first
unfoldable pub feed : {D : Type 0} → FeedEnd → D → List D → Bool × List D
feed no_producer x topic = (false, topic)
feed (timed_out sent) x topic = (false, if sent then x ∷ topic else topic)
feed returned x topic = (true, x ∷ topic)
