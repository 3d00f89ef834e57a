-- ===== src/Lib.antt =====
-- Scrapy Cluster: a verification library of its Python code.
--
-- The program is a distributed crawler. The crawlers (crawler/crawling) are Scrapy spiders
-- whose scheduler keeps its requests in Redis, one priority queue for each spider and domain,
-- behind a throttle that all crawlers share. The Kafka monitor (kafka-monitor) takes requests
-- from Kafka and writes them into Redis: feeds into the queues, and actions as keys. The Redis
-- monitor (redis-monitor) watches Redis for keys that ask for an action, such as stopping a
-- crawl, and gives them to its plugins. A REST service (rest) feeds requests into Kafka and
-- hands the answers back. They share the library utils/scutils: the queues, the throttle, the
-- statistics, the log, the settings and the watcher of a file of Zookeeper. The parts talk by
-- keys of Redis, by the crawlers' configuration in Zookeeper and by Kafka.
--
-- The files, and the code that they are about:
--   Prelude            names shared by all: numbers, dicts, lists, tests on them
--   Text               texts split at colons, as the keys of Redis are
--   Redis              the interface of the Redis server: commands, and what each does to a key
--   Redis.Memory       a server in memory that has the interface, for concrete runs
--   Queue              utils/scutils/redis_queue.py: RedisQueue, RedisStack, RedisPriorityQueue
--   Throttle           utils/scutils/redis_throttled_queue.py: RedisThrottledQueue
--   Crawl              the fields of a request that crawler/crawling reads
--   Filters            crawler/crawling/redis_dupefilter.py, redis_domain_max_page_filter.py and
--                      redis_global_page_per_domain_filter.py
--   Scheduler          crawler/crawling/distributed_scheduler.py: Config (configuration), Queues
--                      (the table of queues), Requests (enqueue_request and find_item), Headers (the
--                      user agent and the cookies of a request)
--   Monitor            redis-monitor/redis_monitor.py; Monitor.Stop is stop_monitor.py and
--                      expire_monitor.py, Monitor.Zookeeper and Monitor.Updates are
--                      zookeeper_monitor.py, and Monitor.Kafka the answers of
--                      kafka_base_monitor.py (redis-monitor/plugins)
--   Loop               the main loops of redis_monitor.py and kafka_monitor.py, the loading of their
--                      plugins, the heartbeats, and feed of kafka_monitor.py
--   Statistics         Groups (the collectors of both monitors: set-up, increments, dumps), Queues,
--                      Spiders, Machines and Reports (redis-monitor/plugins/stats_monitor.py and the
--                      dumps of redis_monitor.py), Tables (dicts with defaults); Keys and Collected
--                      are about them
--   Info               redis-monitor/plugins/info_monitor.py
--   Watcher            utils/scutils/zookeeper_watcher.py
--   Counters           utils/scutils/stats_collector.py; Counters.Factory has the factory methods,
--                      the set-up and the loop of the thread
--   Log                utils/scutils/log_factory.py
--   Settings           utils/scutils/settings_wrapper.py
--   Retry              crawler/crawling/redis_retry_middleware.py
--   Spider             crawler/crawling/spiders/link_spider.py and meta_passthrough_middleware.py;
--                      Spider.Pages has the items, with reconstruct_headers of redis_spider.py, and
--                      Spider.Wandering is wandering_spider.py
--   Migrate            migrate.py: its two stages, Migrate.Kept and Migrate.Servers about them
--   Emit               crawler/crawling/pipelines.py; Emit.Codes is redis_stats_middleware.py and
--                      log_retry_middleware.py
--   Rest               rest/rest_service.py: its answers and decorators; Rest.Messages (the consumer),
--                      Rest.Routes (index, feed, poll), Rest.Connections (set-up and close)
--   Intake             kafka-monitor/kafka_monitor.py and the handlers of kafka-monitor/plugins
--
-- The children of a module hold its theorems, and its Tests the concrete instances. A
-- definition has the name of the Python function that it models, without a leading underscore;
-- a class's state is a record with the class's fields, and a method takes the record and gives
-- the new one. A loop over a list is structural recursion with the name of what one round
-- does.
--
-- Outside the model, and arguments of the definitions that use it: the Redis server (the
-- record Redis, with the documented effect of each command on the key that it names and on the
-- others), the encodings of items (pickle, ujson), tldextract and Scrapy's fingerprints (the
-- record Web), the clock (each reading is an argument), what KEYS and SCAN find, Python's json
-- (the record Json), jsonschema's verdicts, the kazoo client and the Kafka clients. Other
-- clients of Redis appear as the conflicts of a watched transaction and as what happens while
-- a blocking pop waits.
--
-- Times are whole microseconds where the code has seconds as floating-point numbers, and
-- quotients are kept as fractions; no rounding is modelled. Python's numbers do not overflow.
-- The `while` loop of find_item is recursion on the rounds that are left, which the code
-- bounds by item_retries, and the reconnection of the watcher is recursion on the attempts,
-- which the code repeats until one succeeds. The main loops, the worker thread of a counter
-- and the attempts of the REST service are recursion on the list of what each round meets.
--
-- The loop in which feed of the REST service waits runs on fuel, one unit for a turn. Before
-- each turn the other threads have their effect, an argument; the clock's readings are
-- another. The theorems say that the fuel covers the turns until a reading is too late or a
-- response is there, and any such fuel gives the same result. The consumer and the routes meet
-- at the locks, where the model puts their steps one after another. A request's own
-- wait_for_response is a part of its call in the model: what one request does to the attribute
-- of another is a finding of the manifest.
--
-- Not modelled: what is written into a log where no callback depends on it, command lines, the
-- connections of the monitors and crawlers, the threads of the watcher (the code joins them),
-- and the items of the list of parts that are marked so in the manifest.
pub mod Prelude
pub mod Text
pub mod Redis
pub mod Queue
pub mod Throttle
pub mod Counters
pub mod Crawl
pub mod Emit
pub mod Filters
pub mod Info
pub mod Intake
pub mod Log
pub mod Loop
pub mod Migrate
pub mod Monitor
pub mod Rest
pub mod Retry
pub mod Scheduler
pub mod Settings
pub mod Spider
pub mod Statistics
pub mod Watcher
