-- ===== src/Statistics/Reports.antt =====
-- The reports of the stats plugin (redis-monitor/plugins/stats_monitor.py: handle and the getters).
use scrapy_cluster.Prelude.{
  ℕ, String, Bool, ◌||◌, Option, none, some, List, [], ◌∷◌, ◌++◌, str_eq, Dict, lookup, insert,
  if◌then◌else◌,
}
use scrapy_cluster.Text.{split}
use scrapy_cluster.Redis.{Redis}
use scrapy_cluster.Monitor.Kafka.{send_to_kafka}
use scrapy_cluster.Statistics.Tables.{or_new}
use scrapy_cluster.Statistics.Queues.{QueueStats, no_queues, get_queue_stats, and_then}
use scrapy_cluster.Statistics.Spiders.{CrawlStats, no_spiders, get_spider_stats, get_key_value}
use scrapy_cluster.Statistics.Machines.{Machines, get_machine_stats}

-- the dict of _get_plugin_stats: 'total' and 'fail', 'nodes', and 'plugins'
pub record PluginStats : Type 0 where
  pub totals : Dict (Dict ℕ)
  pub nodes : Dict (List String)
  pub plugins : Dict (Dict ℕ)

abbrev pub no_plugins : PluginStats
no_plugins = record { totals = []; nodes = []; plugins = [] }

-- the_dict[main][end] = n
abbrev pub put_value : String → String → ℕ → Dict (Dict ℕ) → Dict (Dict ℕ)
put_value main end n d = insert main (insert end n (or_new [] (lookup main d))) d

-- a key's parts after the second, with what _get_key_value gives for its end; none is an IndexError
unfoldable pub place_key : List String → (String → ℕ) → PluginStats → Option PluginStats
place_key [] value s = none
place_key (main ∷ []) value s = none
place_key (main ∷ end ∷ more) value s =
    if str_eq main "total" || str_eq main "fail"
    then some (record s { totals = put_value main end (value end) s.totals })
    else if str_eq main "self"
    then (elim more [
      | [] ↦ none
      | true_tail ∷ _ ↦ some (record s {
        nodes = insert end (or_new [] (lookup end s.nodes) ++ (true_tail ∷ [])) s.nodes;
      })
    ])
    else some (record s { plugins = put_value main end (value end) s.plugins })

abbrev pub after_two : List String → List String
after_two (a ∷ b ∷ more) = more
after_two _ = []

module _ (r : Redis) (d : r.Db) where
  -- _get_plugin_stats over the keys that KEYS replies
  unfoldable pub get_plugin_stats : List String → PluginStats → Option PluginStats
  get_plugin_stats [] s = some s
  get_plugin_stats (key ∷ keys) s =
      and_then (place_key (after_two (split key)) (get_key_value r d key) s) (get_plugin_stats keys)

  -- the reports of a request
  pub data Report : Type 0 where
    plugin_report : PluginStats → Report
    spider_report : CrawlStats → Report
    machine_report : Machines → Report
    queue_report : QueueStats → Report
    crawler_report : CrawlStats → Machines → QueueStats → Report
    all_report : PluginStats → PluginStats → Report → PluginStats → Report

  module _ (keys_of : String → List String) where
    -- get_crawler_stats
    unfoldable pub get_crawler_stats : Option Report
    get_crawler_stats =
        and_then (get_spider_stats r d (keys_of "stats:crawler:*:*:*") no_spiders) (λ spiders.
          and_then (get_machine_stats r d (keys_of "stats:crawler:*:*:*:*") []) (λ machines.
            and_then (get_queue_stats r d (keys_of "*:*:queue") no_queues)
              (λ queues. some (crawler_report spiders machines queues))))

    -- get_kafka_monitor_stats, get_redis_monitor_stats and get_rest_stats
    abbrev pub of_plugins : String → Option PluginStats
    of_plugins pattern = get_plugin_stats (keys_of pattern) no_plugins

    -- get_all_stats
    unfoldable pub get_all_stats : Option Report
    get_all_stats = and_then (of_plugins "stats:kafka-monitor:*") (λ kafka.
        and_then (of_plugins "stats:redis-monitor:*") (λ redis.
          and_then get_crawler_stats (λ crawler.
            and_then (of_plugins "stats:rest:*")
              (λ rest. some (all_report kafka redis crawler rest)))))

    -- The tests of `handle` on the name of the statistics: none is a name that is refused, and none
    -- inside is an IndexError. The answer is sent as the other plugins send theirs.
    unfoldable pub stats_of : String → Option (Option Report)
    stats_of stats =
        if str_eq stats "all"
        then some get_all_stats
        else if str_eq stats "kafka-monitor"
        then some (and_then (of_plugins "stats:kafka-monitor:*") (λ s. some (plugin_report s)))
        else if str_eq stats "redis-monitor"
        then some (and_then (of_plugins "stats:redis-monitor:*") (λ s. some (plugin_report s)))
        else if str_eq stats "crawler"
        then some get_crawler_stats
        else if str_eq stats "spider"
        then some (
            and_then (get_spider_stats r d (keys_of "stats:crawler:*:*:*") no_spiders)
              (λ s. some (spider_report s)))
        else if str_eq stats "machine"
        then some (
            and_then (get_machine_stats r d (keys_of "stats:crawler:*:*:*:*") [])
              (λ s. some (machine_report s)))
        else if str_eq stats "queue"
        then some (
            and_then (get_queue_stats r d (keys_of "*:*:queue") no_queues)
              (λ s. some (queue_report s)))
        else if str_eq stats "rest"
        then some (and_then (of_plugins "stats:rest:*") (λ s. some (plugin_report s)))
        else none

    -- how `handle` ends: an exception, a name that is refused, or an answer that was sent or not
    pub data Handled (M : Type 0) : Type 0 where
      raised : Handled M
      refused : Handled M
      answered : Bool → List (String × M) → Handled M

    -- the dict that is sent
    pub record Answer : Type 0 where
      pub stats : String
      pub appid : String
      pub uuid : String
      pub server_time : ℕ
      pub report : Report

    abbrev pub answer_appid : Answer → String
    answer_appid x = x.appid

    module _ (prefix : String) (use_appid_topics : Bool) (accepts : String → Bool) (seconds : ℕ)
        (value : String) (out : List (String × Answer)) where
      -- what follows the tests of the name
      unfoldable pub answer_stats : String → String → Option (Option Report) → Handled Answer
      answer_stats stats appid none = refused
      answer_stats stats appid (some none) = raised
      answer_stats stats appid (some (some report)) =
          let (sent, out') =
            send_to_kafka answer_appid prefix use_appid_topics accepts
              (record {
                stats = stats;
                appid = appid;
                uuid = value;
                server_time = seconds;
                report = report;
              })
              out in
          answered sent out'

      -- `handle` over the parts of the key
      unfoldable pub stats_monitor_handle : List String → Handled Answer
      stats_monitor_handle (a ∷ stats ∷ appid ∷ more) = answer_stats stats appid (stats_of stats)
      stats_monitor_handle [] = raised
      stats_monitor_handle (a ∷ []) = raised
      stats_monitor_handle (a ∷ stats ∷ []) = raised
