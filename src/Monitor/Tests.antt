-- ===== src/Monitor/Tests.antt =====
-- Concrete instances of the Redis monitor and its plugins (redis-monitor).
use scrapy_cluster.Prelude.{
  ◌≡◌, refl, true, false, none, some, [], ◌∷◌, arith, eq_iff, String, inr, str_eq, lookup, Option,
  contains, if◌then◌else◌,
}
use scrapy_cluster.Prelude.Int.{pos, neg}
use scrapy_cluster.Redis.Memory.{memory, empty, Db}
use scrapy_cluster.Redis.Values.{Ranked}
use scrapy_cluster.Crawl.{Request, Web}
use scrapy_cluster.Queue.Tally.{tally}
use scrapy_cluster.Scheduler.{Settings, Scheduler}
use scrapy_cluster.Scheduler.Requests.{enqueue_request}
use scrapy_cluster.Scheduler.Enqueue.{is_queued}
use scrapy_cluster.Monitor.{Plugin, Stats, Retry, fail_key}
use scrapy_cluster.Monitor.Stop.{Outside, Item, feed, request, mini_purge, blacklist_crawl}
use scrapy_cluster.Monitor.Purges.{Purges, Holds, mini_purge-Purges}
use scrapy_cluster.Monitor.Retries.{passes, passes_lem}
use scrapy_cluster.Monitor.Stopped.{enqueue-blacklist_crawl}
use scrapy_cluster.Monitor.Zookeeper.{
  Domain, Stored, domains_of, blacklist_of, zookeeper_handle, zookeeper_handle-unreadable, SameFor,
  zookeeper_handle-SameFor,
}

abbrev loads : String → Option Item
loads s = some (
    if str_eq s "x"
    then feed (record { appid = "app"; crawlid = "one" })
    else request (record { appid = "app"; crawlid = "two" }))

abbrev outside : Outside memory
outside = record {
  loads = loads;
  scan = λ spiderid d. "link:ex.com:queue" ∷ [];
  seconds = 20;
  prefix = "demo";
  use_appid_topics = true;
  accepts = λ topic. true;
}

abbrev queue : String → Ranked
queue key = ("x", neg (pos 5)) ∷ ("y", neg (pos 3)) ∷ []

abbrev crawled : Db
crawled =
    memory.zadd "link:ex.com:queue" (neg (pos 3)) "y"
      (memory.zadd "link:ex.com:queue" (neg (pos 5)) "x" empty)

crawled-Holds : Holds memory outside "app" "one" queue crawled "link:ex.com:queue"
unfolding neg
crawled-Holds = (refl, (refl, (refl, tt)))

mini_purge-Purges_example :
    Purges memory outside "app" "one"
      ("link:ex.com:queue" ∷ [])
      queue
      (0, crawled)
      (mini_purge memory outside "link" "app" "one" (0, crawled))
mini_purge-Purges_example =
    mini_purge-Purges memory outside "app" "one" "link" queue 0 crawled (tt, tt) (crawled-Holds, tt)

abbrev quiet : Stats memory
quiet = record {
  total = λ s d. d;
  plugin = λ p s d. d;
  fail = λ s d. d;
  is_own = λ k. false;
  total_lem = λ s k d h. refl;
  plugin_lem = λ p s k d h. refl;
  fail_lem = λ s k d h. refl;
}

abbrev broken : Plugin memory
broken = record {
  name = "StopMonitor";
  check_precondition = λ key val. some true;
  handle = λ key val d. (false, d);
}

abbrev retry : Retry
retry = record { retry_failures = true; retry_failures_max = 3 }

abbrev action : String
action = "stop:link:app:one"

passes_lem_example :
    (memory.value (passes memory quiet retry broken action 3 (memory.put action "u" empty)) action
      ≡ memory.value (memory.put action "u" empty) action)
    × (memory.value (passes memory quiet retry broken action 4 (memory.put action "u" empty)) action
        ≡ none)
    × (memory.value
          (passes memory quiet retry broken action 4 (memory.put action "u" empty))
          (fail_key action)
        ≡ none)
passes_lem_example =
    passes_lem memory quiet retry broken action 0 (memory.put action "u" empty)
      (record {
        ready = λ val. refl;
        raises = λ val d. refl;
        leaves_key = λ val d. refl;
        leaves_count = λ val d. refl;
      })
      (record {
        key_own = refl;
        count_own = refl;
        key_ne = ground (arith, eq_iff "lock:stop:link:app:one:failures" "stop:link:app:one");
      })
      refl (omega arith) (inr (refl, refl))

abbrev settings : Settings
settings = record {
  spider = "link";
  persist = true;
  update_interval = 10000000;
  ip_update_interval = 60000000;
  queue_timeout = 3600000000;
  hits = 10;
  window = 60000000;
  moderated = true;
  add_type = true;
  add_ip = false;
  item_retries = 3;
  backlog_blacklist = true;
  rfp_timeout = 600;
  domain_max_page_timeout = 600;
  global_page_limit = 0;
  global_page_timeout = 600;
}

abbrev site : Web
site = record { domain = λ url. "ex"; suffix = λ url. "com"; fingerprint = λ req. req.url }

abbrev link : Request
link = record {
  url = "/a";
  dont_filter = true;
  meta = record {
    appid = "app";
    crawlid = "one";
    spiderid = "link";
    priority = pos 5;
    expires = 0;
    domain_max_pages = 0;
    retry_times = none;
    curdepth = none;
    maxdepth = 0;
  };
}

abbrev scheduler : Scheduler
scheduler = record {
  queue_dict = [];
  queue_keys = [];
  domain_config = [];
  black_domains = [];
  config_flag = false;
  update_time = 0;
  update_ip_time = 0;
  my_ip = "127.0.0.1";
}

enqueue-blacklist_crawl_example :
    is_queued
      (enqueue_request settings site memory tally
        (λ req. 7)
        scheduler
        20000000
        link
        (blacklist_crawl memory outside "link" "app" "one" empty)).0
    ≡ false
enqueue-blacklist_crawl_example =
    enqueue-blacklist_crawl settings site memory outside tally (λ req. 7) scheduler 20000000 link []
      empty
      (record {
        seen = ground (arith, eq_iff "link:dupefilter:one" "link:blacklist");
        domain = ground (arith, eq_iff "link:domain_max_page_filter:ex.com:one" "link:blacklist");
        cluster =
            ground (arith, eq_iff "link:global_page_count_filter:ex.com:one" "link:blacklist");
      })
      refl

abbrev limits : Domain
limits = record { window = 60; hits = 10; scale = record { num = pos 1; den = 2 } }

abbrev stored : Stored
stored = record { domains = some (("a.org", limits) ∷ []); blacklist = some ("b.org" ∷ []) }

zookeeper_handle-unreadable_example :
    (lookup "a.org" (
        domains_of (zookeeper_handle (λ l. l) false true "blacklist-update" "ex.com" limits stored))
      ≡ none)
    × (contains "a.org" (
          blacklist_of
            (zookeeper_handle (λ l. l) false true "blacklist-update" "ex.com" limits stored))
        ≡ false)
zookeeper_handle-unreadable_example =
    zookeeper_handle-unreadable (λ l. l) (λ l x. refl) "blacklist-update" "ex.com" "a.org" limits
      stored (ground (arith, eq_iff "ex.com" "a.org"))

zookeeper_handle-SameFor_example :
    SameFor
      (λ l. l)
      "a.org"
      (zookeeper_handle (λ l. l) true true "domain-remove" "ex.com" limits stored)
      stored
zookeeper_handle-SameFor_example =
    zookeeper_handle-SameFor (λ l. l) (λ l x. refl) true "domain-remove" "ex.com" "a.org" limits
      stored (ground (arith, eq_iff "ex.com" "a.org"))
