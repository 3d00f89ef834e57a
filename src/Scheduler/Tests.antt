-- ===== src/Scheduler/Tests.antt =====
-- Concrete instances of the scheduler (crawler/crawling/distributed_scheduler.py).
use scrapy_cluster.Prelude.{
  ℕ, ◌+◌, ◌*◌, ◌≡◌, refl, true, false, none, some, [], ◌∷◌, arith, length, String, eq_iff, Dict,
}
use scrapy_cluster.Prelude.Int.{pos}
use scrapy_cluster.Redis.Memory.{memory, empty}
use scrapy_cluster.Crawl.{Request, Web}
use scrapy_cluster.Queue.{priority_push}
use scrapy_cluster.Queue.Tally.{tally}
use scrapy_cluster.Throttle.{Throttle, Moment, init}
use scrapy_cluster.Throttle.Clock.{tally_time}
use scrapy_cluster.Scheduler.{Settings, Slot, Scheduler, fit_scale, scaled_hits}
use scrapy_cluster.Scheduler.Queues.{
  Outside, domain_of_key, refresh_queues, create_queues, create_all, create_queue, new_slot,
  throttle_key, limits_for, expire_queues, expire_all, expire_slot,
}
use scrapy_cluster.Scheduler.Requests.{Search, find_item, enqueue_request}
use scrapy_cluster.Scheduler.Serving.{IsServed}
use scrapy_cluster.Scheduler.Find.{Goes, find_item-Goes}
use scrapy_cluster.Scheduler.Enqueue.{Apart, Effect, enqueue_request-Effect}

abbrev settings : Settings
settings = record {
  spider = "link";
  persist = true;
  update_interval = 10000000;
  ip_update_interval = 60000000;
  queue_timeout = 3600000000;
  hits = 10;
  window = 60000000;
  moderated = true;
  add_type = true;
  add_ip = false;
  item_retries = 3;
  backlog_blacklist = false;
  rfp_timeout = 600;
  domain_max_page_timeout = 600;
  global_page_limit = 9;
  global_page_timeout = 600;
}

abbrev site : Web
site = record { domain = λ url. "ex"; suffix = λ url. "com"; fingerprint = λ req. req.url }

abbrev request : Request
request = record {
  url = "/a";
  dont_filter = false;
  meta = record {
    appid = "app";
    crawlid = "one";
    spiderid = "link";
    priority = pos 5;
    expires = 0;
    domain_max_pages = 7;
    retry_times = none;
    curdepth = none;
    maxdepth = 0;
  };
}

abbrev throttle : Throttle
throttle = record {
  window = 60000000;
  limit = 10;
  window_key = "link:ex.com:throttle_window";
  moderation = none;
  moderate_key = "";
  elastic = false;
  elastic_buffer = 0;
  elastic_kick_in = 0;
}

abbrev table : Dict Slot
table = ("link:ex.com:queue", record { throttle = throttle; used = 0 }) ∷ []

abbrev scheduler : Scheduler
scheduler = record {
  queue_dict = table;
  queue_keys = "link:ex.com:queue" ∷ [];
  domain_config = [];
  black_domains = [];
  config_flag = false;
  update_time = 0;
  update_ip_time = 0;
  my_ip = "127.0.0.1";
}

domain_run : domain_of_key "link:ex.com:queue" ≡ some "ex.com"
unfolding domain_of_key
domain_run = refl

scheduler-IsServed : IsServed scheduler
scheduler-IsServed = ((refl, cc domain_run), tt)

scaled_run : scaled_hits 10 (some (record { num = pos 1; den = 4 })) ≡ 2
unfolding scaled_hits fit_scale
scaled_run = refl

abbrev outside : Outside
outside = record {
  time = 20000000;
  found = "link:ex.com:queue" ∷ "link:b.org:queue" ∷ [];
  address = none;
  host = "h";
  uuid = "u";
}

-- The new queue is moderated, and shares its window with the spiders of its type.
abbrev refreshed : Scheduler
refreshed = record scheduler {
  queue_dict =
      ("link:ex.com:queue", record { throttle = throttle; used = 0 })
      ∷ (
        "link:b.org:queue",
        record {
          throttle = record {
            window = 60000000;
            limit = 10;
            window_key = "link:b.org:throttle_window";
            moderation = some (record { num = 60000000; den = 10 });
            moderate_key = "link:b.org:throttle_time";
            elastic = true;
            elastic_buffer = 0;
            elastic_kick_in = 0;
          };
          used = 20000000;
        },
      )
      ∷ [];
  queue_keys = "link:ex.com:queue" ∷ "link:b.org:queue" ∷ [];
  update_time = 20000000;
}

refresh_run : refresh_queues settings outside scheduler ≡ some refreshed
unfolding refresh_queues create_queues create_all create_queue new_slot throttle_key limits_for init
    domain_of_key expire_queues expire_all expire_slot
refresh_run = refl

abbrev clock : ℕ → Moment
clock n = record {
  expires_at = 20000000 + n;
  curr_time = 20000000 + n;
  now = 20000000 + n;
  window_conflict = false;
  moderate_conflict = false;
}

abbrev search : Search settings site memory tally tally_time [] clock
search = record {
  queues = table;
  db = priority_push tally memory "link:ex.com:queue" 7 (pos 5) empty;
  pops = 0;
  asked = [];
}

find_item-Goes_example :
    Goes settings site memory tally tally_time [] clock
      ((3 + 1) * length {A = String} ("link:ex.com:queue" ∷ []))
      (λ k. 3 + 1)
      search
      (find_item settings site memory tally tally_time [] clock 20000000
        ("link:ex.com:queue" ∷ [])
        search)
find_item-Goes_example =
    find_item-Goes settings site memory tally tally_time [] clock 20000000
      ("link:ex.com:queue" ∷ []) search scheduler-IsServed (λ k. ground arith)

abbrev to_number : Request → ℕ
to_number req = 7

request-Apart : Apart settings site memory request "link:ex.com:queue"
request-Apart = record {
  seen = ground (arith, eq_iff "link:dupefilter:one" "link:ex.com:queue");
  domain = ground (arith, eq_iff "link:domain_max_page_filter:ex.com:one" "link:ex.com:queue");
  cluster = ground (arith, eq_iff "link:global_page_count_filter:ex.com:one" "link:ex.com:queue");
}

enqueue_request-Effect_example :
    Effect settings site memory tally to_number request []
      (enqueue_request settings site memory tally to_number scheduler 20000000 request empty)
enqueue_request-Effect_example =
    enqueue_request-Effect settings site memory tally to_number scheduler 20000000 request [] empty
      refl request-Apart refl

abbrev unqueued : Scheduler
unqueued = record scheduler {
  domain_config = ("new.org", record { window = 30000000; hits = 8; scale = none }) ∷ [];
}
