-- ===== src/Intake/Tests.antt =====
-- Concrete instances of the Kafka monitor (kafka-monitor).
use scrapy_cluster.Prelude.{◌≡◌, refl, true, false, none, some, [], String, ltb}
use scrapy_cluster.Prelude.Int.{pos}
use scrapy_cluster.Redis.Memory.{memory, empty, Db}
use scrapy_cluster.Scheduler.Requests.{Feed}
use scrapy_cluster.Throttle.Clock.{tally_time}
use scrapy_cluster.Monitor.Stop.{Outside, stop_handle, stop_crawl, timeout_key, is_expired}
use scrapy_cluster.Intake.{Action, action_key, scraper_handle}
use scrapy_cluster.Intake.Keys.{IsPlain, stop_handle-action_key, is_expired-scraper_handle}

abbrev outside : Outside memory
outside = record {
  loads = λ s. none;
  scan = λ spiderid d. [];
  seconds = 20;
  prefix = "demo";
  use_appid_topics = false;
  accepts = λ topic. true;
}

abbrev stop : Action
stop = record {
  action = "stop";
  spiderid = "link";
  appid = "app";
  crawlid = some "one";
  uuid = "u";
}

abbrev plain : IsPlain "link" "app" "one"
plain = record { spiderid_plain = refl; appid_plain = refl; crawlid_plain = refl }

stop_handle-action_key_example :
    stop_handle memory outside (action_key memory stop) (some "u") empty []
    ≡ stop_crawl memory outside "link" "app" "one" (some "u") empty []
stop_handle-action_key_example =
    stop_handle-action_key memory outside stop "one" (some "u") empty [] refl refl plain

abbrev feed : Feed
feed = record {
  url = "/a";
  meta = record {
    appid = "app";
    crawlid = "one";
    spiderid = "link";
    priority = pos 1;
    expires = 7;
    domain_max_pages = 0;
    retry_times = none;
    curdepth = none;
    maxdepth = 0;
  };
}

abbrev fed : Db
fed = scraper_handle memory (λ url. "ex") (λ url. "com") (λ f. f.url) tally_time feed empty

is_expired-scraper_handle_example :
    (v : String) × (memory.get (timeout_key memory outside "link" "app" "one") fed ≡ some v)
    × (is_expired memory outside tally_time 8 v ≡ ltb 7 8)
is_expired-scraper_handle_example =
    is_expired-scraper_handle memory outside (λ url. "ex") (λ url. "com") (λ f. f.url) tally_time
      feed 8 empty refl
