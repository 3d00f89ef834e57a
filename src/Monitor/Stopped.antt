-- ===== src/Monitor/Stopped.antt =====
-- A stopped crawl and the scheduler: the blacklist that redis-monitor/plugins/stop_monitor.py and
-- expire_monitor.py write is the one that crawler/crawling/distributed_scheduler.py reads.
use Prim.Native.String.{◌++◌}
use scrapy_cluster.Prelude.{
  ℕ, String, ◌≡◌, refl, ap, true, false, some, List, eq_refl, Bool-cases, inl, inr, contains,
}
use scrapy_cluster.Redis.{Redis}
use scrapy_cluster.Redis.Values.{as_set, add_member}
use scrapy_cluster.Crawl.{Request, Web}
use scrapy_cluster.Queue.Codec.{Encoding}
use scrapy_cluster.Scheduler.{Settings, Scheduler}
use scrapy_cluster.Scheduler.Requests.{crawl_member, enqueue_request}
use scrapy_cluster.Scheduler.Enqueue.{Apart, is_queued, enqueue_request_black}
use scrapy_cluster.Monitor.Stop.{Outside, blacklist_crawl}

contains_added : (m : String) (l : List String) → contains m (add_member m l) ≡ true
contains_added m l = elim (Bool-cases (contains m l)) [
  | inl there ↦ rw (there) there
  | inr new ↦ rw (new) (rw eq_refl refl)
]

-- Once a monitor has put a crawl on the blacklist of a spider, the spider's scheduler queues no
-- request of that crawl: neither a follow-up link nor a retry brings the crawl back.
pub enqueue-blacklist_crawl :
    (cfg : Settings) (web : Web) (r : Redis) (o : Outside r) {A : Type 0} (e : Encoding A)
    (to_dict : Request → A) (s : Scheduler) (now : ℕ) (req : Request) (l : List String) (d : r.Db)
    → Apart cfg web r req (cfg.spider ++ ":blacklist")
    → as_set (r.value d (cfg.spider ++ ":blacklist")) ≡ some l
    → is_queued
        (enqueue_request cfg web r e to_dict s now req
          (blacklist_crawl r o cfg.spider req.meta.appid req.meta.crawlid d)).0
      ≡ false
unfolding blacklist_crawl
enqueue-blacklist_crawl cfg web r o e to_dict s now req l d apart stored =
    let m = crawl_member req.meta.appid req.meta.crawlid in
    enqueue_request_black cfg web r e to_dict s now req (add_member m l) _ apart
      (ap as_set (r.sadd_lem (cfg.spider ++ ":blacklist") m d stored).1) (contains_added m l)
