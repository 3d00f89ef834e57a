-- ===== src/Scheduler/Requests.antt =====
-- The requests that the scheduler takes in and gives out
-- (crawler/crawling/distributed_scheduler.py): is_blacklisted, enqueue_request, find_item and
-- request_from_feed.
use Prim.Native.String.{◌++◌}
use scrapy_cluster.Prelude.{
  ℕ, zero, suc, ◌+◌, String, Bool, true, false, not, ◌&&◌, ◌||◌, Option, none, some, List, [], ◌∷◌,
  Dict, lookup, insert, ltb, ◌==◌, contains, if◌then◌else◌,
}
use scrapy_cluster.Prelude.Int.{neg}
use scrapy_cluster.Redis.{Redis}
use scrapy_cluster.Crawl.{Meta, Request, Web, domain_of}
use scrapy_cluster.Filters.{request_seen, domain_limit_reached, global_limit_reached}
use scrapy_cluster.Queue.{Popped, nothing, item, unloadable, priority_push, priority_pop}
use scrapy_cluster.Queue.Codec.{Encoding}
use scrapy_cluster.Throttle.{Moment, pop}
use scrapy_cluster.Throttle.Clock.{TimeText}
use scrapy_cluster.Scheduler.{Settings, Slot, Scheduler, queue_key}
use scrapy_cluster.Scheduler.Queues.{domain_of_key}

-- '{appid}||{crawlid}'
abbrev pub crawl_member : String → String → String
crawl_member appid crawlid = appid ++ ("||" ++ crawlid)

-- What becomes of a request, or the exception of a key without a queue.
pub data Outcome : Type 0 where
  duplicate : Outcome
  domain_full : Outcome
  cluster_full : Outcome
  blacklisted : Outcome
  refused : Outcome
  queued : Outcome
  key_error : Outcome

-- What find_item gives: an item, None, or the exception of a key without a queue, of a key without
-- a domain, or of `loads`.
pub data Found (A : Type 0) : Type 0 where
  found : A → Found A
  no_item : Found A
  no_queue : Found A
  no_domain : Found A
  no_json : Found A

module _ (cfg : Settings) (web : Web) (r : Redis) where
  open r use {Db}

  unfoldable pub is_blacklisted : String → String → Db → Bool
  is_blacklisted appid crawlid d =
      r.sismember (cfg.spider ++ ":blacklist") (crawl_member appid crawlid) d

  -- the two conditions on the domain and on the time of expiry
  unfoldable pub is_wanted : List String → ℕ → Request → Bool
  is_wanted black_domains now req =
      (cfg.backlog_blacklist
        || not cfg.backlog_blacklist && not (contains (domain_of web req) black_domains))
      && (req.meta.expires == 0 || ltb now req.meta.expires)

  -- the three filters, each behind its guard
  unfoldable pub duplicate_filter : Request → Db → Bool × Db
  duplicate_filter req d =
      if req.dont_filter
      then (false, d)
      else request_seen r web (cfg.spider ++ ":dupefilter") cfg.rfp_timeout req d

  unfoldable pub domain_filter : Request → Db → Bool × Db
  domain_filter req d =
      if req.meta.domain_max_pages == 0
      then (false, d)
      else domain_limit_reached r web (cfg.spider ++ ":domain_max_page_filter")
          cfg.domain_max_page_timeout req d

  unfoldable pub global_filter : Request → Db → Bool × Db
  global_filter req d =
      if cfg.global_page_limit == 0
      then (false, d)
      else global_limit_reached r web (cfg.spider ++ ":global_page_count_filter")
          cfg.global_page_timeout cfg.global_page_limit req d

  -- over Scrapy's request_to_dict, and the JSON module that encodes its dict
  module _ {A : Type 0} (e : Encoding A) (to_dict : Request → A) where
    -- "{sid}:{dom}.{suf}:queue"
    abbrev pub key_of : Request → String
    key_of req = queue_key req.meta.spiderid (domain_of web req)

    -- into the queue in memory, or into a queue of Redis that is not known yet
    unfoldable pub push_request : Scheduler → Request → Db → Outcome × Db
    push_request s req d =
        if contains (key_of req) s.queue_keys
        then (elim (lookup (key_of req) s.queue_dict) [
          | none ↦ (key_error, d)
          | some slot ↦ (queued, priority_push e r (key_of req) (to_dict req) req.meta.priority d)
        ])
        else (queued, r.zadd (key_of req) (neg req.meta.priority) (e.dumps (to_dict req)) d)

    unfoldable pub enqueue_request : Scheduler → ℕ → Request → Db → Outcome × Db
    enqueue_request s now req d =
        let (seen, d1) = duplicate_filter req d in
        if seen
        then (duplicate, d1)
        else let (full, d2) = domain_filter req d1 in
          if full
          then (domain_full, d2)
          else let (cluster, d3) = global_filter req d2 in
            if cluster
            then (cluster_full, d3)
            else if is_blacklisted req.meta.appid req.meta.crawlid d3
            then (blacklisted, d3)
            else if is_wanted s.black_domains now req
            then push_request s req d3
            else (refused, d3)

  module _ {A : Type 0} (e : Encoding A) (c : TimeText) (black_domains : List String)
      (clock : ℕ → Moment) where
    -- The table, the database, how many pops there were, which the clock is asked by, and the keys
    -- of these pops, the last first.
    pub record Search : Type 0 where
      pub queues : Dict Slot
      pub db : Db
      pub pops : ℕ
      pub asked : List String

    -- one throttled pop of one queue
    unfoldable pub pop_slot : String → Slot → Search → Popped A × Search
    pop_slot key slot s =
        let (reply, q, d) = pop r c slot.throttle (priority_pop e r key) (clock s.pops) s.db in
        (
          reply,
          record {
            queues = insert key (record slot { throttle = q }) s.queues;
            db = d;
            pops = s.pops + 1;
            asked = key ∷ s.asked;
          },
        )

    -- self.queue_dict[key][1] = time.time()
    unfoldable pub touch : ℕ → String → Search → Search
    touch now key s = elim (lookup key s.queues) [
      | none ↦ s
      | some slot ↦ record s { queues = insert key (record slot { used = now }) s.queues }
    ]

    -- the `for` loop of find_item
    unfoldable pub visit : ℕ → List String → Search → Found A × Search
    visit now [] s = (no_item, s)
    visit now (key ∷ keys) s = elim (domain_of_key key) [
      | none ↦ (no_domain, s)
      | some domain ↦ elim (contains domain black_domains) [
        | true ↦ visit now keys s
        | false ↦ elim (lookup key s.queues) [
          | none ↦ (no_queue, s)
          | some slot ↦
              let (reply, s') = pop_slot key slot s in
              elim reply [
                | nothing ↦ visit now keys s'
                | item a ↦ (found a, touch now key s')
                | unloadable ↦ (no_json, s')
              ]
        ]
      ]
    ]

    -- the `while` loop, with so many rounds left
    unfoldable pub rounds : ℕ → ℕ → List String → Search → Found A × Search
    rounds zero now keys s = (no_item, s)
    rounds (suc n) now keys s =
        let (reply, s') = visit now keys s in
        elim reply [ no_item ↦ rounds n now keys s' | other ↦ (other, s') ]

    -- find_item, over the keys in the order that the shuffle gives; count runs to item_retries
    unfoldable pub find_item : ℕ → List String → Search → Found A × Search
    find_item now shuffled s = rounds (suc cfg.item_retries) now shuffled s

-- A feed of the Kafka monitor; request_from_feed makes it a request, with a scheme where Scrapy
-- refuses the URL, and with the two defaults.
pub record Feed : Type 0 where
  pub url : String
  pub meta : Meta

abbrev pub or_zero : Option ℕ → Option ℕ
or_zero none = some 0
or_zero (some n) = some n

unfoldable pub request_from_feed : (String → Bool) → Feed → Request
request_from_feed is_absolute feed = record {
  url = if is_absolute feed.url then feed.url else "http://" ++ feed.url;
  dont_filter = false;
  meta = record feed.meta {
    curdepth = or_zero feed.meta.curdepth;
    retry_times = or_zero feed.meta.retry_times;
  };
}
