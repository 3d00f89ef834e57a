-- ===== src/Scheduler/Enqueue.antt =====
-- `enqueue_request` of the scheduler (crawler/crawling/distributed_scheduler.py): what it writes.
use Prim.Native.String.{◌++◌}
use scrapy_cluster.Prelude.{
  ℕ, String, ◌≡◌, refl, ap, subst, ◌∙◌, ◌≢◌, Bool, true, false, Option, none, some, List, [], ◌∷◌,
  Dict, lookup, contains, arith, eq_iff, str_eq, is_some, Bool-cases, inl, inr, All, if◌then◌else◌,
  ◌==◌,
}
use scrapy_cluster.Prelude.Int.{neg}
use scrapy_cluster.Redis.{Redis}
use scrapy_cluster.Redis.Values.{Ranked, Value, as_set, as_zset, add}
use scrapy_cluster.Crawl.{Request, Web}
use scrapy_cluster.Queue.{encode_item, priority_push}
use scrapy_cluster.Queue.Codec.{Encoding}
use scrapy_cluster.Filters.Seen.{request_seen_ne}
use scrapy_cluster.Filters.Frames.{domain_limit_reached_ne, global_limit_reached_ne}
use scrapy_cluster.Filters.{seen_key, page_key}
use scrapy_cluster.Scheduler.{Settings, Slot, Scheduler}
use scrapy_cluster.Scheduler.Requests.{
  Outcome, queued, key_error, crawl_member, is_blacklisted, is_wanted, duplicate_filter,
  domain_filter, global_filter, key_of, push_request, enqueue_request,
}
use scrapy_cluster.Scheduler.Serving.{Has, IsServed}

abbrev pub is_queued : Outcome → Bool
is_queued queued = true
is_queued _ = false

abbrev pub is_failure : Outcome → Bool
is_failure key_error = true
is_failure _ = false

-- The keys of the filters are not the key `j`.
pub record Apart (cfg : Settings) (web : Web) (r : Redis) (req : Request) (j : String)
    : Type 0 where
  pub seen : seen_key r web (cfg.spider ++ ":dupefilter") cfg.rfp_timeout req.meta.crawlid ≢ j
  pub domain :
      page_key r web (cfg.spider ++ ":domain_max_page_filter") cfg.domain_max_page_timeout req ≢ j
  pub cluster :
      page_key r web (cfg.spider ++ ":global_page_count_filter") cfg.global_page_timeout req ≢ j

module _ (cfg : Settings) (web : Web) (r : Redis) {A : Type 0} (e : Encoding A)
    (to_dict : Request → A) where
  open r use {Db}

  if_value :
      (b : Bool) (x y : Bool × Db) (k : String) (v : Option Value)
      → r.value x.1 k ≡ v
      → r.value y.1 k ≡ v
      → r.value (if b then x else y).1 k ≡ v
  if_value true x y k v hx hy = hx
  if_value false x y k v hx hy = hy

  duplicate_filter_ne :
      (req : Request) (d : Db) {j : String}
      → Apart cfg web r req j
      → r.value (duplicate_filter cfg web r req d).1 j ≡ r.value d j
  unfolding duplicate_filter
  duplicate_filter_ne req d {j} apart =
      if_value req.dont_filter (false, d) _ j _ refl (request_seen_ne r web _ _ req d _ apart.seen)

  domain_filter_ne :
      (req : Request) (d : Db) {j : String}
      → Apart cfg web r req j
      → r.value (domain_filter cfg web r req d).1 j ≡ r.value d j
  unfolding domain_filter
  domain_filter_ne req d {j} apart = elim (Bool-cases (req.meta.domain_max_pages == 0)) [
    | inl skip ↦ rw skip refl
    | inr ask ↦ rw ask (domain_limit_reached_ne r web _ _ req d _ apart.domain)
  ]

  global_filter_ne :
      (req : Request) (d : Db) {j : String}
      → Apart cfg web r req j
      → r.value (global_filter cfg web r req d).1 j ≡ r.value d j
  unfolding global_filter
  global_filter_ne req d {j} apart = elim (Bool-cases (cfg.global_page_limit == 0)) [
    | inl skip ↦ rw skip refl
    | inr ask ↦ rw ask (global_limit_reached_ne r web _ _ _ req d _ apart.cluster)
  ]

  -- The queue of the request has it at its priority if the outcome says so, or is as it was.
  abbrev pub Effect : Request → Ranked → Outcome × Db → Type 0
  Effect req l res =
      as_zset (r.value res.1 (key_of cfg web r e to_dict req))
      ≡ some (if is_queued res.0 then add (e.dumps (to_dict req)) (neg req.meta.priority) l else l)

  encode_lem : (a : A) → str_eq e.name "pickle" ≡ false → encode_item e a ≡ e.dumps a
  unfolding encode_item
  encode_lem a json = rw json refl

  zadd-Effect :
      (req : Request) (l : Ranked) (d : Db)
      → as_zset (r.value d (key_of cfg web r e to_dict req)) ≡ some l
      → Effect req l (
        queued,
        r.zadd (key_of cfg web r e to_dict req) (neg req.meta.priority) (e.dumps (to_dict req)) d,
      )
  zadd-Effect req l d stored = ap as_zset (
      r.zadd_lem (key_of cfg web r e to_dict req) (neg req.meta.priority) (e.dumps (to_dict req)) d
        stored)

  push_request-Effect :
      (s : Scheduler) (req : Request) (l : Ranked) (d : Db)
      → str_eq e.name "pickle" ≡ false
      → as_zset (r.value d (key_of cfg web r e to_dict req)) ≡ some l
      → Effect req l (push_request cfg web r e to_dict s req d)
  unfolding push_request priority_push
  push_request-Effect s req l d json stored =
      elim (Bool-cases (contains (key_of cfg web r e to_dict req) s.queue_keys)) [
        | inl known ↦ rw known (pushed (lookup (key_of cfg web r e to_dict req) s.queue_dict))
        | inr new ↦ rw new (zadd-Effect req l d stored)
      ]
    where
      pushed :
          (o : Option Slot)
          → Effect req l (elim o [
            | none ↦ (key_error, d)
            | some slot ↦ (
              queued,
              priority_push e r (key_of cfg web r e to_dict req) (to_dict req) req.meta.priority d,
            )
          ])
      pushed none = stored
      pushed (some slot) =
          rw (priority_push, encode_lem (to_dict req) json) (zadd-Effect req l d stored)

  -- Whether a known queue in memory takes the request or a new queue of Redis: the outcome `queued`
  -- puts the request once into the sorted set of its spider and domain, at the negated priority;
  -- every other outcome leaves that set as it was. (The encoding is a text module, not pickle.)
  pub enqueue_request-Effect :
      (s : Scheduler) (now : ℕ) (req : Request) (l : Ranked) (d : Db)
      → str_eq e.name "pickle" ≡ false
      → Apart cfg web r req (key_of cfg web r e to_dict req)
      → as_zset (r.value d (key_of cfg web r e to_dict req)) ≡ some l
      → Effect req l (enqueue_request cfg web r e to_dict s now req d)
  unfolding enqueue_request
  enqueue_request-Effect s now req l d json apart stored =
      let d1 = (duplicate_filter cfg web r req d).1 in
      let d2 = (domain_filter cfg web r req d1).1 in
      let d3 = (global_filter cfg web r req d2).1 in
      let stored1 = ap as_zset (duplicate_filter_ne req d apart) ∙ stored in
      let stored2 = ap as_zset (domain_filter_ne req d1 apart) ∙ stored1 in
      let stored3 = ap as_zset (global_filter_ne req d2 apart) ∙ stored2 in
      elim (Bool-cases (duplicate_filter cfg web r req d).0) [
        | inl seen ↦ rw seen stored1
        | inr new ↦ rw new (elim (Bool-cases (domain_filter cfg web r req d1).0) [
          | inl full ↦ rw full stored2
          | inr room ↦ rw room (elim (Bool-cases (global_filter cfg web r req d2).0) [
            | inl full ↦ rw full stored3
            | inr room' ↦
                rw room'
                  (elim (Bool-cases (is_blacklisted cfg web r req.meta.appid req.meta.crawlid d3)) [
                    | inl black ↦ rw black stored3
                    | inr white ↦
                        rw white (elim (Bool-cases (is_wanted cfg web r s.black_domains now req)) [
                          | inl wanted ↦ rw wanted (push_request-Effect s req l d3 json stored3)
                          | inr unwanted ↦ rw unwanted stored3
                        ])
                  ])
          ])
        ])
      ]

  served_lookup :
      (key : String) (queues : Dict Slot) (keys : List String)
      → All (Has queues) keys
      → contains key keys ≡ true
      → is_some (lookup key queues) ≡ true
  served_lookup key queues [] served h = cc h
  served_lookup key queues (k ∷ keys) served h = elim (Bool-cases (str_eq k key)) [
    | inl same ↦ subst (λ j. is_some (lookup j queues) ≡ true) ((eq_iff k key).0 same) (served.0.0)
    | inr other ↦ served_lookup key queues keys (served.1) (ground arith)
  ]

  push_request-served :
      (s : Scheduler) (req : Request) (d : Db)
      → IsServed s
      → is_failure (push_request cfg web r e to_dict s req d).0 ≡ false
  unfolding push_request
  push_request-served s req d served =
      grind (arith, served_lookup (key_of cfg web r e to_dict req) s.queue_dict s.queue_keys served)

  -- While every known key has a queue, no request meets the KeyError, whatever the filters say.
  pub enqueue_request-served :
      (s : Scheduler) (now : ℕ) (req : Request) (d : Db)
      → IsServed s
      → is_failure (enqueue_request cfg web r e to_dict s now req d).0 ≡ false
  unfolding enqueue_request
  enqueue_request-served s now req d served = ground (
    arith,
    push_request-served s req
        ((global_filter cfg web r req
          ((domain_filter cfg web r req ((duplicate_filter cfg web r req d).1)).1)).1)
        served,
  )

  -- A request of a crawl on the blacklist is not queued, whatever the filters say.
  pub enqueue_request_black :
      (s : Scheduler) (now : ℕ) (req : Request) (l : List String) (d : Db)
      → Apart cfg web r req (cfg.spider ++ ":blacklist")
      → as_set (r.value d (cfg.spider ++ ":blacklist")) ≡ some l
      → contains (crawl_member req.meta.appid req.meta.crawlid) l ≡ true
      → is_queued (enqueue_request cfg web r e to_dict s now req d).0 ≡ false
  unfolding enqueue_request is_blacklisted
  enqueue_request_black s now req l d apart stored listed =
      let d1 = (duplicate_filter cfg web r req d).1 in
      let d2 = (domain_filter cfg web r req d1).1 in
      let d3 = (global_filter cfg web r req d2).1 in
      let stored3 =
        ap as_set (
          global_filter_ne req d2 apart
          ∙ domain_filter_ne req d1 apart
          ∙ duplicate_filter_ne req d apart)
        ∙ stored in
      ground (
        arith,
        r.sismember_lem (cfg.spider ++ ":blacklist") (crawl_member req.meta.appid req.meta.crawlid)
            d3 stored3,
        listed,
      )
