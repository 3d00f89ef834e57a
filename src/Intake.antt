-- ===== src/Intake.antt =====
-- The Kafka monitor: kafka-monitor/kafka_monitor.py and the handlers of kafka-monitor/plugins, which
-- take messages from Kafka and write keys and queues of Redis.
pub mod Keys
pub mod Messages
mod Tests
use Prim.Native.String.{◌++◌}
use scrapy_cluster.Prelude.{
  ℕ, String, Bool, true, false, not, ◌&&◌, Option, none, some, List, [], ◌∷◌, str_eq, ◌==◌,
  if◌then◌else◌,
}
use scrapy_cluster.Prelude.Int.{ℤ, neg}
use scrapy_cluster.Redis.{Redis}
use scrapy_cluster.Crawl.{Meta}
use scrapy_cluster.Scheduler.{Scale, queue_key}
use scrapy_cluster.Scheduler.Requests.{Feed}
use scrapy_cluster.Throttle.Clock.{TimeText}

-- the dicts of the schemas, with the fields that the handlers read
pub record Action : Type 0 where
  pub action : String
  pub spiderid : String
  pub appid : String
  pub crawlid : Option String
  pub uuid : String

pub record StatsRequest : Type 0 where
  pub stats : String
  pub appid : String
  pub uuid : String

pub record DomainRequest : Type 0 where
  pub action : String
  pub domain : String
  pub appid : String
  pub uuid : String
  pub hits : ℕ
  pub window : ℕ
  pub scale : Scale

-- the dict that the Zookeeper handler writes; the limits are there for an update only
pub record ZookeeperValue : Type 0 where
  pub domain : String
  pub uuid : String
  pub limits : Option (ℕ × ℕ × Scale)

module _ (r : Redis) where
  open r use {Db}

  -- the key of ActionHandler.handle
  unfoldable pub action_key : Action → String
  action_key a =
      let key = a.action ++ (":" ++ (a.spiderid ++ (":" ++ a.appid))) in
      elim a.crawlid [ none ↦ key | some crawlid ↦ key ++ (":" ++ crawlid) ]

  -- ActionHandler.handle
  unfoldable pub action_handle : Action → Db → Db
  action_handle a d = r.put (action_key a) a.uuid d

  -- StatsHandler.handle
  unfoldable pub stats_handle : StatsRequest → Db → Db
  stats_handle s d = r.put ("statsrequest:" ++ (s.stats ++ (":" ++ s.appid))) s.uuid d

  -- ScraperHandler.handle, over tldextract's domain and suffix of the URL and ujson
  unfoldable pub scraper_handle :
      (String → String) → (String → String) → (Feed → String) → TimeText → Feed → Db → Db
  scraper_handle domain suffix dumps c feed d =
      let key = queue_key feed.meta.spiderid (domain feed.url ++ ("." ++ suffix feed.url)) in
      let d' = r.zadd key (neg feed.meta.priority) (dumps feed) d in
      if feed.meta.expires == 0
      then d'
      else r.put
          ("timeout:"
            ++ (feed.meta.spiderid ++ (":" ++ (feed.meta.appid ++ (":" ++ feed.meta.crawlid)))))
          (c.show feed.meta.expires) d'

  -- the dict of ZookeeperHandler.handle; none is its early return
  unfoldable pub zookeeper_value : DomainRequest → Option ZookeeperValue
  zookeeper_value q =
      if str_eq q.action "domain-update"
      then (if not (q.hits == 0) && not (q.window == 0)
          then some (record {
            domain = q.domain;
            uuid = q.uuid;
            limits = some (q.hits, q.window, q.scale);
          })
          else none)
      else some (record { domain = q.domain; uuid = q.uuid; limits = none })

  -- ZookeeperHandler.handle
  unfoldable pub zookeeper_handle : (ZookeeperValue → String) → DomainRequest → Db → Db
  zookeeper_handle dumps q d = elim (zookeeper_value q) [
    | none ↦ d
    | some value ↦
        r.put ("zk:" ++ (q.action ++ (":" ++ (q.domain ++ (":" ++ q.appid))))) (dumps value) d
  ]

  -- A plugin of the monitor: its schema, which gives the dict with its defaults or a
  -- ValidationError, and its handler, which says whether it returned None.
  pub record Handler (A : Type 0) : Type 0 where
    pub name : String
    pub validate : A → Option A
    pub handle : A → Db → Bool × Db

  -- What becomes of a message.
  pub data Verdict : Type 0 where
    handled : Verdict
    unmatched : Verdict
    unparseable : Verdict

  -- the loop of _process_messages over the plugins, each of which gets a copy of the dict; the flag
  -- is found_plugin
  unfoldable pub process_plugins : {A : Type 0} → List (Handler A) → A → Bool → Db → Bool × Db
  process_plugins [] message found d = (found, d)
  process_plugins (h ∷ handlers) message found d = elim (h.validate message) [
    | none ↦ process_plugins handlers message found d
    | some dict ↦
        let (returned_none, d') = h.handle dict d in
        let later = process_plugins handlers message true d' in
        if returned_none then (true, d') else later
  ]

  -- one message of _process_messages
  unfoldable pub process_message :
      {A : Type 0} → (String → Option A) → List (Handler A) → String → Db → Verdict × Db
  process_message loads handlers value d = elim (loads value) [
    | none ↦ (unparseable, d)
    | some message ↦
        let (found, d') = process_plugins handlers message false d in
        (if found then handled else unmatched, d')
  ]
