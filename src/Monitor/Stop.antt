-- ===== src/Monitor/Stop.antt =====
-- The plugins that end a crawl: redis-monitor/plugins/stop_monitor.py and expire_monitor.py.
use Prim.Native.String.{◌++◌}
use scrapy_cluster.Prelude.{
  ℕ, ◌+◌, String, Bool, true, false, ◌&&◌, Option, none, some, List, [], ◌∷◌, str_eq, ltb,
  if◌then◌else◌,
}
use scrapy_cluster.Text.{split}
use scrapy_cluster.Redis.{Redis}
use scrapy_cluster.Redis.Values.{Ranked}
use scrapy_cluster.Scheduler.Requests.{crawl_member}
use scrapy_cluster.Throttle.Clock.{TimeText}
use scrapy_cluster.Monitor.Kafka.{Ack, ack_appid, send_to_kafka}

-- the ids of a crawl, and what ujson.loads gives for a queued item: a feed of the Kafka monitor has
-- them at the top, and a serialized request under 'meta'
pub record Ids : Type 0 where
  pub appid : String
  pub crawlid : String

pub data Item : Type 0 where
  feed : Ids → Item
  request : (meta : Ids) → Item

-- `if 'meta' in item: item = item['meta']`
abbrev pub ids_of : Item → Ids
ids_of (feed ids) = ids
ids_of (request meta) = meta

-- What the outside gives: ujson.loads, the keys that SCAN gives for a spider's queues, the clock in
-- seconds and Kafka.
pub record Outside (r : Redis) : Type 0 where
  pub loads : String → Option Item
  pub scan : String → r.Db → List String
  pub seconds : ℕ
  pub prefix : String
  pub use_appid_topics : Bool
  pub accepts : String → Bool

-- how a purge goes on unless `loads` has raised
abbrev pub and_then : {S : Type 0} → Bool × S → (S → Bool × S) → Bool × S
and_then (false, s) f = (false, s)
and_then (true, s) f = f s

module _ (r : Redis) (o : Outside r) where
  open r use {Db}

  abbrev pub is_of : String → String → Item → Bool
  is_of appid crawlid i = str_eq (ids_of i).appid appid && str_eq (ids_of i).crawlid crawlid

  -- the inner loop of _mini_purge over one queue's items: false is the exception of `loads`, which
  -- leaves what was purged before it
  unfoldable pub purge_items : String → String → String → Ranked → ℕ × Db → Bool × (ℕ × Db)
  purge_items appid crawlid key [] state = (true, state)
  purge_items appid crawlid key ((item_key, score) ∷ items) state = elim (o.loads item_key) [
    | none ↦ (false, state)
    | some i ↦
        purge_items appid crawlid key items
          (if is_of appid crawlid i then (state.0 + 1, r.zrem key item_key state.1) else state)
  ]

  unfoldable pub purge_keys : String → String → List String → ℕ × Db → Bool × (ℕ × Db)
  purge_keys appid crawlid [] state = (true, state)
  purge_keys appid crawlid (key ∷ keys) state =
      and_then (purge_items appid crawlid key (r.zrange key state.1) state)
        (purge_keys appid crawlid keys)

  -- _mini_purge
  unfoldable pub mini_purge : String → String → String → ℕ × Db → Bool × (ℕ × Db)
  mini_purge spiderid appid crawlid state = purge_keys appid crawlid (o.scan spiderid state.1) state

  -- _purge_crawl: three times, with the sum of the counts
  unfoldable pub purge_crawl : String → String → String → Db → Bool × (ℕ × Db)
  purge_crawl spiderid appid crawlid d =
      let mini = mini_purge spiderid appid crawlid in and_then (and_then (mini (0, d)) mini) mini

  -- self.redis_conn.sadd(redis_key, value) of both plugins
  unfoldable pub blacklist_crawl : String → String → String → Db → Db
  blacklist_crawl spiderid appid crawlid d =
      (r.sadd (spiderid ++ ":blacklist") (crawl_member appid crawlid) d).1

  abbrev pub timeout_key : String → String → String → String
  timeout_key spiderid appid crawlid =
      "timeout:" ++ (spiderid ++ (":" ++ (appid ++ (":" ++ crawlid))))

  -- What a handler leaves: false for an exception, the database and what was sent.
  pub record Done : Type 0 where
    pub ok : Bool
    pub db : Db
    pub out : List (String × Ack)

  unfoldable pub stop_crawl :
      String → String → String → Option String → Db → List (String × Ack) → Done
  stop_crawl spiderid appid crawlid uuid d out =
      let d1 = blacklist_crawl spiderid appid crawlid d in
      let (loaded, state) = purge_crawl spiderid appid crawlid d1 in
      if loaded
      then (let (sent, out') =
            send_to_kafka ack_appid o.prefix o.use_appid_topics o.accepts
              (record {
                action = "stop";
                spiderid = spiderid;
                appid = appid;
                crawlid = crawlid;
                total = state.0;
                uuid = uuid;
                server_time = o.seconds;
              })
              out in
          record {
            ok = true;
            db = if sent then r.delete (timeout_key spiderid appid crawlid) state.1 else state.1;
            out = out';
          })
      else record { ok = false; db = state.1; out = out }

  -- StopMonitor.handle, on the parts of the key
  unfoldable pub stop_elements : List String → Option String → Db → List (String × Ack) → Done
  stop_elements (_ ∷ spiderid ∷ appid ∷ crawlid ∷ []) value d out =
      stop_crawl spiderid appid crawlid value d out
  stop_elements _ value d out = record { ok = true; db = d; out = out }

  unfoldable pub stop_handle : String → Option String → Db → List (String × Ack) → Done
  stop_handle key value d out = stop_elements (split key) value d out

  -- ExpireMonitor.check_precondition, with the number that float reads
  unfoldable pub is_expired : TimeText → ℕ → String → Bool
  is_expired c now value = ltb (c.read value) now

  unfoldable pub expire_crawl : String → String → String → Db → List (String × Ack) → Done
  expire_crawl spiderid appid crawlid d out =
      let d1 = blacklist_crawl spiderid appid crawlid d in
      let (loaded, state) = purge_crawl spiderid appid crawlid d1 in
      if loaded
      then record {
        ok = true;
        db = state.1;
        out =
            (send_to_kafka ack_appid o.prefix o.use_appid_topics o.accepts
              (record {
                action = "expired";
                spiderid = spiderid;
                appid = appid;
                crawlid = crawlid;
                total = state.0;
                uuid = none;
                server_time = o.seconds;
              })
              out).1;
      }
      else record { ok = false; db = state.1; out = out }

  -- ExpireMonitor.handle, which takes the second to the fourth part of the key
  unfoldable pub expire_elements : List String → Db → List (String × Ack) → Done
  expire_elements (_ ∷ spiderid ∷ appid ∷ crawlid ∷ _) d out =
      expire_crawl spiderid appid crawlid d out
  expire_elements _ d out = record { ok = false; db = d; out = out }

  unfoldable pub expire_handle : String → Db → List (String × Ack) → Done
  expire_handle key d out = expire_elements (split key) d out
