-- ===== src/Intake/Keys.antt =====
-- The keys that the Kafka monitor writes (kafka-monitor/plugins) and the Redis monitor reads
-- (redis-monitor/plugins): each side takes the other's key apart as it was put together.
use Prim.Native.String.{◌++◌}
use text.Mathlib.TextLemmas.{append_assoc}
use scrapy_cluster.Prelude.{
  ℕ, String, ◌≡◌, refl, ap, ◌∙◌, true, false, Option, none, some, List, ltb, ◌==◌,
}
use scrapy_cluster.Text.{split, is_plain, split-four}
use scrapy_cluster.Redis.{Redis}
use scrapy_cluster.Scheduler.Requests.{Feed}
use scrapy_cluster.Throttle.Clock.{TimeText}
use scrapy_cluster.Monitor.Kafka.{Ack}
use scrapy_cluster.Monitor.Stop.{
  Outside, stop_elements, expire_elements, stop_handle, stop_crawl, expire_handle, expire_crawl,
  timeout_key, is_expired,
}
use scrapy_cluster.Intake.{Action, action_key, scraper_handle}

-- The ids of a crawl have no colon.
pub record IsPlain (spiderid appid crawlid : String) : Type 0 where
  pub spiderid_plain : is_plain spiderid ≡ true
  pub appid_plain : is_plain appid ≡ true
  pub crawlid_plain : is_plain crawlid ≡ true

module _ (r : Redis) (o : Outside r) where
  open r use {Db}

  action_key_lem :
      (a : Action) (crawlid : String)
      → a.action ≡ "stop"
      → a.crawlid ≡ some crawlid
      → action_key r a ≡ "stop" ++ (":" ++ (a.spiderid ++ (":" ++ (a.appid ++ (":" ++ crawlid)))))
  unfolding action_key
  action_key_lem a crawlid stop given =
      ap
        (λ o. elim o [
          | none ↦ a.action ++ (":" ++ (a.spiderid ++ (":" ++ a.appid)))
          | some c ↦ (a.action ++ (":" ++ (a.spiderid ++ (":" ++ a.appid)))) ++ (":" ++ c)
        ])
        given
      ∙ joined a.action a.spiderid a.appid crawlid
      ∙ ap (λ x. x ++ (":" ++ (a.spiderid ++ (":" ++ (a.appid ++ (":" ++ crawlid)))))) stop
    where
      joined :
          (x y z w : String)
          → (x ++ (":" ++ (y ++ (":" ++ z)))) ++ (":" ++ w)
            ≡ x ++ (":" ++ (y ++ (":" ++ (z ++ (":" ++ w)))))
      joined x y z w = simp (append_assoc)

  -- A stop request for a crawl, as the Kafka monitor stores it, makes the Redis monitor stop that
  -- crawl of that spider and app, and no other, if the three ids have no colon.
  pub stop_handle-action_key :
      (a : Action) (crawlid : String) (value : Option String) (d : Db) (out : List (String × Ack))
      → a.action ≡ "stop"
      → a.crawlid ≡ some crawlid
      → IsPlain a.spiderid a.appid crawlid
      → stop_handle r o (action_key r a) value d out
        ≡ stop_crawl r o a.spiderid a.appid crawlid value d out
  unfolding stop_handle stop_elements
  stop_handle-action_key a crawlid value d out stop given plain =
      ap (λ l. stop_elements r o l value d out)
        (ap split (action_key_lem a crawlid stop given)
          ∙ split-four "stop" a.spiderid a.appid crawlid refl plain.spiderid_plain plain.appid_plain
              plain.crawlid_plain)

  -- The same of the key under which the Kafka monitor stores when a crawl expires.
  pub expire_handle-timeout_key :
      (spiderid appid crawlid : String) (d : Db) (out : List (String × Ack))
      → IsPlain spiderid appid crawlid
      → expire_handle r o (timeout_key r o spiderid appid crawlid) d out
        ≡ expire_crawl r o spiderid appid crawlid d out
  unfolding expire_handle expire_elements
  expire_handle-timeout_key spiderid appid crawlid d out plain =
      ap (λ l. expire_elements r o l d out)
        (ap split (append_assoc "timeout" ":" (spiderid ++ (":" ++ (appid ++ (":" ++ crawlid)))))
          ∙ split-four "timeout" spiderid appid crawlid refl plain.spiderid_plain plain.appid_plain
              plain.crawlid_plain)

  -- After a feed that expires, the Redis monitor, asked at any time about the value that is stored
  -- at the timeout key of its crawl, finds the crawl expired exactly when that time is
  -- after the feed's.
  pub is_expired-scraper_handle :
      (domain suffix : String → String) (dumps : Feed → String) (c : TimeText) (feed : Feed)
      (now : ℕ) (d : Db)
      → (feed.meta.expires == 0) ≡ false
      → let key = timeout_key r o feed.meta.spiderid feed.meta.appid feed.meta.crawlid in
        let d' = scraper_handle r domain suffix dumps c feed d in
        (v : String) × (r.get key d' ≡ some v)
        × (is_expired r o c now v ≡ ltb feed.meta.expires now)
  unfolding scraper_handle is_expired
  is_expired-scraper_handle domain suffix dumps c feed now d lasts = (
    c.show feed.meta.expires,
    rw lasts (r.get_some _ _ (r.put_lem _ (c.show feed.meta.expires) _)),
    ap (λ t. ltb t now) (c.read-show feed.meta.expires),
  )
