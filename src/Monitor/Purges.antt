-- ===== src/Monitor/Purges.antt =====
-- A purge of a crawl over all queues of a spider (`_mini_purge` and `_purge_crawl` of
-- redis-monitor/plugins/stop_monitor.py), and what the scheduler does with the crawl afterwards.
use scrapy_cluster.Prelude.{
  All-map, ℕ, ◌+◌, String, ◌≡◌, refl, ap, sym, ◌∙◌, ◌≢◌, Bool, true, false, some, List, [], ◌∷◌,
  arith, All,
}
use scrapy_cluster.Redis.{Redis}
use scrapy_cluster.Redis.Values.{Ranked, as_zset}
use scrapy_cluster.Scheduler.Serving.{Distinct, All-both}
use scrapy_cluster.Monitor.Stop.{Outside, and_then, purge_items, purge_keys, mini_purge}
use scrapy_cluster.Monitor.Purge.{
  kept, purged, Loadable, Strips, strip-kept, listed-All, purge_items-Strips,
}

module _ (r : Redis) (o : Outside r) (appid crawlid : String) where
  open r use {Db}

  abbrev pub total : (String → Ranked) → List String → ℕ
  total queue [] = 0
  total queue (key ∷ keys) = purged r o appid crawlid (queue key) + total queue keys

  -- The key has the queue, whose items can all be loaded.
  abbrev pub Holds : (String → Ranked) → Db → String → Type 0
  Holds queue d key =
      (as_zset (r.value d key) ≡ some (queue key)) × Loadable r o appid crawlid (queue key)

  -- All went well, the count is that of the crawl's items, each queue has the other items in their
  -- order, and the other keys have what they had.
  pub record Purges (keys : List String) (queue : String → Ranked) (state : ℕ × Db)
      (res : Bool × (ℕ × Db)) : Type 0 where
    pub loaded : res.0 ≡ true
    pub count : res.1.0 ≡ state.0 + total queue keys
    pub left :
        All (λ key. as_zset (r.value res.1.1 key) ≡ some (kept r o appid crawlid (queue key))) keys
    pub others : (j : String) → All (λ key. key ≢ j) keys → r.value res.1.1 j ≡ r.value state.1 j

  purge_keys-Purges :
      (keys : List String) (queue : String → Ranked) (n : ℕ) (d : Db)
      → Distinct keys
      → All (Holds queue d) keys
      → Purges keys queue (n, d) (purge_keys r o appid crawlid keys (n, d))
  unfolding purge_keys
  purge_keys-Purges [] queue n d distinct holds = record {
    loaded = refl;
    count = omega arith;
    left = tt;
    others = λ j ne. refl;
  }
  purge_keys-Purges (key ∷ keys) queue n d (fresh, distinct) ((stored, loadable), holds) =
      rw (purge_keys, r.zrange_lem key d stored)
        (go (purge_items r o appid crawlid key (queue key) (n, d))
          (purge_items-Strips r o appid crawlid key (queue key) (queue key) n d loadable stored)
          (λ n' d'. purge_keys-Purges keys queue n' d' distinct))
    where
      go :
          (res : Bool × (ℕ × Db))
          → Strips r o appid crawlid key (queue key) (queue key) (n, d) res
          → ((n' : ℕ) (d' : Db)
              → All (Holds queue d') keys
              → Purges keys queue (n', d') (purge_keys r o appid crawlid keys (n', d')))
          → Purges (key ∷ keys) queue (n, d) (and_then res (purge_keys r o appid crawlid keys))
      go (false, state) strips rest = cc (strips.loaded)
      go (true, (n', d')) strips rest =
          let tail = rest n' d' (
            All-map keys (λ j both. (ap as_zset (strips.others j (both.0)) ∙ both.1.0, both.1.1))
              (All-both (λ j. key ≢ j) (Holds queue d) keys fresh holds)) in
          record {
            loaded = tail.loaded;
            count = omega (arith, tail.count, strips.count);
            left = (
              ap as_zset (tail.others key (All-map keys (λ j ne same. ne (sym same)) fresh))
                  ∙ strips.stored
                  ∙ ap some (strip-kept r o appid crawlid _ _ (listed-All r o appid crawlid _)),
              tail.left,
            );
            others = λ j ne. tail.others j (ne.1) ∙ strips.others j (ne.0);
          }

  -- If SCAN gives each queue of the spider once and every item can be loaded, `_mini_purge` removes
  -- exactly the crawl's items from each queue, counts them, and leaves the other items in their
  -- order and every other key as it was.
  pub mini_purge-Purges :
      (spiderid : String) (queue : String → Ranked) (n : ℕ) (d : Db)
      → Distinct (o.scan spiderid d)
      → All (Holds queue d) (o.scan spiderid d)
      → Purges (o.scan spiderid d) queue (n, d) (mini_purge r o spiderid appid crawlid (n, d))
  unfolding mini_purge
  mini_purge-Purges spiderid queue n d distinct holds =
      purge_keys-Purges (o.scan spiderid d) queue n d distinct holds
