-- ===== src/Statistics/Spiders.antt =====
-- The spiders' statistics: get_spider_stats of redis-monitor/plugins/stats_monitor.py and
-- _dump_crawl_stats of redis-monitor/redis_monitor.py.
use Prim.Native.String.{◌++◌ as append}
use scrapy_cluster.Prelude.{
  ℕ, ◌+◌, ◌≤◌, String, ◌≡◌, refl, ap, ◌∙◌, sym, Option, none, some, List, [], ◌∷◌, arith, str_eq,
  length, Dict, lookup, insert, if◌then◌else◌,
}
use scrapy_cluster.Text.{split}
use scrapy_cluster.Redis.{Redis}
use scrapy_cluster.Redis.Values.{add_member}
use scrapy_cluster.Statistics.Tables.{
  or_new, map_values, map_values-insert, lookup-map_values, sum_of, sum_of-insert,
}
use scrapy_cluster.Statistics.Queues.{and_then}

pub record SpiderStats : Type 0 where
  pub count : ℕ
  pub responses : Dict (Dict ℕ)

-- the dict of the report: its spiders, the set of their names, and the number of processes
pub record CrawlStats : Type 0 where
  pub spiders : Dict SpiderStats
  pub spider_set : List String
  pub total : ℕ

abbrev pub new_spider : SpiderStats
new_spider = record { count = 0; responses = [] }

abbrev pub no_spiders : CrawlStats
no_spiders = record { spiders = []; spider_set = []; total = 0 }

-- the parts of a key: one of a response's counters, of a process, another one with a spider, or one
-- that is too short for its spider, an IndexError
pub data CrawlKey : Type 0 where
  response_key : String → String → String → CrawlKey
  process_key : String → CrawlKey
  unknown_key : String → CrawlKey
  short_key : CrawlKey

abbrev pub crawl_key : List String → CrawlKey
crawl_key (a ∷ b ∷ host ∷ spider ∷ response ∷ end ∷ []) = response_key spider response end
crawl_key (a ∷ b ∷ host ∷ spider ∷ uuid ∷ []) = process_key spider
crawl_key (a ∷ b ∷ host ∷ spider ∷ more) = unknown_key spider
crawl_key _ = short_key

module _ (r : Redis) (d : r.Db) where
  -- _get_key_value
  unfoldable pub get_key_value : String → String → ℕ
  get_key_value key end = if str_eq end "lifetime" then r.pfcount key d else r.zcard key d

  -- one key of get_spider_stats
  unfoldable pub count_spider : String → CrawlKey → CrawlStats → Option CrawlStats
  count_spider key short_key s = none
  count_spider key (unknown_key spider) s =
      some (record s {
        spiders = insert spider (or_new new_spider (lookup spider s.spiders)) s.spiders;
      })
  count_spider key (process_key spider) s =
      let old = or_new new_spider (lookup spider s.spiders) in
      some (record {
        spiders = insert spider (record old { count = old.count + 1 }) s.spiders;
        spider_set = add_member spider s.spider_set;
        total = s.total + 1;
      })
  count_spider key (response_key spider response end) s =
      let old = or_new new_spider (lookup spider s.spiders) in
      let ends = or_new [] (lookup response old.responses) in
      some (record s {
        spiders =
            insert spider
              (record old {
                responses = insert response (insert end (get_key_value key end) ends) old.responses;
              })
              s.spiders;
      })

  -- the loop of get_spider_stats; unique_spider_count is the length of the set
  unfoldable pub get_spider_stats : List String → CrawlStats → Option CrawlStats
  get_spider_stats [] s = some s
  get_spider_stats (key ∷ keys) s =
      and_then (count_spider key (crawl_key (split key)) s) (get_spider_stats keys)

  -- the dicts of the dump
  pub record CrawlDump : Type 0 where
    pub extras : Dict ℕ
    pub counts : Dict ℕ
    pub spider_set : List String
    pub total_spider_count : ℕ

  -- one key of _dump_crawl_stats
  unfoldable pub dump_spider : String → CrawlKey → CrawlDump → Option CrawlDump
  dump_spider key short_key s = none
  dump_spider key (unknown_key spider) s =
      some (record s { counts = insert spider (or_new 0 (lookup spider s.counts)) s.counts })
  dump_spider key (process_key spider) s = some (record s {
    counts = insert spider (or_new 0 (lookup spider s.counts) + 1) s.counts;
    spider_set = add_member spider s.spider_set;
    total_spider_count = s.total_spider_count + 1;
  })
  dump_spider key (response_key spider response end) s = some (record s {
    counts = insert spider (or_new 0 (lookup spider s.counts)) s.counts;
    extras =
        insert (append spider (append "_" (append response (append "_" end))))
          (get_key_value key end) s.extras;
  })

  unfoldable pub dump_keys : List String → CrawlDump → Option CrawlDump
  dump_keys [] s = some s
  dump_keys (key ∷ keys) s = and_then (dump_spider key (crawl_key (split key)) s) (dump_keys keys)

  -- the end of _dump_crawl_stats, with the simple counts
  unfoldable pub add_counts : Dict ℕ → Dict ℕ → Dict ℕ
  add_counts [] extras = extras
  add_counts ((spider, count) ∷ counts) extras =
      add_counts counts (insert (append spider "_spider_count") count extras)

  unfoldable pub dump_crawl_stats : List String → Option (Dict ℕ)
  dump_crawl_stats keys =
      and_then
        (dump_keys keys
          (record { extras = []; counts = []; spider_set = []; total_spider_count = 0 }))
        (λ s. some (
          add_counts s.counts (
            insert "total_spider_count" s.total_spider_count
              (insert "unique_spider_count" (length s.spider_set) s.extras))))

  -- the numbers of processes add up to the total, and no name is in the set without a process
  abbrev pub IsCounted : CrawlStats → Type 0
  IsCounted s = (sum_of SpiderStats.count s.spiders ≡ s.total) × (length s.spider_set ≤ s.total)

  abbrev pub Counted : Option CrawlStats → Type 0
  Counted none = Unit
  Counted (some s) = IsCounted s

  length-add_member :
      (m : String) (l : List String) (n : ℕ) → length l ≤ n → length (add_member m l) ≤ n + 1
  length-add_member m l n h = ground arith

  counted :
      (spider : String) (v : SpiderStats) (s : CrawlStats)
      → sum_of SpiderStats.count (insert spider v s.spiders)
          + (or_new new_spider (lookup spider s.spiders)).count
        ≡ sum_of SpiderStats.count s.spiders + v.count
  counted spider v s = sum_of-insert SpiderStats.count spider v new_spider s.spiders refl

  count_spider-Counted :
      (key : String) (parts : CrawlKey) (s : CrawlStats)
      → IsCounted s
      → Counted (count_spider key parts s)
  unfolding count_spider
  count_spider-Counted key short_key s h = tt
  count_spider-Counted key (unknown_key spider) s h =
      (omega (arith, h.0, counted spider (or_new new_spider (lookup spider s.spiders)) s), h.1)
  count_spider-Counted key (process_key spider) s h =
      let old = or_new new_spider (lookup spider s.spiders) in
      (
        omega (arith, h.0, counted spider (record old { count = old.count + 1 }) s),
        length-add_member spider s.spider_set s.total h.1,
      )
  count_spider-Counted key (response_key spider response end) s h =
      (omega (arith, h.0, counted spider _ s), h.1)

  and_then-Counted :
      (o : Option CrawlStats) (f : CrawlStats → Option CrawlStats)
      → Counted o
      → ((s : CrawlStats) → IsCounted s → Counted (f s))
      → Counted (and_then o f)
  and_then-Counted none f h g = tt
  and_then-Counted (some s) f h g = g s h

  -- The report of the spiders: whatever keys there are, the numbers of processes of the spiders add
  -- up to the total, and there are at most as many spiders as processes.
  pub get_spider_stats-Counted :
      (keys : List String) (s : CrawlStats) → IsCounted s → Counted (get_spider_stats keys s)
  unfolding get_spider_stats
  get_spider_stats-Counted [] s h = h
  get_spider_stats-Counted (key ∷ keys) s h =
      and_then-Counted (count_spider key (crawl_key (split key)) s) (get_spider_stats keys)
        (count_spider-Counted key (crawl_key (split key)) s h) (get_spider_stats-Counted keys)

  -- the simple counts of a dump are those of a report
  abbrev pub SameCounts : CrawlDump → CrawlStats → Type 0
  SameCounts e s =
      (e.counts ≡ map_values SpiderStats.count s.spiders)
      × (e.spider_set ≡ s.spider_set)
      × (e.total_spider_count ≡ s.total)

  abbrev pub BothSame : Option CrawlDump → Option CrawlStats → Type 0
  BothSame none none = Unit
  BothSame none (some s) = ⊥
  BothSame (some e) none = ⊥
  BothSame (some e) (some s) = SameCounts e s

  same_insert :
      (spider : String) (v : SpiderStats) (n : ℕ) (c : Dict ℕ) (s : CrawlStats)
      → c ≡ map_values SpiderStats.count s.spiders
      → n ≡ v.count
      → insert spider n c ≡ map_values SpiderStats.count (insert spider v s.spiders)
  same_insert spider v n c s h e =
      ap (insert spider n) h
      ∙ ap (λ m. insert spider m (map_values SpiderStats.count s.spiders)) e
      ∙ sym (map_values-insert SpiderStats.count spider v s.spiders)

  same_count :
      (spider : String) (c : Dict ℕ) (s : CrawlStats)
      → c ≡ map_values SpiderStats.count s.spiders
      → or_new 0 (lookup spider c) ≡ (or_new new_spider (lookup spider s.spiders)).count
  same_count spider c s h =
      ap (λ m. or_new 0 (lookup spider m)) h
      ∙ lookup-map_values SpiderStats.count spider new_spider s.spiders

  dump_spider-BothSame :
      (key : String) (parts : CrawlKey) (e : CrawlDump) (s : CrawlStats)
      → SameCounts e s
      → BothSame (dump_spider key parts e) (count_spider key parts s)
  unfolding dump_spider count_spider
  dump_spider-BothSame key short_key e s h = tt
  dump_spider-BothSame key (unknown_key spider) e s h =
      (same_insert spider _ _ e.counts s h.0 (same_count spider e.counts s h.0), h.1, h.2)
  dump_spider-BothSame key (process_key spider) e s h = (
    same_insert spider _ _ e.counts s h.0 (ap (λ n. n + 1) (same_count spider e.counts s h.0)),
    ap (add_member spider) h.1,
    ap (λ n. n + 1) h.2,
  )
  dump_spider-BothSame key (response_key spider response end) e s h =
      (same_insert spider _ _ e.counts s h.0 (same_count spider e.counts s h.0), h.1, h.2)

  and_then-BothSame :
      (o : Option CrawlDump) (p : Option CrawlStats) (f : CrawlDump → Option CrawlDump)
      (g : CrawlStats → Option CrawlStats)
      → BothSame o p
      → ((e : CrawlDump) (s : CrawlStats) → SameCounts e s → BothSame (f e) (g s))
      → BothSame (and_then o f) (and_then p g)
  and_then-BothSame none none f g h k = tt
  and_then-BothSame (some e) (some s) f g h k = k e s h
  and_then-BothSame none (some s) f g h k = absurd h
  and_then-BothSame (some e) none f g h k = absurd h

  -- The dump of the Redis monitor and the report of its plugin agree: over the same keys, an
  -- IndexError of the one is one of the other, and otherwise each spider's number of processes, the
  -- set of spiders and the total are the same.
  pub dump_keys-BothSame :
      (keys : List String) (e : CrawlDump) (s : CrawlStats)
      → SameCounts e s
      → BothSame (dump_keys keys e) (get_spider_stats keys s)
  unfolding dump_keys get_spider_stats
  dump_keys-BothSame [] e s h = h
  dump_keys-BothSame (key ∷ keys) e s h =
      and_then-BothSame (dump_spider key (crawl_key (split key)) e)
        (count_spider key (crawl_key (split key)) s) (dump_keys keys) (get_spider_stats keys)
        (dump_spider-BothSame key (crawl_key (split key)) e s h) (dump_keys-BothSame keys)
