-- ===== src/Statistics/Queues.antt =====
-- The backlog of the queues: get_queue_stats of redis-monitor/plugins/stats_monitor.py and
-- _dump_queue_stats of redis-monitor/redis_monitor.py.
use Prim.Native.String.{◌++◌ as append}
use scrapy_cluster.Prelude.{
  ℕ, ◌+◌, String, ◌≡◌, refl, ap, ◌∙◌, sym, subst, Option, none, some, List, [], ◌∷◌, ◌++◌, arith,
  Dict, lookup, insert,
}
use scrapy_cluster.Text.{split}
use scrapy_cluster.Redis.{Redis}
use scrapy_cluster.Statistics.Tables.{
  or_new, map_values, map_values-insert, lookup-map_values, sum_of, sum_of-insert,
}

pub record Backlog : Type 0 where
  pub backlog : ℕ
  pub num_domains : ℕ
  pub domains : List (String × ℕ)

-- the dict of the report, the total apart
pub record QueueStats : Type 0 where
  pub spiders : Dict Backlog
  pub total : ℕ

abbrev pub no_backlog : Backlog
no_backlog = record { backlog = 0; num_domains = 0; domains = [] }

abbrev pub no_queues : QueueStats
no_queues = record { spiders = []; total = 0 }

-- one key's parts with its number of requests; none is an IndexError
unfoldable pub count_queue : List String → ℕ → QueueStats → Option QueueStats
count_queue [] count s = none
count_queue (spider ∷ []) count s = none
count_queue (spider ∷ domain ∷ more) count s =
    let name = append "queue_" spider in
    let old = or_new no_backlog (lookup name s.spiders) in
    some (record {
      spiders =
          insert name
            (record {
              backlog = old.backlog + count;
              num_domains = old.num_domains + 1;
              domains = old.domains ++ ((domain, count) ∷ []);
            })
            s.spiders;
      total = s.total + count;
    })

-- the entries of the dump, which leaves the domains out
pub record Dumped : Type 0 where
  pub spider_backlog : ℕ
  pub domain_count : ℕ

pub record QueueDump : Type 0 where
  pub extras : Dict Dumped
  pub total_backlog : ℕ

abbrev pub no_dump : QueueDump
no_dump = record { extras = []; total_backlog = 0 }

abbrev pub new_dumped : Dumped
new_dumped = record { spider_backlog = 0; domain_count = 0 }

unfoldable pub dump_queue : List String → ℕ → QueueDump → Option QueueDump
dump_queue [] count s = none
dump_queue (spider ∷ []) count s = none
dump_queue (spider ∷ domain ∷ more) count s =
    let name = append "queue_" spider in
    let old = or_new new_dumped (lookup name s.extras) in
    some (record {
      extras =
          insert name
            (record {
              spider_backlog = old.spider_backlog + count;
              domain_count = old.domain_count + 1;
            })
            s.extras;
      total_backlog = s.total_backlog + count;
    })

abbrev pub and_then {ℓ κ} : {A : Type ℓ} {B : Type κ} → Option A → (A → Option B) → Option B
and_then none f = none
and_then (some x) f = f x

module _ (r : Redis) (d : r.Db) where
  -- get_queue_stats over the keys that KEYS replies
  unfoldable pub get_queue_stats : List String → QueueStats → Option QueueStats
  get_queue_stats [] s = some s
  get_queue_stats (key ∷ keys) s =
      and_then (count_queue (split key) (r.zcard key d) s) (get_queue_stats keys)

  -- _dump_queue_stats
  unfoldable pub dump_queue_stats : List String → QueueDump → Option QueueDump
  dump_queue_stats [] s = some s
  dump_queue_stats (key ∷ keys) s =
      and_then (dump_queue (split key) (r.zcard key d) s) (dump_queue_stats keys)

  -- the sum of the keys' numbers of requests
  abbrev pub backlog_of : List String → ℕ
  backlog_of [] = 0
  backlog_of (key ∷ keys) = r.zcard key d + backlog_of keys

  -- the numbers of a report as the dump has them
  abbrev pub dumped : Backlog → Dumped
  dumped b = record { spider_backlog = b.backlog; domain_count = b.num_domains }

  abbrev pub as_dump : QueueStats → QueueDump
  as_dump s = record { extras = map_values dumped s.spiders; total_backlog = s.total }

  -- the backlogs of the spiders add up to the total
  abbrev pub IsBalanced : QueueStats → Type 0
  IsBalanced s = sum_of Backlog.backlog s.spiders ≡ s.total

  abbrev pub Balanced : ℕ → Option QueueStats → Type 0
  Balanced n none = Unit
  Balanced n (some s) = IsBalanced s × (s.total ≡ n)

  count_queue-Balanced :
      (parts : List String) (count : ℕ) (s : QueueStats)
      → IsBalanced s
      → Balanced (s.total + count) (count_queue parts count s)
  unfolding count_queue
  count_queue-Balanced [] count s h = tt
  count_queue-Balanced (spider ∷ []) count s h = tt
  count_queue-Balanced (spider ∷ domain ∷ more) count s h = (
    omega (
      arith,
      h,
      sum_of-insert Backlog.backlog (append "queue_" spider) _ no_backlog s.spiders refl,
    ),
    refl,
  )

  and_then-Balanced :
      (o : Option QueueStats) (f : QueueStats → Option QueueStats) (m n : ℕ)
      → Balanced m o
      → ((s : QueueStats) → IsBalanced s → s.total ≡ m → Balanced n (f s))
      → Balanced n (and_then o f)
  and_then-Balanced none f m n h g = tt
  and_then-Balanced (some s) f m n h g = g s h.0 h.1

  -- The report of the queues: whatever keys there are, the backlogs of the spiders add up to the
  -- total, and the total is what was there before and the sum of the keys' numbers of requests.
  pub get_queue_stats-Balanced :
      (keys : List String) (s : QueueStats)
      → IsBalanced s
      → Balanced (s.total + backlog_of keys) (get_queue_stats keys s)
  unfolding get_queue_stats
  get_queue_stats-Balanced [] s h = (h, omega arith)
  get_queue_stats-Balanced (key ∷ keys) s h =
      and_then-Balanced (count_queue (split key) (r.zcard key d) s) (get_queue_stats keys)
        (s.total + r.zcard key d) _ (count_queue-Balanced (split key) (r.zcard key d) s h)
        (λ t balanced total.
          subst (λ n. Balanced n (get_queue_stats keys t)) (omega (arith, total))
            (get_queue_stats-Balanced keys t balanced))

  dump_queue-same :
      (parts : List String) (count : ℕ) (s : QueueStats)
      → dump_queue parts count (as_dump s)
        ≡ and_then (count_queue parts count s) (λ t. some (as_dump t))
  unfolding dump_queue count_queue
  dump_queue-same [] count s = refl
  dump_queue-same (spider ∷ []) count s = refl
  dump_queue-same (spider ∷ domain ∷ more) count s =
      let name = append "queue_" spider in
      let old = lookup-map_values dumped name no_backlog s.spiders in
      let inserted =
        map_values-insert dumped name
          (record {
            backlog = (or_new no_backlog (lookup name s.spiders)).backlog + count;
            num_domains = (or_new no_backlog (lookup name s.spiders)).num_domains + 1;
            domains = (or_new no_backlog (lookup name s.spiders)).domains ++ ((domain, count) ∷ []);
          })
          s.spiders in
      let counted : Dumped → Option QueueDump = λ x. some (record {
        extras =
            insert name
              (record {
                spider_backlog = x.spider_backlog + count;
                domain_count = x.domain_count + 1;
              })
              (map_values dumped s.spiders);
        total_backlog = s.total + count;
      }) in
      let whole : Dict Dumped → Option QueueDump =
        λ e. some (record { extras = e; total_backlog = s.total + count }) in
      ap counted old ∙ ap whole (sym inserted)

  and_then-same :
      (o : Option QueueStats) (f : QueueDump → Option QueueDump)
      (g : QueueStats → Option QueueStats)
      → ((s : QueueStats) → f (as_dump s) ≡ and_then (g s) (λ t. some (as_dump t)))
      → and_then (and_then o (λ t. some (as_dump t))) f
        ≡ and_then (and_then o g) (λ t. some (as_dump t))
  and_then-same none f g h = refl
  and_then-same (some s) f g h = h s

  -- The dump of the Redis monitor and the report of its plugin agree: over the same keys the dump is
  -- the report without the names of the domains, and an IndexError of the one is one of the other.
  pub dump_queue_stats-same :
      (keys : List String) (s : QueueStats)
      → dump_queue_stats keys (as_dump s)
        ≡ and_then (get_queue_stats keys s) (λ t. some (as_dump t))
  unfolding dump_queue_stats get_queue_stats
  dump_queue_stats-same [] s = refl
  dump_queue_stats-same (key ∷ keys) s =
      ap (λ o. and_then o (dump_queue_stats keys)) (dump_queue-same (split key) (r.zcard key d) s)
      ∙ and_then-same (count_queue (split key) (r.zcard key d) s) (dump_queue_stats keys)
          (get_queue_stats keys) (dump_queue_stats-same keys)
