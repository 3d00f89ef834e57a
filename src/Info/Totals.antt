-- ===== src/Info/Totals.antt =====
-- The totals of the info plugin's reports (redis-monitor/plugins/info_monitor.py).
use scrapy_cluster.Prelude.{
  ◌+◌, String, ◌≡◌, refl, ap, ◌∙◌, inl, inr, Option, none, some, List, [], ◌∷◌, arith, str_eq,
  length, Bool-cases, if-P, Dict, lookup, insert,
}
use scrapy_cluster.Text.{split}
use scrapy_cluster.Redis.{Redis}
use scrapy_cluster.Statistics.Tables.{or_new, sum_of, sum_of-insert}
use scrapy_cluster.Statistics.Queues.{and_then}
use scrapy_cluster.Info.{
  Fields, Item, fields_of, Bins, DomainInfo, new_domain, add_item, CrawlInfo, new_crawl, AppInfo,
  empty_app, if_new, add_to_crawl_info, add_to_app, each_item, each_bin, domain_in, get_bin,
  each_key, build_appid_info,
}

length-insert {ℓ} :
    {V : Type ℓ} (k : String) (v : V) (d : Dict V)
    → length (insert k v d) ≡ length d + if_new (lookup k d)
length-insert k v [] = refl
length-insert k v ((j, w) ∷ d) = ground (arith, length-insert k v d)

-- a predicate on every entry
abbrev pub Entries {ℓ} : {V : Type ℓ} → (V → Type 0) → Dict V → Type 0
Entries P [] = Unit
Entries P ((k, v) ∷ d) = P v × Entries P d

module _ {ℓ} {V : Type ℓ} (P : V → Type 0) where
  insert-Entries : (k : String) (v : V) (d : Dict V) → P v → Entries P d → Entries P (insert k v d)
  insert-Entries k v [] p h = (p, tt)
  insert-Entries k v ((j, w) ∷ d) p h =
      if-P (Entries P) (str_eq j k) ((j, v) ∷ d) ((j, w) ∷ insert k v d) (p, h.1)
        (h.0, insert-Entries k v d p h.1)

  lookup-Entries : (k : String) (x : V) (d : Dict V) → P x → Entries P d → P (or_new x (lookup k d))
  lookup-Entries k x [] p h = p
  lookup-Entries k x ((j, w) ∷ d) p h = elim (Bool-cases (str_eq j k)) [
    | inl same ↦ rw same h.0
    | inr other ↦ rw other (lookup-Entries k x d p h.1)
  ]

-- the totals of a crawl's dict
pub record IsCrawlSum (c : CrawlInfo) : Type 0 where
  pub items : sum_of DomainInfo.total c.domains ≡ c.total
  pub distinct : length c.domains ≡ c.distinct_domains

-- the totals of an app's report
pub record IsSummed (m : AppInfo) : Type 0 where
  pub crawls : Entries IsCrawlSum m.crawlids
  pub count : length m.crawlids ≡ m.total_crawlids
  pub pending : sum_of CrawlInfo.total m.crawlids ≡ m.total_pending

add_to_crawl_info-IsCrawlSum :
    (domain : String) (x : Fields) (c : CrawlInfo)
    → IsCrawlSum c
    → IsCrawlSum (add_to_crawl_info domain x c)
unfolding add_to_crawl_info add_item
add_to_crawl_info-IsCrawlSum domain x c h =
    let old = or_new new_domain (lookup domain c.domains) in
    record {
      items = omega (
        arith,
        h.items,
        sum_of-insert DomainInfo.total domain (add_item x.priority old) new_domain c.domains refl,
      );
      distinct =
          length-insert domain (add_item x.priority old) c.domains
          ∙ ap (λ n. n + if_new (lookup domain c.domains)) h.distinct;
    }

new_crawl-IsCrawlSum : (x : Fields) → IsCrawlSum (new_crawl x)
unfolding new_crawl
new_crawl-IsCrawlSum x = record { items = refl; distinct = refl }

add_to_app-IsSummed :
    (appid domain : String) (item : Item) (m : AppInfo)
    → IsSummed m
    → IsSummed (add_to_app appid domain item m)
unfolding add_to_app new_crawl add_to_crawl_info
add_to_app-IsSummed appid domain item m h =
    let x = fields_of item in
    let old = or_new (new_crawl x) (lookup x.crawlid m.crawlids) in
    let crawl = add_to_crawl_info domain x old in
    let old_sum : IsCrawlSum old =
      lookup-Entries IsCrawlSum x.crawlid (new_crawl x) m.crawlids (new_crawl-IsCrawlSum x)
        h.crawls in
    if-P IsSummed (str_eq x.appid appid) _ m
      (record {
        crawls =
            insert-Entries IsCrawlSum x.crawlid crawl m.crawlids
              (add_to_crawl_info-IsCrawlSum domain x old old_sum) h.crawls;
        count =
            length-insert x.crawlid crawl m.crawlids
            ∙ ap (λ n. n + if_new (lookup x.crawlid m.crawlids)) h.count;
        pending = omega (
          arith,
          h.pending,
          sum_of-insert CrawlInfo.total x.crawlid crawl (new_crawl x) m.crawlids refl,
        );
      })
      h

module _ {S : Type 0} (P : S → Type 0) where
  abbrev pub Kept : Option S → Type 0
  Kept none = Unit
  Kept (some s) = P s

  each_item-Kept :
      (f : Item → S → S)
      → ((x : Item) (s : S) → P s → P (f x s))
      → (items : List Item) (s : S) → P s
      → P (each_item f items s)
  unfolding each_item
  each_item-Kept f keep [] s h = h
  each_item-Kept f keep (x ∷ items) s h = each_item-Kept f keep items (f x s) (keep x s h)

  each_bin-Kept :
      (f : Item → S → S)
      → ((x : Item) (s : S) → P s → P (f x s))
      → (bins : Bins) (s : S) → P s
      → P (each_bin f bins s)
  unfolding each_bin
  each_bin-Kept f keep [] s h = h
  each_bin-Kept f keep ((score, items) ∷ bins) s h =
      each_bin-Kept f keep bins (each_item f items s) (each_item-Kept f keep items s h)

  and_then-Kept :
      {A : Type 0} (o : Option A) (f : A → Option S) → ((a : A) → Kept (f a)) → Kept (and_then o f)
  and_then-Kept none f h = tt
  and_then-Kept (some a) f h = h a

  each_key-Kept :
      (r : Redis) (loads : String → Option Item) (d : r.Db) (f : String → Item → S → S)
      → ((domain : String) (x : Item) (s : S) → P s → P (f domain x s))
      → (keys : List String) (s : S) → P s
      → Kept (each_key r loads d f keys s)
  unfolding each_key
  each_key-Kept r loads d f keep [] s h = h
  each_key-Kept r loads d f keep (key ∷ keys) s h =
      and_then-Kept (domain_in (split key)) _ (λ domain.
        and_then-Kept (get_bin r loads d (r.zrange key d) []) _ (λ bins.
          each_key-Kept r loads d f keep keys (each_bin (f domain) bins s)
            (each_bin-Kept (f domain) (keep domain) bins s h)))

-- The report of an app, whatever is queued: the number of crawls is that of their entries, the number
-- of pending items is the sum of the crawls' totals, and in each crawl the total is the sum over its
-- domains and the number of domains that of its entries.
pub build_appid_info-IsSummed :
    (r : Redis) (loads : String → Option Item) (d : r.Db) (appid : String) (keys : List String)
    → Kept IsSummed (build_appid_info r loads d appid keys)
unfolding build_appid_info
build_appid_info-IsSummed r loads d appid keys =
    each_key-Kept IsSummed r loads d (add_to_app appid)
      (λ domain x m h. add_to_app-IsSummed appid domain x m h) keys empty_app
      (record { crawls = tt; count = refl; pending = refl })
