-- ===== src/Filters.antt =====
-- The filters of the scheduler: crawler/crawling/redis_dupefilter.py,
-- redis_domain_max_page_filter.py and redis_global_page_per_domain_filter.py.
pub mod Seen
pub mod Pages
pub mod Frames
mod Tests
use scrapy_cluster.Prelude.{
  ℕ, zero, String, Bool, true, false, not, Option, none, some, leb, if◌then◌else◌,
}
use Prim.Native.String.{◌++◌}
use scrapy_cluster.Redis.{Redis}
use scrapy_cluster.Crawl.{Request, Web, domain_of}

module _ (r : Redis) (web : Web) (key : String) (timeout : ℕ) where
  open r use {Db}

  -- the key of the fingerprints of one crawl
  abbrev pub seen_key : String → String
  seen_key crawlid = key ++ (":" ++ crawlid)

  -- RFPDupeFilter.request_seen
  unfoldable pub request_seen : Request → Db → Bool × Db
  request_seen req d =
      let (added, d') = r.sadd (seen_key req.meta.crawlid) (web.fingerprint req) d in
      (not added, r.expire (seen_key req.meta.crawlid) timeout d')

  -- RFPDupeFilter.clear
  unfoldable pub clear : Db → Db
  clear d = r.delete key d

  -- the composite key of both page filters
  abbrev pub page_key : Request → String
  page_key req = key ++ (":" ++ (domain_of web req ++ (":" ++ req.meta.crawlid)))

  -- the count at the key after `if not exists: set 0`
  unfoldable pub ensure_count : String → Db → Db
  ensure_count k d = if r.exists k d then d else r.put k (r.number 0) d

  -- int(self.server.get(key)), of a key that is there
  unfoldable pub page_count : String → Db → ℕ
  page_count k d = elim (r.get k d) [ none ↦ 0 | some n ↦ r.read_number n ]

  unfoldable pub count_page : String → ℕ → Db → Bool × Db
  count_page k limit d = let (count, d') = r.incr k d in (leb limit count, r.expire k timeout d')

  -- RFDomainMaxPageFilter.request_page_limit_reached
  unfoldable pub domain_limit_reached : Request → Db → Bool × Db
  domain_limit_reached req d =
      let k = page_key req in
      let d' = ensure_count k d in
      if leb req.meta.domain_max_pages (page_count k d')
      then (true, r.expire k timeout d')
      else count_page k req.meta.domain_max_pages d'

  -- RFGlobalPagePerDomainFilter.request_page_limit_reached
  unfoldable pub global_limit_reached : ℕ → Request → Db → Bool × Db
  global_limit_reached page_limit req d =
      let k = page_key req in
      let d' = ensure_count k d in
      if leb page_limit (page_count k d') then (true, d') else count_page k page_limit d'
