-- ===== src/Spider.antt =====
-- How a crawl goes deeper: `LinkSpider.parse` (crawler/crawling/spiders/link_spider.py), whose
-- requests get the meta data of the response by `MetaPassthroughMiddleware.process_spider_output`
-- (crawler/crawling/meta_passthrough_middleware.py). The links of a page are Scrapy's.
pub mod Depth
pub mod Pages
pub mod Wandering
mod Tests
use scrapy_cluster.Prelude.{
  ℕ, ◌+◌, String, Bool, true, false, Option, none, some, List, [], ◌∷◌, str_eq, leb, if◌then◌else◌,
}
use scrapy_cluster.Prelude.Int.{ℤ, pos, ◌-ℤ◌}
use scrapy_cluster.Text.{single}
use scrapy_cluster.Crawl.{Meta, Request}

-- link.url.replace('\n', '')
abbrev pub drop_newlines : String → String
drop_newlines String.[] = ""
drop_newlines (String.◌∷◌ c s) =
    let rest = drop_newlines s in if str_eq (single c) "\n" then rest else String.◌∷◌ c rest

-- The meta data that the spider sets itself.
pub record Own : Type 0 where
  pub priority : ℤ
  pub curdepth : ℕ

-- process_spider_output: what the spider has not set is the response's
unfoldable pub pass_meta : Meta → Own → Meta
pass_meta meta own = record meta { priority = own.priority; curdepth = some own.curdepth }

-- cur_depth of parse
abbrev pub depth_of : Meta → ℕ
depth_of meta = elim meta.curdepth [ none ↦ 0 | some n ↦ n ]

-- one link of parse; none is the KeyError of a response without a depth
unfoldable pub follow_link : Meta → String → Option Request
follow_link meta url = elim meta.curdepth [
  | none ↦ none
  | some n ↦ some (record {
    url = drop_newlines url;
    dont_filter = false;
    meta = pass_meta meta (record { priority = meta.priority -ℤ pos 10; curdepth = n + 1 });
  })
]

unfoldable pub follow_links : Meta → List String → Option (List Request)
follow_links meta [] = some []
follow_links meta (url ∷ urls) = elim (follow_link meta url) [
  | none ↦ none
  | some req ↦ elim (follow_links meta urls) [ none ↦ none | some reqs ↦ some (req ∷ reqs) ]
]

-- the requests of parse
unfoldable pub parse : Meta → List String → Option (List Request)
parse meta links = if leb meta.maxdepth (depth_of meta) then some [] else follow_links meta links
