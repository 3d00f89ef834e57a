-- ===== src/Crawl.antt =====
-- The requests that the crawler passes round (crawler/crawling): the fields of `meta` that its
-- scheduler and filters read, and what tldextract and Scrapy give for a request.
use scrapy_cluster.Prelude.{ℕ, String, Bool, Option}
use scrapy_cluster.Prelude.Int.{ℤ}
use Prim.Native.String.{◌++◌}

pub record Meta : Type 0 where
  pub appid : String
  pub crawlid : String
  pub spiderid : String
  pub priority : ℤ
  pub expires : ℕ
  -- 0 where there is no limit
  pub domain_max_pages : ℕ
  pub retry_times : Option ℕ
  pub curdepth : Option ℕ
  pub maxdepth : ℕ

pub record Request : Type 0 where
  pub url : String
  pub dont_filter : Bool
  pub meta : Meta

-- tldextract's domain and suffix of a URL, and Scrapy's fingerprint of a request
pub record Web : Type 0 where
  pub domain : String → String
  pub suffix : String → String
  pub fingerprint : Request → String

-- "{d}.{s}".format(d=ex_res.domain, s=ex_res.suffix)
abbrev pub domain_of : Web → Request → String
domain_of web req = web.domain req.url ++ "." ++ web.suffix req.url
