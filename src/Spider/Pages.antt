-- ===== src/Spider/Pages.antt =====
-- The items that both spiders make of a page (crawler/crawling/spiders/link_spider.py and
-- wandering_spider.py) with reconstruct_headers of redis_spider.py. Attributes have values in V.
use scrapy_cluster.Prelude.{ℕ, String, Option, none, some, List, [], ◌∷◌, leb, Dict, if◌then◌else◌}
use scrapy_cluster.Crawl.{Meta, Request}
use scrapy_cluster.Spider.{drop_newlines, depth_of, parse}

-- what the spiders read of a response, its request and its meta data
pub record Response (V : Type 0) : Type 0 where
  pub meta : Meta
  pub step : Option ℕ
  pub attrs : Option (Dict V)
  pub useragent : Option String
  pub request_url : String
  pub url : String
  pub status : ℕ
  pub headers : Dict (List String)
  pub request_headers : Dict (List String)
  pub body : String
  pub encoding : String

-- the URL and the text of a link of the page
pub record Link : Type 0 where
  pub url : String
  pub text : String

-- RawResponseItem, without the fields that the pipeline adds
pub record RawResponseItem (V : Type 0) : Type 0 where
  pub appid : String
  pub crawlid : String
  pub attrs : Option (Dict V)
  pub url : String
  pub response_url : String
  pub status_code : ℕ
  pub status_msg : String
  pub response_headers : Dict (List String)
  pub request_headers : Dict (List String)
  pub body : String
  pub encoding : String
  pub links : List Link

-- the loop over `getlist(key)`
abbrev pub copy_items : List String → List String
copy_items [] = []
copy_items (item ∷ items) = item ∷ copy_items items

-- reconstruct_headers
unfoldable pub reconstruct_headers : Dict (List String) → Dict (List String)
reconstruct_headers [] = []
reconstruct_headers ((key, items) ∷ headers) = (key, copy_items items) ∷ reconstruct_headers headers

abbrev pub urls_of : List Link → List String
urls_of [] = []
urls_of (link ∷ links) = link.url ∷ urls_of links

abbrev pub found_links : List Link → List Link
found_links [] = []
found_links (link ∷ links) = record link { url = drop_newlines link.url } ∷ found_links links

module _ {V : Type 0} where
  -- the item before its links
  unfoldable pub item_of : Response V → RawResponseItem V
  item_of x = record {
    appid = x.meta.appid;
    crawlid = x.meta.crawlid;
    attrs = x.attrs;
    url = x.request_url;
    response_url = x.url;
    status_code = x.status;
    status_msg = "OK";
    response_headers = reconstruct_headers x.headers;
    request_headers = x.request_headers;
    body = x.body;
    encoding = x.encoding;
    links = [];
  }

  -- the User-Agent header of each request of a page
  abbrev pub user_agent : Response V → Dict (List String)
  user_agent x = elim x.useragent [ none ↦ [] | some agent ↦ ("User-Agent", agent ∷ []) ∷ [] ]

  abbrev pub with_headers : Response V → List Request → List (Request × Dict (List String))
  with_headers x [] = []
  with_headers x (req ∷ reqs) = (req, user_agent x) ∷ with_headers x reqs

  -- LinkSpider.parse: the requests with their headers, and the item
  unfoldable pub parse_page :
      Response V → List Link → Option (List (Request × Dict (List String)) × RawResponseItem V)
  parse_page x links = elim (parse x.meta (urls_of links)) [
    | none ↦ none
    | some reqs ↦ some (
      with_headers x reqs,
      if leb x.meta.maxdepth (depth_of x.meta)
          then item_of x
          else record (item_of x) { links = found_links links },
    )
  ]
