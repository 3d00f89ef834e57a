-- ===== src/Spider/Tests.antt =====
-- Concrete instances of the link spider (crawler/crawling/spiders/link_spider.py).
use scrapy_cluster.Prelude.{◌+◌, ◌≤◌, ◌≡◌, refl, false, some, [], ◌∷◌, arith, leb, is_some}
use scrapy_cluster.Prelude.Int.{pos, ◌-ℤ◌}
use scrapy_cluster.Crawl.{Request}
use scrapy_cluster.Retry.{retried}
use scrapy_cluster.Spider.{parse, follow_links, follow_link, pass_meta}
use scrapy_cluster.Spider.Depth.{IsLinked, at_first, by_link, Reached-le, is_some-retried_child}

abbrev page : Request
page = record {
  url = "/";
  dont_filter = false;
  meta = record {
    appid = "app";
    crawlid = "one";
    spiderid = "link";
    priority = pos 50;
    expires = 0;
    domain_max_pages = 0;
    retry_times = some 2;
    curdepth = some 0;
    maxdepth = 1;
  };
}

abbrev found : Request
found = record {
  url = "/a";
  dont_filter = false;
  meta = record page.meta { priority = pos 40; curdepth = some 1 };
}

found-IsLinked : IsLinked page.meta found
unfolding parse follow_links follow_link pass_meta ◌-ℤ◌
found-IsLinked = record { links = "/a" ∷ []; before = []; after = []; parsed = refl }

Reached-le_example : 1 + 0 ≤ 1
Reached-le_example = Reached-le (by_link found at_first found-IsLinked) (omega arith)

is_some-retried_child_example : is_some (retried 3 2 found) ≡ leb (2 + 2) 3
is_some-retried_child_example = is_some-retried_child 3 2 page found found-IsLinked (omega arith)
