-- ===== src/Retry/Tests.antt =====
-- Concrete instances of the retries (crawler/crawling/redis_retry_middleware.py).
use scrapy_cluster.Prelude.{◌≡◌, refl, true, false, none, some}
use scrapy_cluster.Prelude.Int.{pos, ◌-ℤ◌}
use scrapy_cluster.Crawl.{Request}
use scrapy_cluster.Retry.{retry, retried}

abbrev failing : Request
failing = record {
  url = "/a";
  dont_filter = false;
  meta = record {
    appid = "app";
    crawlid = "one";
    spiderid = "link";
    priority = pos 50;
    expires = 0;
    domain_max_pages = 0;
    retry_times = none;
    curdepth = none;
    maxdepth = 0;
  };
}

abbrev once : Request
once = record {
  url = "/a";
  dont_filter = true;
  meta = record failing.meta { retry_times = some 1; priority = pos 40 };
}

once_run : retried 2 1 failing ≡ some once
unfolding retried retry ◌-ℤ◌
once_run = refl
