-- ===== src/Filters/Tests.antt =====
-- Concrete instances of the scheduler's filters (crawler/crawling).
use Prim.Native.Nat.{min}
use scrapy_cluster.Prelude.{
  ◌-◌, ◌≡◌, refl, true, false, none, List, [], ◌∷◌, arith, length, inr, String,
}
use scrapy_cluster.Prelude.Int.{pos}
use scrapy_cluster.Redis.Memory.{memory, empty}
use scrapy_cluster.Crawl.{Request, Web}
use scrapy_cluster.Filters.{domain_limit_reached}
use scrapy_cluster.Filters.Seen.{Remembers, ask_all, verdicts, ask_all-verdicts, seen_before}
use scrapy_cluster.Filters.Pages.{passes, passes-domain_limit_reached}

abbrev one_site : Web
one_site = record { domain = λ url. "example"; suffix = λ url. "com"; fingerprint = λ req. req.url }

abbrev asked : String → String → Request
asked url crawlid = record {
  url = url;
  dont_filter = false;
  meta = record {
    appid = "app";
    crawlid = crawlid;
    spiderid = "link";
    priority = pos 1;
    expires = 0;
    domain_max_pages = 3;
    retry_times = none;
    curdepth = none;
    maxdepth = 0;
  };
}

abbrev requests : List Request
requests = asked "/a" "one" ∷ asked "/a" "two" ∷ asked "/a" "one" ∷ []

abbrev pages : List Request
pages = asked "/a" "one" ∷ asked "/b" "one" ∷ asked "/c" "one" ∷ asked "/d" "one" ∷ []

empty-Remembers :
    (crawlid : String) → Remembers memory one_site "link:dupefilter" 60 [] empty crawlid
unfolding seen_before
empty-Remembers crawlid = record { members = []; stored = refl; exact = λ f. refl }

ask_all-verdicts_example :
    ask_all memory one_site "link:dupefilter" 60 requests empty ≡ verdicts one_site [] requests
ask_all-verdicts_example =
    ask_all-verdicts memory one_site "link:dupefilter" 60 requests [] empty (omega arith)
      empty-Remembers

verdicts_run : verdicts one_site [] requests ≡ false ∷ false ∷ true ∷ []
unfolding verdicts seen_before
verdicts_run = refl

passes-domain_limit_reached_example :
    passes (domain_limit_reached memory one_site "link:domain" 60) pages empty
    ≡ min (length pages) (3 - 1 - 0)
passes-domain_limit_reached_example =
    passes-domain_limit_reached memory one_site "link:domain" 60 (omega arith)
      "link:domain:example.com:one" 3 pages 0 empty
      ((refl, refl), ((refl, refl), ((refl, refl), ((refl, refl), tt)))) (inr (refl, refl))
