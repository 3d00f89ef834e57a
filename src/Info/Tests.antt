-- ===== src/Info/Tests.antt =====
-- Runs of the info plugin at concrete inputs.
use scrapy_cluster.Prelude.{
  String, ◌≡◌, refl, Option, none, some, List, [], ◌∷◌, str_eq, if◌then◌else◌,
}
use scrapy_cluster.Prelude.Int.{ℤ, pos, negsuc}
use scrapy_cluster.Redis.Memory.{memory, empty}
use scrapy_cluster.Statistics.Queues.{and_then}
use scrapy_cluster.Info.{
  Item, feed, request, Fields, build_appid_info, build_crawlid_info, crawl_expires,
}
use scrapy_cluster.Info.Agreeing.{of_crawl, build_crawlid_info-of_crawl}
use scrapy_cluster.Info.Totals.{Kept, IsSummed, build_appid_info-IsSummed}
use scrapy_cluster.Info.Pending.{queued_in, IsPending, build_crawlid_info-IsPending}

abbrev fields : String → ℤ → Fields
fields crawlid priority = record {
  appid = "app";
  crawlid = crawlid;
  priority = priority;
  expires = none;
}

abbrev loads : String → Option Item
loads s =
    if str_eq s "x" then some (feed (fields "c" (pos 5))) else some (request (fields "e" (pos 7)))

abbrev db : memory.Db
db = memory.put "timeout:link:app:c" "99" (
    memory.zadd "link:a.com:queue" (negsuc 4) "x"
      (memory.zadd "link:a.com:queue" (negsuc 6) "y" empty))

abbrev queues : List String
queues = "link:a.com:queue" ∷ []

build_crawlid_info-of_crawl_example :
    build_crawlid_info memory loads db "link" "app" "c" queues
    ≡ and_then
        (build_appid_info memory loads db "app" queues)
        (λ m. some (of_crawl (crawl_expires memory loads db "link" "app" "c") "c" m))
build_crawlid_info-of_crawl_example =
    build_crawlid_info-of_crawl memory loads db "link" "app" "c" queues

-- the expiry that is reported
expires_run : crawl_expires memory loads db "link" "app" "c" ≡ some "99"
unfolding crawl_expires
expires_run = refl

build_appid_info-IsSummed_example : Kept IsSummed (build_appid_info memory loads db "app" queues)
build_appid_info-IsSummed_example = build_appid_info-IsSummed memory loads db "app" queues

build_crawlid_info-IsPending_example :
    IsPending "app" "c" memory loads db
      (queued_in "app" "c" memory loads db queues)
      (build_crawlid_info memory loads db "link" "app" "c" queues)
build_crawlid_info-IsPending_example =
    build_crawlid_info-IsPending "app" "c" memory loads db "link" queues
