-- ===== src/Statistics/Tests.antt =====
-- Runs of the statistics at concrete inputs.
use scrapy_cluster.Prelude.{ℕ, ◌+◌, String, ◌≡◌, refl, ◌*◌, false, none, some, List, [], ◌∷◌}
use Prim.Native.String.{◌++◌}
use scrapy_cluster.Prelude.Int.{pos}
use scrapy_cluster.Redis.Memory.{memory, empty}
use scrapy_cluster.Throttle.{second}
use scrapy_cluster.Counters.{window_start, init, set_key}
use scrapy_cluster.Counters.Factory.{setup, seconds_of, get_rolling_time_window}
use scrapy_cluster.Statistics.Queues.{
  no_queues, get_queue_stats, Balanced, backlog_of, get_queue_stats-Balanced,
}
use scrapy_cluster.Statistics.Machines.{CellIs, tally, get_machine_stats, get_machine_stats-CellIs}
use scrapy_cluster.Statistics.Groups.{window_of, add_windows}

abbrev queues : List String
queues = "link:a.com:queue" ∷ "link:b.com:queue" ∷ []

abbrev db : memory.Db
db = memory.zadd "link:a.com:queue" (pos 1) "x" empty

get_queue_stats-Balanced_example :
    Balanced memory db
      (0 + backlog_of memory db queues)
      (get_queue_stats memory db queues no_queues)
get_queue_stats-Balanced_example = get_queue_stats-Balanced memory db queues no_queues refl

abbrev machines : List String
machines = "stats:crawler:host:link:200:900" ∷ "stats:crawler:host:wandering:200:900" ∷ []

get_machine_stats-CellIs_example :
    CellIs memory db "host" "200" "900"
      (tally memory db "host" "200" "900" machines none)
      (get_machine_stats memory db machines [])
get_machine_stats-CellIs_example = get_machine_stats-CellIs memory db "host" "200" "900" machines []

abbrev first : String → String
first String.[] = ""
first (String.◌∷◌ c s) = String.◌∷◌ c String.[]

abbrev date : ℕ → String
date n = "d"

abbrev minutes : List String
minutes = "SECONDS_1_MINUTE" ∷ "SECONDS_OF_NO_TIME" ∷ []

-- the windows that these set-ups have: the item that is no attribute is passed over
windows_run :
    add_windows date memory 100 "stats:x" minutes []
    ≡ (
      60 * second,
      record {
        key = "stats:x" ++ (":" ++ memory.number 60);
        start_time = 0;
        window = some (60 * second);
        roll = false;
        keep_max = none;
        final_key = "stats:x" ++ (":" ++ memory.number 60);
      },
    )
      ∷ []
unfolding window_of add_windows get_rolling_time_window setup init set_key seconds_of window_start
windows_run = refl
