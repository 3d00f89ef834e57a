-- ===== src/Loop/Tests.antt =====
-- Runs of the monitors' loops at concrete inputs.
use scrapy_cluster.Prelude.{◌≡◌, String, true, false, none, some, [], ◌∷◌, arith}
use scrapy_cluster.Loop.{DumpSettings, main_loop, load_plugins}
use scrapy_cluster.Loop.Dumps.{dumped_in, main_loop-dumped_in}
use scrapy_cluster.Loop.Plugins.{IsLoaded, load_plugins-IsLoaded}

abbrev every_minute : DumpSettings
every_minute = record { stats_dump = 60; stats_dump_crawl = true; stats_dump_queue = false }

main_loop-dumped_in_example :
    dumped_in every_minute (omega arith) 1 (main_loop every_minute 0 (10 ∷ 70 ∷ 80 ∷ 130 ∷ [])) ≡ 1
main_loop-dumped_in_example =
    main_loop-dumped_in every_minute (omega arith) 1 0 (10 ∷ 70 ∷ 80 ∷ 130 ∷ [])
      (omega arith, (omega arith, (omega arith, (omega arith, tt))))

load_plugins-IsLoaded_example :
    IsLoaded {A = String} some
      (("b", some 200) ∷ ("a", some 100) ∷ ("c", none) ∷ [])
      (load_plugins some (("b", some 200) ∷ ("a", some 100) ∷ ("c", none) ∷ []))
load_plugins-IsLoaded_example =
    load_plugins-IsLoaded {A = String} some (("b", some 200) ∷ ("a", some 100) ∷ ("c", none) ∷ [])
