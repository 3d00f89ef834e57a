-- ===== src/Watcher/Tests.antt =====
-- Concrete instances of the Zookeeper watcher (utils/scutils/zookeeper_watcher.py).
use scrapy_cluster.Prelude.{◌≡◌, refl, inl, true, false, none, some, List, [], ◌∷◌, arith, eq_iff}
use scrapy_cluster.Watcher.{Watcher, fresh, lost, update_pointed, follow, suspended}
use scrapy_cluster.Watcher.Stuck.{follow_again}
use scrapy_cluster.Watcher.Following.{Event, file_changed, state_changed, IsTold, run, run-IsTold}

abbrev events : List Event
events =
    file_changed (λ path. some "one") []
    ∷ state_changed suspended []
    ∷ state_changed lost ((λ path. none) ∷ (λ path. some "two") ∷ [])
    ∷ []

run-IsTold_example : IsTold (run "/file" events (fresh false))
run-IsTold_example = run-IsTold "/file" events (fresh false) (inl refl)

abbrev following : Watcher
following = record (fresh true) { old_pointed = "/other"; point_path = "/other" }

follow_again_example :
    ((follow "/other" (λ path. some "now") (update_pointed none following)).valid_file ≡ false)
    × ((follow "/other" (λ path. some "now") (update_pointed none following)).notices
        ≡ (update_pointed none following).notices)
follow_again_example =
    follow_again "/other" (λ path. some "now") following (ground (arith, eq_iff "/other" "")) refl
      refl
