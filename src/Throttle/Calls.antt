-- ===== src/Throttle/Calls.antt =====
-- Calls of `allowed` (utils/scutils/redis_throttled_queue.py) by any number of instances, in the order
-- in which they take effect.
use scrapy_cluster.Prelude.{ℕ, Bool, true, false, List, [], ◌∷◌}
use scrapy_cluster.Redis.{Redis}
use scrapy_cluster.Throttle.{Throttle, Moment, allowed}
use scrapy_cluster.Throttle.Clock.{TimeText}

-- One call of one instance, and the log with the call's time, if it was admitted.
pub record Call : Type 0 where
  pub instance_of : Throttle
  pub moment : Moment

abbrev pub note : Bool → ℕ → List ℕ → List ℕ
note true h log = h ∷ log
note false h log = log

module _ (r : Redis) (c : TimeText) where
  open r use {Db}

  -- The calls one after the other, and the time of each admitted one (one of its readings), newest first.
  unfoldable pub admit : (Moment → ℕ) → List Call → List ℕ × Db → List ℕ × Db
  admit stamp [] s = s
  admit stamp (x ∷ calls) (log, d) =
      let (ok, d') = allowed r c x.instance_of x.moment d in
      admit stamp calls (note ok (stamp x.moment) log, d')
