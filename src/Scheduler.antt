-- ===== src/Scheduler.antt =====
-- `DistributedScheduler` (crawler/crawling/distributed_scheduler.py): the state that it keeps, its
-- configuration from Zookeeper and its table of throttled queues. Times are whole microseconds.
pub mod Config
pub mod Queues
pub mod Requests
pub mod Headers
pub mod Serving
pub mod Find
pub mod Enqueue
pub mod Reverting
mod Tests
use scrapy_cluster.Prelude.{
  ℕ, ◌+◌, ◌*◌, ◌/◌, String, Bool, true, false, Option, none, some, List, [], ◌∷◌, Dict, leb,
  if◌then◌else◌,
}
use scrapy_cluster.Prelude.Int.{ℤ, pos, leb_ℤ, pos_part}
use scrapy_cluster.Throttle.{Throttle}
use Prim.Native.String.{◌++◌}

pub record Settings : Type 0 where
  -- self.spider.name
  pub spider : String
  pub persist : Bool
  pub update_interval : ℕ
  pub ip_update_interval : ℕ
  pub queue_timeout : ℕ
  pub hits : ℕ
  pub window : ℕ
  pub moderated : Bool
  pub add_type : Bool
  pub add_ip : Bool
  pub item_retries : ℕ
  pub backlog_blacklist : Bool
  -- in seconds; a limit of None is 0, which is as false
  pub rfp_timeout : ℕ
  pub domain_max_page_timeout : ℕ
  pub global_page_limit : ℕ
  pub global_page_timeout : ℕ

-- num / den, any number that a configuration gives
pub record Scale : Type 0 where
  pub num : ℤ
  pub den : ℕ

-- an entry of the loaded configuration, and one that has its window and hits
pub record Entry : Type 0 where
  pub window : Option ℕ
  pub hits : Option ℕ
  pub scale : Option Scale

pub record Limits : Type 0 where
  pub window : ℕ
  pub hits : ℕ
  pub scale : Option Scale

-- what yaml.safe_load gives
pub record Loaded : Type 0 where
  pub domains : Option (Dict Entry)
  pub blacklist : Option (List String)

-- [queue, time]
pub record Slot : Type 0 where
  pub throttle : Throttle
  pub used : ℕ

pub record Scheduler : Type 0 where
  pub queue_dict : Dict Slot
  pub queue_keys : List String
  pub domain_config : Dict Limits
  pub black_domains : List String
  pub config_flag : Bool
  pub update_time : ℕ
  pub update_ip_time : ℕ
  pub my_ip : String

-- fit_scale
unfoldable pub fit_scale : Scale → Scale
fit_scale s =
    if leb_ℤ (pos s.den) s.num
    then record { num = pos 1; den = 1 }
    else if leb_ℤ s.num (pos 0)
    then record { num = pos 0; den = 1 }
    else s

-- int(hits * scale), or the hits where there is no scale
unfoldable pub scaled_hits : ℕ → Option Scale → ℕ
scaled_hits hits none = hits
scaled_hits hits (some s) = let fit = fit_scale s in hits * pos_part fit.num / fit.den

abbrev pub queue_key : String → String → String
queue_key spider domain = spider ++ (":" ++ (domain ++ ":queue"))
