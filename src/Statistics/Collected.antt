-- ===== src/Statistics/Collected.antt =====
-- The stats plugin reads what the monitors count: the keys that _setup_stats_total of
-- redis-monitor/redis_monitor.py and kafka-monitor/kafka_monitor.py gives to the collectors are taken
-- apart by _get_plugin_stats of redis-monitor/plugins/stats_monitor.py as they were put together.
use Prim.Native.String.{◌++◌}
use scrapy_cluster.Prelude.{
  Dict, ℕ, Bool, if◌then◌else◌, ◌/◌, String, ◌≡◌, true, false, ◌||◌, Option, none, some, [], str_eq,
  All, lookup,
}
use scrapy_cluster.Text.{split, is_plain}
use scrapy_cluster.Redis.{Redis}
use scrapy_cluster.Throttle.{second}
use scrapy_cluster.Throttle.Clock.{TimeText}
use scrapy_cluster.Counters.{Threaded, rolling_value, hll_value}
use scrapy_cluster.Statistics.Tables.{or_new}
use scrapy_cluster.Statistics.Spiders.{get_key_value}
use scrapy_cluster.Statistics.Groups.{Group, StatsDict}
use scrapy_cluster.Statistics.Reports.{PluginStats, place_key, after_two, put_value}

-- a set-up does not raise, and this holds of its value
abbrev pub Made : {A : Type 0} → (A → Type 0) → Option A → Type 0
Made P none = ⊥
Made P (some x) = P x

-- a set-up is made where it is asked for
abbrev pub MadeIf : {A : Type 0} → Bool → (A → Type 0) → Option A → Type 0
MadeIf true P o = Made P o
MadeIf false P o = o ≡ none

module _ (date : ℕ → String) (r : Redis) (now : ℕ) where
  -- the plugin has a value at a name and an end, in the part of its report that the name belongs to
  abbrev pub is_special : String → Bool
  is_special name = str_eq name "total" || str_eq name "fail"

  abbrev pub part_of : String → PluginStats → Dict (Dict ℕ)
  part_of name s = if is_special name then s.totals else s.plugins

  -- whatever is reported already, the plugin reads this value from the key
  abbrev pub IsReadAt : String → String → String → (r.Db → ℕ) → Type 0
  IsReadAt name end key value =
      (d : r.Db) (s : PluginStats)
      → (s' : PluginStats) × (place_key (after_two (split key)) (get_key_value r d key) s ≡ some s')
        × (lookup end (or_new [] (lookup name (part_of name s'))) ≡ some (value d))

  -- a name that the plugin takes for one of a plugin, or for the totals
  abbrev pub IsName : String → Type 0
  IsName name = (is_plain name ≡ true) × (str_eq name "self" ≡ false)

  module _ (t : TimeText) (number_plain : (n : ℕ) → is_plain (r.number n) ≡ true)
      (not_lifetime : (n : ℕ) → str_eq (r.number n) "lifetime" ≡ false) where
    -- the plugin reads every window of a group and its lifetime
    abbrev pub IsReadGroup : String → Group → Type 0
    IsReadGroup name g =
        All
          (λ (e : ℕ × Threaded).
            IsReadAt name (r.number (e.0 / second)) e.1.final_key (rolling_value date r t e.1))
          g.windows
        × IsReadAt name "lifetime" g.lifetime.final_key (hll_value date r g.lifetime)

    module _ (monitor : String) (plain : is_plain monitor ≡ true) where
      abbrev prefix_of : String → String
      prefix_of name = "stats:" ++ (monitor ++ (":" ++ name))

      -- the report with the value placed
      abbrev placed : String → String → ℕ → PluginStats → PluginStats
      placed name end n s =
          if is_special name
          then record s { totals = put_value name end n s.totals }
          else record s { plugins = put_value name end n s.plugins }

    -- the collectors that are asked for are there, and the plugin reads them
    abbrev pub IsReadStats : Bool → Bool → StatsDict → Type 0
    IsReadStats total plugins s =
        MadeIf total (λ (g : Group × Group). IsReadGroup "total" g.0 × IsReadGroup "fail" g.1)
          s.totals
        × MadeIf plugins (All (λ (e : String × Group). IsReadGroup e.0 e.1)) s.plugins
