-- ===== src/Monitor.antt =====
-- The Redis monitor (redis-monitor/redis_monitor.py and redis-monitor/plugins): how it gives the keys
-- of a plugin to the plugin, and what it does where the plugin fails.
pub mod Kafka
pub mod Stop
pub mod Purge
pub mod Purges
pub mod Retries
pub mod Stopped
pub mod Zookeeper
pub mod Updates
mod Tests
use Prim.Native.String.{◌++◌}
use scrapy_cluster.Prelude.{
  ℕ, ◌+◌, String, ◌≡◌, Bool, true, false, Option, none, some, List, [], ◌∷◌, ltb, if◌then◌else◌,
}
use scrapy_cluster.Redis.{Redis}

-- A plugin: the tests and the handler, with false for an exception of the handler and none for one
-- of the test.
pub record Plugin (r : Redis) : Type 0 where
  pub name : String
  pub check_precondition : String → Option String → Option Bool
  pub handle : String → Option String → r.Db → Bool × r.Db

-- The increments of the statistics (scutils' stats collectors), which write keys of their own.
pub record Stats (r : Redis) : Type 0 where
  pub total : String → r.Db → r.Db
  pub plugin : String → String → r.Db → r.Db
  pub fail : String → r.Db → r.Db
  pub is_own : String → Bool
  pub total_lem : (s k : String) (d : r.Db) → is_own k ≡ false → r.value (total s d) k ≡ r.value d k
  pub plugin_lem :
      (p s k : String) (d : r.Db) → is_own k ≡ false → r.value (plugin p s d) k ≡ r.value d k
  pub fail_lem : (s k : String) (d : r.Db) → is_own k ≡ false → r.value (fail s d) k ≡ r.value d k

pub record Retry : Type 0 where
  -- RETRY_FAILURES and RETRY_FAILURES_MAX
  pub retry_failures : Bool
  pub retry_failures_max : ℕ

-- _get_fail_key
abbrev pub fail_key : String → String
fail_key key = "lock:" ++ (key ++ ":failures")

-- '{k}:{v}'.format(k=key, v=val)
abbrev pub combined : String → Option String → String
combined key none = key ++ ":None"
combined key (some val) = key ++ (":" ++ val)

module _ (r : Redis) (stats : Stats r) (cfg : Retry) where
  open r use {Db}

  -- the failure count at the fail key
  unfoldable pub current_failures : String → Db → ℕ
  current_failures key d = elim (r.get (fail_key key) d) [ none ↦ 0 | some t ↦ r.read_number t ]

  -- _process_failures
  unfoldable pub process_failures : String → Db → Db
  process_failures key d =
      if cfg.retry_failures
      then (if ltb (current_failures key d) cfg.retry_failures_max
          then r.put (fail_key key) (r.number (current_failures key d + 1)) d
          else r.delete key (r.delete (fail_key key) d))
      else d

  -- the end of _process_key_val, once the plugin has handled the key
  unfoldable pub finish : String → Db → Db
  finish key d =
      let d' = r.delete key d in
      if r.exists (fail_key key) d' then r.delete (fail_key key) d' else d'

  -- _process_key_val; false is an exception of the plugin
  unfoldable pub process_key_val : Plugin r → String → Option String → Db → Bool × Db
  process_key_val plugin key val d = elim (plugin.check_precondition key val) [
    | none ↦ (false, d)
    | some ready ↦
        if ready
        then (let counted =
              stats.plugin plugin.name (combined key val) (stats.total (combined key val) d) in
            let (ok, d') = plugin.handle key val counted in
            if ok then (true, finish key d') else (false, d'))
        else (true, d)
  ]

  -- one key of _process_plugin; the lock of redis_lock is free or is held by another monitor
  unfoldable pub process_key : Plugin r → Bool → String → Db → Db
  process_key plugin acquired key d =
      if acquired
      then (let val = r.get key d in
          let (ok, d') = process_key_val plugin key val d in
          if ok then d' else process_failures key (stats.fail (combined key val) d'))
      else d

  -- _process_plugin over the keys that the scan gives, each with its lock
  unfoldable pub process_plugin : Plugin r → List (String × Bool) → Db → Db
  process_plugin plugin [] d = d
  process_plugin plugin ((key, acquired) ∷ keys) d =
      process_plugin plugin keys (process_key plugin acquired key d)
