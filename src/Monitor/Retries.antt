-- ===== src/Monitor/Retries.antt =====
-- How often the Redis monitor tries a key whose plugin fails (redis-monitor/redis_monitor.py).
use scrapy_cluster.Prelude.{
  ℕ, zero, suc, ◌+◌, ◌-◌, ◌≤◌, ◌<◌, String, ◌≡◌, refl, ap, sym, ◌∙◌, ◌≢◌, ◌⊎◌, inl, inr, true,
  false, Option, none, some, arith, ltb, lt→ltb, subst,
}
use scrapy_cluster.Redis.{Redis}
use scrapy_cluster.Redis.Values.{text}
use scrapy_cluster.Monitor.{
  Plugin, Stats, Retry, fail_key, combined, current_failures, process_failures, process_key_val,
  process_key,
}

ltb_same : (n : ℕ) → ltb n n ≡ false
ltb_same n = ground arith

module _ (r : Redis) (stats : Stats r) (cfg : Retry) (plugin : Plugin r) (key : String) where
  open r use {Db}

  -- A plugin that is ready for the key, fails on it and leaves the key and its count as they are.
  pub record Fails : Type 0 where
    pub ready : (val : Option String) → plugin.check_precondition key val ≡ some true
    pub raises : (val : Option String) (d : Db) → (plugin.handle key val d).0 ≡ false
    pub leaves_key :
        (val : Option String) (d : Db) → r.value (plugin.handle key val d).1 key ≡ r.value d key
    pub leaves_count :
        (val : Option String) (d : Db)
        → r.value (plugin.handle key val d).1 (fail_key key) ≡ r.value d (fail_key key)

  -- Neither key is one of the statistics', and they are different.
  pub record IsAction : Type 0 where
    pub key_own : stats.is_own key ≡ false
    pub count_own : stats.is_own (fail_key key) ≡ false
    pub key_ne : fail_key key ≢ key

  -- The count at the fail key; 0 is kept as no key at all.
  abbrev pub Failed : ℕ → Db → Type 0
  Failed n d =
      (r.value d (fail_key key) ≡ some (text (r.number n)))
      ⊎ (r.value d (fail_key key) ≡ none) × (n ≡ 0)

  current_failures_lem : (n : ℕ) (d : Db) → Failed n d → current_failures r stats cfg key d ≡ n
  unfolding current_failures
  current_failures_lem n d (inl stored) =
      rw (current_failures, r.get_some (fail_key key) d stored) (r.read_number-number n)
  current_failures_lem n d (inr (absent, zero_eq)) =
      rw (current_failures, r.get_none (fail_key key) d absent) (sym zero_eq)

  -- the state in which a failed attempt has left the database when the failure is counted
  abbrev tried : Db → Db
  tried d =
      let val = r.get key d in
      stats.fail (combined key val)
        (plugin.handle key val
          (stats.plugin plugin.name (combined key val) (stats.total (combined key val) d))).1

  process_key_fails :
      (d : Db)
      → Fails
      → process_key r stats cfg plugin true key d ≡ process_failures r stats cfg key (tried d)
  unfolding process_key process_key_val
  process_key_fails d fails =
      rw (process_key, process_key_val, fails.ready (r.get key d))
        (rw (fails.raises (r.get key d) _) refl)

  tried_key : (d : Db) → Fails → IsAction → r.value (tried d) key ≡ r.value d key
  tried_key d fails action =
      stats.fail_lem _ key _ action.key_own
      ∙ fails.leaves_key _ _
      ∙ stats.plugin_lem _ _ key _ action.key_own
      ∙ stats.total_lem _ key d action.key_own

  tried_count :
      (d : Db) → Fails → IsAction → r.value (tried d) (fail_key key) ≡ r.value d (fail_key key)
  tried_count d fails action =
      stats.fail_lem _ (fail_key key) _ action.count_own
      ∙ fails.leaves_count _ _
      ∙ stats.plugin_lem _ _ (fail_key key) _ action.count_own
      ∙ stats.total_lem _ (fail_key key) d action.count_own

  tried-Failed : (n : ℕ) (d : Db) → Fails → IsAction → Failed n d → Failed n (tried d)
  tried-Failed n d fails action (inl stored) = inl (tried_count d fails action ∙ stored)
  tried-Failed n d fails action (inr (absent, zero_eq)) =
      inr (tried_count d fails action ∙ absent, zero_eq)

  -- A failure below the limit is counted, and the key stays.
  process_failures_below :
      (n : ℕ) (d : Db)
      → IsAction
      → cfg.retry_failures ≡ true
      → n < cfg.retry_failures_max
      → Failed n d
      → (r.value (process_failures r stats cfg key d) key ≡ r.value d key)
        × Failed (n + 1) (process_failures r stats cfg key d)
  unfolding process_failures current_failures
  process_failures_below n d action retry below failed =
      rw (retry, current_failures_lem n d failed)
        (rw (lt→ltb n cfg.retry_failures_max below) (
          r.put_ne (fail_key key) key _ d action.key_ne,
          inl (r.put_lem (fail_key key) (r.number (n + 1)) d),
        ))

  -- At the limit the key is given up, with its count.
  process_failures_last :
      (d : Db)
      → IsAction
      → cfg.retry_failures ≡ true
      → Failed cfg.retry_failures_max d
      → (r.value (process_failures r stats cfg key d) key ≡ none)
        × (r.value (process_failures r stats cfg key d) (fail_key key) ≡ none)
  unfolding process_failures current_failures
  process_failures_last d action retry failed =
      rw (retry, current_failures_lem cfg.retry_failures_max d failed)
        (rw (ltb_same cfg.retry_failures_max) (
          r.delete_lem key _,
          r.delete_ne key (fail_key key) _ (λ same. action.key_ne (sym same))
              ∙ r.delete_lem (fail_key key) d,
        ))

  -- so many passes over the key, in each of which this monitor gets the lock
  unfoldable pub passes : ℕ → Db → Db
  passes zero d = d
  passes (suc k) d = process_key r stats cfg plugin true key (passes k d)

  passes_below :
      (k n : ℕ) (d : Db)
      → Fails
      → IsAction
      → cfg.retry_failures ≡ true
      → n + k ≤ cfg.retry_failures_max
      → Failed n d
      → (r.value (passes k d) key ≡ r.value d key) × Failed (n + k) (passes k d)
  unfolding passes
  passes_below zero n d fails action retry room failed =
      (refl, subst (λ m. Failed m d) (omega arith) failed)
  passes_below (suc k) n d fails action retry room failed =
      let before = passes_below k n d fails action retry (omega arith) failed in
      let once =
        process_failures_below (n + k) (tried (passes k d)) action retry (omega arith)
          (tried-Failed (n + k) (passes k d) fails action (before.1)) in
      rw (passes, process_key_fails (passes k d) fails)
        (
          once.0 ∙ tried_key (passes k d) fails action ∙ before.0,
          subst (λ m. Failed m (process_failures r stats cfg key (tried (passes k d))))
              (omega arith) (once.1),
        )

  -- With retries on, an action whose plugin always fails is kept for exactly as many passes as the
  -- limit allows: it is still there after `max - n` of them, and the next one deletes it together
  -- with its count, if `n` failures were counted before.
  pub passes_lem :
      (n : ℕ) (d : Db)
      → Fails
      → IsAction
      → cfg.retry_failures ≡ true
      → n ≤ cfg.retry_failures_max
      → Failed n d
      → (r.value (passes (cfg.retry_failures_max - n) d) key ≡ r.value d key)
        × (r.value (passes (suc (cfg.retry_failures_max - n)) d) key ≡ none)
        × (r.value (passes (suc (cfg.retry_failures_max - n)) d) (fail_key key) ≡ none)
  unfolding passes
  passes_lem n d fails action retry room failed =
      let k = cfg.retry_failures_max - n in
      let before = passes_below k n d fails action retry (omega arith) failed in
      let full =
        subst (λ m. Failed m (passes k d)) {y = cfg.retry_failures_max} (omega arith) (before.1) in
      let last =
        process_failures_last (tried (passes k d)) action retry
          (tried-Failed cfg.retry_failures_max (passes k d) fails action full) in
      (
        before.0,
        ap (λ x. r.value x key) (process_key_fails (passes k d) fails) ∙ last.0,
        ap (λ x. r.value x (fail_key key)) (process_key_fails (passes k d) fails) ∙ last.1,
      )
