-- ===== src/Statistics/Keys.antt =====
-- The keys of the rolling windows that the monitors set up (_setup_stats_total and
-- _setup_stats_plugins of redis-monitor/redis_monitor.py and kafka-monitor/kafka_monitor.py).
use Prim.Native.String.{◌++◌}
use scrapy_cluster.Prelude.{
  ℕ, ◌/◌, String, ◌≡◌, refl, sym, subst, inl, inr, Option, none, some, List, [], ◌∷◌, All, ◌==◌,
  ==_iff, Bool-cases, Option-cases,
}
use scrapy_cluster.Redis.{Redis}
use scrapy_cluster.Throttle.{second}
use scrapy_cluster.Counters.{Threaded, init, set_key}
use scrapy_cluster.Counters.Factory.{seconds_of, setup, get_rolling_time_window}
use scrapy_cluster.Statistics.Queues.{and_then}
use scrapy_cluster.Statistics.Groups.{put_window, window_of, add_windows}

module _ (date : ℕ → String) (r : Redis) (now : ℕ) where
  abbrev pub window_key : String → ℕ → String
  window_key prefix w = prefix ++ (":" ++ r.number (w / second))

  -- a rolling window at the key of its length
  abbrev pub Keyed : String → ℕ × Threaded → Type 0
  Keyed prefix e = (e.1.key ≡ window_key prefix e.0) × (e.1.final_key ≡ window_key prefix e.0)

  put_window-Keyed :
      (prefix : String) (w : ℕ) (c : Threaded) (l : List (ℕ × Threaded))
      → Keyed prefix (w, c)
      → All (Keyed prefix) l
      → All (Keyed prefix) (put_window w c l)
  put_window-Keyed prefix w c [] k h = (k, tt)
  put_window-Keyed prefix w c ((v, b) ∷ l) k h = elim (Bool-cases (v == w)) [
    | inl same ↦ rw same (subst (λ u. Keyed prefix (u, c)) (sym ((==_iff v w).0 same)) k, h.1)
    | inr other ↦ rw other (h.0, put_window-Keyed prefix w c l k h.1)
  ]

  abbrev pub KeyedFound : String → Option (ℕ × Threaded) → Type 0
  KeyedFound prefix none = Unit
  KeyedFound prefix (some e) = Keyed prefix e

  and_then-Keyed :
      (prefix : String) (o : Option ℕ) (f : ℕ → Option (ℕ × Threaded))
      → ((w : ℕ) → KeyedFound prefix (f w))
      → KeyedFound prefix (and_then o f)
  and_then-Keyed prefix none f h = tt
  and_then-Keyed prefix (some w) f h = h w

  window_of-Keyed : (prefix item : String) → KeyedFound prefix (window_of date r now prefix item)
  unfolding window_of get_rolling_time_window setup init set_key
  window_of-Keyed prefix item = and_then-Keyed prefix (seconds_of item) _ (λ w. (refl, refl))

  pub add_windows-Keyed :
      (prefix : String) (items : List String) (l : List (ℕ × Threaded))
      → All (Keyed prefix) l
      → All (Keyed prefix) (add_windows date r now prefix items l)
  unfolding add_windows
  add_windows-Keyed prefix [] l h = h
  add_windows-Keyed prefix (item ∷ items) l h =
      elim (Option-cases (window_of date r now prefix item)) [
        | inl missing ↦ rw (missing, add_windows) (add_windows-Keyed prefix items l h)
        | inr (e, found) ↦
            rw (found, add_windows)
              (add_windows-Keyed prefix items (put_window e.0 e.1 l) (
                put_window-Keyed prefix e.0 e.1 l
                  (subst (KeyedFound prefix) found (window_of-Keyed prefix item)) h))
      ]
