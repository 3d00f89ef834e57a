-- ===== src/Loop/Dumps.antt =====
-- How often the monitors dump their statistics (redis-monitor/redis_monitor.py and
-- kafka-monitor/kafka_monitor.py: _main_loop).
use scrapy_cluster.Prelude.{
  ℕ, ◌+◌, ◌/◌, ◌≤◌, ◌<◌, ◌≡◌, refl, ap, subst, ◌∙◌, Bool, true, false, ◌||◌, inl, inr, List, [],
  ◌∷◌, arith, ◌==◌, ==_iff, Bool-cases, if◌then◌else◌,
}
use scrapy_cluster.Loop.{Dump, stats, crawl, queue, DumpSettings, dump_round, stamp_all, main_loop}

module _ (cfg : DumpSettings) (on : 0 < cfg.stats_dump) where
  abbrev pub period : ℕ → ℕ
  period now = now / cfg.stats_dump

  -- the number of statistics dumps in a period
  abbrev pub dumped_in : ℕ → List (ℕ × Dump) → ℕ
  dumped_in q [] = 0
  dumped_in q ((now, stats) ∷ l) = (if period now == q then 1 else 0) + dumped_in q l
  dumped_in q ((now, crawl) ∷ l) = dumped_in q l
  dumped_in q ((now, queue) ∷ l) = dumped_in q l

  -- a round takes place in the period
  abbrev pub has_round : ℕ → List ℕ → Bool
  has_round q [] = false
  has_round q (now ∷ times) = period now == q || has_round q times

  -- the clock does not go back behind the period
  abbrev pub IsOrdered : ℕ → List ℕ → Type 0
  IsOrdered p [] = Unit
  IsOrdered p (now ∷ times) = (p ≤ period now) × IsOrdered (period now) times

  no_round : (q p : ℕ) (times : List ℕ) → q < p → IsOrdered p times → has_round q times ≡ false
  no_round q p [] less h = refl
  no_round q p (now ∷ times) less h =
      ground (arith, h.0, no_round q (period now) times (omega (arith, h.0)) h.1)

  same_round : (now old : ℕ) → (period now == old) ≡ true → dump_round cfg now old ≡ ([], old)
  unfolding dump_round
  same_round now old h = ground (arith, h)

  new_round :
      (q now old : ℕ) (later : ℕ → List (ℕ × Dump))
      → (period now == old) ≡ false
      → dumped_in q (stamp_all now (dump_round cfg now old).0 (later (dump_round cfg now old).1))
        ≡ (if period now == q then 1 else 0) + dumped_in q (later (period now))
  unfolding dump_round
  new_round q now old later h = ground (arith, on, h)

  -- With dumps on and a clock that does not go back, the rounds dump the statistics exactly once in
  -- each period that has a round, other than the period before the first round.
  pub main_loop-dumped_in :
      (q old : ℕ) (times : List ℕ)
      → IsOrdered old times
      → dumped_in q (main_loop cfg old times)
        ≡ (if q == old then 0 else if has_round q times then 1 else 0)
  unfolding main_loop
  main_loop-dumped_in q old [] h = ground arith
  main_loop-dumped_in q old (now ∷ times) h = elim (Bool-cases (period now == old)) [
    | inl same ↦
        let stays : period now ≡ old = (==_iff (period now) old).0 same in
        let rest = main_loop-dumped_in q old times (subst (λ p. IsOrdered p times) stays h.1) in
        ap (λ (m : List Dump × ℕ). dumped_in q (stamp_all now m.0 (main_loop cfg m.1 times)))
          (same_round now old same)
        ∙ ground (arith, rest, stays)
    | inr new ↦
        let rest = main_loop-dumped_in q (period now) times h.1 in
        new_round q now old (λ o. main_loop cfg o times) new ∙ (elim (Bool-cases (q == old)) [
          | inl first ↦
              ground (arith, rest, h.0, no_round q (period now) times (ground (arith, h.0)) h.1)
          | inr other ↦ ground (arith, rest)
        ])
  ]
