-- ===== src/Counters/Rolling.antt =====
-- `RollingTimeWindow` (utils/scutils/stats_collector.py): what its value is.
use scrapy_cluster.Prelude.{
  ℕ, ◌<◌, String, ◌≡◌, refl, ap, ◌∙◌, false, some, List, [], ◌∷◌, ◌++◌, arith, str_eq, eq_iff,
  length, length-append, All, All-append, Bool-cases, inl, inr,
}
use scrapy_cluster.Prelude.Int.{ℤ, pos, sub_ℕ, leb_ℤ}
use scrapy_cluster.Redis.{Redis}
use scrapy_cluster.Redis.Values.{Ranked, as_zset, ranks_before, add, above}
use scrapy_cluster.Throttle.Clock.{TimeText, show_inj}
use scrapy_cluster.Throttle.Hits.{recent, Falls}
use scrapy_cluster.Counters.{Threaded, rolling_increment, rolling_value, rolling_expire}

-- Every member has another name and does not rank after the new one.
abbrev Before : String → ℤ → String × ℤ → Type 0
Before m s x = (str_eq x.0 m ≡ false) × (ranks_before m s x.0 x.1 ≡ false)

add_last : (m : String) (s : ℤ) (l : Ranked) → All (Before m s) l → add m s l ≡ l ++ ((m, s) ∷ [])
add_last m s [] before = refl
add_last m s ((n, t) ∷ l) before =
    rw (before.0.0) (rw (before.0.1) (ap (λ x. (n, t) ∷ x) (add_last m s l (before.1))))

above-append : (b : ℤ) (l m : Ranked) → above b (l ++ m) ≡ above b l ++ above b m
above-append b [] m = refl
above-append b ((n, t) ∷ l) m = elim (Bool-cases (leb_ℤ t b)) [
  | inl old ↦ rw old (above-append b l m)
  | inr new ↦ rw new (ap (λ x. (n, t) ∷ x) (above-append b l m))
]

module _ (c : TimeText) where
  -- the members of the set after hits at these times, the last first
  abbrev entries : List ℕ → Ranked
  entries [] = []
  entries (t ∷ earlier) = entries earlier ++ ((c.show t, pos t) ∷ [])

  Before-later : (now t : ℕ) → t < now → Before (c.show now) (pos now) (c.show t, pos t)
  Before-later now t earlier =
      (grind (arith, eq_iff (c.show t) (c.show now), show_inj c t now), ground arith)

  entries-Before :
      (now : ℕ) (earlier : List ℕ)
      → Falls now earlier
      → All (Before (c.show now) (pos now)) (entries earlier)
  entries-Before now [] falls = tt
  entries-Before now (t ∷ earlier) falls =
      All-append (Before (c.show now) (pos now)) (entries earlier) _
        (entries-Before now earlier (falls_below now t earlier (falls.0) (falls.1)))
        (Before-later now t (falls.0), tt)
    where
      falls_below : (b a : ℕ) (l : List ℕ) → a < b → Falls a l → Falls b l
      falls_below b a [] less f = tt
      falls_below b a (h ∷ l) less f = (omega arith, f.1)

  length-above :
      (w now : ℕ) (hits : List ℕ)
      → length (above (sub_ℕ now w) (entries hits)) ≡ length (recent w now hits)
  length-above w now [] = refl
  length-above w now (t ∷ hits) =
      ap length (above-append (sub_ℕ now w) (entries hits) _)
      ∙ length-append (above (sub_ℕ now w) (entries hits)) _
      ∙ ground (arith, length-above w now hits)

  module _ (date : ℕ → String) (r : Redis) (q : Threaded) where
    open r use {Db}

    -- The counter after hits at these times, the last first.
    unfoldable pub hit_all : List ℕ → Db → Db
    hit_all [] d = d
    hit_all (t ∷ earlier) d = rolling_increment date r c t q (hit_all earlier d)

    hit_all_lem :
        (hits : List ℕ) (b : ℕ) (d : Db)
        → Falls b hits
        → as_zset (r.value d q.key) ≡ some []
        → as_zset (r.value (hit_all hits d) q.key) ≡ some (entries hits)
    unfolding hit_all rolling_increment
    hit_all_lem [] b d falls fresh = fresh
    hit_all_lem (t ∷ earlier) b d falls fresh =
        ap as_zset (r.zadd_lem q.key (pos t) (c.show t) _ (hit_all_lem earlier t d (falls.1) fresh))
        ∙ ap some
            (add_last (c.show t) (pos t) (entries earlier) (entries-Before t earlier (falls.1)))

    -- After any hits of an unused counter at times that rise, and the thread's round at `now`, its
    -- value is the number of the hits in the last `w`.
    pub rolling_value-recent :
        (w now : ℕ) (hits : List ℕ) (b : ℕ) (d : Db)
        → Falls b hits
        → as_zset (r.value d q.key) ≡ some []
        → rolling_value date r c q (rolling_expire date r c w now q (hit_all hits d))
          ≡ length (recent w now hits)
    unfolding rolling_value rolling_expire
    rolling_value-recent w now hits b d falls fresh =
        r.zcard_lem q.key _
          (r.zremrangebyscore_lem q.key (sub_ℕ now w) _ (hit_all_lem hits b d falls fresh))
        ∙ length-above w now hits
