-- ===== src/Retry.antt =====
-- `RedisRetryMiddleware._retry` (crawler/crawling/redis_retry_middleware.py): a failed request is
-- given back to the scheduler with a lower priority.
mod Tests
use scrapy_cluster.Prelude.{
  ℕ, zero, suc, ◌+◌, ◌*◌, ◌≤◌, ◌<◌, String, ◌≡◌, refl, ap, sym, ◌∙◌, Bool, true, false, Option,
  none, some, arith, leb, leb→le, is_some, Bool-cases, inl, inr, if◌then◌else◌,
}
use scrapy_cluster.Prelude.Int.{ℤ, pos, ◌-ℤ◌, pos_part, neg_part, int_laws, -ℤ_parts, eq_of_parts}
use scrapy_cluster.Crawl.{Meta, Request}

-- request.meta.get('retry_times', 0)
abbrev pub retry_times : Request → ℕ
retry_times req = elim req.meta.retry_times [ none ↦ 0 | some n ↦ n ]

-- _retry; none gives the request up
unfoldable pub retry : ℕ → Request → Option Request
retry max_retry_times req =
    if leb (retry_times req + 1) max_retry_times
    then some (record {
      url = req.url;
      dont_filter = true;
      meta = record req.meta {
        retry_times = some (retry_times req + 1);
        priority = req.meta.priority -ℤ pos 10;
      };
    })
    else none

-- A request that fails so many times, one after the other.
unfoldable pub retried : ℕ → ℕ → Request → Option Request
retried max_retry_times zero req = some req
retried max_retry_times (suc n) req = elim (retry max_retry_times req) [
  | none ↦ none
  | some req' ↦ retried max_retry_times n req'
]

sum_lem : (a b : ℕ) → a + 1 + b ≡ a + suc b
sum_lem a b = omega arith

-- the request that `retry` gives
abbrev lowered : Request → Request
lowered req = record {
  url = req.url;
  dont_filter = true;
  meta = record req.meta {
    retry_times = some (retry_times req + 1);
    priority = req.meta.priority -ℤ pos 10;
  };
}

retry_more :
    (max : ℕ) (req : Request)
    → leb (retry_times req + 1) max ≡ true
    → retry max req ≡ some (lowered req)
unfolding retry
retry_more max req more = ap (λ b. if b then some (lowered req) else none) more

retry_less :
    (max : ℕ) (req : Request) → leb (retry_times req + 1) max ≡ false → retry max req ≡ none
unfolding retry
retry_less max req less = ap (λ b. if b then some (lowered req) else none) less

-- A request that has not been retried more often than is allowed survives `n` more failures exactly
-- if the sum of both is still allowed: then it is given up.
pub is_some-retried :
    (max n : ℕ) (req : Request)
    → retry_times req ≤ max
    → is_some (retried max n req) ≡ leb (retry_times req + n) max
unfolding retried
is_some-retried max zero req le = ground arith
is_some-retried max (suc n) req le = elim (Bool-cases (leb (retry_times req + 1) max)) [
  | inl more ↦
      rw (retried, retry_more max req more)
        (is_some-retried max n (lowered req) (leb→le _ _ more)
          ∙ ap (λ k. leb k max) (sum_lem (retry_times req) n))
  | inr less ↦ rw (retried, retry_less max req less) (ground arith)
]

minus_zero : (a : ℤ) → a ≡ a -ℤ pos 0
minus_zero a = eq_of_parts a (a -ℤ pos 0) (omega (arith, -ℤ_parts a (pos 0)))

minus_both : (a : ℤ) (n : ℕ) → (a -ℤ pos 10) -ℤ pos (10 * n) ≡ a -ℤ pos (10 * suc n)
minus_both a n = eq_of_parts _ _ (
    omega (
      arith,
      -ℤ_parts (a -ℤ pos 10) (pos (10 * n)),
      -ℤ_parts a (pos 10),
      -ℤ_parts a (pos (10 * suc n)),
    ))

-- After `n` failures a request that is not given up has its priority lowered by ten for each of
-- them, and the crawl that it had.
pub retried_priority :
    (max n : ℕ) (req r : Request)
    → retried max n req ≡ some r
    → (r.meta.priority ≡ req.meta.priority -ℤ pos (10 * n)) × (r.meta.crawlid ≡ req.meta.crawlid)
unfolding retried
retried_priority max zero req r h =
    let same : req ≡ r = cc h in
    (
      ap (λ x. x.meta.priority) (sym same) ∙ minus_zero req.meta.priority,
      ap (λ x. x.meta.crawlid) (sym same),
    )
retried_priority max (suc n) req r h = elim (Bool-cases (leb (retry_times req + 1) max)) [
  | inl more ↦
      let step : retried max (suc n) req ≡ retried max n (lowered req) =
        rw (retried, retry_more max req more) refl in
      let rest = retried_priority max n (lowered req) r (sym step ∙ h) in
      (rest.0 ∙ minus_both req.meta.priority n, rest.1)
  | inr less ↦
      let gone : retried max (suc n) req ≡ none = rw (retried, retry_less max req less) refl in
      cc (gone, h)
]
