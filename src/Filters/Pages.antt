-- ===== src/Filters/Pages.antt =====
-- The two page filters (crawler/crawling/redis_domain_max_page_filter.py and
-- redis_global_page_per_domain_filter.py): how many requests they let through.
use Prim.Native.Nat.{min}
use scrapy_cluster.Prelude.{
  ℕ, ◌+◌, ◌-◌, ◌<◌, String, ◌≡◌, refl, ◌∙◌, ◌⊎◌, Bool, true, none, some, List, [], ◌∷◌, arith, leb,
  length, Bool-cases, inl, inr, All, if◌then◌else◌,
}
use scrapy_cluster.Redis.{Redis}
use scrapy_cluster.Redis.Values.{text}
use scrapy_cluster.Crawl.{Request, Web}
use scrapy_cluster.Filters.{
  page_key, ensure_count, page_count, count_page, domain_limit_reached, global_limit_reached,
}

module _ {D : Type 0} (ask : Request → D → Bool × D) where
  -- How many of the requests are below the limit, asked one after the other.
  unfoldable pub passes : List Request → D → ℕ
  passes [] d = 0
  passes (req ∷ reqs) d =
      let (reached, d') = ask req d in (if reached then 0 else 1) + passes reqs d'

module _ (r : Redis) (web : Web) (key : String) (timeout : ℕ) (lives : 0 < timeout)
    (k : String) where
  open r use {Db}

  -- The count at the key, 0 where there is none.
  abbrev pub Counts : ℕ → Db → Type 0
  Counts n d = (r.value d k ≡ some (text (r.number n))) ⊎ (r.value d k ≡ none) × (n ≡ 0)

  ensure_count_lem :
      (n : ℕ) (d : Db)
      → Counts n d
      → r.value (ensure_count r web key timeout k d) k ≡ some (text (r.number n))
  unfolding ensure_count
  ensure_count_lem n d (inl stored) = rw (r.exists_lem k d) (rw stored stored)
  ensure_count_lem n d (inr (absent, zero_eq)) =
      rw (r.exists_lem k d) (rw absent (rw zero_eq (r.put_lem k (r.number 0) d)))

  page_count_lem :
      (n : ℕ) (d : Db)
      → r.value d k ≡ some (text (r.number n))
      → page_count r web key timeout k d ≡ n
  unfolding page_count
  page_count_lem n d h = rw (r.get_some k d h, page_count) (r.read_number-number n)

  -- One question at the count `n`: below the limit the count grows, and the reply looks ahead.
  abbrev Answers : ℕ → ℕ → Bool × Db → Type 0
  Answers limit n res =
      (res.0 ≡ leb limit (n + 1)) × Counts (if leb limit n then n else n + 1) res.1

  count_page_lem :
      (limit n : ℕ) (d : Db)
      → r.value d k ≡ some (text (r.number n))
      → (((count_page r web key timeout k limit d).0 ≡ leb limit (n + 1))
          × (r.value (count_page r web key timeout k limit d).1 k ≡ some (text (r.number (n + 1)))))
  unfolding count_page
  count_page_lem limit n d h =
      let grown = r.incr_lem k n d h in (rw (grown.0), r.expire_lem k timeout _ lives ∙ grown.1)

  full : (limit n : ℕ) → leb limit n ≡ true → true ≡ leb limit (n + 1)
  full limit n h = ground arith

  branches-Answers :
      (limit n : ℕ) (d kept : Db)
      → r.value d k ≡ some (text (r.number n))
      → r.value kept k ≡ r.value d k
      → Answers limit n (
          if leb limit (page_count r web key timeout k d)
          then (true, kept)
          else count_page r web key timeout k limit d)
  branches-Answers limit n d kept h same =
      rw (page_count_lem n d h) (elim (Bool-cases (leb limit n)) [
        | inl reached ↦ rw reached (full limit n reached, inl (same ∙ h))
        | inr below ↦
            let counted = count_page_lem limit n d h in rw below (counted.0, inl (counted.1))
      ])

  module _ (limit : ℕ) where
    domain_limit_reached-Answers :
        (req : Request) (n : ℕ) (d : Db)
        → page_key r web key timeout req ≡ k
        → req.meta.domain_max_pages ≡ limit
        → Counts n d
        → Answers limit n (domain_limit_reached r web key timeout req d)
    unfolding domain_limit_reached
    domain_limit_reached-Answers req n d same same_limit counts =
        let there = ensure_count_lem n d counts in
        rw same
          (rw same_limit (branches-Answers limit n _ _ there (r.expire_lem k timeout _ lives)))

    global_limit_reached-Answers :
        (req : Request) (n : ℕ) (d : Db)
        → page_key r web key timeout req ≡ k
        → Counts n d
        → Answers limit n (global_limit_reached r web key timeout limit req d)
    unfolding global_limit_reached
    global_limit_reached-Answers req n d same counts =
        rw same (branches-Answers limit n _ _ (ensure_count_lem n d counts) refl)

    module _ (ask : Request → Db → Bool × Db) (P : Request → Type 0)
        (answers : (req : Request) (n : ℕ) (d : Db)
          → P req
          → Counts n d
          → Answers limit n (ask req d)) where
      passes_lem :
          (reqs : List Request) (n : ℕ) (d : Db)
          → All P reqs
          → Counts n d
          → passes ask reqs d ≡ min (length reqs) (limit - 1 - n)
      unfolding passes
      passes_lem [] n d same counts = omega arith
      passes_lem (req ∷ reqs) n d same counts =
          let (reply, grown) = answers req n d (same.0) counts in
          rw reply
            (ground (arith, passes_lem reqs (if leb limit n then n else n + 1) _ (same.1) grown))

    -- Asked about requests of one crawl and domain, all with the limit `domain_max_pages`, with `n`
    -- pages counted so far, the filter lets through all of them or as many as keep the count below
    -- the limit: from 0 on at most limit - 1.
    pub passes-domain_limit_reached :
        (reqs : List Request) (n : ℕ) (d : Db)
        → All
            (λ req. (page_key r web key timeout req ≡ k) × (req.meta.domain_max_pages ≡ limit))
            reqs
        → Counts n d
        → passes (domain_limit_reached r web key timeout) reqs d ≡ min (length reqs) (limit - 1 - n)
    passes-domain_limit_reached =
        passes_lem (domain_limit_reached r web key timeout) _
          λ req n d same. domain_limit_reached-Answers req n d (same.0) (same.1)

    -- The same of the filter with the limit of the whole cluster.
    pub passes-global_limit_reached :
        (reqs : List Request) (n : ℕ) (d : Db)
        → All (λ req. page_key r web key timeout req ≡ k) reqs
        → Counts n d
        → passes (global_limit_reached r web key timeout limit) reqs d
          ≡ min (length reqs) (limit - 1 - n)
    passes-global_limit_reached =
        passes_lem (global_limit_reached r web key timeout limit) _
          λ req n d same. global_limit_reached-Answers req n d same
