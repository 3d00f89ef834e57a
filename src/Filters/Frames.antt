-- ===== src/Filters/Frames.antt =====
-- The keys that the page filters leave alone (crawler/crawling/redis_domain_max_page_filter.py and
-- redis_global_page_per_domain_filter.py).
use scrapy_cluster.Prelude.{ℕ, String, ◌≡◌, refl, ◌∙◌, ◌≢◌, Bool-cases, inl, inr, leb}
use scrapy_cluster.Redis.{Redis}
use scrapy_cluster.Crawl.{Request, Web}
use scrapy_cluster.Filters.{
  page_key, ensure_count, page_count, count_page, domain_limit_reached, global_limit_reached,
}

module _ (r : Redis) (web : Web) (key : String) (timeout : ℕ) where
  open r use {Db}

  ensure_count_ne :
      (k j : String) (d : Db) → k ≢ j → r.value (ensure_count r web key timeout k d) j ≡ r.value d j
  unfolding ensure_count
  ensure_count_ne k j d ne = elim (Bool-cases (r.exists k d)) [
    | inl there ↦ rw there refl
    | inr absent ↦ rw absent (r.put_ne k j (r.number 0) d ne)
  ]

  count_page_ne :
      (k j : String) (limit : ℕ) (d : Db)
      → k ≢ j
      → r.value (count_page r web key timeout k limit d).1 j ≡ r.value d j
  unfolding count_page
  count_page_ne k j limit d ne = r.expire_ne k j timeout _ ne ∙ r.incr_ne k j d ne

  pub domain_limit_reached_ne :
      (req : Request) (d : Db) (j : String)
      → page_key r web key timeout req ≢ j
      → r.value (domain_limit_reached r web key timeout req d).1 j ≡ r.value d j
  unfolding domain_limit_reached
  domain_limit_reached_ne req d j ne =
      elim (Bool-cases (
        leb req.meta.domain_max_pages (
          page_count r web key timeout (page_key r web key timeout req)
            (ensure_count r web key timeout (page_key r web key timeout req) d)))) [
              | inl full ↦ rw full (r.expire_ne _ j timeout _ ne ∙ ensure_count_ne _ j d ne)
              | inr below ↦ rw below (count_page_ne _ j _ _ ne ∙ ensure_count_ne _ j d ne)
            ]

  pub global_limit_reached_ne :
      (limit : ℕ) (req : Request) (d : Db) (j : String)
      → page_key r web key timeout req ≢ j
      → r.value (global_limit_reached r web key timeout limit req d).1 j ≡ r.value d j
  unfolding global_limit_reached
  global_limit_reached_ne limit req d j ne =
      elim (Bool-cases (
        leb limit (
          page_count r web key timeout (page_key r web key timeout req)
            (ensure_count r web key timeout (page_key r web key timeout req) d)))) [
              | inl full ↦ rw full (ensure_count_ne _ j d ne)
              | inr below ↦ rw below (count_page_ne _ j _ _ ne ∙ ensure_count_ne _ j d ne)
            ]
