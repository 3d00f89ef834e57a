-- ===== src/Spider/Depth.antt =====
-- How deep a crawl goes, and what its requests inherit (crawler/crawling/spiders/link_spider.py and
-- meta_passthrough_middleware.py).
use scrapy_cluster.Prelude.{
  ◌++◌, ℕ, suc, ◌+◌, ◌≤◌, ◌<◌, String, ◌≡◌, refl, ap, sym, subst, ◌∙◌, false, Option, none, some,
  List, [], ◌∷◌, arith, All, leb, Bool-cases, Option-cases, inl, inr, ◌⊎◌, is_some,
}
use scrapy_cluster.Prelude.Int.{pos, ◌-ℤ◌}
use scrapy_cluster.Crawl.{Meta, Request}
use scrapy_cluster.Retry.{retried, retry_times, is_some-retried}
use scrapy_cluster.Spider.{drop_newlines, pass_meta, depth_of, follow_link, follow_links, parse}

-- A request one deeper, with the limit and the retries of the page that it was found on.
pub record Deeper (meta : Meta) (req : Request) : Type 0 where
  pub depth : depth_of req.meta ≡ depth_of meta + 1
  pub maxdepth : req.meta.maxdepth ≡ meta.maxdepth
  pub retries : req.meta.retry_times ≡ meta.retry_times
  pub crawlid : req.meta.crawlid ≡ meta.crawlid
  pub allowed : depth_of meta < meta.maxdepth

-- the request of a link on a page at the depth `n`
abbrev child : Meta → String → ℕ → Request
child meta url n = record {
  url = drop_newlines url;
  dont_filter = false;
  meta = pass_meta meta (record { priority = meta.priority -ℤ pos 10; curdepth = n + 1 });
}

abbrev child_of : Meta → String → Option ℕ → Option Request
child_of meta url none = none
child_of meta url (some n) = some (child meta url n)

abbrev or_start : Option ℕ → ℕ
or_start none = 0
or_start (some n) = n

child-Deeper :
    (meta : Meta) (url : String) (n : ℕ)
    → depth_of meta < meta.maxdepth
    → meta.curdepth ≡ some n
    → Deeper meta (child meta url n)
unfolding pass_meta
child-Deeper meta url n allowed there = record {
  depth = ap (λ o. or_start o + 1) (sym there);
  maxdepth = refl;
  retries = refl;
  crawlid = refl;
  allowed = allowed;
}

follow_link-Deeper :
    (meta : Meta) (url : String) (req : Request)
    → depth_of meta < meta.maxdepth
    → follow_link meta url ≡ some req
    → Deeper meta req
unfolding follow_link
follow_link-Deeper meta url req allowed h = elim (Option-cases meta.curdepth) [
  | inl absent ↦
      let gone : follow_link meta url ≡ none = ap (child_of meta url) absent in cc (gone, h)
  | inr (n, there) ↦
      let made : follow_link meta url ≡ some (child meta url n) = ap (child_of meta url) there in
      let same : child meta url n ≡ req = cc (made, h) in
      subst (Deeper meta) same (child-Deeper meta url n allowed there)
]

follow_links-Deeper :
    (meta : Meta) (urls : List String) (reqs : List Request)
    → depth_of meta < meta.maxdepth
    → follow_links meta urls ≡ some reqs
    → All (Deeper meta) reqs
unfolding follow_links
follow_links-Deeper meta [] reqs allowed h =
    let same : [] ≡ reqs = cc h in subst (All (Deeper meta)) same tt
follow_links-Deeper meta (url ∷ urls) reqs allowed h = elim (Option-cases (follow_link meta url)) [
  | inl absent ↦ cc (absent, h)
  | inr (req, made) ↦ elim (Option-cases (follow_links meta urls)) [
    | inl absent ↦ cc (made, absent, h)
    | inr (more, rest) ↦
        let same : req ∷ more ≡ reqs = cc (made, rest, h) in
        subst (All (Deeper meta)) same (
          follow_link-Deeper meta url req allowed made,
          follow_links-Deeper meta urls more allowed rest,
        )
  ]
]

-- Every request of a page is one deeper than the page and not deeper than the limit, and has the
-- page's limit, crawl and number of retries.
pub parse-Deeper :
    (meta : Meta) (links : List String) (reqs : List Request)
    → parse meta links ≡ some reqs
    → All (Deeper meta) reqs
unfolding parse
parse-Deeper meta links reqs h = elim (Bool-cases (leb meta.maxdepth (depth_of meta))) [
  | inl deep ↦ let same : [] ≡ reqs = cc (deep, h) in subst (All (Deeper meta)) same tt
  | inr shallow ↦ follow_links-Deeper meta links reqs (ground arith) (cc (shallow, h))
]

All-middle :
    (P : Request → Type 0) (before : List Request) (req : Request) (after : List Request)
    → All P (before ++ (req ∷ after))
    → P req
All-middle P [] req after all = all.0
All-middle P (other ∷ before) req after all = All-middle P before req after (all.1)

-- One of the requests of a page.
pub record IsLinked (meta : Meta) (req : Request) : Type 0 where
  pub links : List String
  pub before : List Request
  pub after : List Request
  pub parsed : parse meta links ≡ some (before ++ (req ∷ after))

linked-Deeper : {meta : Meta} {req : Request} → IsLinked meta req → Deeper meta req
linked-Deeper {meta} {req} linked =
    All-middle (Deeper meta) linked.before req linked.after
      (parse-Deeper meta linked.links _ linked.parsed)

-- A page that was reached from another one by so many links.
pub data Reached (first : Meta) : ℕ → Meta → Type 0 where
  at_first : Reached first 0 first
  by_link :
      {n : ℕ} {page : Meta} (req : Request)
      → Reached first n page
      → IsLinked page req
      → Reached first (suc n) req.meta

Reached-depth :
    {first : Meta} {n : ℕ} {page : Meta}
    → Reached first n page
    → (depth_of page ≡ depth_of first + n)
      × (page.maxdepth ≡ first.maxdepth)
      × ((n ≡ 0) ⊎ (depth_of page ≤ page.maxdepth))
Reached-depth at_first = (omega arith, refl, inl refl)
Reached-depth (by_link req before linked) =
    let deeper = linked-Deeper linked in
    let so_far = Reached-depth before in
    (
      omega (arith, so_far.0, deeper.depth),
      deeper.maxdepth ∙ so_far.1,
      inr (omega (arith, deeper.depth, deeper.maxdepth, deeper.allowed)),
    )

-- No chain of links is longer than the limit leaves: a crawl that starts within the limit ends.
pub Reached-le :
    {first : Meta} {n : ℕ} {page : Meta}
    → Reached first n page
    → depth_of first ≤ first.maxdepth
    → n + depth_of first ≤ first.maxdepth
Reached-le reached le =
    let d = Reached-depth reached in
    elim (d.2) [ inl none_yet ↦ omega arith | inr within ↦ omega (arith, d.0, d.1) ]

-- A request of a page starts with the retries of the page: it is given up after as many failures
-- as the page had left.
pub is_some-retried_child :
    (max n : ℕ) (parent req : Request)
    → IsLinked parent.meta req
    → retry_times parent ≤ max
    → is_some (retried max n req) ≡ leb (retry_times parent + n) max
is_some-retried_child max n parent req linked le =
    let deeper = linked-Deeper linked in
    let same : retry_times req ≡ retry_times parent = ap or_start deeper.retries in
    is_some-retried max n req (omega (arith, same)) ∙ ap (λ k. leb (k + n) max) same
