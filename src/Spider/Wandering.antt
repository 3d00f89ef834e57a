-- ===== src/Spider/Wandering.antt =====
-- The spider that follows one link of each page: crawler/crawling/spiders/wandering_spider.py, with
-- the meta data that its request gets from the response by meta_passthrough_middleware.py.
use scrapy_cluster.Prelude.{
  ℕ, ◌+◌, zero, suc, String, ◌≡◌, refl, Option, none, some, List, [], ◌∷◌, arith, Dict, lookup,
  insert, lookup-insert, length,
}
use scrapy_cluster.Crawl.{Meta}
use scrapy_cluster.Spider.Pages.{Response, Link, RawResponseItem, item_of, user_agent}

module _ {V : Type 0} (of_step : ℕ → V) where
  abbrev pub step_of : Response V → ℕ
  step_of x = elim x.step [ none ↦ 0 | some n ↦ n ]

  abbrev pub or_no_attrs : Option (Dict V) → Dict V
  or_no_attrs none = []
  or_no_attrs (some attrs) = attrs

  -- item['attrs']['step'] = step, where None becomes a new dict
  unfoldable pub stepped : Response V → Dict V
  stepped x = insert "step" (of_step (step_of x)) (or_no_attrs x.attrs)

  -- What the next request has: its URL, its step, and the meta data passed on. A dict of attributes
  -- that is there is the item's own, which has the step; no new dict is passed on.
  pub record Next : Type 0 where
    pub url : String
    pub meta : Meta
    pub step : ℕ
    pub attrs : Option (Dict V)
    pub headers : Dict (List String)
    pub useragent : Option String

  -- the link at an index; random.choice takes an index that is there
  abbrev pub link_at : Link → List Link → ℕ → Link
  link_at link links zero = link
  link_at link [] (suc i) = link
  link_at link (other ∷ links) (suc i) = link_at other links i

  unfoldable pub next_of : Response V → Link → Next
  next_of x link = record {
    url = link.url;
    meta = x.meta;
    step = step_of x + 1;
    attrs = elim x.attrs [ none ↦ none | some attrs ↦ some (stepped x) ];
    headers = user_agent x;
    useragent = x.useragent;
  }

  -- WanderingSpider.parse, over the index that random.choice takes
  unfoldable pub wander : ℕ → Response V → List Link → Option Next × RawResponseItem V
  wander choice x [] = (none, record (item_of x) { attrs = some (stepped x) })
  wander choice x (link ∷ links) = (
    some (next_of x (link_at link links choice)),
    record (item_of x) { attrs = some (stepped x) },
  )

  -- the meta data with which a page is asked for
  pub record Carried : Type 0 where
    pub meta : Meta
    pub step : Option ℕ
    pub attrs : Option (Dict V)
    pub useragent : Option String

  abbrev pub carried : Next → Carried
  carried next = record {
    meta = next.meta;
    step = some next.step;
    attrs = next.attrs;
    useragent = next.useragent;
  }

  abbrev pub answered : Carried → Response V → Response V
  answered c x = record x { meta = c.meta; step = c.step; attrs = c.attrs; useragent = c.useragent }

  -- what comes back for a request, its links, and the choice among them
  pub record Page : Type 0 where
    pub response : Response V
    pub links : List Link
    pub choice : ℕ

  -- the items of a walk: one after another, each request is answered by the next page
  unfoldable pub walk : Carried → List Page → List (RawResponseItem V)
  walk c [] = []
  walk c (page ∷ pages) =
      let out = wander page.choice (answered c page.response) page.links in
      out.1 ∷ elim out.0 [ none ↦ [] | some next ↦ walk (carried next) pages ]

  -- the items have the steps from n on
  abbrev pub Numbered : ℕ → List (RawResponseItem V) → Type 0
  Numbered n [] = Unit
  Numbered n (item ∷ items) =
      (lookup "step" (or_no_attrs item.attrs) ≡ some (of_step n)) × Numbered (n + 1) items

  -- the number of pages up to the first one without links
  abbrev pub or_more : List Link → ℕ → ℕ
  or_more [] rest = 1
  or_more (link ∷ links) rest = rest + 1

  abbrev pub reached : List Page → ℕ
  reached [] = 0
  reached (page ∷ pages) = or_more page.links (reached pages)

  stepped_lem : (x : Response V) → lookup "step" (stepped x) ≡ some (of_step (step_of x))
  unfolding stepped
  stepped_lem x = lookup-insert "step" "step" (of_step (step_of x)) (or_no_attrs x.attrs)

  abbrev IsWalk : ℕ → ℕ → List (RawResponseItem V) → Type 0
  IsWalk n count items = Numbered n items × (length items ≡ count)

  abbrev pub first_step : Carried → ℕ
  first_step c = elim c.step [ none ↦ 0 | some n ↦ n ]

  page-IsWalk :
      (x : Response V) (links : List Link) (choice count : ℕ)
      (rest : Carried → List (RawResponseItem V))
      → ((c : Carried) → IsWalk (first_step c) count (rest c))
      → IsWalk (step_of x) (or_more links count) (
          (wander choice x links).1
          ∷ elim (wander choice x links).0 [ none ↦ [] | some next ↦ rest (carried next) ])
  unfolding wander next_of item_of
  page-IsWalk x [] choice count rest h = ((stepped_lem x, tt), refl)
  page-IsWalk x (link ∷ links) choice count rest h =
      let next = next_of x (link_at link links choice) in
      ((stepped_lem x, (h (carried next)).0), omega (arith, (h (carried next)).1))

  -- A walk ends at the first page without links, and its items count the pages: each has the next
  -- step in its attributes, whether or not the request had attributes.
  pub walk-Numbered :
      (pages : List Page) (c : Carried)
      → Numbered (first_step c) (walk c pages) × (length (walk c pages) ≡ reached pages)
  unfolding walk
  walk-Numbered [] c = (tt, refl)
  walk-Numbered (page ∷ pages) c =
      page-IsWalk (answered c page.response) page.links page.choice (reached pages)
        (λ next. walk next pages) (walk-Numbered pages)
