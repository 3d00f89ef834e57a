-- ===== src/Info/Agreeing.antt =====
-- The two reports of the info plugin tell the same of a crawl
-- (redis-monitor/plugins/info_monitor.py: _build_appid_info and _build_crawlid_info).
use scrapy_cluster.Prelude.{
  ◌+◌, String, ◌≡◌, refl, ap, sym, ◌∙◌, inl, inr, Option, none, some, List, [], ◌∷◌, str_eq, eq_iff,
  Bool-cases, lookup, insert, lookup-insert,
}
use scrapy_cluster.Text.{split}
use scrapy_cluster.Redis.{Redis}
use scrapy_cluster.Statistics.Tables.{or_new}
use scrapy_cluster.Statistics.Queues.{and_then}
use scrapy_cluster.Info.{
  Fields, Item, fields_of, Bins, new_domain, add_item, CrawlInfo, new_crawl, AppInfo, empty_app,
  MasterInfo, empty_master, if_new, add_to_crawl, add_to_crawl_info, add_to_app, each_item,
  each_bin, domain_in, get_bin, each_key, build_appid_info, build_crawlid_info, crawl_expires,
}

-- What the report of a crawl has of its dict in the report of the app; its expiry is its own.
abbrev pub as_master : Option String → Option CrawlInfo → MasterInfo
as_master expires none = empty_master expires
as_master expires (some c) = record {
  expires = expires;
  total_pending = c.total;
  total_domains = c.distinct_domains;
  domains = c.domains;
}

-- what the report of a crawl with this expiry would be, from the report of the app
abbrev pub of_crawl : Option String → String → AppInfo → MasterInfo
of_crawl expires crawlid m = as_master expires (lookup crawlid m.crawlids)

-- the report of a crawl with one more item of it
abbrev added_to : String → Fields → MasterInfo → MasterInfo
added_to domain x m = record m {
  total_pending = m.total_pending + 1;
  total_domains = m.total_domains + if_new (lookup domain m.domains);
  domains =
      insert domain (add_item x.priority (or_new new_domain (lookup domain m.domains))) m.domains;
}

-- the dict of a new crawl is as good as none
added :
    (expires : Option String) (domain : String) (x : Fields) (o : Option CrawlInfo)
    → as_master expires (some (add_to_crawl_info domain x (or_new (new_crawl x) o)))
      ≡ added_to domain x (as_master expires o)
unfolding add_to_crawl_info new_crawl
added expires domain x none = refl
added expires domain x (some c) = refl

add-of_crawl :
    (expires : Option String) (appid crawlid domain : String) (item : Item) (m : AppInfo)
    → of_crawl expires crawlid (add_to_app appid domain item m)
      ≡ add_to_crawl appid crawlid domain item (of_crawl expires crawlid m)
unfolding add_to_app add_to_crawl
add-of_crawl expires appid crawlid domain item m =
    let x = fields_of item in
    let was = lookup x.crawlid m.crawlids in
    let crawl = add_to_crawl_info domain x (or_new (new_crawl x) was) in
    let now = lookup-insert x.crawlid crawlid crawl m.crawlids in
    elim (Bool-cases (str_eq x.appid appid)) [
      | inr other ↦ simp other refl
      | inl ours ↦ elim (Bool-cases (str_eq x.crawlid crawlid)) [
        | inr other ↦
            simp (ours, other)
              (ap (as_master expires) {y = lookup crawlid m.crawlids} (now ∙ rw other refl))
        | inl this ↦
            simp (ours, this)
              (ap (as_master expires) {y = some crawl} (now ∙ rw this refl)
                ∙ added expires domain x was
                ∙ ap (λ k. added_to domain x (as_master expires (lookup k m.crawlids)))
                    ((eq_iff x.crawlid crawlid).0 this))
      ]
    ]

module _ {S T : Type 0} (h : S → T) where
  each_item-fused :
      (f : Item → S → S) (g : Item → T → T)
      → ((x : Item) (s : S) → h (f x s) ≡ g x (h s))
      → (items : List Item) (s : S) → h (each_item f items s) ≡ each_item g items (h s)
  unfolding each_item
  each_item-fused f g step [] s = refl
  each_item-fused f g step (x ∷ items) s =
      each_item-fused f g step items (f x s) ∙ ap (each_item g items) (step x s)

  each_bin-fused :
      (f : Item → S → S) (g : Item → T → T)
      → ((x : Item) (s : S) → h (f x s) ≡ g x (h s))
      → (bins : Bins) (s : S) → h (each_bin f bins s) ≡ each_bin g bins (h s)
  unfolding each_bin
  each_bin-fused f g step [] s = refl
  each_bin-fused f g step ((score, items) ∷ bins) s =
      each_bin-fused f g step bins (each_item f items s)
      ∙ ap (each_bin g bins) (each_item-fused f g step items s)

and_then-fused :
    {A B C : Type 0} (o : Option A) (p : A → Option B) (q : A → Option C) (k : B → Option C)
    → ((a : A) → q a ≡ and_then (p a) k)
    → and_then o q ≡ and_then (and_then o p) k
and_then-fused none p q k h = refl
and_then-fused (some a) p q k h = h a

module _ (r : Redis) (loads : String → Option Item) (d : r.Db) where
  module _ {S T : Type 0} (h : S → T) (f : String → Item → S → S) (g : String → Item → T → T)
      (step : (domain : String) (x : Item) (s : S) → h (f domain x s) ≡ g domain x (h s)) where
    each_key-fused :
        (keys : List String) (s : S)
        → each_key r loads d g keys (h s) ≡ and_then (each_key r loads d f keys s) (λ u. some (h u))
    unfolding each_key
    each_key-fused [] s = refl
    each_key-fused (key ∷ keys) s = and_then-fused (domain_in (split key)) _ _ _ (λ domain.
        and_then-fused (get_bin r loads d (r.zrange key d) []) _ _ _ (λ bins.
          ap (each_key r loads d g keys)
            (sym (each_bin-fused h (f domain) (g domain) (step domain) bins s))
          ∙ each_key-fused keys (each_bin (f domain) bins s)))

-- Asked at the same time, the report of a crawl is what the report of its app says of the crawl, but
-- for the expiry: the same number of pending items, the same domains with their totals and
-- priorities, and the same number of domains; a crawl that the app's report does not have is
-- reported as empty. The expiry in it is what the crawl's timeout key holds, whatever the app's
-- report says, and is left out where there is no such key.
pub build_crawlid_info-of_crawl :
    (r : Redis) (loads : String → Option Item) (d : r.Db) (spiderid appid crawlid : String)
    (keys : List String)
    → build_crawlid_info r loads d spiderid appid crawlid keys
      ≡ and_then
          (build_appid_info r loads d appid keys)
          (λ m. some (of_crawl (crawl_expires r loads d spiderid appid crawlid) crawlid m))
unfolding build_crawlid_info build_appid_info
build_crawlid_info-of_crawl r loads d spiderid appid crawlid keys =
    let expires = crawl_expires r loads d spiderid appid crawlid in
    each_key-fused r loads d (of_crawl expires crawlid) (add_to_app appid)
      (add_to_crawl appid crawlid) (λ domain x m. add-of_crawl expires appid crawlid domain x m)
      keys empty_app
