-- ===== src/Filters/Seen.antt =====
-- `RFPDupeFilter` (crawler/crawling/redis_dupefilter.py): which requests count as seen.
use Prim.Native.String.{◌++◌}
use text.Mathlib.TextLemmas.{append_cancel_left, append-nil, append-eq-nil_iff}
use scrapy_cluster.Prelude.{
  ℕ, ◌<◌, String, ◌≡◌, refl, ap, sym, ◌∙◌, ◌≢◌, Bool, false, not, ◌&&◌, ◌||◌, some, List, [], ◌∷◌,
  arith, str_eq, eq_iff, eq_refl, subst, contains, Bool-cases, inl, inr,
}
use scrapy_cluster.Redis.{Redis}
use scrapy_cluster.Redis.Values.{as_set, add_member}
use scrapy_cluster.Crawl.{Request, Web}
use scrapy_cluster.Filters.{seen_key, request_seen, clear}

contains-add_member :
    (m f : String) (l : List String) → contains f (add_member m l) ≡ (str_eq m f || contains f l)
contains-add_member m f l = ground (arith, eq_iff m f)

colon-ne : ◌≢◌ {A = String} ":" ""
colon-ne = cc

not-not : (b : Bool) → not (not b) ≡ b
not-not b = ground arith

module _ (web : Web) where
  -- An earlier request of the same crawl had the same fingerprint.
  unfoldable pub seen_before : String → String → List Request → Bool
  seen_before crawlid f [] = false
  seen_before crawlid f (e ∷ earlier) =
      str_eq e.meta.crawlid crawlid && str_eq (web.fingerprint e) f || seen_before crawlid f earlier

  -- What the filter is to say of each request, given the earlier ones.
  unfoldable pub verdicts : List Request → List Request → List Bool
  verdicts earlier [] = []
  verdicts earlier (req ∷ reqs) =
      seen_before req.meta.crawlid (web.fingerprint req) earlier ∷ verdicts (req ∷ earlier) reqs

module _ (r : Redis) (web : Web) (key : String) (timeout : ℕ) where
  open r use {Db}

  -- The filter asked of one request after the other.
  unfoldable pub ask_all : List Request → Db → List Bool
  ask_all [] d = []
  ask_all (req ∷ reqs) d =
      let (seen, d') = request_seen r web key timeout req d in seen ∷ ask_all reqs d'

  seen_key-ne : (a b : String) → a ≢ b → seen_key r web key timeout a ≢ seen_key r web key timeout b
  seen_key-ne a b ne h =
      ne (append_cancel_left ":" a b (append_cancel_left key (":" ++ a) (":" ++ b) h))

  seen_key-ne_key : (a : String) → key ≢ seen_key r web key timeout a
  seen_key-ne_key a h =
      colon-ne
        (append-eq-nil_iff.0 (sym (append_cancel_left key "" (":" ++ a) (append-nil key ∙ h)))).0

  -- One question: the reply, the crawl's set and the other keys after it.
  request_seen_lem :
      (req : Request) (d : Db) (l : List String)
      → 0 < timeout
      → as_set (r.value d (seen_key r web key timeout req.meta.crawlid)) ≡ some l
      → ((request_seen r web key timeout req d).0 ≡ contains (web.fingerprint req) l)
        × (as_set (
              r.value
                (request_seen r web key timeout req d).1
                (seen_key r web key timeout req.meta.crawlid))
            ≡ some (add_member (web.fingerprint req) l))
  unfolding request_seen
  request_seen_lem req d l lives h =
      let added =
        r.sadd_lem (seen_key r web key timeout req.meta.crawlid) (web.fingerprint req) d h in
      (ap not (added.0) ∙ not-not _, ap as_set (r.expire_lem _ timeout _ lives ∙ added.1))

  pub request_seen_ne :
      (req : Request) (d : Db) (j : String)
      → seen_key r web key timeout req.meta.crawlid ≢ j
      → r.value (request_seen r web key timeout req d).1 j ≡ r.value d j
  unfolding request_seen
  request_seen_ne req d j ne =
      r.expire_ne _ j timeout _ ne ∙ r.sadd_ne _ j (web.fingerprint req) d ne

  -- Each crawl's set has the fingerprints of its earlier requests.
  pub record Remembers (earlier : List Request) (d : Db) (crawlid : String) : Type 0 where
    pub members : List String
    pub stored : as_set (r.value d (seen_key r web key timeout crawlid)) ≡ some members
    pub exact : (f : String) → contains f members ≡ seen_before web crawlid f earlier

  request_seen-Remembers_own :
      (req : Request) (earlier : List Request) (d : Db)
      → 0 < timeout
      → Remembers earlier d req.meta.crawlid
      → Remembers (req ∷ earlier) (request_seen r web key timeout req d).1 req.meta.crawlid
  unfolding seen_before
  request_seen-Remembers_own req earlier d lives mine = record {
    members = add_member (web.fingerprint req) mine.members;
    stored = (request_seen_lem req d mine.members lives mine.stored).1;
    exact = λ f.
        rw eq_refl (contains-add_member (web.fingerprint req) f mine.members ∙ rw (mine.exact f));
  }

  request_seen-Remembers :
      (req : Request) (earlier : List Request) (d : Db)
      → 0 < timeout
      → ((crawlid : String) → Remembers earlier d crawlid)
      → (crawlid : String)
      → Remembers (req ∷ earlier) (request_seen r web key timeout req d).1 crawlid
  unfolding seen_before
  request_seen-Remembers req earlier d lives memory crawlid =
      elim (Bool-cases (str_eq req.meta.crawlid crawlid)) [
        | inl same ↦
            subst (λ c. Remembers (req ∷ earlier) (request_seen r web key timeout req d).1 c)
              ((eq_iff req.meta.crawlid crawlid).0 same)
              (request_seen-Remembers_own req earlier d lives (memory req.meta.crawlid))
        | inr other ↦ record {
          members = (memory crawlid).members;
          stored =
              ap as_set (
                request_seen_ne req d (seen_key r web key timeout crawlid) (
                  seen_key-ne req.meta.crawlid crawlid
                    (ground (arith, eq_iff req.meta.crawlid crawlid))))
              ∙ (memory crawlid).stored;
          exact = λ f. rw other ((memory crawlid).exact f);
        }
      ]

  -- A request is called seen exactly when an earlier request of the same crawl had its fingerprint:
  -- crawls do not see each other's requests. (While the time to live has not run out.)
  pub ask_all-verdicts :
      (reqs earlier : List Request) (d : Db)
      → 0 < timeout
      → ((crawlid : String) → Remembers earlier d crawlid)
      → ask_all reqs d ≡ verdicts web earlier reqs
  unfolding ask_all verdicts
  ask_all-verdicts [] earlier d lives memory = refl
  ask_all-verdicts (req ∷ reqs) earlier d lives memory =
      let mine = memory req.meta.crawlid in
      cc (
        (request_seen_lem req d mine.members lives mine.stored).0,
        mine.exact (web.fingerprint req),
        ask_all-verdicts reqs (req ∷ earlier) (request_seen r web key timeout req d).1 lives
            (request_seen-Remembers req earlier d lives memory),
      )

  -- `clear` deletes the prefix of the keys and no key of a crawl: what was seen is still seen.
  pub request_seen-clear :
      (req : Request) (d : Db) (l : List String)
      → 0 < timeout
      → as_set (r.value d (seen_key r web key timeout req.meta.crawlid)) ≡ some l
      → (request_seen r web key timeout req (clear r web key timeout d)).0
        ≡ (request_seen r web key timeout req d).0
  unfolding clear
  request_seen-clear req d l lives h =
      let kept =
        ap as_set (
          r.delete_ne key (seen_key r web key timeout req.meta.crawlid) d
            (seen_key-ne_key req.meta.crawlid))
        ∙ h in
      (request_seen_lem req (r.delete key d) l lives kept).0
      ∙ sym (request_seen_lem req d l lives h).0
