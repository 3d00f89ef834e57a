-- ===== src/Info.antt =====
-- The info plugin of the Redis monitor (redis-monitor/plugins/info_monitor.py): what is pending of an
-- app or of a crawl.
pub mod Totals
pub mod Agreeing
pub mod Pending
mod Tests
use Prim.Native.String.{◌++◌ as append}
use scrapy_cluster.Prelude.{
  ℕ, ◌+◌, String, Bool, true, false, not, ◌&&◌, Option, none, some, List, [], ◌∷◌, ◌++◌, str_eq,
  ◌==◌, is_some, Dict, lookup, insert, if◌then◌else◌,
}
use scrapy_cluster.Prelude.Int.{ℤ, pos, negsuc, neg, ltb_ℤ, leb_ℤ}
use scrapy_cluster.Text.{split}
use scrapy_cluster.Redis.{Redis}
use scrapy_cluster.Monitor.Kafka.{send_to_kafka}
use scrapy_cluster.Redis.Values.{Ranked, add_member}
use scrapy_cluster.Statistics.Tables.{or_new}
use scrapy_cluster.Statistics.Queues.{and_then}

-- the fields of a queued item that the plugin reads
pub record Fields : Type 0 where
  pub appid : String
  pub crawlid : String
  pub priority : ℤ
  pub expires : Option ℕ

-- what ujson.loads gives: the fields of a feed, or those under 'meta'
pub data Item : Type 0 where
  feed : Fields → Item
  request : (meta : Fields) → Item

-- `if 'meta' in item: item = item['meta']`
abbrev pub fields_of : Item → Fields
fields_of (feed x) = x
fields_of (request meta) = meta

abbrev pub Bins : Type 0
Bins = List (ℤ × List Item)

abbrev pub same_score : ℤ → ℤ → Bool
same_score a b = leb_ℤ a b && leb_ℤ b a

-- sortedDict[my_score].append(my_item), with the new list of an unseen score
unfoldable pub add_to_bin : ℤ → Item → Bins → Bins
add_to_bin score x [] = (score, x ∷ []) ∷ []
add_to_bin score x ((s, items) ∷ bins) =
    if same_score s score
    then (s, items ++ (x ∷ [])) ∷ bins
    else (s, items) ∷ add_to_bin score x bins

-- the totals of a domain
pub record DomainInfo : Type 0 where
  pub total : ℕ
  pub high_priority : ℤ
  pub low_priority : ℤ

abbrev pub new_domain : DomainInfo
new_domain = record { total = 0; high_priority = negsuc 9998; low_priority = pos 9999 }

-- one more item of a domain
unfoldable pub add_item : ℤ → DomainInfo → DomainInfo
add_item priority i = record {
  total = i.total + 1;
  high_priority = if ltb_ℤ i.high_priority priority then priority else i.high_priority;
  low_priority = if ltb_ℤ priority i.low_priority then priority else i.low_priority;
}

-- the dict of a crawl in an app's report
pub record CrawlInfo : Type 0 where
  pub total : ℕ
  pub domains : Dict DomainInfo
  pub distinct_domains : ℕ
  pub expires : Option ℕ

-- the dict of a crawl that is new, with the expiry of its first item
unfoldable pub new_crawl : Fields → CrawlInfo
new_crawl x = record {
  total = 0;
  domains = [];
  distinct_domains = 0;
  expires = elim x.expires [ none ↦ none | some t ↦ if t == 0 then none else some t ];
}

-- the master dict of an app, and the names in domain_dict
pub record AppInfo : Type 0 where
  pub total_crawlids : ℕ
  pub total_pending : ℕ
  pub crawlids : Dict CrawlInfo
  pub seen_domains : List String

abbrev pub empty_app : AppInfo
empty_app = record { total_crawlids = 0; total_pending = 0; crawlids = []; seen_domains = [] }

-- the master dict of a crawl, with 'expires' where the crawl has a timeout key
pub record MasterInfo : Type 0 where
  pub expires : Option String
  pub total_pending : ℕ
  pub total_domains : ℕ
  pub domains : Dict DomainInfo

abbrev pub empty_master : Option String → MasterInfo
empty_master expires = record {
  expires = expires;
  total_pending = 0;
  total_domains = 0;
  domains = [];
}

-- one if nothing is there
abbrev pub if_new {ℓ} : {A : Type ℓ} → Option A → ℕ
if_new none = 1
if_new (some x) = 0

-- the innermost body of _build_crawlid_info
unfoldable pub add_to_crawl : String → String → String → Item → MasterInfo → MasterInfo
add_to_crawl appid crawlid domain item m =
    let x = fields_of item in
    let old = lookup domain m.domains in
    if str_eq x.appid appid && str_eq x.crawlid crawlid
    then record m {
      total_pending = m.total_pending + 1;
      total_domains = m.total_domains + if_new old;
      domains = insert domain (add_item x.priority (or_new new_domain old)) m.domains;
    }
    else m

-- what the body of _build_appid_info does to the dict of the item's crawl
unfoldable pub add_to_crawl_info : String → Fields → CrawlInfo → CrawlInfo
add_to_crawl_info domain x c =
    let old = lookup domain c.domains in
    record c {
      total = c.total + 1;
      domains = insert domain (add_item x.priority (or_new new_domain old)) c.domains;
      distinct_domains = c.distinct_domains + if_new old;
    }

-- a domain that is new to the crawl is put into domain_dict
unfoldable pub see_domain : String → CrawlInfo → List String → List String
see_domain domain c seen =
    if is_some (lookup domain c.domains) then seen else add_member domain seen

-- the innermost body of _build_appid_info
unfoldable pub add_to_app : String → String → Item → AppInfo → AppInfo
add_to_app appid domain item m =
    let x = fields_of item in
    let crawl = or_new (new_crawl x) (lookup x.crawlid m.crawlids) in
    if str_eq x.appid appid
    then record {
      total_crawlids = m.total_crawlids + if_new (lookup x.crawlid m.crawlids);
      total_pending = m.total_pending + 1;
      crawlids = insert x.crawlid (add_to_crawl_info domain x crawl) m.crawlids;
      seen_domains = see_domain domain crawl m.seen_domains;
    }
    else m

-- the two inner loops of both reports
unfoldable pub each_item : {S : Type 0} → (Item → S → S) → List Item → S → S
each_item f [] s = s
each_item f (x ∷ items) s = each_item f items (f x s)

unfoldable pub each_bin : {S : Type 0} → (Item → S → S) → Bins → S → S
each_bin f [] s = s
each_bin f ((score, items) ∷ bins) s = each_bin f bins (each_item f items s)

-- key.split(":")[1]; none is an IndexError
abbrev pub domain_in : List String → Option String
domain_in (a ∷ domain ∷ more) = some domain
domain_in _ = none

-- elements[1] and elements[2]
abbrev pub spider_and_app : List String → Option (String × String)
spider_and_app (a ∷ spiderid ∷ appid ∷ more) = some (spiderid, appid)
spider_and_app _ = none

module _ (r : Redis) (loads : String → Option Item) (d : r.Db) where
  -- _get_bin over the members that ZSCAN gives; none is an exception of `loads`
  unfoldable pub get_bin : Ranked → Bins → Option Bins
  get_bin [] bins = some bins
  get_bin ((member, score) ∷ l) bins =
      and_then (loads member) (λ x. get_bin l (add_to_bin (neg score) x bins))

  -- the outer loop of both reports over the keys that SCAN gives
  unfoldable pub each_key : {S : Type 0} → (String → Item → S → S) → List String → S → Option S
  each_key f [] s = some s
  each_key f (key ∷ keys) s = and_then (domain_in (split key)) (λ domain.
      and_then (get_bin (r.zrange key d) []) (λ bins. each_key f keys (each_bin (f domain) bins s)))

  -- _build_appid_info; total_domains is the length of seen_domains
  unfoldable pub build_appid_info : String → List String → Option AppInfo
  build_appid_info appid keys = each_key (add_to_app appid) keys empty_app

  -- `master['expires']` of a crawl
  unfoldable pub crawl_expires : String → String → String → Option String
  crawl_expires spiderid appid crawlid =
      let key =
        append "timeout:" (append spiderid (append ":" (append appid (append ":" crawlid)))) in
      if r.exists key d then r.get key d else none

  -- _build_crawlid_info
  unfoldable pub build_crawlid_info : String → String → String → List String → Option MasterInfo
  build_crawlid_info spiderid appid crawlid keys =
      each_key (add_to_crawl appid crawlid) keys
        (empty_master (crawl_expires spiderid appid crawlid))

  -- the report that `handle` asks for, by the parts of the key; none is an IndexError
  pub data Info : Type 0 where
    crawl_info : MasterInfo → Info
    app_info : AppInfo → Info

  unfoldable pub info_of : (String → List String) → List String → Option Info
  info_of keys_of (a ∷ spiderid ∷ appid ∷ crawlid ∷ []) =
      and_then (build_crawlid_info spiderid appid crawlid (keys_of spiderid))
        (λ m. some (crawl_info m))
  info_of keys_of (a ∷ spiderid ∷ appid ∷ more) =
      and_then (build_appid_info appid (keys_of spiderid)) (λ m. some (app_info m))
  info_of keys_of _ = none

  -- the dict that is sent
  pub record Master : Type 0 where
    pub uuid : String
    pub server_time : ℕ
    pub spiderid : String
    pub appid : String
    pub info : Info

  abbrev pub master_appid : Master → String
  master_appid m = m.appid

  -- `handle` without its log: whether the answer was sent, and the topics; none is an exception
  unfoldable pub info_handle :
      (String → List String)
      → (prefix : String) → (use_appid_topics : Bool) → (accepts : String → Bool) → (seconds : ℕ)
      → (key value : String) → List (String × Master)
      → Option (Bool × List (String × Master))
  info_handle keys_of prefix use_appid_topics accepts seconds key value out =
      let elements = split key in
      and_then (spider_and_app elements) (λ ids. and_then (info_of keys_of elements) (λ info. some (
        send_to_kafka master_appid prefix use_appid_topics accepts
          (record {
            uuid = value;
            server_time = seconds;
            spiderid = ids.0;
            appid = ids.1;
            info = info;
          })
          out)))
