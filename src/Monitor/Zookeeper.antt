-- ===== src/Monitor/Zookeeper.antt =====
-- `ZookeeperMonitor` (redis-monitor/plugins/zookeeper_monitor.py): the changes of the crawlers'
-- configuration that it stores in Zookeeper.
use scrapy_cluster.Prelude.{
  eq_iff, ◌≢◌, lookup-erase_ne, ℕ, String, ◌≡◌, refl, ◌∙◌, Bool, true, false, ◌||◌, Option, none,
  some, List, [], ◌∷◌, ◌++◌, Dict, lookup, insert, erase, contains, str_eq, arith, lookup-insert,
  is_some, if◌then◌else◌,
}
use scrapy_cluster.Scheduler.{Scale}

-- the value under a domain
pub record Domain : Type 0 where
  pub window : ℕ
  pub hits : ℕ
  pub scale : Scale

-- the dict that is stored as YAML, with its two keys
pub record Stored : Type 0 where
  pub domains : Option (Dict Domain)
  pub blacklist : Option (List String)

abbrev pub domains_of : Stored → Dict Domain
domains_of s = elim s.domains [ none ↦ [] | some d ↦ d ]

abbrev pub blacklist_of : Stored → List String
blacklist_of s = elim s.blacklist [ none ↦ [] | some l ↦ l ]

-- list.remove, of the first one
abbrev pub without : String → List String → List String
without x [] = []
without x (y ∷ l) = if str_eq y x then l else y ∷ without x l

-- the_dict where Zookeeper cannot be read, or its file is empty
abbrev pub nothing_stored : Stored
nothing_stored = record { domains = none; blacklist = none }

-- `members` is the order in which Python lists a set
module _ (members : List String → List String) where
  -- the branches on the action; an unknown one changes nothing
  unfoldable pub update_config : String → String → Domain → Stored → Stored
  update_config action domain value s =
      let domains = domains_of s in
      let blacklist = blacklist_of s in
      if str_eq action "domain-update"
      then record { domains = some (insert domain value domains); blacklist = some blacklist }
      else if str_eq action "domain-remove"
      then record {
        domains = some (if is_some (lookup domain domains) then erase domain domains else domains);
        blacklist = some blacklist;
      }
      else if str_eq action "blacklist-update"
      then record {
        domains = some domains;
        blacklist = some (members (blacklist ++ (domain ∷ [])));
      }
      else if str_eq action "blacklist-remove"
      then record {
        domains = some domains;
        blacklist =
            some (if contains domain blacklist then without domain blacklist else blacklist);
      }
      else record { domains = some domains; blacklist = some blacklist }

  -- handle: what Zookeeper has afterwards. Each of the two flags is false for a ZookeeperError.
  unfoldable pub zookeeper_handle : Bool → Bool → String → String → Domain → Stored → Stored
  zookeeper_handle readable writable action domain value s =
      let the_dict = if readable then s else nothing_stored in
      if writable then update_config action domain value the_dict else s

  contains_last :
      (x y : String) (l : List String) → contains x (l ++ (y ∷ [])) ≡ (str_eq y x || contains x l)
  contains_last x y [] = refl
  contains_last x y (z ∷ l) = ground (arith, contains_last x y l)

  -- `domain-update` sets the domain and no other one, and keeps the blacklist.
  pub zookeeper_handle-update :
      (domain j : String) (value : Domain) (s : Stored)
      → let s' = zookeeper_handle true true "domain-update" domain value s in
        (lookup j (domains_of s')
          ≡ (if str_eq domain j then some value else lookup j (domains_of s)))
        × (blacklist_of s' ≡ blacklist_of s)
  unfolding zookeeper_handle update_config
  zookeeper_handle-update domain j value s = (lookup-insert domain j value (domains_of s), refl)

  without_ne : (x j : String) (l : List String) → x ≢ j → contains j (without x l) ≡ contains j l
  without_ne x j [] ne = refl
  without_ne x j (y ∷ l) ne =
      ground (arith, eq_iff y x, eq_iff y j, eq_iff x j, without_ne x j l ne)

  -- What the configuration says of `j` is the same in both.
  abbrev pub SameFor : String → Stored → Stored → Type 0
  SameFor j s t =
      (lookup j (domains_of s) ≡ lookup j (domains_of t))
      × (contains j (blacklist_of s) ≡ contains j (blacklist_of t))

  if-SameFor :
      (b : Bool) (j : String) (x y t : Stored)
      → SameFor j x t
      → SameFor j y t
      → SameFor j (if b then x else y) t
  if-SameFor true j x y t hx hy = hx
  if-SameFor false j x y t hx hy = hy

  update_config-SameFor :
      ((l : List String) (x : String) → contains x (members l) ≡ contains x l)
      → (action domain j : String) (value : Domain) (s : Stored) → domain ≢ j
      → SameFor j (update_config action domain value s) s
  unfolding update_config
  update_config-SameFor lists action domain j value s ne =
      if-SameFor (str_eq action "domain-update") j _ _ s
        (lookup-insert domain j value (domains_of s) ∙ rw differs refl, refl)
        (if-SameFor (str_eq action "domain-remove") j _ _ s
          (erased (is_some (lookup domain (domains_of s))), refl)
          (if-SameFor (str_eq action "blacklist-update") j _ _ s
            (refl, lists _ j ∙ contains_last j domain (blacklist_of s) ∙ rw differs refl)
            (if-SameFor (str_eq action "blacklist-remove") j _ _ s
              (refl, removed (contains domain (blacklist_of s))) (refl, refl))))
    where
      differs : str_eq domain j ≡ false
      differs = ground (arith, eq_iff domain j)

      erased :
          (b : Bool)
          → lookup j (if b then erase domain (domains_of s) else domains_of s)
            ≡ lookup j (domains_of s)
      erased true = lookup-erase_ne domain j (domains_of s) ne
      erased false = refl

      removed :
          (b : Bool)
          → contains j (if b then without domain (blacklist_of s) else blacklist_of s)
            ≡ contains j (blacklist_of s)
      removed true = without_ne domain j (blacklist_of s) ne
      removed false = refl

  -- If Zookeeper can be read, no action on a domain changes what the stored configuration says of
  -- another domain, whether the new configuration can be written or not, and an unknown action
  -- changes nothing of it either. (The list of a set has the elements of the set.)
  pub zookeeper_handle-SameFor :
      ((l : List String) (x : String) → contains x (members l) ≡ contains x l)
      → (writable : Bool) (action domain j : String) (value : Domain) (s : Stored) → domain ≢ j
      → SameFor j (zookeeper_handle true writable action domain value s) s
  unfolding zookeeper_handle
  zookeeper_handle-SameFor lists writable action domain j value s ne =
      if-SameFor writable j _ _ s (update_config-SameFor lists action domain j value s ne)
        (refl, refl)

  -- If Zookeeper cannot be read but can be written: whatever the action on a domain and whatever was
  -- stored, the new configuration says nothing of any other domain, which is then neither configured
  -- nor on the blacklist.
  pub zookeeper_handle-unreadable :
      ((l : List String) (x : String) → contains x (members l) ≡ contains x l)
      → (action domain j : String) (value : Domain) (s : Stored) → domain ≢ j
      → let s' = zookeeper_handle false true action domain value s in
        (lookup j (domains_of s') ≡ none) × (contains j (blacklist_of s') ≡ false)
  unfolding zookeeper_handle
  zookeeper_handle-unreadable lists action domain j value s ne =
      update_config-SameFor lists action domain j value nothing_stored ne
