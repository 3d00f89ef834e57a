-- ===== src/Redis/Memory.antt =====
-- A Redis held in memory: the parameter's laws can be met, and concrete runs have a server to run on.
use scrapy_cluster.Prelude.{
  ℕ, ◌<◌, String, ◌≡◌, refl, ap, ◌≢◌, ◌+◌, not, Option, none, some, List, [], ◌∷◌, arith, str_eq,
  eq_iff, eq_refl, length, contains, is_some, first?, rest_of, if◌then◌else◌, ◌==◌,
}
use scrapy_cluster.Prelude.Marks.{marks, unmark, unmark-marks}
use scrapy_cluster.Redis.{Redis}
use scrapy_cluster.Redis.Values.{
  Ranked, Value, text, list, set, zset, as_list, as_set, as_zset, remove, add, above, below,
  add_member, last?, all_but_last,
}

abbrev pub Db : Type 0
Db = String → Option Value

abbrev pub empty : Db
empty k = none

abbrev pub update : String → Option Value → Db → Db
update k o d j = if str_eq k j then o else d j

abbrev on_text : Option Value → Option String
on_text (some (text v)) = some v
on_text _ = none

abbrev list_of : Option Value → List String
list_of (some (list l)) = l
list_of _ = []

abbrev set_of : Option Value → List String
set_of (some (set l)) = l
set_of _ = []

abbrev zset_of : Option Value → Ranked
zset_of (some (zset l)) = l
zset_of _ = []

pub update_lem : (k : String) (o : Option Value) (d : Db) → update k o d k ≡ o
update_lem k o d = rw eq_refl

pub update_ne : (k j : String) (o : Option Value) (d : Db) → k ≢ j → update k o d j ≡ d j
update_ne k j o d h = ground (arith, eq_iff k j)

pub list_of_lem : (o : Option Value) {l : List String} → as_list o ≡ some l → list_of o ≡ l
list_of_lem o h = ground arith

pub set_of_lem : (o : Option Value) {l : List String} → as_set o ≡ some l → set_of o ≡ l
set_of_lem o h = ground arith

pub zset_of_lem : (o : Option Value) {l : Ranked} → as_zset o ≡ some l → zset_of o ≡ l
zset_of_lem o h = ground arith

pub expire_lem :
    (k : String) (t : ℕ) (d : Db) → 0 < t → (if t == 0 then update k none d else d) k ≡ d k
expire_lem k t d h = ground arith

pub expire_ne :
    (k j : String) (t : ℕ) (d : Db) → k ≢ j → (if t == 0 then update k none d else d) j ≡ d j
expire_ne k j t d h = ground (arith, eq_iff k j)

pub list_write :
    (k : String) (f : List String → List String) (d : Db) {l : List String}
    → as_list (d k) ≡ some l
    → as_list (update k (some (list (f (list_of (d k))))) d k) ≡ some (f l)
list_write k f d h = rw (eq_refl, list_of_lem (d k) h)

pub zset_write :
    (k : String) (f : Ranked → Ranked) (d : Db) {l : Ranked}
    → as_zset (d k) ≡ some l
    → as_zset (update k (some (zset (f (zset_of (d k))))) d k) ≡ some (f l)
zset_write k f d h = rw (eq_refl, zset_of_lem (d k) h)

abbrev pub count_of : Option Value → ℕ
count_of (some (text v)) = unmark v
count_of _ = 0

pub count_of_lem : (o : Option Value) (n : ℕ) → o ≡ some (text (marks n)) → count_of o ≡ n
count_of_lem o n h = rw h (unmark-marks n)

abbrev pub lpop : String → Db → Option String × Db
lpop k d = (first? (list_of (d k)), update k (some (list (rest_of (list_of (d k))))) d)

abbrev pub rpop : String → Db → Option String × Db
rpop k d = (last? (list_of (d k)), update k (some (list (all_but_last (list_of (d k))))) d)

-- the state in which a blocking pop is answered
abbrev pub waited : String → (Db → Db) → Db → Db
waited k others d = elim (list_of (d k)) [ [] ↦ others d | _ ∷ _ ↦ d ]

pub waited_ready :
    (k : String) (others : Db → Db) (d : Db) {m : String} {l : List String}
    → as_list (d k) ≡ some (m ∷ l)
    → waited k others d ≡ d
waited_ready k others d h = ground (arith, list_of_lem (d k) h)

pub waited_waits :
    (k : String) (others : Db → Db) (d : Db)
    → as_list (d k) ≡ some []
    → waited k others d ≡ others d
waited_waits k others d h = ground (arith, list_of_lem (d k) h)

-- HyperLogLogs and bitmaps are sets here
abbrev pub set_also : String → String → Db → Db
set_also k m d = update k (some (set (add_member m (set_of (d k))))) d

add_member_again : (m : String) (l : List String) → add_member m (add_member m l) ≡ add_member m l
add_member_again m l = ground (arith, eq_refl m)

pub set_also_again :
    (k m : String) (d : Db)
    → length (set_of (set_also k m (set_also k m d) k)) ≡ length (set_of (set_also k m d k))
set_also_again k m d = rw eq_refl (ap length (add_member_again m (set_of (d k))))

abbrev pub memory : Redis
memory = record {
  Db = Db;
  value = λ d k. d k;
  exists = λ k d. is_some (d k);
  exists_lem = λ k d. refl;
  delete = λ k d. update k none d;
  delete_lem = λ k d. update_lem k none d;
  delete_ne = λ k j d h. update_ne k j none d h;
  expire = λ k t d. if t == 0 then update k none d else d;
  expire_lem = expire_lem;
  expire_ne = expire_ne;
  get = λ k d. on_text (d k);
  get_none = λ k d h. rw h;
  get_some = λ k d h. rw h;
  put = λ k v d. update k (some (text v)) d;
  put_lem = λ k v d. update_lem k (some (text v)) d;
  put_ne = λ k j v d h. update_ne k j (some (text v)) d h;
  put_ex = λ k v t d. update k (some (text v)) d;
  put_ex_lem = λ k v t d h. update_lem k (some (text v)) d;
  put_ex_ne = λ k j v t d h. update_ne k j (some (text v)) d h;
  number = marks;
  read_number = unmark;
  read_number-number = unmark-marks;
  incr = λ k d. (count_of (d k) + 1, update k (some (text (marks (count_of (d k) + 1)))) d);
  incr_lem = λ k n d h. (rw (count_of_lem (d k) n h), rw (eq_refl, count_of_lem (d k) n h));
  incr_ne = λ k j d h. update_ne k j _ d h;
  sadd = λ k m d.
      (not (contains m (set_of (d k))), update k (some (set (add_member m (set_of (d k))))) d);
  sadd_lem = λ k m d h. (rw (set_of_lem (d k) h), rw (eq_refl, set_of_lem (d k) h));
  sadd_ne = λ k j m d h. update_ne k j _ d h;
  sismember = λ k m d. contains m (set_of (d k));
  sismember_lem = λ k m d h. rw (set_of_lem (d k) h);
  llen = λ k d. length (list_of (d k));
  llen_lem = λ k d h. rw (list_of_lem (d k) h);
  lpush = λ k m d. update k (some (list (m ∷ list_of (d k)))) d;
  lpush_lem = λ k m d h. list_write k (λ l. m ∷ l) d h;
  lpush_ne = λ k j m d h. update_ne k j _ d h;
  lpop = lpop;
  lpop_lem = λ k d h. (rw (list_of_lem (d k) h), list_write k rest_of d h);
  lpop_ne = λ k j d h. update_ne k j _ d h;
  rpop = rpop;
  rpop_lem = λ k d h. (rw (list_of_lem (d k) h), list_write k all_but_last d h);
  rpop_ne = λ k j d h. update_ne k j _ d h;
  blpop = λ k t others d. lpop k (waited k others d);
  blpop_ready = λ k t others d h. ap (lpop k) (waited_ready k others d h);
  blpop_waits = λ k t others d h. ap (lpop k) (waited_waits k others d h);
  brpop = λ k t others d. rpop k (waited k others d);
  brpop_ready = λ k t others d h. ap (rpop k) (waited_ready k others d h);
  brpop_waits = λ k t others d h. ap (rpop k) (waited_waits k others d h);
  zcard = λ k d. length (zset_of (d k));
  zcard_lem = λ k d h. rw (zset_of_lem (d k) h);
  zrange = λ k d. zset_of (d k);
  zrange_lem = λ k d h. zset_of_lem (d k) h;
  zadd = λ k s m d. update k (some (zset (add m s (zset_of (d k))))) d;
  zadd_lem = λ k s m d h. rw (eq_refl, zset_of_lem (d k) h);
  zadd_ne = λ k j s m d h. update_ne k j _ d h;
  zrem = λ k m d. update k (some (zset (remove m (zset_of (d k))))) d;
  zrem_lem = λ k m d h. zset_write k (remove m) d h;
  zrem_ne = λ k j m d h. update_ne k j _ d h;
  zremrangebyrank = λ k d. update k (some (zset (rest_of (zset_of (d k))))) d;
  zremrangebyrank_lem = λ k d h. zset_write k rest_of d h;
  zremrangebyrank_ne = λ k j d h. update_ne k j _ d h;
  zremrangebyscore = λ k b d. update k (some (zset (above b (zset_of (d k))))) d;
  zremrangebyscore_lem = λ k b d h. zset_write k (above b) d h;
  zremrangebyscore_ne = λ k j b d h. update_ne k j _ d h;
  zremrangebyscore_from = λ k b d. update k (some (zset (below b (zset_of (d k))))) d;
  zremrangebyscore_from_lem = λ k b d h. zset_write k (below b) d h;
  zremrangebyscore_from_ne = λ k j b d h. update_ne k j _ d h;
  scard = λ k d. length (set_of (d k));
  scard_lem = λ k d h. rw (set_of_lem (d k) h);
  pfadd = set_also;
  pfadd_ne = λ k j m d h. update_ne k j _ d h;
  pfcount = λ k d. length (set_of (d k));
  pfcount_same = λ k d e h. ap (λ o. length (set_of o)) h;
  pfcount_again = λ k m d. set_also_again k m d;
  setbit = λ k i d. set_also k (marks i) d;
  setbit_ne = λ k j i d h. update_ne k j _ d h;
  bitcount = λ k d. length (set_of (d k));
  bitcount_same = λ k d e h. ap (λ o. length (set_of o)) h;
  bitcount_again = λ k i d. set_also_again k (marks i) d;
}
