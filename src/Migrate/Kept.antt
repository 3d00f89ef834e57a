-- ===== src/Migrate/Kept.antt =====
-- No loadable item is lost when a queue is written again in the new encoding (migrate.py).
use scrapy_cluster.Prelude.{
  String, Bool, ◌≡◌, ◌≢◌, refl, ap, sym, ◌∙◌, true, false, Option, some, List, [], ◌∷◌, All, str_eq,
  eq_iff, eq_refl, lookup, if◌then◌else◌, Bool-cases, inl, inr,
}
use scrapy_cluster.Prelude.Int.{neg}
use scrapy_cluster.Redis.{Redis}
use scrapy_cluster.Redis.Values.{Ranked, as_zset, add}
use scrapy_cluster.Queue.Ranks.{lookup-add}
use scrapy_cluster.Text.{split}
use scrapy_cluster.Migrate.{
  Items, Cluster, one, two, input, output, on_input, on_output, insert_items, cache, Run, goes,
  ended, encode_queue,
}

module _ (r : Redis) {A : Type 0} (items : Items A) (domain suffix : String → String)
    (continue : String → Bool) (parse : String → Option A)
    (parse-dumps : (x : A) → parse (items.dumps x) ≡ some x) where
  open r use {Db}

  -- the item has its own score under its text
  abbrev pub IsStored : Ranked → A → Type 0
  IsStored l x = lookup (items.dumps x) l ≡ some (neg (items.priority x))

  add-IsStored :
      (x y : A) (l : Ranked)
      → IsStored l y
      → IsStored (add (items.dumps x) (neg (items.priority x)) l) y
  add-IsStored x y l h = elim (Bool-cases (str_eq (items.dumps x) (items.dumps y))) [
    | inl same ↦
        let text : items.dumps x ≡ items.dumps y = (eq_iff _ _).0 same in
        let item : some x ≡ some y = sym (parse-dumps x) ∙ ap parse text ∙ parse-dumps y in
        let score : neg (items.priority x) ≡ neg (items.priority y) = cc in
        lookup-add (items.dumps x) (items.dumps y) _ l ∙ rw same (ap some score)
    | inr other ↦ lookup-add (items.dumps x) (items.dumps y) _ l ∙ rw other h
  ]

  -- what is found at the queue of a server, and that the other keys are as before
  abbrev pub IsKept : String → List A → Db → Db → Type 0
  IsKept queue xs before d =
      (new : Ranked) × (as_zset (r.value d queue) ≡ some new)
      × (All (IsStored new) xs × ((k : String) → queue ≢ k → r.value d k ≡ r.value before k))

  abbrev inserted : String → List A → Cluster r → Cluster r
  inserted = insert_items r items domain suffix continue

  output_on : (f : Db → Db) (c : Cluster r) → output r (on_output r f c) ≡ f (output r c)
  output_on f (one d) = refl
  output_on f (two d e) = refl

  -- what one insertion does to the output server
  insert_item :
      (queue : String) (x : A) (c : Cluster r) (l : Ranked)
      → as_zset (r.value (output r c) queue) ≡ some l
      → (as_zset (
            r.value
              (output r (on_output r (r.zadd queue (neg (items.priority x)) (items.dumps x)) c))
              queue)
          ≡ some (add (items.dumps x) (neg (items.priority x)) l))
        × ((k : String)
            → queue ≢ k
            → r.value
                (output r (on_output r (r.zadd queue (neg (items.priority x)) (items.dumps x)) c))
                k
              ≡ r.value (output r c) k)
  insert_item queue x (one d) l h = (
    ap as_zset (r.zadd_lem queue (neg (items.priority x)) (items.dumps x) d h),
    λ k ne. r.zadd_ne queue k (neg (items.priority x)) (items.dumps x) d ne,
  )
  insert_item queue x (two e d) l h = (
    ap as_zset (r.zadd_lem queue (neg (items.priority x)) (items.dumps x) d h),
    λ k ne. r.zadd_ne queue k (neg (items.priority x)) (items.dumps x) d ne,
  )

  insert_items-Kept :
      (queue : String) (xs : List A) (c : Cluster r) (l : Ranked)
      → as_zset (r.value (output r c) queue) ≡ some l
      → (new : Ranked) × (as_zset (r.value (output r (inserted queue xs c)) queue) ≡ some new)
        × ((All (IsStored new) xs × ((y : A) → IsStored l y → IsStored new y))
            × ((k : String)
                → queue ≢ k
                → r.value (output r (inserted queue xs c)) k ≡ r.value (output r c) k))
  unfolding insert_items
  insert_items-Kept queue [] c l h = (l, h, ((tt, λ y stored. stored), λ k ne. refl))
  insert_items-Kept queue (x ∷ xs) c l h =
      let (at_queue, elsewhere) = insert_item queue x c l h in
      let (new, there, ((all, kept), frame)) =
        insert_items-Kept queue xs
          (on_output r (r.zadd queue (neg (items.priority x)) (items.dumps x)) c)
          (add (items.dumps x) (neg (items.priority x)) l) at_queue in
      (
        new,
        there,
        (
          (
            (kept x (lookup-add (items.dumps x) (items.dumps x) _ l ∙ rw eq_refl refl), all),
            λ y stored. kept y (add-IsStored x y l stored),
          ),
          λ k ne. frame k ne ∙ elsewhere k ne,
        ),
      )

  -- the servers after the queue was dropped, if it is to be
  dropped-zset :
      (drop_queue : Bool) (queue : String) (c : Cluster r) (l : Ranked)
      → as_zset (r.value (output r c) queue) ≡ some l
      → (l' : Ranked) × (as_zset
            (r.value (output r (if drop_queue then on_input r (r.delete queue) c else c)) queue)
          ≡ some l')
        × ((k : String)
            → queue ≢ k
            → r.value (output r (if drop_queue then on_input r (r.delete queue) c else c)) k
              ≡ r.value (output r c) k)
  dropped-zset false queue c l h = (l, h, λ k ne. refl)
  dropped-zset true queue (one d) l h =
      ([], ap as_zset (r.delete_lem queue d), λ k ne. r.delete_ne queue k d ne)
  dropped-zset true queue (two d e) l h = (l, h, λ k ne. refl)

  abbrev pub cluster_of : Run r → Cluster r
  cluster_of (goes c) = c
  cluster_of (ended c) = c

  cluster_of-if :
      (same agreed : Bool) (c : Cluster r)
      → cluster_of (if same then goes c else if agreed then goes c else ended c) ≡ c
  cluster_of-if true agreed c = refl
  cluster_of-if false true c = refl
  cluster_of-if false false c = refl

  cluster_of-encode_queue :
      (drop_queue : Bool) (queue spider site queue_word : String) (c : Cluster r) (l : Ranked)
      → split queue ≡ spider ∷ site ∷ queue_word ∷ []
      → as_zset (r.value (input r c) queue) ≡ some l
      → cluster_of (encode_queue r items domain suffix continue drop_queue queue c)
        ≡ inserted queue
            (cache r items domain suffix continue l)
            (if drop_queue then on_input r (r.delete queue) c else c)
  unfolding encode_queue
  cluster_of-encode_queue drop_queue queue spider site queue_word c l parts from =
      rw (parts, encode_queue)
        (cluster_of-if _ (continue queue) _
          ∙ ap
              (λ ranked.
                inserted queue (cache r items domain suffix continue ranked)
                  (if drop_queue then on_input r (r.delete queue) c else c))
              (r.zrange_lem queue (input r c) from))

  -- A queue of 1.1 is written again, on its own server or on another one, dropped first or not,
  -- whatever the user answers: afterwards each of its items that can be loaded is at the queue of
  -- the output server, in the new encoding and with its own priority, and no other key of that
  -- server has changed.
  pub encode_queue-Kept :
      (drop_queue : Bool) (queue spider site queue_word : String) (c : Cluster r) (l l' : Ranked)
      → split queue ≡ spider ∷ site ∷ queue_word ∷ []
      → as_zset (r.value (input r c) queue) ≡ some l
      → as_zset (r.value (output r c) queue) ≡ some l'
      → IsKept queue
          (cache r items domain suffix continue l)
          (output r c)
          (output r (cluster_of (encode_queue r items domain suffix continue drop_queue queue c)))
  encode_queue-Kept drop_queue queue spider site queue_word c l l' parts from to =
      let (l1, left, untouched) = dropped-zset drop_queue queue c l' to in
      let (new, there, ((all, _), frame)) =
        insert_items-Kept queue (cache r items domain suffix continue l)
          (if drop_queue then on_input r (r.delete queue) c else c) l1 left in
      rw (cluster_of-encode_queue drop_queue queue spider site queue_word c l parts from)
        (new, there, (all, λ k ne. frame k ne ∙ untouched k ne))
