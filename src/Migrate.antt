-- ===== src/Migrate.antt =====
-- The migration of the queues between versions of the cluster: migrate.py. Versions are in tenths.
-- What KEYS finds is an argument, and so are the encodings and the fields of an item; an item has
-- the fields, as every request of the cluster has.
pub mod Kept
pub mod Servers
mod Tests
use Prim.Native.String.{◌++◌}
use scrapy_cluster.Prelude.{
  ℕ, ◌+◌, String, Bool, true, false, not, ◌&&◌, Option, none, some, List, [], ◌∷◌, str_eq, ltb, leb,
  ◌==◌, if◌then◌else◌,
}
use scrapy_cluster.Prelude.Int.{ℤ, neg}
use scrapy_cluster.Text.{split}
use scrapy_cluster.Redis.{Redis}
use scrapy_cluster.Redis.Values.{Ranked}

-- the encodings that the script uses: pickle's, and the text of ujson; and an item's fields
pub record Items (A : Type 0) : Type 0 where
  pub loads : String → Option A
  pub pickled : A → String
  pub dumps : A → String
  pub url : A → String
  pub spiderid : A → String
  pub priority : A → ℤ

-- the answers to a question
abbrev pub valid : String → Option Bool
valid choice =
    if str_eq choice "yes"
    then some true
    else if str_eq choice "y"
    then some true
    else if str_eq choice "ye"
    then some true
    else if str_eq choice "no"
    then some false
    else if str_eq choice "n"
    then some false
    else none

-- query_yes_no with its default, over the lines that are typed; none is the end of the input
unfoldable pub query_yes_no : (lower : String → String) → List String → Option Bool
query_yes_no lower [] = none
query_yes_no lower (line ∷ lines) =
    let rest = query_yes_no lower lines in
    let choice = lower line in
    if str_eq choice ""
    then some true
    else elim (valid choice) [ none ↦ rest | some result ↦ some result ]

-- how the script ends before its work
pub data Start : Type 0 where
  -- vprint is not there yet: an UnboundLocalError
  downgrade : Start
  declined : Start
  begun : (drop_queue : Bool) → Start

-- the checks before the migration; `same` says that all settings of the two servers are equal, and
-- `agreed` is the answer to the question, or true where -y is given
unfoldable pub start : (start_version end_version : ℕ) → (same agreed : Bool) → Start
start start_version end_version same agreed =
    if ltb end_version start_version
    then downgrade
    else if same && leb 12 end_version
    then if agreed then begun true else declined
    else begun false

module _ (r : Redis) where
  open r use {Db}

  -- the input and the output server, which may be one
  pub data Cluster : Type 0 where
    one : Db → Cluster
    two : (input : Db) → (output : Db) → Cluster

  abbrev pub input : Cluster → Db
  input (one d) = d
  input (two d e) = d

  abbrev pub output : Cluster → Db
  output (one d) = d
  output (two d e) = e

  abbrev pub on_input : (Db → Db) → Cluster → Cluster
  on_input f (one d) = one (f d)
  on_input f (two d e) = two (f d) e

  abbrev pub on_output : (Db → Db) → Cluster → Cluster
  on_output f (one d) = one (f d)
  on_output f (two d e) = two d (f e)

  -- a migration goes on, or the user ends it
  pub data Run : Type 0 where
    goes : Cluster → Run
    ended : Cluster → Run

  abbrev pub and_then_run : Run → (Cluster → Run) → Run
  and_then_run (goes c) f = f c
  and_then_run (ended c) f = ended c

  abbrev pub cards : List String → Db → ℕ
  cards [] d = 0
  cards (key ∷ keys) d = r.zcard key d + cards keys d

  module _ {A : Type 0} (items : Items A) (domain suffix : String → String)
      (continue : String → Bool) where
    -- the key of an item's new queue
    unfoldable pub split_key : A → String
    split_key x =
        items.spiderid x
        ++ (":" ++ (domain (items.url x) ++ ("." ++ (suffix (items.url x) ++ ":queue"))))

    -- the loop over a queue of 1.0
    unfoldable pub split_items : Ranked → Cluster → Cluster
    split_items [] c = c
    split_items ((item_key, score) ∷ l) c = elim (items.loads item_key) [
      | none ↦ split_items l c
      | some x ↦
          split_items l
            (on_output (r.zadd (split_key x) (neg (items.priority x)) (items.pickled x)) c)
    ]

    -- the work on a queue of 1.0; `new_keys` is what KEYS of the spider finds on the output server
    unfoldable pub split_spider : (String → Db → List String) → String → String → Cluster → Run
    split_spider new_keys queue spider c =
        let old_count = r.zcard queue (input c) in
        let c' = split_items (r.zrange queue (input c)) c in
        let new_count = cards (new_keys spider (output c')) (input c') in
        if new_count == old_count
        then goes (on_input (r.delete queue) c')
        else if continue queue
        then goes c'
        else ended c'

    -- the test of a key's parts, `len(elements) == 2`
    unfoldable pub split_parts : (String → Db → List String) → String → List String → Cluster → Run
    split_parts new_keys queue (spider ∷ queue_word ∷ []) c = split_spider new_keys queue spider c
    split_parts new_keys queue [] c = goes c
    split_parts new_keys queue (part ∷ []) c = goes c
    split_parts new_keys queue (part ∷ other ∷ another ∷ parts) c = goes c

    unfoldable pub split_queue : (String → Db → List String) → String → Cluster → Run
    split_queue new_keys queue c = split_parts new_keys queue (split queue) c

    unfoldable pub split_queues : (String → Db → List String) → List String → Cluster → Run
    split_queues new_keys [] c = goes c
    split_queues new_keys (queue ∷ queues) c =
        and_then_run (split_queue new_keys queue c) (split_queues new_keys queues)

    -- the items of a queue of 1.1 that are loaded
    unfoldable pub cache : Ranked → List A
    cache [] = []
    cache ((item_key, score) ∷ l) = elim (items.loads item_key) [
      | none ↦ cache l
      | some x ↦ x ∷ cache l
    ]

    -- the cached items are inserted again
    unfoldable pub insert_items : String → List A → Cluster → Cluster
    insert_items queue [] c = c
    insert_items queue (x ∷ xs) c =
        insert_items queue xs (on_output (r.zadd queue (neg (items.priority x)) (items.dumps x)) c)

    -- one queue of 1.1
    unfoldable pub encode_queue : Bool → String → Cluster → Run
    encode_queue drop_queue queue c = elim (split queue) [
      | spider ∷ site ∷ queue_word ∷ [] ↦
          let old_count = r.zcard queue (input c) in
          let cached = cache (r.zrange queue (input c)) in
          let c' = if drop_queue then on_input (r.delete queue) c else c in
          let c'' = insert_items queue cached c' in
          if r.zcard queue (output c'') == old_count
          then goes c''
          else if continue queue
          then goes c''
          else ended c''
      | _ ↦ goes c
    ]

    unfoldable pub encode_queues : Bool → List String → Cluster → Run
    encode_queues drop_queue [] c = goes c
    encode_queues drop_queue (queue ∷ queues) c =
        and_then_run (encode_queue drop_queue queue c) (encode_queues drop_queue queues)

    -- both stages, over what KEYS finds on the input server for "*:queue" and "*:*:queue"
    unfoldable pub migrate :
        (Db → List String)
        → (Db → List String)
        → (String → Db → List String)
        → ℕ
        → ℕ
        → Bool
        → Cluster
        → Run
    migrate old_keys queue_keys new_keys current_version end_version drop_queue c =
        let splits = (current_version == 10) && ltb current_version end_version in
        let version = if splits then 11 else current_version in
        let first = if splits then split_queues new_keys (old_keys (input c)) c else goes c in
        and_then_run first (λ c'.
          if (version == 11) && ltb version end_version
          then encode_queues drop_queue (queue_keys (input c')) c'
          else goes c')
