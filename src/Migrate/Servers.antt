-- ===== src/Migrate/Servers.antt =====
-- What a migration from 1.0 between two servers leaves undone (migrate.py).
use scrapy_cluster.Prelude.{
  String, Bool, ◌≡◌, refl, ap, ◌∙◌, true, false, none, List, [], ◌∷◌, Option-cases, Bool-cases,
  str_eq, eq_iff, subst, inl, inr, if◌then◌else◌,
}
use scrapy_cluster.Text.{split}
use scrapy_cluster.Redis.{Redis}
use scrapy_cluster.Redis.Values.{Ranked}
use scrapy_cluster.Migrate.{
  Items, Cluster, one, two, input, on_input, on_output, Run, goes, ended, and_then_run, split_items,
  split_spider, split_parts, split_queue, split_queues, encode_queues, migrate,
}

module _ (r : Redis) {A : Type 0} (items : Items A) (domain suffix : String → String)
    (continue : String → Bool) (old_keys queue_keys : r.Db → List String)
    (new_keys : String → r.Db → List String) where
  open r use {Db}

  -- the second server has no key that the first one does not have
  abbrev pub IsWithin : Db → Db → Type 0
  IsWithin a d = (k : String) → r.value a k ≡ none → r.value d k ≡ none

  -- the input is a server of its own, with none but its first keys
  abbrev IsBehind : Db → Cluster r → Type 0
  IsBehind a (one d) = ⊥
  IsBehind a (two d e) = IsWithin a d

  abbrev RunsBehind : Db → Run r → Type 0
  RunsBehind a (goes c) = IsBehind a c
  RunsBehind a (ended c) = IsBehind a c

  on_output-IsBehind :
      (a : Db) (f : Db → Db) (c : Cluster r) → IsBehind a c → IsBehind a (on_output r f c)
  on_output-IsBehind a f (one d) h = h
  on_output-IsBehind a f (two d e) h = h

  delete-IsWithin : (a : Db) (key : String) (d : Db) → IsWithin a d → IsWithin a (r.delete key d)
  delete-IsWithin a key d h k away = elim (Bool-cases (str_eq key k)) [
    | inl same ↦
        subst (λ j. r.value (r.delete key d) j ≡ none) ((eq_iff key k).0 same) (r.delete_lem key d)
    | inr other ↦ r.delete_ne key k d (λ same. cc (other, (eq_iff key k).1 same)) ∙ h k away
  ]

  delete-IsBehind :
      (a : Db) (key : String) (c : Cluster r)
      → IsBehind a c
      → IsBehind a (on_input r (r.delete key) c)
  delete-IsBehind a key (one d) h = h
  delete-IsBehind a key (two d e) h = delete-IsWithin a key d h

  if-RunsBehind :
      (a : Db) (same agreed : Bool) (key : String) (c : Cluster r)
      → IsBehind a c
      → RunsBehind a
          (if same then goes (on_input r (r.delete key) c) else if agreed then goes c else ended c)
  if-RunsBehind a true agreed key c h = delete-IsBehind a key c h
  if-RunsBehind a false true key c h = h
  if-RunsBehind a false false key c h = h

  split_items-IsBehind :
      (a : Db) (l : Ranked) (c : Cluster r)
      → IsBehind a c
      → IsBehind a (split_items r items domain suffix continue l c)
  unfolding split_items
  split_items-IsBehind a [] c h = h
  split_items-IsBehind a ((item_key, score) ∷ l) c h = elim (Option-cases (items.loads item_key)) [
    | inl unloadable ↦ rw (unloadable, split_items) (split_items-IsBehind a l c h)
    | inr (x, loaded) ↦
        rw (loaded, split_items) (split_items-IsBehind a l _ (on_output-IsBehind a _ c h))
  ]

  split_parts-RunsBehind :
      (a : Db) (queue : String) (parts : List String) (c : Cluster r)
      → IsBehind a c
      → RunsBehind a (split_parts r items domain suffix continue new_keys queue parts c)
  unfolding split_parts split_spider
  split_parts-RunsBehind a queue [] c h = h
  split_parts-RunsBehind a queue (part ∷ []) c h = h
  split_parts-RunsBehind a queue (spider ∷ queue_word ∷ []) c h =
      if-RunsBehind a _ (continue queue) queue _
        (split_items-IsBehind a (r.zrange queue (input r c)) c h)
  split_parts-RunsBehind a queue (part ∷ other ∷ another ∷ parts) c h = h

  and_then_run-RunsBehind :
      (a : Db) (run : Run r) (f : Cluster r → Run r)
      → RunsBehind a run
      → ((c : Cluster r) → IsBehind a c → RunsBehind a (f c))
      → RunsBehind a (and_then_run r run f)
  and_then_run-RunsBehind a (goes c) f h g = g c h
  and_then_run-RunsBehind a (ended c) f h g = h

  split_queues-RunsBehind :
      (a : Db) (queues : List String) (c : Cluster r)
      → IsBehind a c
      → RunsBehind a (split_queues r items domain suffix continue new_keys queues c)
  unfolding split_queues split_queue
  split_queues-RunsBehind a [] c h = h
  split_queues-RunsBehind a (queue ∷ queues) c h =
      and_then_run-RunsBehind a _ _ (split_parts-RunsBehind a queue (split queue) c h)
        (split_queues-RunsBehind a queues)

  -- the second stage after a run that leaves the input behind
  abbrev encodes : Bool → Cluster r → Run r
  encodes drop_queue c =
      encode_queues r items domain suffix continue drop_queue (queue_keys (input r c)) c

  encodes-goes :
      (a : Db) (drop_queue : Bool) (run : Run r)
      → ((d : Db) → IsWithin a d → queue_keys d ≡ [])
      → RunsBehind a run
      → and_then_run r run (encodes drop_queue) ≡ and_then_run r run goes
  unfolding encode_queues
  encodes-goes a drop_queue (ended c) empty h = refl
  encodes-goes a drop_queue (goes (one d)) empty h = absurd h
  encodes-goes a drop_queue (goes (two d e)) empty h =
      ap (λ keys. encode_queues r items domain suffix continue drop_queue keys (two d e))
        (empty d h)

  -- From 1.0 to 1.2 between two servers, where the input server has no queue of 1.1 and KEYS finds
  -- none on a server with no more keys: the migration is the one to 1.1. The queues that it has just
  -- written to the output server stay in the old encoding.
  pub migrate-same :
      (drop_queue : Bool) (a b : Db)
      → ((d : Db) → IsWithin a d → queue_keys d ≡ [])
      → migrate r items domain suffix continue old_keys queue_keys new_keys 10 12 drop_queue
          (two a b)
        ≡ migrate r items domain suffix continue old_keys queue_keys new_keys 10 11 drop_queue
            (two a b)
  unfolding migrate
  migrate-same drop_queue a b empty =
      encodes-goes a drop_queue _ empty
        (split_queues-RunsBehind a (old_keys a) (two a b) (λ k away. away))
