-- ===== src/Queue/Refinement.antt =====
-- `RedisQueue` and `RedisStack` of utils/scutils/redis_queue.py against a plain queue and a plain
-- stack of items, over every sequence of pushes and pops.
use mathlib.Core.List.{map, reverse, reverse-cons, map-append, reverse-append}
use scrapy_cluster.Prelude.{
  ℕ, ◌≡◌, refl, ap, String, some, List, [], ◌∷◌, ◌++◌, ltb, Bool-cases, inl, inr, ◌∙◌,
}
use scrapy_cluster.Redis.{Redis}
use scrapy_cluster.Redis.Values.{as_list}
use scrapy_cluster.Queue.Codec.{Encoding}
use scrapy_cluster.Queue.{
  Popped, nothing, item, encode_item, decode_data, list_push, queue_pop, stack_pop,
}
use scrapy_cluster.Queue.Laws.{decode_data-encode_item, last?-snoc, all_but_last-snoc}

-- One call of a client: `push(item)` or `pop(timeout)`.
pub data Call (A : Type 0) : Type 0 where
  push : A → Call A
  pop : ℕ → Call A

module _ {A S : Type 0} (do_push : A → S → S) (do_pop : ℕ → S → Popped A × S) where
  -- The replies of the pops, and the state after the calls.
  unfoldable pub run : List (Call A) → S → List (Popped A) × S
  run [] s = ([], s)
  run (push a ∷ calls) s = run calls (do_push a s)
  run (pop t ∷ calls) s =
      let (reply, s') = do_pop t s in let (replies, s'') = run calls s' in (reply ∷ replies, s'')

module _ {A S T : Type 0} (push₁ : A → S → S) (pop₁ : ℕ → S → Popped A × S) (push₂ : A → T → T)
    (pop₂ : ℕ → T → Popped A × T) (R : S → T → Type 0)
    (push_sim : (a : A) (s : S) (t : T) → R s t → R (push₁ a s) (push₂ a t))
    (pop_sim : (n : ℕ) (s : S) (t : T)
      → R s t
      → ((pop₁ n s).0 ≡ (pop₂ n t).0) × R (pop₁ n s).1 (pop₂ n t).1) where
  run_sim :
      (calls : List (Call A)) (s : S) (t : T)
      → R s t
      → ((run push₁ pop₁ calls s).0 ≡ (run push₂ pop₂ calls t).0)
        × R (run push₁ pop₁ calls s).1 (run push₂ pop₂ calls t).1
  unfolding run
  run_sim [] s t h = (refl, h)
  run_sim (push a ∷ calls) s t h = run_sim calls (push₁ a s) (push₂ a t) (push_sim a s t h)
  run_sim (pop n ∷ calls) s t h =
      let step = pop_sim n s t h in
      let rest = run_sim calls (pop₁ n s).1 (pop₂ n t).1 step.1 in (cc (step.0, rest.0), rest.1)

-- A queue of items, the oldest first.
pub enqueue : {A : Type 0} → A → List A → List A
enqueue a q = q ++ a ∷ []

-- The oldest item of a queue, or the newest of a stack.
pub take_first : {A : Type 0} → ℕ → List A → Popped A × List A
take_first n [] = (nothing, [])
take_first n (a ∷ q) = (item a, q)

pub stack_up : {A : Type 0} → A → List A → List A
stack_up a q = a ∷ q

-- The calls of one client on an otherwise idle server.
abbrev pub alone : {A : Type 0} → A → A
alone d = d

module _ {A : Type 0} (e : Encoding A) (r : Redis) (key : String) where
  open r use {Db}

  -- The list at the key, newest first.
  abbrev pub HoldsQueue : Db → List A → Type 0
  HoldsQueue d q = as_list (r.value d key) ≡ some (reverse (map (encode_item e) q))

  abbrev pub HoldsStack : Db → List A → Type 0
  HoldsStack d q = as_list (r.value d key) ≡ some (map (encode_item e) q)

  brpop_alone :
      (t : ℕ) (d : Db) (l : List String)
      → as_list (r.value d key) ≡ some l
      → r.brpop key t alone d ≡ r.rpop key d
  brpop_alone t d [] h = r.brpop_waits key t alone d h
  brpop_alone t d (m ∷ l) h = r.brpop_ready key t alone d h

  blpop_alone :
      (t : ℕ) (d : Db) (l : List String)
      → as_list (r.value d key) ≡ some l
      → r.blpop key t alone d ≡ r.lpop key d
  blpop_alone t d [] h = r.blpop_waits key t alone d h
  blpop_alone t d (m ∷ l) h = r.blpop_ready key t alone d h

  queue_pop_lem :
      (t : ℕ) (d : Db) (l : List String)
      → as_list (r.value d key) ≡ some l
      → queue_pop e r key t alone d ≡ (decode_data e (r.rpop key d).0, (r.rpop key d).1)
  unfolding queue_pop
  queue_pop_lem t d l h = elim (Bool-cases (ltb 0 t)) [
    | inl blocks ↦ rw blocks (rw (brpop_alone t d l h))
    | inr at_once ↦ rw at_once
  ]

  stack_pop_lem :
      (t : ℕ) (d : Db) (l : List String)
      → as_list (r.value d key) ≡ some l
      → stack_pop e r key t alone d ≡ (decode_data e (r.lpop key d).0, (r.lpop key d).1)
  unfolding stack_pop
  stack_pop_lem t d l h = elim (Bool-cases (ltb 0 t)) [
    | inl blocks ↦ rw blocks (rw (blpop_alone t d l h))
    | inr at_once ↦ rw at_once
  ]

  push-HoldsQueue :
      (a : A) (d : Db) (q : List A)
      → HoldsQueue d q
      → HoldsQueue (list_push e r key a d) (enqueue a q)
  unfolding list_push enqueue
  push-HoldsQueue a d q h = rw (map-append, reverse-append) (r.lpush_lem key (encode_item e a) d h)

  pop-HoldsQueue :
      (n : ℕ) (d : Db) (q : List A)
      → HoldsQueue d q
      → ((queue_pop e r key n alone d).0 ≡ (take_first n q).0)
        × HoldsQueue (queue_pop e r key n alone d).1 (take_first n q).1
  unfolding take_first decode_data
  pop-HoldsQueue n d [] h =
      let popped = r.rpop_lem key d h in rw (queue_pop_lem n d [] h) (rw (popped.0), popped.1)
  pop-HoldsQueue n d (a ∷ q) h =
      let h' = rw reverse-cons at h in
      let popped = r.rpop_lem key d h' in
      rw (queue_pop_lem n d _ h) (
        rw (popped.0, last?-snoc) (decode_data-encode_item e a),
        popped.1 ∙ ap some (all_but_last-snoc _ _),
      )

  push-HoldsStack :
      (a : A) (d : Db) (q : List A)
      → HoldsStack d q
      → HoldsStack (list_push e r key a d) (stack_up a q)
  unfolding list_push stack_up
  push-HoldsStack a d q h = r.lpush_lem key (encode_item e a) d h

  pop-HoldsStack :
      (n : ℕ) (d : Db) (q : List A)
      → HoldsStack d q
      → ((stack_pop e r key n alone d).0 ≡ (take_first n q).0)
        × HoldsStack (stack_pop e r key n alone d).1 (take_first n q).1
  unfolding take_first decode_data
  pop-HoldsStack n d [] h =
      let popped = r.lpop_lem key d h in rw (stack_pop_lem n d [] h) (rw (popped.0), popped.1)
  pop-HoldsStack n d (a ∷ q) h =
      let popped = r.lpop_lem key d h in
      rw (stack_pop_lem n d _ h) (rw (popped.0) (decode_data-encode_item e a), popped.1)

  -- Run alone on a server whose list encodes the items of `q`, newest first, any sequence of pushes
  -- and pops (with any timeouts) of `RedisQueue` has the replies of a first-in first-out queue that
  -- begins as `q`, and leaves the list that encodes that queue's items.
  pub run-queue :
      (calls : List (Call A)) (d : Db) (q : List A)
      → HoldsQueue d q
      → ((run (list_push e r key) (λ n. queue_pop e r key n alone) calls d).0
          ≡ (run enqueue take_first calls q).0)
        × HoldsQueue
            (run (list_push e r key) (λ n. queue_pop e r key n alone) calls d).1
            (run enqueue take_first calls q).1
  run-queue =
      run_sim (list_push e r key) (λ n. queue_pop e r key n alone) enqueue take_first HoldsQueue
        push-HoldsQueue pop-HoldsQueue

  -- The same of `RedisStack` and a last-in first-out stack, whose items stand newest first.
  pub run-stack :
      (calls : List (Call A)) (d : Db) (q : List A)
      → HoldsStack d q
      → ((run (list_push e r key) (λ n. stack_pop e r key n alone) calls d).0
          ≡ (run stack_up take_first calls q).0)
        × HoldsStack
            (run (list_push e r key) (λ n. stack_pop e r key n alone) calls d).1
            (run stack_up take_first calls q).1
  run-stack =
      run_sim (list_push e r key) (λ n. stack_pop e r key n alone) stack_up take_first HoldsStack
        push-HoldsStack pop-HoldsStack
