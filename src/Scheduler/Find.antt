-- ===== src/Scheduler/Find.antt =====
-- `find_item` of the scheduler (crawler/crawling/distributed_scheduler.py): which queues it asks, and
-- how often.
use scrapy_cluster.Prelude.{
  All-map, ℕ, zero, suc, ◌+◌, ◌*◌, ◌≤◌, String, ◌≡◌, refl, ap, Bool, true, false, some, List, [],
  ◌∷◌, lookup, contains, str_eq, if◌then◌else◌, ◌∙◌, arith, length, is_some, Bool-cases, inl, inr,
  All, Option-cases,
}
use scrapy_cluster.Redis.{Redis}
use scrapy_cluster.Crawl.{Web}
use scrapy_cluster.Queue.{Popped, nothing, item, unloadable}
use scrapy_cluster.Queue.Codec.{Encoding}
use scrapy_cluster.Throttle.{Moment}
use scrapy_cluster.Throttle.Clock.{TimeText}
use scrapy_cluster.Scheduler.{Settings, Slot}
use scrapy_cluster.Scheduler.Queues.{domain_of_key}
use scrapy_cluster.Scheduler.Requests.{
  Found, found, no_item, no_queue, no_domain, no_json, Search, pop_slot, touch, visit, rounds,
  find_item,
}
use scrapy_cluster.Scheduler.Serving.{Has, insert-is_some}

-- The reply is none of the two exceptions of the table.
abbrev pub is_safe : {A : Type 0} → Found A → Bool
is_safe no_queue = false
is_safe no_domain = false
is_safe _ = true

-- how often a list has the key
abbrev pub times : String → List String → ℕ
times k [] = 0
times k (x ∷ l) = (if str_eq x k then 1 else 0) + times k l

module _ (cfg : Settings) (web : Web) (r : Redis) {A : Type 0} (e : Encoding A) (c : TimeText)
    (black_domains : List String) (clock : ℕ → Moment) where
  open r use {Db}

  -- The reply is safe, the pops are at most `n` more, those of each key at most `each` of it more, and
  -- the table has what it had.
  pub record Goes (n : ℕ) (each : String → ℕ) (s : Search cfg web r e c black_domains clock)
      (res : Found A × Search cfg web r e c black_domains clock) : Type 0 where
    pub safe : is_safe res.0 ≡ true
    pub bounded : res.1.pops ≤ s.pops + n
    pub fair : (k : String) → times k res.1.asked ≤ times k s.asked + each k
    pub keeps :
        (key : String)
        → is_some (lookup key s.queues) ≡ true
        → is_some (lookup key res.1.queues) ≡ true

  pop_slot-keeps :
      (key j : String) (slot : Slot) (s : Search cfg web r e c black_domains clock)
      → is_some (lookup j s.queues) ≡ true
      → is_some (lookup j (pop_slot cfg web r e c black_domains clock key slot s).1.queues) ≡ true
  unfolding pop_slot
  pop_slot-keeps key j slot s h = insert-is_some key j _ s.queues h

  pop_slot-pops :
      (key : String) (slot : Slot) (s : Search cfg web r e c black_domains clock)
      → (pop_slot cfg web r e c black_domains clock key slot s).1.pops ≡ s.pops + 1
  unfolding pop_slot
  pop_slot-pops key slot s = refl

  pop_slot-asked :
      (key : String) (slot : Slot) (s : Search cfg web r e c black_domains clock)
      → (pop_slot cfg web r e c black_domains clock key slot s).1.asked ≡ key ∷ s.asked
  unfolding pop_slot
  pop_slot-asked key slot s = refl

  touch-keeps :
      (now : ℕ) (key j : String) (s : Search cfg web r e c black_domains clock)
      → is_some (lookup j s.queues) ≡ true
      → is_some (lookup j (touch cfg web r e c black_domains clock now key s).queues) ≡ true
  unfolding touch
  touch-keeps now key j s h = grind (arith, insert-is_some key j)

  touch-pops :
      (now : ℕ) (key : String) (s : Search cfg web r e c black_domains clock)
      → (touch cfg web r e c black_domains clock now key s).pops ≡ s.pops
  unfolding touch
  touch-pops now key s = ground arith

  touch-asked :
      (now : ℕ) (key : String) (s : Search cfg web r e c black_domains clock)
      → (touch cfg web r e c black_domains clock now key s).asked ≡ s.asked
  unfolding touch
  touch-asked now key s = ground arith

  later :
      (n : ℕ) (each : String → ℕ) (s s' : Search cfg web r e c black_domains clock)
      (res : Found A × Search cfg web r e c black_domains clock) (m : ℕ) (all : String → ℕ)
      → ((j : String) → is_some (lookup j s.queues) ≡ true → is_some (lookup j s'.queues) ≡ true)
      → s'.pops + n ≤ s.pops + m
      → ((k : String) → times k s'.asked + each k ≤ times k s.asked + all k)
      → Goes n each s' res
      → Goes m all s res
  later n each s s' res m all grown more fairly goes = record {
    safe = goes.safe;
    bounded = omega (arith, goes.bounded);
    fair = λ k. omega (arith, goes.fair k, fairly k);
    keeps = λ j h. goes.keeps j (grown j h);
  }

  visit-Goes :
      (now : ℕ) (keys : List String) (s : Search cfg web r e c black_domains clock)
      → All (Has s.queues) keys
      → Goes
          (length keys)
          (λ k. times k keys)
          s
          (visit cfg web r e c black_domains clock now keys s)
  unfolding visit
  visit-Goes now [] s has = record {
    safe = refl;
    bounded = omega arith;
    fair = λ k. omega arith;
    keeps = λ key h. h;
  }
  visit-Goes now (key ∷ keys) s ((has_queue, has_domain), has) =
      elim (Option-cases (domain_of_key key)) [
        | inl absent ↦ cc (absent, has_domain)
        | inr (domain, present) ↦
            rw (visit, present)
              (elim (Bool-cases (contains domain black_domains)) [
                | inl black ↦ rw black (
                    later (length keys) (λ k. times k keys) s s _ (suc (length keys))
                      (λ k. times k (key ∷ keys)) (λ j h. h) (omega arith) (λ k. omega arith)
                      (visit-Goes now keys s has))
                | inr white ↦ rw white (elim (Option-cases (lookup key s.queues)) [
                  | inl absent ↦ cc (absent, has_queue)
                  | inr (slot, there) ↦ rw there (
                      popped slot (pop_slot cfg web r e c black_domains clock key slot s)
                        (pop_slot-pops key slot s) (pop_slot-asked key slot s)
                        (λ j h. pop_slot-keeps key j slot s h) (λ s'. visit-Goes now keys s'))
                ])
              ])
      ]
    where
      -- what the loop does with the reply of the pop
      popped :
          (slot : Slot) (res : Popped A × Search cfg web r e c black_domains clock)
          → res.1.pops ≡ s.pops + 1
          → res.1.asked ≡ key ∷ s.asked
          → ((j : String)
              → is_some (lookup j s.queues) ≡ true
              → is_some (lookup j res.1.queues) ≡ true)
          → ((s' : Search cfg web r e c black_domains clock)
              → All (Has s'.queues) keys
              → Goes
                  (length keys)
                  (λ k. times k keys)
                  s'
                  (visit cfg web r e c black_domains clock now keys s'))
          → Goes
              (suc (length keys))
              (λ k. times k (key ∷ keys))
              s
              (elim res.0 [
                | nothing ↦ visit cfg web r e c black_domains clock now keys res.1
                | item a ↦ (found a, touch cfg web r e c black_domains clock now key res.1)
                | unloadable ↦ (no_json, res.1)
              ])
      popped slot (nothing, s') once one grown rest =
          later (length keys) (λ k. times k keys) s s' _ (suc (length keys))
            (λ k. times k (key ∷ keys)) grown (omega arith) (λ k. omega (arith, ap (times k) one))
            (rest s' (All-map keys (λ j h. (grown j h.0, h.1)) has))
      popped slot (item a, s') once one grown rest = record {
        safe = refl;
        bounded = omega (arith, touch-pops now key s');
        fair = λ k. omega (arith, ap (times k) (touch-asked now key s' ∙ one));
        keeps = λ j h. touch-keeps now key j s' (grown j h);
      }
      popped slot (unloadable, s') once one grown rest = record {
        safe = refl;
        bounded = omega arith;
        fair = λ k. omega (arith, ap (times k) one);
        keeps = grown;
      }

  rounds-Goes :
      (n now : ℕ) (keys : List String) (s : Search cfg web r e c black_domains clock)
      → All (Has s.queues) keys
      → Goes
          (n * length keys)
          (λ k. n * times k keys)
          s
          (rounds cfg web r e c black_domains clock n now keys s)
  unfolding rounds
  rounds-Goes zero now keys s has = record {
    safe = refl;
    bounded = omega arith;
    fair = λ k. omega arith;
    keeps = λ key h. h;
  }
  rounds-Goes (suc n) now keys s has =
      again (visit cfg web r e c black_domains clock now keys s) (visit-Goes now keys s has)
        (λ s'. rounds-Goes n now keys s')
    where
      again :
          (res : Found A × Search cfg web r e c black_domains clock)
          → Goes (length keys) (λ k. times k keys) s res
          → ((s' : Search cfg web r e c black_domains clock)
              → All (Has s'.queues) keys
              → Goes
                  (n * length keys)
                  (λ k. n * times k keys)
                  s'
                  (rounds cfg web r e c black_domains clock n now keys s'))
          → Goes
              (suc n * length keys)
              (λ k. suc n * times k keys)
              s
              (elim res.0 [
                | no_item ↦ rounds cfg web r e c black_domains clock n now keys res.1
                | other ↦ (other, res.1)
              ])
      again (no_item, s') goes rest =
          later (n * length keys) (λ k. n * times k keys) s s' _ (suc n * length keys)
            (λ k. suc n * times k keys) goes.keeps (omega (arith, goes.bounded))
            (λ k. omega (arith, goes.fair k))
            (rest s' (All-map keys (λ j h. (goes.keeps j h.0, h.1)) has))
      again (found a, s') goes rest =
          later (length keys) (λ k. times k keys) s s _ _ (λ k. suc n * times k keys) (λ j h. h)
            (omega arith) (λ k. omega arith) goes
      again (no_json, s') goes rest =
          later (length keys) (λ k. times k keys) s s _ _ (λ k. suc n * times k keys) (λ j h. h)
            (omega arith) (λ k. omega arith) goes
      again (no_queue, s') goes rest = cc (goes.safe)
      again (no_domain, s') goes rest = cc (goes.safe)

  -- If every key has a queue and a domain, and the shuffled list has no key twice: `find_item`
  -- raises no KeyError and no IndexError, makes at most `item_retries + 1` throttled pops of each
  -- key before it answers, and loses no queue of the table.
  pub find_item-Goes :
      (now : ℕ) (keys : List String) (s : Search cfg web r e c black_domains clock)
      → All (Has s.queues) keys
      → ((k : String) → times k keys ≤ 1)
      → Goes
          ((cfg.item_retries + 1) * length keys)
          (λ k. cfg.item_retries + 1)
          s
          (find_item cfg web r e c black_domains clock now keys s)
  unfolding find_item
  find_item-Goes now keys s has once =
      later (suc cfg.item_retries * length keys) (λ k. suc cfg.item_retries * times k keys) s s _ _
        (λ k. cfg.item_retries + 1) (λ j h. h) (omega arith)
        (λ k. at_most cfg.item_retries (times k keys) (times k s.asked) (once k))
        (rounds-Goes (suc cfg.item_retries) now keys s has)
    where
      at_most : (n t x : ℕ) → t ≤ 1 → x + suc n * t ≤ x + (n + 1)
      at_most n zero x h = omega arith
      at_most n (suc zero) x h = omega arith
      at_most n (suc (suc t)) x h = absurd (omega (arith, h))

  -- The domain of the key is on the blacklist of the configuration.
  abbrev pub IsBlack : String → Type 0
  IsBlack key =
      (domain : String) × (domain_of_key key ≡ some domain) × (contains domain black_domains ≡ true)

  visit_black :
      (now : ℕ) (keys : List String) (s : Search cfg web r e c black_domains clock)
      → All IsBlack keys
      → visit cfg web r e c black_domains clock now keys s ≡ (no_item, s)
  unfolding visit
  visit_black now [] s black = refl
  visit_black now (key ∷ keys) s ((domain, present, listed), black) =
      rw (visit, present) (rw listed (visit_black now keys s black))

  rounds_black :
      (n now : ℕ) (keys : List String) (s : Search cfg web r e c black_domains clock)
      → All IsBlack keys
      → rounds cfg web r e c black_domains clock n now keys s ≡ (no_item, s)
  unfolding rounds
  rounds_black zero now keys s black = refl
  rounds_black (suc n) now keys s black =
      rw (rounds, visit_black now keys s black, ap (λ p. p.1) (visit_black now keys s black))
        (rounds_black n now keys s black)

  -- While the domains of all keys are on the blacklist, `find_item` gives nothing and leaves the
  -- database and the table as they are: not even a hit is counted.
  pub find_item_black :
      (now : ℕ) (keys : List String) (s : Search cfg web r e c black_domains clock)
      → All IsBlack keys
      → find_item cfg web r e c black_domains clock now keys s ≡ (no_item, s)
  unfolding find_item
  find_item_black now keys s black = rounds_black (suc cfg.item_retries) now keys s black
