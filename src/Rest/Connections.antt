-- ===== src/Rest/Connections.antt =====
-- The connections of the REST service and its end (rest/rest_service.py: _setup_redis, _setup_kafka,
-- _create_consumer, _create_producer, _close_thread, close). The clients are numbered.
use scrapy_cluster.Prelude.{
  ℕ, ◌+◌, ◌<◌, ◌≡◌, ◌⊎◌, inl, inr, Bool, true, false, not, Option, none, some, List, [], ◌∷◌, arith,
  ◌==◌, if◌then◌else◌,
}

-- how one attempt to create a client ends: it raises, a setting is missing (a KeyError), or it works
pub data Attempt : Type 0 where
  raises : Attempt
  missing_setting : Attempt
  works : Attempt

pub record Connections : Type 0 where
  pub closed : Bool
  pub kafka_connected : Bool
  pub redis_connected : Bool
  pub consumer : Option ℕ
  pub producer : Option ℕ
  -- the consumer thread was started
  pub consuming : Bool
  -- the clients made so far, and those of them that were closed
  pub made : ℕ
  pub shut : ℕ → Bool

abbrev pub shut_also : Option ℕ → (ℕ → Bool) → ℕ → Bool
shut_also none shut i = shut i
shut_also (some c) shut i = if i == c then true else shut i

-- _create_consumer and _create_producer under their `retry`: each attempt looks at `closed` first,
-- which another thread may have set by then. The attempts end with one that does not raise.
unfoldable pub create_client : List (Bool × Attempt) → ℕ → Option ℕ × ℕ
create_client [] made = (none, made)
create_client ((true, attempt) ∷ attempts) made = (none, made)
create_client ((false, raises) ∷ attempts) made = create_client attempts made
create_client ((false, missing_setting) ∷ attempts) made = (none, made)
create_client ((false, works) ∷ attempts) made = (some made, made + 1)

-- the first part of _setup_kafka
unfoldable pub close_older : Connections → Connections
close_older c = record c {
  consumer = none;
  producer = none;
  shut = shut_also c.producer (shut_also c.consumer c.shut);
  consuming = false;
}

-- _setup_kafka; `closed` is what the attribute is after the producer is there
unfoldable pub setup_kafka :
    List (Bool × Attempt) → List (Bool × Attempt) → Bool → Connections → Connections
setup_kafka for_consumer for_producer closed c =
    let c' = close_older c in
    let (consumer, made) = create_client for_consumer c'.made in
    let (producer, made') = create_client for_producer made in
    record c' {
      closed = closed;
      consumer = consumer;
      producer = producer;
      made = made';
      kafka_connected = if closed then c'.kafka_connected else true;
      consuming = not closed;
    }

-- _setup_redis under its `retry`
unfoldable pub setup_redis : List (Bool × Attempt) → Connections → Connections
setup_redis [] c = c
setup_redis ((true, attempt) ∷ attempts) c = c
setup_redis ((false, raises) ∷ attempts) c = setup_redis attempts c
setup_redis ((false, missing_setting) ∷ attempts) c = c
setup_redis ((false, works) ∷ attempts) c = record c { redis_connected = true }

-- _close_thread: whether it warns that the thread runs on; `running` is what isAlive says before and
-- after the join
unfoldable pub close_thread : Option (Bool × Bool) → Bool
close_thread none = false
close_thread (some (false, still_running)) = false
close_thread (some (true, still_running)) = still_running

-- close, once its threads were joined; the attributes keep the clients
unfoldable pub close : Connections → Connections
close c = record c { closed = true; shut = shut_also c.producer (shut_also c.consumer c.shut) }

-- the setups that the connection threads run, one after another
unfoldable pub run_setups :
    List (List (Bool × Attempt) × List (Bool × Attempt) × Bool) → Connections → Connections
run_setups [] c = c
run_setups ((for_consumer, for_producer, closed) ∷ setups) c =
    run_setups setups (setup_kafka for_consumer for_producer closed c)

-- every client that was made is closed, or is the consumer or the producer
abbrev pub IsAccounted : Connections → Type 0
IsAccounted c =
    (i : ℕ) → i < c.made → (c.shut i ≡ true) ⊎ ((c.consumer ≡ some i) ⊎ (c.producer ≡ some i))

create_client-made :
    (attempts : List (Bool × Attempt)) (made i : ℕ)
    → i < (create_client attempts made).1
    → (i < made) ⊎ ((create_client attempts made).0 ≡ some i)
unfolding create_client
create_client-made [] made i h = inl h
create_client-made ((true, a) ∷ attempts) made i h = inl h
create_client-made ((false, raises) ∷ attempts) made i h = create_client-made attempts made i h
create_client-made ((false, missing_setting) ∷ attempts) made i h = inl h
create_client-made ((false, works) ∷ attempts) made i h = ground arith

shut_also_lem :
    (o : Option ℕ) (shut : ℕ → Bool) (i : ℕ)
    → (o ≡ some i) ⊎ (shut i ≡ true)
    → shut_also o shut i ≡ true
shut_also_lem none shut i h = ground arith
shut_also_lem (some c) shut i h = ground arith

all_shut :
    (c : Connections) (i : ℕ)
    → (c.shut i ≡ true) ⊎ ((c.consumer ≡ some i) ⊎ (c.producer ≡ some i))
    → shut_also c.producer (shut_also c.consumer c.shut) i ≡ true
all_shut c i (inl h) =
    shut_also_lem c.producer _ i (inr (shut_also_lem c.consumer c.shut i (inr h)))
all_shut c i (inr (inl h)) =
    shut_also_lem c.producer _ i (inr (shut_also_lem c.consumer c.shut i (inl h)))
all_shut c i (inr (inr h)) = shut_also_lem c.producer _ i (inl h)

-- However the attempts end, and whenever the service is closed: a new setup loses no client.
pub setup_kafka-IsAccounted :
    (for_consumer for_producer : List (Bool × Attempt)) (closed : Bool) (c : Connections)
    → IsAccounted c
    → IsAccounted (setup_kafka for_consumer for_producer closed c)
unfolding setup_kafka close_older
setup_kafka-IsAccounted for_consumer for_producer closed c h i below =
    elim (create_client-made for_producer (create_client for_consumer c.made).1 i below) [
      | inr e ↦ inr (inr e)
      | inl less ↦ elim (create_client-made for_consumer c.made i less) [
        | inr e ↦ inr (inl e)
        | inl old ↦ inl (all_shut c i (h i old))
      ]
    ]

run_setups-IsAccounted :
    (setups : List (List (Bool × Attempt) × List (Bool × Attempt) × Bool)) (c : Connections)
    → IsAccounted c
    → IsAccounted (run_setups setups c)
unfolding run_setups
run_setups-IsAccounted [] c h = h
run_setups-IsAccounted ((for_consumer, for_producer, closed) ∷ setups) c h =
    run_setups-IsAccounted setups (setup_kafka for_consumer for_producer closed c)
      (setup_kafka-IsAccounted for_consumer for_producer closed c h)

-- After any number of setups, `close` leaves no client open.
pub close-shut :
    (setups : List (List (Bool × Attempt) × List (Bool × Attempt) × Bool)) (c : Connections)
    → IsAccounted c
    → (i : ℕ) → i < (close (run_setups setups c)).made
    → (close (run_setups setups c)).shut i ≡ true
unfolding close
close-shut setups c h i below =
    all_shut (run_setups setups c) i (run_setups-IsAccounted setups c h i below)
