-- ===== src/Rest.antt =====
-- The REST service: rest/rest_service.py. This file is about its state, the answers and the route
-- decorators; the children have the messages from Kafka, the routes, and the connections.
pub mod Messages
pub mod Answers
pub mod Routes
pub mod Waiting
pub mod Delivery
pub mod Statuses
pub mod Owners
pub mod Connections
mod Tests
use scrapy_cluster.Prelude.{
  ℕ, String, Bool, true, false, ◌&&◌, ◌||◌, Option, none, some, ◌≡◌, ◌⊎◌, inl, inr, str_eq, Dict,
  if◌then◌else◌,
}
use scrapy_cluster.Redis.{Redis}

-- Python's json, which the service uses and does not implement: the dicts, the fields that the
-- service reads, and the texts
pub record Json : Type 1 where
  pub Doc : Type 0
  pub uuid : Doc → Option String
  pub poll_id : Doc → Option String
  pub loads : String → Option Doc
  pub dumps : Doc → String
  pub loads-dumps : (x : Doc) → loads (dumps x) ≡ some x

-- what is known of a request that waits: None, 'poll', or the dict of its response
pub data Slot (D : Type 0) : Type 0 where
  waiting : Slot D
  poll : Slot D
  response : D → Slot D

-- the data of an answer: a slot's contents, a poll id, or the dict of `index`
pub data Payload (D : Type 0) : Type 0 where
  found : Slot D → Payload D
  poll_later : String → Payload D
  node : Bool → Bool → ℕ → String → Payload D

pub record Error : Type 0 where
  pub message : Option String
  pub cause : Option String

pub record Ret (D : Type 0) : Type 0 where
  pub status : String
  pub payload : Option (Payload D)
  pub error : Option Error

-- what a route returns: a dict, a dict with a code, or an exception
pub data Returned (D : Type 0) : Type 0 where
  plain : Ret D → Returned D
  coded : Ret D → ℕ → Returned D
  index_data : Payload D → Returned D
  raised : Returned D

-- what the client gets: a dict with its code
pub data Answer (D : Type 0) : Type 0 where
  answer : Ret D → ℕ → Answer D
  node_answer : Payload D → ℕ → Answer D

-- what request.get_json gives: BadRequest, None, or a dict
pub data Body (D : Type 0) : Type 0 where
  bad_request : Body D
  null : Body D
  body : D → Body D

-- _create_ret_object
unfoldable pub create_ret_object :
    {D : Type 0} → String → Option (Payload D) → Bool → Option String → Option String → Ret D
create_ret_object status payload error message cause = record {
  status = if str_eq status "FAILURE" then "FAILURE" else "SUCCESS";
  payload = payload;
  error = if error then some (record { message = message; cause = cause }) else none;
}

abbrev pub failure : {D : Type 0} → String → Ret D
failure message = create_ret_object "FAILURE" none true (some message) none

module _ {D : Type 0} where
  -- error_catch
  unfoldable pub error_catch : Returned D → Answer D
  error_catch (plain ret) = answer ret 200
  error_catch (coded ret code) = answer ret code
  error_catch (index_data p) = node_answer p 200
  error_catch raised = answer (failure "An error occurred while processing your request.") 500

  -- validate_json around a route; `reply` takes an answer to what the route results in
  module _ {S R : Type 0} (reply : Answer D × S → R) where
    unfoldable pub validate_json : (D → S → R) → Body D → S → R
    validate_json f bad_request s =
        reply (answer (failure "The payload must be valid JSON.") 400, s)
    validate_json f null s = reply (answer (failure "The payload must be valid JSON.") 400, s)
    validate_json f (body x) s = f x s

  module _ {S : Type 0} where
    -- the end of validate_schema: a ValidationError with its message, or the dict with its defaults
    unfoldable pub after_validation : (D → S → Answer D × S) → String ⊎ D → S → Answer D × S
    after_validation f (inl message) s = (
      answer
          (create_ret_object "FAILURE" none true (some "JSON did not validate against schema.")
            (some message))
          400,
      s,
    )
    after_validation f (inr x) s = f x s

    -- validate_schema around a route, over the validator
    unfoldable pub validate_schema :
        (D → String ⊎ D) → (D → S → Answer D × S) → D → S → Answer D × S
    validate_schema validate f x s = after_validation f (validate x) s

module _ (r : Redis) (j : Json) where
  open r use {Db}
  open j use {Doc}

  -- the attributes that the threads share, and the Redis server
  pub record Service : Type 0 where
    pub kafka_connected : Bool
    pub redis_connected : Bool
    pub closed : Bool
    pub uuids : Dict (Slot Doc)
    pub db : Db

  -- the assignment of _spawn_redis_connection_thread; the thread that it starts is _setup_redis
  unfoldable pub spawn_redis : Service → Service
  spawn_redis s = record s { redis_connected = false }

  -- the assignment of _spawn_kafka_connection_thread
  unfoldable pub spawn_kafka : Service → Service
  spawn_kafka s = record s { kafka_connected = false }

  -- _calculate_health
  unfoldable pub calculate_health : Service → String
  calculate_health s =
      if s.redis_connected && s.kafka_connected
      then "GREEN"
      else if s.redis_connected || s.kafka_connected
      then "YELLOW"
      else "RED"
