-- ===== src/Rest/Tests.antt =====
-- Runs of the REST service at concrete inputs. A dict is a text, which is its own uuid and poll id;
-- its JSON has a brace in front.

use scrapy_cluster.Prelude.{
  ℕ, ◌*◌, zero, suc, String, ◌≡◌, refl, Bool, true, false, Option, none, some, List, [], ◌∷◌, arith,
  str_eq, lookup, if◌then◌else◌,
}
use scrapy_cluster.Redis.Memory.{memory, empty}
use scrapy_cluster.Throttle.{second}
use scrapy_cluster.Rest.{Json, response, found, Answer, failure, Service, body, coded}
use scrapy_cluster.Rest.Messages.{
  message, no_message, take_message, process_messages, Message, ConnectionState,
}
use scrapy_cluster.Rest.Answers.{last_answer}
use scrapy_cluster.Rest.Routes.{feed, feed_endpoint, poll_body, success, confirmed}
use scrapy_cluster.Rest.Delivery.{consumer, feed-Response, take_message-poll}
use scrapy_cluster.Rest.Statuses.{IsFeedAnswer, feed_endpoint-IsFeedAnswer}
use scrapy_cluster.Rest.Owners.{OwnResult, feed-Own}
use scrapy_cluster.Rest.Connections.{Attempt, raises, works, Connections}

abbrev id_of : String → Option String
id_of x = if str_eq x "" then none else some x

abbrev loads : String → Option String
loads String.[] = none
loads (String.◌∷◌ c s) = some s

abbrev json : Json
json = record {
  Doc = String;
  uuid = id_of;
  poll_id = id_of;
  loads = loads;
  dumps = λ s. String.◌∷◌ "{" s;
  loads-dumps = λ s. refl;
}

abbrev up : Service memory json
up = record {
  kafka_connected = true;
  redis_connected = true;
  closed = false;
  uuids = [];
  db = empty;
}

-- one turn of the loop in a second
abbrev clock : ℕ → ℕ
clock i = i * second

abbrev batches : ℕ → List Message
batches zero = message "{other" ∷ message "" ∷ []
batches (suc zero) = message "{a" ∷ no_message ∷ []
batches _ = []

abbrev ups : ℕ → Bool
ups i = true

abbrev conns : ℕ → List ConnectionState
conns i = []

feed-Response_example :
    (s' : Service memory json) × (feed memory json 5 3 0 clock confirmed
        (λ s. s)
        (consumer memory json 5 0 clock ups conns batches "a")
        "a"
        up
      ≡ some (success memory json (some (found (response "a"))), s'))
    × (lookup "a" s'.uuids ≡ none)
unfolding last_answer
feed-Response_example =
    feed-Response memory json 5 0 clock ups conns batches "a" 1 1 (λ s. s) "a" "a" up refl refl tt
      (refl, refl, tt) refl refl

take_message-poll_example :
    (s' : Service memory json) × (poll_body memory json true true "a"
        (take_message memory json true "a" up)
      ≡ (success memory json (some (found (response "a"))), s'))
    × (poll_body memory json true true "a" s'
        ≡ (coded (failure "Could not find matching poll_id") 404, s'))
take_message-poll_example = take_message-poll memory json "a" "a" up refl refl refl

feed_endpoint-IsFeedAnswer_example :
    (out : Answer String × Service memory json) × (feed_endpoint memory json 5 7 0 clock confirmed
        (λ s. s)
        (λ i s. s)
        (body "a")
        up
      ≡ some out)
    × IsFeedAnswer ((confirmed ≡ confirmed) × (up.kafka_connected ≡ true)) out.0
feed_endpoint-IsFeedAnswer_example =
    feed_endpoint-IsFeedAnswer memory json 5 0 clock (λ s. s) (λ i s. s) 6 7 refl (omega arith)
      confirmed (body "a") up

feed-Own_example : OwnResult memory json (some "a") (
    feed memory json 5 3 0 clock confirmed
      (λ s. s)
      (λ i s. process_messages memory json (ups i) (conns i) (batches i) s)
      "a"
      up)
feed-Own_example =
    feed-Own memory json 5 3 0 clock confirmed (λ s. s) (λ i s. s) ups conns batches "a" up
      (λ s h. h) (λ i s h. h) tt

abbrev fresh : Connections
fresh = record {
  closed = false;
  kafka_connected = false;
  redis_connected = false;
  consumer = none;
  producer = none;
  consuming = false;
  made = 0;
  shut = λ i. false;
}

abbrev setups : List (List (Bool × Attempt) × List (Bool × Attempt) × Bool)
setups =
    ((false, raises) ∷ (false, works) ∷ [], (false, works) ∷ [], false)
    ∷ ((false, works) ∷ [], (true, works) ∷ [], true)
    ∷ []
