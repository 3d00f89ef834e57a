-- ===== src/Emit.antt =====
-- What the crawler sends out and counts: crawler/crawling/pipelines.py, redis_stats_middleware.py and
-- log_retry_middleware.py.
pub mod Sending
pub mod Codes
mod Tests
use Prim.Native.String.{◌++◌}
use scrapy_cluster.Prelude.{
  ℕ, ◌+◌, String, Bool, true, false, not, ◌&&◌, Option, none, some, List, [], ◌∷◌, str_eq, is_some,
  Dict, lookup, insert, erase, if◌then◌else◌,
}
use scrapy_cluster.Statistics.Queues.{and_then}

-- the values of an item's dict that the pipelines write
pub data Val : Type 0 where
  text : String → Val
  flag : Bool → Val

abbrev pub Datum : Type 0
Datum = Dict Val

-- del d[k]; none is a KeyError
abbrev pub del : String → Datum → Option Datum
del k d = if is_some (lookup k d) then some (erase k d) else none

abbrev pub del_all : List String → Datum → Option Datum
del_all [] d = some d
del_all (k ∷ ks) d = and_then (del k d) (del_all ks)

-- LoggingBeforePipeline.process_item: the extras that are logged, none for an item of another class
-- or inside for a KeyError, and the item that is passed on
unfoldable pub logged_before : String → String → Bool → Datum → Option Datum × Option Datum
logged_before logger spiderid is_raw item =
    if is_raw
    then (
      and_then (del_all ("body" ∷ "links" ∷ "response_headers" ∷ "request_headers" ∷ []) item)
          (λ copy. some (
            insert "spiderid" (text spiderid)
              (insert "action" (text "emit") (insert "logger" (text logger) copy)))),
      some item,
    )
    else (none, none)

-- KafkaPipeline._clean_item; none is a KeyError
unfoldable pub clean_item : String → Datum → Option Datum
clean_item logger item =
    and_then
      (del_all
        ("body" ∷ "links" ∷ "response_headers" ∷ "request_headers" ∷ "status_code" ∷ "status_msg"
          ∷ [])
        item)
      (λ copy. some (insert "logger" (text logger) (insert "action" (text "ack") copy)))

-- how a send to Kafka ends, and the text of its exception
pub data SendEnd : Type 0 where
  delivered : SendEnd
  failed : String → SendEnd

-- one callback, on the datum that all callbacks of an item share: the datum that it leaves and the
-- extras that it logs, none for a KeyError
unfoldable pub callback : String → String → SendEnd → Datum → Datum × Option Datum
callback logger spiderid delivered item =
    let item' = insert "success" (flag true) item in
    (
      item',
      and_then (clean_item logger item') (λ copy. some (insert "spiderid" (text spiderid) copy)),
    )
callback logger spiderid (failed exception) item =
    let item' =
      insert "spiderid" (text spiderid)
        (insert "exception" (text exception) (insert "success" (flag false) item)) in
    (item', clean_item logger item')

-- the callbacks in the order in which the sends end
unfoldable pub callbacks : String → String → List SendEnd → Datum → List (Option Datum)
callbacks logger spiderid [] item = []
callbacks logger spiderid (end ∷ ends) item =
    let (item', extras) = callback logger spiderid end item in
    extras ∷ callbacks logger spiderid ends item'

-- what KafkaPipeline.process_item does: it passes the item on, or raises a KeyError
pub data Passed : Type 0 where
  passed : Passed
  key_error : Passed

-- the body of a datum: base64 of its bytes, or its text in its encoding, with none for an exception
pub record Coding : Type 0 where
  pub base64 : String → String → Option String
  pub decode : String → String → Option String
  pub dumps : Datum → Option String

abbrev pub text_at : String → Datum → Option String
text_at k d = elim (lookup k d) [
  | none ↦ none
  | some v ↦ elim v [ text s ↦ some s | flag b ↦ none ]
]

module _ (c : Coding) (use_base64 : Bool) where
  -- the inner `try`; none is its `except`
  unfoldable pub encode : Datum → Option String
  encode datum =
      let encoding : String = elim (text_at "encoding" datum) [ none ↦ "utf-8" | some e ↦ e ] in
      let body =
        if use_base64
        then and_then (text_at "body" datum) (c.base64 encoding)
        else if not (str_eq "utf-8" encoding)
        then and_then (text_at "body" datum) (c.decode encoding)
        else text_at "body" datum in
      and_then body (λ b. c.dumps (insert "body" (text b) datum))

  unfoldable pub message_of : Datum → String
  message_of datum = elim (encode datum) [ none ↦ "json failed to parse" | some m ↦ m ]

  -- KafkaPipeline.process_item: what is sent, topic and message, the first first. `accepts` says
  -- where the producer's `send` does not raise KafkaTimeoutError, which is caught.
  unfoldable pub process_item :
      String → Bool → (String → Bool) → String → Datum → List (String × String) × Passed
  process_item prefix appid_topics accepts time item =
      let datum = insert "timestamp" (text time) item in
      let message = message_of datum in
      let firehose = prefix ++ ".crawled_firehose" in
      if accepts firehose
      then (if appid_topics
          then (elim (text_at "appid" datum) [
            | none ↦ ((firehose, message) ∷ [], key_error)
            | some appid ↦
                let topic = prefix ++ (".crawled_" ++ appid) in
                if accepts topic
                then ((firehose, message) ∷ (topic, message) ∷ [], passed)
                else ((firehose, message) ∷ [], passed)
          ])
          else ((firehose, message) ∷ [], passed))
      else ([], passed)
