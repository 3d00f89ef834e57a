-- ===== src/Emit/Tests.antt =====
-- Runs of the pipelines at concrete inputs.
use scrapy_cluster.Prelude.{◌≡◌, refl, true, false, some, [], ◌∷◌}
use scrapy_cluster.Emit.{
  text, flag, Datum, delivered, failed, callbacks, callback, clean_item, process_item, passed,
  message_of, encode, Coding,
}
use scrapy_cluster.Emit.Sending.{AllTell, callbacks-AllTell}

abbrev page : Datum
page =
    ("appid", text "app")
    ∷ ("body", text "<html>")
    ∷ ("links", text "")
    ∷ ("response_headers", text "")
    ∷ ("request_headers", text "")
    ∷ ("status_code", text "200")
    ∷ ("status_msg", text "OK")
    ∷ []

callbacks-AllTell_example :
    AllTell "timeout" (callbacks "sc" "link" (failed "timeout" ∷ delivered ∷ []) page)
callbacks-AllTell_example = callbacks-AllTell "timeout" "sc" "link" (delivered ∷ []) page tt

success_after_failure :
    callbacks "sc" "link" (failed "timeout" ∷ delivered ∷ []) page
    ≡ some (
        ("appid", text "app")
        ∷ ("success", flag false)
        ∷ ("exception", text "timeout")
        ∷ ("spiderid", text "link")
        ∷ ("action", text "ack")
        ∷ ("logger", text "sc")
        ∷ [])
      ∷ some (
          ("appid", text "app")
          ∷ ("success", flag true)
          ∷ ("exception", text "timeout")
          ∷ ("spiderid", text "link")
          ∷ ("action", text "ack")
          ∷ ("logger", text "sc")
          ∷ [])
      ∷ []
unfolding callbacks callback clean_item
success_after_failure = refl

abbrev plain : Coding
plain = record {
  base64 = λ encoding s. some s;
  decode = λ encoding s. some s;
  dumps = λ d. some "json";
}

sent_twice :
    process_item plain true "demo" true (λ topic. true) "now" page
    ≡ (("demo.crawled_firehose", "json") ∷ ("demo.crawled_app", "json") ∷ [], passed)
unfolding process_item message_of encode
sent_twice = refl
