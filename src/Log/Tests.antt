-- ===== src/Log/Tests.antt =====
-- Runs of the logger at concrete inputs.
use scrapy_cluster.Prelude.{ℕ, ◌≤◌, ◌≡◌, refl, true, false, some, [], ◌∷◌, if◌then◌else◌}
use scrapy_cluster.Log.{
  Callback, Callbacks, Logger, register_callback, log, logged, write_message, write_standard,
  fire_after, fire_callbacks, unmatched, is_subdict, add_extras, method_of,
}
use scrapy_cluster.Log.Callbacks.{warn, ge, holds, register_callback_lem}
use scrapy_cluster.Log.Criteria.{forgetful, log-forgetful}

abbrev seven : Callback
seven = record { fn = 7; criteria = [] }

abbrev picky : Callback
picky = record { fn = 8; criteria = ("level", "ERROR") ∷ [] }

register_callback_lem_example :
    (t' : Callbacks) × (register_callback ">=WARN" seven (λ k. []) ≡ some t')
    × ((k : ℕ) → k ≤ 4 → t' k ≡ (if holds ge k 2 then seven ∷ [] else []))
register_callback_lem_example = register_callback_lem ge warn seven (λ k. [])

abbrev wordy : Logger
wordy = record {
  json = false;
  include_extra = true;
  log_level = "INFO";
  name = "sc";
  callbacks = λ k. picky ∷ seven ∷ [];
}

log-forgetful_example :
    log (λ d. "{}") "ERROR" 3 "now" "bad" [] wordy
    ≡ log (λ d. "{}") "ERROR" 3 "now" "bad" [] (forgetful wordy)
log-forgetful_example = log-forgetful (λ d. "{}") "ERROR" 3 "now" "bad" [] wordy refl refl tt

-- The same criterion is met where the extras are not written.
picky_called :
    log (λ d. "{}") "ERROR" 3 "now" "bad" [] (record wordy { include_extra = false })
    ≡ logged ("ERROR", "bad") (8 ∷ 7 ∷ [])
unfolding log write_message write_standard fire_after fire_callbacks unmatched is_subdict add_extras
    method_of
picky_called = refl
