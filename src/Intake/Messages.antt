-- ===== src/Intake/Messages.antt =====
-- Which plugin handles a message (kafka-monitor/kafka_monitor.py: _process_messages).
use scrapy_cluster.Prelude.{
  String, ◌≡◌, refl, Bool, true, false, Option, none, some, List, [], ◌∷◌, ◌++◌, All,
}
use scrapy_cluster.Redis.{Redis}
use scrapy_cluster.Intake.{Handler, handled, process_plugins, process_message}

module _ (r : Redis) {A : Type 0} where
  open r use {Db}

  -- The plugin's schema refuses the dict.
  abbrev pub Refuses : A → Handler r A → Type 0
  Refuses message h = h.validate message ≡ none

  process_plugins_refused :
      (handlers : List (Handler r A)) (later : List (Handler r A)) (message : A) (found : Bool)
      (d : Db)
      → All (Refuses message) handlers
      → process_plugins r (handlers ++ later) message found d
        ≡ process_plugins r later message found d
  unfolding process_plugins
  process_plugins_refused [] later message found d refuses = refl
  process_plugins_refused (h ∷ handlers) later message found d refuses =
      rw (process_plugins, refuses.0)
        (process_plugins_refused handlers later message found d (refuses.1))

  -- A message that can be loaded is handled by the first plugin whose schema accepts it, and by
  -- that one alone, if its handler returns None as the handlers of the cluster do.
  pub process_message-first :
      (loads : String → Option A) (handlers later : List (Handler r A)) (h : Handler r A)
      (value : String) (message dict : A) (d : Db)
      → loads value ≡ some message
      → All (Refuses message) handlers
      → h.validate message ≡ some dict
      → (h.handle dict d).0 ≡ true
      → process_message r loads (handlers ++ (h ∷ later)) value d ≡ (handled, (h.handle dict d).1)
  unfolding process_message process_plugins
  process_message-first loads handlers later h value message dict d loaded refuses accepts
        returned =
      rw
        (
          process_message,
          loaded,
          process_plugins_refused handlers (h ∷ later) message false d refuses,
        )
        (rw (process_plugins, accepts) (rw returned refl))
