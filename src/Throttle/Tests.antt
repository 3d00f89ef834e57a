-- ===== src/Throttle/Tests.antt =====
-- Concrete instances of the throttle of utils/scutils/redis_throttled_queue.py.
use scrapy_cluster.Prelude.{
  ℕ, ◌+◌, ◌≡◌, refl, true, false, none, some, List, [], ◌∷◌, length, arith, inl, eq_iff, ◌≢◌,
  String,
}
use scrapy_cluster.Redis.Memory.{memory, empty}
use scrapy_cluster.Throttle.{Throttle, Moment, init}
use scrapy_cluster.Throttle.Clock.{tally_time}
use scrapy_cluster.Throttle.Calls.{Call, admit}
use scrapy_cluster.Throttle.Window.{Shares, InOrder, IsCounted, Throttled, admit-Throttled}
use scrapy_cluster.Throttle.Moderation.{IsRigid, Spaced, admit-Spaced}
use scrapy_cluster.Throttle.Collision.{replicate, admit-replicate}

-- Two hits in four seconds; the second instance is moderated, at two seconds.
abbrev plain : Throttle
plain = record {
  window = 4000000;
  limit = 2;
  window_key = "q:throttle_window";
  moderation = none;
  moderate_key = "";
  elastic = false;
  elastic_buffer = 0;
  elastic_kick_in = 0;
}

abbrev moderated : Throttle
moderated = record plain {
  moderation = some (record { num = 4000000; den = 2 });
  moderate_key = "q:throttle_time";
}

init-plain : init "q" 4000000 2 false none none true 0 ≡ some plain
unfolding init
init-plain = refl

init-moderated : init "q" 4000000 2 true none none false 0 ≡ some moderated
unfolding init
init-moderated = refl

-- A limit of 0 cannot be moderated.
init-zero : init "q" 4000000 0 true none none false 0 ≡ none
unfolding init
init-zero = refl

abbrev at : ℕ → Moment
at t = record {
  expires_at = t;
  curr_time = t;
  now = t + 1;
  window_conflict = false;
  moderate_conflict = false;
}

abbrev calls : List Call
calls =
    record { instance_of = plain; moment = at 1000000 }
    ∷ record { instance_of = moderated; moment = at 1500000 }
    ∷ record { instance_of = plain; moment = at 1700000 }
    ∷ []

key_ne : ◌≢◌ {A = String} "q:throttle_window" "q:throttle_time"
key_ne = ground (arith, eq_iff "q:throttle_window" "q:throttle_time")

plain-Shares : Shares 4000000 2 "q:throttle_window" plain
plain-Shares = record {
  window = refl;
  limit_eq = refl;
  window_key = refl;
  key_ne = ground (arith, eq_iff "" "q:throttle_window");
  lives = omega arith;
}

moderated-Shares : Shares 4000000 2 "q:throttle_window" moderated
moderated-Shares = record {
  window = refl;
  limit_eq = refl;
  window_key = refl;
  key_ne = ground (arith, eq_iff "q:throttle_time" "q:throttle_window");
  lives = omega arith;
}

calls-InOrder : InOrder memory tally_time 4000000 2 "q:throttle_window" 0 calls
calls-InOrder = (
  plain-Shares,
  omega arith,
  omega arith,
  omega arith,
  (
    moderated-Shares,
    omega arith,
    omega arith,
    omega arith,
    (plain-Shares, omega arith, omega arith, omega arith, tt),
  ),
)

empty-IsCounted : IsCounted memory tally_time 4000000 2 "q:throttle_window" 0 [] empty
empty-IsCounted = record { members = []; stored = refl; held = tt; falls = tt; throttled = tt }

admit-Throttled_example :
    Throttled 4000000 2 (admit memory tally_time (λ m. m.now) calls ([], empty)).0
admit-Throttled_example =
    admit-Throttled memory tally_time 4000000 2 "q:throttle_window" calls 0 [] empty calls-InOrder
      empty-IsCounted

moderated-IsRigid : IsRigid (record { num = 4000000; den = 2 }) "q:throttle_time" moderated
moderated-IsRigid = record {
  moderation = refl;
  moderate_key = refl;
  key_ne = ground (arith, eq_iff "q:throttle_window" "q:throttle_time");
  lives = omega arith;
  elastic = refl;
}

abbrev moderated_calls : List Call
moderated_calls =
    record { instance_of = moderated; moment = at 1000000 }
    ∷ record { instance_of = moderated; moment = at 3000000 }
    ∷ []

admit-Spaced_example :
    Spaced
      (record { num = 4000000; den = 2 })
      (admit memory tally_time (λ m. m.curr_time) moderated_calls ([], empty)).0
admit-Spaced_example =
    admit-Spaced memory tally_time (record { num = 4000000; den = 2 }) (omega arith)
      "q:throttle_time" moderated_calls [] empty (moderated-IsRigid, (moderated-IsRigid, tt)) tt tt

admit-replicate_example :
    length
      (admit memory tally_time
        (λ m. m.now)
        (replicate 9 (record { instance_of = plain; moment = at 1000000 }))
        ([], empty)).0
    ≡ 9 + length {A = ℕ} []
admit-replicate_example =
    admit-replicate memory tally_time plain (at 1000000) refl (omega arith) (omega arith)
      (omega arith) refl 9 [] empty [] refl (inl refl)
