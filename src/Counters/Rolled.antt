-- ===== src/Counters/Rolled.antt =====
-- The windows of a rolling counter (utils/scutils/stats_collector.py: ThreadedCounter): how it comes
-- to the present window.
use Prim.Native.String.{◌++◌}
use scrapy_cluster.Prelude.{
  ℕ, suc, ◌+◌, ◌*◌, ◌≤◌, ◌<◌, String, ◌≡◌, refl, ap, sym, ◌∙◌, Bool, true, false, ◌&&◌, none, some,
  List, [], ◌∷◌, ◌++◌ as append, arith, length, ltb, leb, Bool-cases, inl, inr, All, if◌then◌else◌,
  subst,
}
use scrapy_cluster.Redis.{Redis}
use scrapy_cluster.Counters.Factory.{Round, succeeds, guarded_work, main_loop}
use scrapy_cluster.Counters.{Threaded, set_key, is_expired, roll_on, do_thread_work}

module _ (date : ℕ → String) where
  -- The key of the window that starts at `t`.
  abbrev pub window_key : Threaded → ℕ → String
  window_key c t = c.key ++ (":" ++ date t)

  -- A rolling counter whose window is `w`, at the key of its start.
  pub record IsRolling (w : ℕ) (c : Threaded) : Type 0 where
    pub roll : c.roll ≡ true
    pub window : c.window ≡ some w
    pub final_key : c.final_key ≡ window_key c c.start_time

  -- the counter at another start
  abbrev pub started : ℕ → Threaded → Threaded
  started t c = record c { start_time = t; final_key = window_key c t }

  module _ (w now : ℕ) (lives : 0 < w) where
    set_key_lem :
        (t : ℕ) (c : Threaded)
        → c.roll ≡ true
        → set_key date (record c { start_time = t }) ≡ started t c
    unfolding set_key
    set_key_lem t c roll =
        ap (λ b. record c { start_time = t; final_key = if b then window_key c t else c.key }) roll

    roll_on_due :
        (c : Threaded)
        → IsRolling w c
        → c.start_time + w ≤ now
        → roll_on date now c ≡ started (c.start_time + w) c
    unfolding roll_on is_expired
    roll_on_due c rolling due =
        let expired : is_expired date now c ≡ true =
          ap (λ o. elim o [ none ↦ false | some v ↦ leb (c.start_time + v) now ]) rolling.window
          ∙ ground arith in
        let both : (c.roll && is_expired date now c) ≡ true =
          ap (λ b. b && is_expired date now c) rolling.roll ∙ expired in
        ap
          (λ b.
            if b
            then set_key date
                (record c { start_time = c.start_time + (elim c.window [ none ↦ 0 | some v ↦ v ]) })
            else c)
          both
        ∙ ap
            (λ o.
              set_key date
                (record c { start_time = c.start_time + (elim o [ none ↦ 0 | some v ↦ v ]) }))
            rolling.window
        ∙ set_key_lem (c.start_time + w) c rolling.roll

    started-IsRolling : (t : ℕ) (c : Threaded) → IsRolling w c → IsRolling w (started t c)
    started-IsRolling t c rolling = record {
      roll = rolling.roll;
      window = rolling.window;
      final_key = refl;
    }

  -- the window from `s` on has the time
  abbrev pub InWindow : ℕ → ℕ → ℕ → Type 0
  InWindow w s t = (s ≤ t) × (t < s + w)

  -- the readings of the clock do not go back, and none is more than a window after the one before
  abbrev pub IsSteady : ℕ → ℕ → List ℕ → Type 0
  IsSteady w t [] = Unit
  IsSteady w t (u ∷ times) = (t ≤ u) × (u ≤ t + w) × IsSteady w u times

  abbrev pub last_of : ℕ → List ℕ → ℕ
  last_of t [] = t
  last_of t (u ∷ times) = last_of u times

  -- rounds of the worker thread that are not stopped and meet no error, by their readings
  abbrev pub rounds_at : List ℕ → List (Bool × Round × ℕ)
  rounds_at [] = []
  rounds_at (t ∷ times) = (true, succeeds, t) ∷ rounds_at times

  module _ (w : ℕ) (lives : 0 < w) (r : Redis) (expire : Threaded → r.Db → r.Db)
      (keys_of : String → r.Db → List String) where
    -- the counter after the rounds
    abbrev pub after : List ℕ → Threaded → r.Db → Threaded
    after times c d = (main_loop date r expire keys_of (rounds_at times) c d).0

    not_expired :
        (now : ℕ) (c : Threaded)
        → IsRolling w c
        → now < c.start_time + w
        → is_expired date now c ≡ false
    unfolding is_expired
    not_expired now c rolling early =
        ap (λ o. elim o [ none ↦ false | some v ↦ leb (c.start_time + v) now ]) rolling.window
        ∙ ground arith

    roll_on_early :
        (now : ℕ) (c : Threaded) → IsRolling w c → now < c.start_time + w → roll_on date now c ≡ c
    unfolding roll_on
    roll_on_early now c rolling early =
        let kept : (c.roll && is_expired date now c) ≡ false =
          ap (λ b. b && is_expired date now c) rolling.roll ∙ not_expired now c rolling early in
        ap
          (λ b.
            if b
            then set_key date
                (record c { start_time = c.start_time + (elim c.window [ none ↦ 0 | some v ↦ v ]) })
            else c)
          kept

    -- the counter has come to the window from `s` on, which has the time, and is not expired there
    abbrev pub Here : Threaded → ℕ → Threaded → ℕ → Type 0
    Here c now c' s = (c' ≡ started s c) × (InWindow w s now × (is_expired date now c' ≡ false))

    -- the same of a window that is a whole number of windows later
    abbrev pub IsPresent : Threaded → ℕ → Threaded → Type 0
    IsPresent c now c' = (k : ℕ) × Here c now c' (c.start_time + k * w)

    one_later :
        (c : Threaded) (now : ℕ) (c' : Threaded)
        → IsPresent (started (c.start_time + w) c) now c'
        → IsPresent c now c'
    one_later c now c' (k, here) = (suc k, subst (Here c now c') (omega arith) here)

    keeps_up :
        (later : List ℕ) (now : ℕ) (c : Threaded) (d : r.Db)
        → IsRolling w c
        → InWindow w c.start_time now
        → IsSteady w now later
        → IsPresent c (last_of now later) (after later c d)
    unfolding main_loop guarded_work do_thread_work
    keeps_up [] now c d rolling here steady =
        let same : c.start_time ≡ c.start_time + 0 * w = omega arith in
        (
          0,
          subst (Here c now c) same
              (cc (rolling.final_key), (here, not_expired now c rolling here.1)),
        )
    keeps_up (t ∷ later) now c d rolling here steady =
        elim (Bool-cases (ltb t (c.start_time + w))) [
          | inl early ↦
              subst (λ x. (e : r.Db) → IsPresent c (last_of t later) (after later x e))
                (sym (roll_on_early t c rolling (ground (arith, early))))
                (λ e. keeps_up later t c e rolling (omega arith, ground (arith, early)) steady.2) _
          | inr due ↦
              let next = started (c.start_time + w) c in
              let start : c.start_time + w ≤ t = ground (arith, due) in
              subst (λ x. (e : r.Db) → IsPresent c (last_of t later) (after later x e))
                (sym (roll_on_due w t lives c rolling start))
                (λ e. one_later c (last_of t later) (after later next e) (
                  keeps_up later t next e (started-IsRolling w t lives (c.start_time + w) c rolling)
                    (start, omega arith) steady.2))
                _
        ]

    -- A counter whose present window is the n-th from its own: after `n` rounds of its thread that read
    -- the clock within that window, and any number of further rounds, each of which reads it at most
    -- a window after the one before, the first so after some time `now` in that window, the counter
    -- is in the window of the last reading (of `now` without further rounds), at the key of that
    -- window, and is not expired there.
    pub main_loop-IsPresent :
        (times later : List ℕ) (now : ℕ) (c : Threaded) (d : r.Db)
        → IsRolling w c
        → All (InWindow w (c.start_time + length times * w)) times
        → InWindow w (c.start_time + length times * w) now
        → IsSteady w now later
        → IsPresent c (last_of now later) (after (append times later) c d)
    unfolding main_loop guarded_work do_thread_work
    main_loop-IsPresent [] later now c d rolling behind here steady =
        keeps_up later now c d rolling (omega arith, omega arith) steady
    main_loop-IsPresent (t ∷ times) later now c d rolling behind here steady =
        let next = started (c.start_time + w) c in
        let n = length times in
        let same : c.start_time + suc n * w ≡ next.start_time + n * w = omega arith in
        subst (λ x. (e : r.Db) → IsPresent c (last_of now later) (after (append times later) x e))
          (sym (roll_on_due w t lives c rolling (omega (arith, behind.0))))
          (λ e. one_later c (last_of now later) (after (append times later) next e) (
            main_loop-IsPresent times later now next e
              (started-IsRolling w t lives (c.start_time + w) c rolling)
              (subst (λ s. All (InWindow w s) times) same behind.1)
              (subst (λ s. InWindow w s now) same here) steady))
          _
