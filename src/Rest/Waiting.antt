-- ===== src/Rest/Waiting.antt =====
-- How the wait of `feed` ends (rest/rest_service.py: feed).
use scrapy_cluster.Prelude.{
  ℕ, ◌+◌, ◌-◌, ◌/◌, ◌<◌, zero, suc, String, ◌≡◌, refl, subst, ◌∙◌, Bool, true, false, ◌⊎◌, inl, inr,
  Option, none, some, arith, leb, lookup, erase, Bool-cases,
}
use scrapy_cluster.Redis.{Redis}
use scrapy_cluster.Throttle.{second}
use scrapy_cluster.Rest.{Json, Slot, waiting, poll, response, Service}
use scrapy_cluster.Rest.Routes.{Outcome, timed_out, got, missing, wait}

module _ (r : Redis) (j : Json) (limit start : ℕ) (clock : ℕ → ℕ)
    (others : ℕ → Service r j → Service r j) (uuid : String) where
  open j use {Doc}

  -- the loop's test at a turn
  abbrev pub in_time : ℕ → Bool
  in_time i = leb ((clock i - start) / second) limit

  -- at a turn in time the look at the entry decides
  pub wait-entry :
      (fuel i : ℕ) (s : Service r j) {slot : Option (Slot Doc)}
      → in_time i ≡ true
      → lookup uuid (others i s).uuids ≡ slot
      → wait r j limit start clock others uuid (suc fuel) i s ≡ (elim slot [
        | none ↦ some (missing, others i s)
        | some waiting ↦ wait r j limit start clock others uuid fuel (i + 1) (others i s)
        | some poll ↦ some (got poll, record (others i s) { uuids = erase uuid (others i s).uuids })
        | some (response x) ↦
            some (got (response x), record (others i s) { uuids = erase uuid (others i s).uuids })
      ])
  unfolding wait
  wait-entry fuel i s now look = rw (wait, now, look) refl

  wait_step :
      (fuel i : ℕ) (s : Service r j) (slot : Option (Slot Doc))
      → in_time i ≡ true
      → lookup uuid (others i s).uuids ≡ slot
      → (wait r j limit start clock others uuid (suc fuel) i s
          ≡ wait r j limit start clock others uuid fuel (i + 1) (others i s))
        ⊎ ((out : Outcome Doc × Service r j) × (wait r j limit start clock others uuid
                (suc fuel)
                i
                s
              ≡ some out))
  wait_step fuel i s none now look = inr (_, wait-entry fuel i s now look)
  wait_step fuel i s (some waiting) now look = inl (wait-entry fuel i s now look)
  wait_step fuel i s (some poll) now look = inr (_, wait-entry fuel i s now look)
  wait_step fuel i s (some (response x)) now look = inr (_, wait-entry fuel i s now look)

  -- A wait with more turns than it takes until the time is over ends.
  pub wait_ends :
      (n i : ℕ) (s : Service r j) (fuel : ℕ)
      → in_time (i + n) ≡ false
      → n < fuel
      → (out : Outcome Doc × Service r j) × (wait r j limit start clock others uuid fuel i s
          ≡ some out)
  unfolding wait
  wait_ends n i s zero late enough = absurd (omega arith)
  wait_ends zero i s (suc fuel) late enough =
      let now : in_time i ≡ false = subst (λ k. in_time k ≡ false) (omega arith) late in
      ((timed_out, s), rw now refl)
  wait_ends (suc n) i s (suc fuel) late enough = elim (Bool-cases (in_time i)) [
    | inl now ↦ elim (wait_step fuel i s _ now refl) [
      | inl again ↦
          let (out, ends) =
            wait_ends n (i + 1) (others i s) fuel
              (subst (λ k. in_time k ≡ false) (omega arith) late) (omega arith) in
          (out, again ∙ ends)
      | inr ended ↦ ended
    ]
    | inr now ↦ ((timed_out, s), rw now refl)
  ]
