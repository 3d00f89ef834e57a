-- ===== src/Throttle/Hits.antt =====
-- The hits that a window's sorted set still holds, counted against a log of hit times, newest first.
use scrapy_cluster.Prelude.{
  ℕ, ◌+◌, ◌≤◌, ◌<◌, String, ◌≡◌, false, some, List, [], ◌∷◌, arith, eq_iff, ltb, length, All,
  lookup, Bool-cases, inl, inr, if◌then◌else◌,
}
use scrapy_cluster.Prelude.Int.{ℤ, pos, sub_ℕ, leb_ℤ}
use scrapy_cluster.Redis.Values.{Ranked, remove, add, above}
use scrapy_cluster.Queue.Ranks.{lookup-remove, lookup-add}
use scrapy_cluster.Throttle.Clock.{TimeText, show_inj}

-- The logged hits that lie in the window of length `w` up to the time `t`.
abbrev pub recent : ℕ → ℕ → List ℕ → List ℕ
recent w t [] = []
recent w t (h ∷ log) = if ltb t (h + w) then h ∷ recent w t log else recent w t log

-- Strictly falling, all below the bound.
abbrev pub Falls : ℕ → List ℕ → Type 0
Falls b [] = Unit
Falls b (h ∷ log) = (h < b) × Falls h log

pub Falls-mono : (a b : ℕ) (log : List ℕ) → a ≤ b → Falls a log → Falls b log
Falls-mono a b [] le f = tt
Falls-mono a b (h ∷ log) le f = (omega arith, f.1)

Falls-recent : (w t b : ℕ) (log : List ℕ) → Falls b log → Falls b (recent w t log)
Falls-recent w t b [] f = tt
Falls-recent w t b (h ∷ log) f = elim (Bool-cases (ltb t (h + w))) [
  | inl kept ↦ rw kept (f.0, Falls-recent w t h log f.1)
  | inr old ↦ rw old (Falls-mono h b _ (omega arith) (Falls-recent w t h log f.1))
]

length-recent_mono :
    (w t u : ℕ) (log : List ℕ) → t ≤ u → length (recent w u log) ≤ length (recent w t log)
length-recent_mono w t u [] le = omega arith
length-recent_mono w t u (h ∷ log) le = ground (arith, length-recent_mono w t u log le)

lookup-above :
    (m : String) (s b : ℤ) (l : Ranked)
    → leb_ℤ s b ≡ false
    → lookup m l ≡ some s
    → lookup m (above b l) ≡ some s
lookup-above m s b [] low h = cc
lookup-above m s b ((n, t) ∷ l) low h = ground (arith, lookup-above m s b l low)

length-remove_le : (m : String) (l : Ranked) → length (remove m l) ≤ length l
length-remove_le m [] = omega arith
length-remove_le m ((n, t) ∷ l) = ground (arith, length-remove_le m l)

length-remove_lt :
    (m : String) (s : ℤ) (l : Ranked) → lookup m l ≡ some s → length (remove m l) < length l
length-remove_lt m s [] h = cc
length-remove_lt m s ((n, t) ∷ l) h = ground (arith, length-remove_lt m s l, length-remove_le m l)

module _ (c : TimeText) where
  -- The set holds the hit under its own text, with its time as the score.
  abbrev pub Held : Ranked → ℕ → Type 0
  Held l h = lookup (c.show h) l ≡ some (pos h)

  -- The set holds every logged hit that is less than `w` before `t`.
  abbrev pub HeldSince : ℕ → ℕ → Ranked → List ℕ → Type 0
  HeldSince w t l = All (λ h. t < h + w → Held l h)

  pub HeldSince-later :
      (w t u : ℕ) (l : Ranked) (log : List ℕ) → t ≤ u → HeldSince w t l log → HeldSince w u l log
  HeldSince-later w t u l [] le held = tt
  HeldSince-later w t u l (h ∷ log) le held =
      (λ lt. held.0 (omega arith), HeldSince-later w t u l log le held.1)

  -- ZREMRANGEBYSCORE up to `t - w` takes no hit of the window that ends at `t`.
  pub HeldSince-above :
      (w t : ℕ) (l : Ranked) (log : List ℕ)
      → HeldSince w t l log
      → HeldSince w t (above (sub_ℕ t w) l) log
  HeldSince-above w t l [] held = tt
  HeldSince-above w t l (h ∷ log) held = (
    λ lt. lookup-above (c.show h) (pos h) (sub_ℕ t w) l (ground arith) (held.0 lt),
    HeldSince-above w t l log held.1,
  )

  Held-add : (now h : ℕ) (l : Ranked) → Held l h → Held (add (c.show now) (pos now) l) h
  Held-add now h l held = ground (
    arith,
    lookup-add (c.show now) (c.show h) (pos now) l,
    eq_iff (c.show now) (c.show h),
    show_inj c now h,
  )

  pub HeldSince-add :
      (w t now : ℕ) (l : Ranked) (log : List ℕ)
      → HeldSince w t l log
      → HeldSince w t (add (c.show now) (pos now) l) (now ∷ log)
  HeldSince-add w t now l [] held = (
    λ _.
        ground (
          arith,
          lookup-add (c.show now) (c.show now) (pos now) l,
          eq_iff (c.show now) (c.show now),
        ),
    tt,
  )
  HeldSince-add w t now l (h ∷ log) held =
      let rest = HeldSince-add w t now l log held.1 in
      (rest.0, ((λ lt. Held-add now h l (held.0 lt)), rest.1))

  Held-remove :
      (h : ℕ) (l : Ranked) (log : List ℕ)
      → Falls h log
      → All (Held l) log
      → All (Held (remove (c.show h) l)) log
  Held-remove h l [] f held = tt
  Held-remove h l (g ∷ log) f held = (
    ground (
      arith,
      lookup-remove (c.show h) (c.show g) l,
      eq_iff (c.show h) (c.show g),
      show_inj c h g,
    ),
    Held-remove h l log (Falls-mono g h log (omega arith) f.1) held.1,
  )

  -- Hits at different times are different members.
  length-le_of_Held :
      (b : ℕ) (l : Ranked) (log : List ℕ) → Falls b log → All (Held l) log → length log ≤ length l
  length-le_of_Held b l [] f held = omega arith
  length-le_of_Held b l (h ∷ log) f held = omega (
    arith,
    length-le_of_Held h (remove (c.show h) l) log (f.1) (Held-remove h l log (f.1) (held.1)),
    length-remove_lt (c.show h) (pos h) l (held.0),
  )

  Held-recent :
      (w t : ℕ) (l : Ranked) (log : List ℕ) → HeldSince w t l log → All (Held l) (recent w t log)
  Held-recent w t l [] held = tt
  Held-recent w t l (h ∷ log) held = elim (Bool-cases (ltb t (h + w))) [
    | inl kept ↦ rw kept (held.0 (ground arith), Held-recent w t l log held.1)
    | inr old ↦ rw old (Held-recent w t l log held.1)
  ]

  -- At any time from `t` on, the window has at most as many hits as the set has members.
  pub length-recent_le :
      (w t u b : ℕ) (l : Ranked) (log : List ℕ)
      → t ≤ u
      → Falls b log
      → HeldSince w t l log
      → length (recent w u log) ≤ length l
  length-recent_le w t u b l log le f held = omega (
    arith,
    length-recent_mono w t u log le,
    length-le_of_Held b l (recent w t log) (Falls-recent w t b log f) (Held-recent w t l log held),
  )
