-- ===== src/Loop/Plugins.antt =====
-- Which plugins the monitors have, and in which order (redis-monitor/redis_monitor.py and
-- kafka-monitor/kafka_monitor.py: _load_plugins).
use scrapy_cluster.Prelude.{
  ℕ, ◌<◌, String, ◌≡◌, refl, ap, sym, ◌∙◌, false, inl, inr, Option, none, some, List, [], ◌∷◌,
  arith, ◌==◌, ltb, Bool-cases, Option-cases, if◌then◌else◌,
}
use scrapy_cluster.Loop.{Table, put_plugin, place, sort_plugins, load_each, load_plugins}

module _ {A : Type 0} where
  -- the plugin of an order
  abbrev pub find : ℕ → Table A → Option A
  find o [] = none
  find o ((p, x) ∷ l) = if p == o then some x else find o l

  -- each plugin comes before those of greater orders
  abbrev pub IsAbove : ℕ → Table A → Type 0
  IsAbove o [] = Unit
  IsAbove o ((p, x) ∷ l) = (o < p) × IsAbove p l

  abbrev pub IsOrdered : Table A → Type 0
  IsOrdered [] = Unit
  IsOrdered ((o, x) ∷ l) = IsAbove o l

  find-put_plugin :
      (o p : ℕ) (x : A) (l : Table A)
      → find o (put_plugin p x l) ≡ (if p == o then some x else find o l)
  find-put_plugin o p x [] = refl
  find-put_plugin o p x ((q, y) ∷ l) = ground (arith, find-put_plugin o p x l)

  -- no order is there twice
  abbrev IsFresh : Table A → Type 0
  IsFresh [] = Unit
  IsFresh ((o, x) ∷ l) = (find o l ≡ none) × IsFresh l

  put_plugin-IsFresh : (p : ℕ) (x : A) (l : Table A) → IsFresh l → IsFresh (put_plugin p x l)
  put_plugin-IsFresh p x [] h = (refl, tt)
  put_plugin-IsFresh p x ((q, y) ∷ l) h =
      ground (arith, put_plugin-IsFresh p x l h.1, find-put_plugin q p x l)

  find-place :
      (o p : ℕ) (x : A) (l : Table A)
      → find p l ≡ none
      → find o (place p x l) ≡ (if p == o then some x else find o l)
  find-place o p x [] h = refl
  find-place o p x ((q, y) ∷ l) h = ground (arith, find-place o p x l)

  place-none :
      (o p : ℕ) (x : A) (l : Table A)
      → find p l ≡ none
      → find o l ≡ none
      → (p == o) ≡ false
      → find o (place p x l) ≡ none
  place-none o p x l away h other = find-place o p x l away ∙ ground (arith, h, other)

  find-sort_plugins : (o : ℕ) (l : Table A) → IsFresh l → find o (sort_plugins l) ≡ find o l
  find-sort_plugins o [] h = refl
  find-sort_plugins o ((p, x) ∷ l) h =
      find-place o p x (sort_plugins l) (find-sort_plugins p l h.1 ∙ h.0)
      ∙ ap (λ (r : Option A). if p == o then some x else r) (find-sort_plugins o l h.1)

  place-IsAbove :
      (o p : ℕ) (x : A) (l : Table A)
      → o < p
      → find p l ≡ none
      → IsAbove o l
      → IsAbove o (place p x l)
  place-IsAbove o p x [] less away h = (less, tt)
  place-IsAbove o p x ((q, y) ∷ l) less away h = elim (Bool-cases (ltb q p)) [
    | inl before ↦ rw before (h.0, place-IsAbove q p x l (ground arith) (ground (arith, away)) h.1)
    | inr after ↦ rw after (less, (ground (arith, away, after), h.1))
  ]

  place-IsOrdered :
      (p : ℕ) (x : A) (l : Table A) → find p l ≡ none → IsOrdered l → IsOrdered (place p x l)
  place-IsOrdered p x [] away h = tt
  place-IsOrdered p x ((q, y) ∷ l) away h = elim (Bool-cases (ltb q p)) [
    | inl before ↦ rw before (place-IsAbove q p x l (ground arith) (ground (arith, away)) h)
    | inr after ↦ rw after (ground (arith, away, after), h)
  ]

  sort_plugins-IsOrdered : (l : Table A) → IsFresh l → IsOrdered (sort_plugins l)
  sort_plugins-IsOrdered [] h = tt
  sort_plugins-IsOrdered ((p, x) ∷ l) h =
      place-IsOrdered p x (sort_plugins l) (find-sort_plugins p l h.1 ∙ h.0)
        (sort_plugins-IsOrdered l h.1)

  -- the last class of PLUGINS with this order, set up; what came before has `earlier`
  abbrev pub last_of : (String → Option A) → ℕ → List (String × Option ℕ) → Option A → Option A
  last_of load o [] earlier = earlier
  last_of load o ((key, none) ∷ plugins) earlier = last_of load o plugins earlier
  last_of load o ((key, some order) ∷ plugins) earlier =
      last_of load o plugins (if order == o then load key else earlier)

  -- what is asked of the table
  abbrev pub Loaded :
      (String → Option A) → List (String × Option ℕ) → Table A → Option (Table A) → Type 0
  Loaded load plugins l none = Unit
  Loaded load plugins l (some l') =
      IsFresh l' × ((o : ℕ) → find o l' ≡ last_of load o plugins (find o l))

  Loaded-step :
      (load : String → Option A) (key : String) (order : ℕ) (plugins : List (String × Option ℕ))
      (x : A) (l : Table A)
      → load key ≡ some x
      → (o : Option (Table A)) → Loaded load plugins (put_plugin order x l) o
      → Loaded load ((key, some order) ∷ plugins) l o
  Loaded-step load key order plugins x l e none h = tt
  Loaded-step load key order plugins x l e (some l') h = (
    h.0,
    λ o.
        h.1 o
        ∙ ap (last_of load o plugins) (
            find-put_plugin o order x l
            ∙ ap (λ (r : Option A). if order == o then r else find o l) (sym e)),
  )

  load_each-Loaded :
      (load : String → Option A) (plugins : List (String × Option ℕ)) (l : Table A)
      → IsFresh l
      → Loaded load plugins l (load_each load plugins l)
  unfolding load_each
  load_each-Loaded load [] l h = (h, λ o. refl)
  load_each-Loaded load ((key, none) ∷ plugins) l h = load_each-Loaded load plugins l h
  load_each-Loaded load ((key, some order) ∷ plugins) l h = elim (Option-cases (load key)) [
    | inl bad ↦ rw (bad, load_each) tt
    | inr (x, e) ↦
        rw (e, load_each)
          (Loaded-step load key order plugins x l e _
            (load_each-Loaded load plugins (put_plugin order x l) (put_plugin-IsFresh order x l h)))
  ]

  -- in a table that was loaded, the orders grow and each has the last class that asks for it
  abbrev pub IsLoaded : (String → Option A) → List (String × Option ℕ) → Option (Table A) → Type 0
  IsLoaded load plugins none = Unit
  IsLoaded load plugins (some l) = IsOrdered l × ((o : ℕ) → find o l ≡ last_of load o plugins none)

  sorted-IsLoaded :
      (load : String → Option A) (plugins : List (String × Option ℕ)) (o : Option (Table A))
      → Loaded load plugins [] o
      → IsLoaded load plugins (elim o [ none ↦ none | some l ↦ some (sort_plugins l) ])
  sorted-IsLoaded load plugins none h = tt
  sorted-IsLoaded load plugins (some l) h =
      (sort_plugins-IsOrdered l h.0, λ o. find-sort_plugins o l h.0 ∙ h.1 o)

  -- Unless the set-up of a class raises: the monitor has its plugins in growing order, without the
  -- classes whose order is None, and for each order the class of PLUGINS that has it, the last one
  -- where several do.
  pub load_plugins-IsLoaded :
      (load : String → Option A) (plugins : List (String × Option ℕ))
      → IsLoaded load plugins (load_plugins load plugins)
  unfolding load_plugins
  load_plugins-IsLoaded load plugins =
      sorted-IsLoaded load plugins (load_each load plugins []) (load_each-Loaded load plugins [] tt)
