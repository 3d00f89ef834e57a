-- ===== src/Counters/Kept.antt =====
-- What the worker thread leaves of the earlier windows of a rolling counter
-- (utils/scutils/stats_collector.py: ThreadedCounter.purge_old).
use Prim.Native.String.{◌++◌, count}
use text.Mathlib.TextLemmas.{length-append}
use scrapy_cluster.Prelude.{
  ℕ, String, ◌≡◌, refl, ap, sym, ◌∙◌, ◌≢◌, Option, none, some, List, [], ◌∷◌, arith, length, ltb,
  Bool-cases, inl, inr, All, All-map, subst,
}
use scrapy_cluster.Redis.{Redis}
use scrapy_cluster.Counters.Rolled.{window_key}
use scrapy_cluster.Counters.{
  Threaded, roll_on, text_leb, insert_text, sort_texts, delete_oldest, purge_old, do_thread_work,
}

colon_count : count ":" ≡ 1
colon_count = refl

module _ (date : ℕ → String) where
  insert_text-All :
      (P : String → Type 0) (a : String) (l : List String)
      → P a
      → All P l
      → All P (insert_text date a l)
  insert_text-All P a [] pa pl = (pa, tt)
  insert_text-All P a (b ∷ l) pa pl = elim (Bool-cases (text_leb date a b)) [
    | inl before ↦ rw before (pa, pl)
    | inr after ↦ rw after (pl.0, insert_text-All P a l pa (pl.1))
  ]

  sort_texts-All : (P : String → Type 0) (l : List String) → All P l → All P (sort_texts date l)
  sort_texts-All P [] pl = tt
  sort_texts-All P (a ∷ l) pl =
      insert_text-All P a (sort_texts date l) (pl.0) (sort_texts-All P l (pl.1))

  module _ (r : Redis) where
    open r use {Db}

    delete_oldest_ne :
        (keep : ℕ) (keys : List String) (j : String) (d : Db)
        → All (λ k. k ≢ j) keys
        → r.value (delete_oldest date r keep keys d) j ≡ r.value d j
    unfolding delete_oldest
    delete_oldest_ne keep [] j d ne = refl
    delete_oldest_ne keep (key ∷ keys) j d ne =
        let rest =
          delete_oldest_ne keep keys j (r.delete key d) (ne.1) ∙ r.delete_ne key j d (ne.0) in
        elim (Bool-cases (ltb keep (length (key ∷ keys)))) [
          | inl more ↦ rw more rest
          | inr few ↦ rw few refl
        ]

    -- The key begins with the prefix.
    abbrev pub BeginsWith : String → String → Type 0
    BeginsWith prefix k = (rest : String) × (k ≡ prefix ++ rest)

    -- As the dates have texts of one length, no key that begins with a window's key and a colon is
    -- a window's key.
    longer :
        (key : String) (s t : ℕ) (k : String)
        → count (date s) ≡ count (date t)
        → BeginsWith ((key ++ (":" ++ date s)) ++ ":") k
        → k ≢ key ++ (":" ++ date t)
    longer key s t k same (rest, eq) h =
        let sizes = ap count (sym eq ∙ h) in
        omega (
          arith,
          sizes,
          same,
          length-append ((key ++ (":" ++ date s)) ++ ":") rest,
          length-append (key ++ (":" ++ date s)) ":",
          length-append key (":" ++ date s),
          length-append key (":" ++ date t),
          length-append ":" (date s),
          length-append ":" (date t),
          colon_count,
        )

    purge_old_ne :
        (found : List String) (j : String) (d : Db) (c : Threaded)
        → All (λ k. k ≢ j) found
        → r.value (purge_old date r found c d) j ≡ r.value d j
    unfolding purge_old
    purge_old_ne found j d c ne = go c.keep_max
      where
        go :
            (o : Option ℕ)
            → r.value
                (elim o [
                  | none ↦ d
                  | some keep ↦ delete_oldest date r keep (sort_texts date found) d
                ])
                j
              ≡ r.value d j
        go none = refl
        go (some keep) =
            delete_oldest_ne keep (sort_texts date found) j d (sort_texts-All (λ k. k ≢ j) found ne)

    -- One round of the worker thread deletes no window of a rolling counter, whatever `keep_max`
    -- is, if KEYS replies only keys that begin with the prefix that it is given and if the texts of
    -- dates have one length: `purge_old` asks for what is below the present window's own key.
    pub do_thread_work-kept :
        (expire : Threaded → Db → Db) (now t : ℕ) (keys_of : String → Db → List String)
        (c : Threaded) (d : Db)
        → ((u v : ℕ) → count (date u) ≡ count (date v))
        → ((prefix : String) (e : Db) → All (BeginsWith prefix) (keys_of prefix e))
        → (roll_on date now c).final_key ≡ window_key date c (roll_on date now c).start_time
        → r.value (do_thread_work date r expire now keys_of c d).1 (window_key date c t)
          ≡ r.value (expire c d) (window_key date c t)
    unfolding do_thread_work
    do_thread_work-kept expire now t keys_of c d even scan rolled =
        let c' = roll_on date now c in
        let found = keys_of (c'.final_key ++ ":") (expire c d) in
        purge_old_ne found (window_key date c t) (expire c d) c' (
          All-map found
            (λ k begins.
              longer c.key c'.start_time t k (even c'.start_time t)
                (subst (λ x. BeginsWith (x ++ ":") k) rolled begins))
            (scan (c'.final_key ++ ":") (expire c d)))
