-- ===== src/Settings/Merged.antt =====
-- What a setting is after `load` (utils/scutils/settings_wrapper.py).
use scrapy_cluster.Prelude.{
  String, ◌≡◌, refl, ap, ◌∙◌, false, Option, none, some, [], ◌∷◌, Dict, lookup, insert, keys,
  contains, lookup-insert, str_eq, eq_iff, arith, Bool-cases, Option-cases, inl, inr, if◌then◌else◌,
  subst,
}
use scrapy_cluster.Settings.{Setting, overlay, join, load_one, load_all}

-- The second value if there is one.
abbrev pub over : {A : Type 0} → Option A → Option A → Option A
over old none = old
over old (some new) = some new

-- No key is there twice, as in any dict.
abbrev pub IsUnique : {A : Type 0} → Dict A → Type 0
IsUnique [] = Unit
IsUnique ((key, v) ∷ d) = (contains key (keys d) ≡ false) × IsUnique d

lookup_absent :
    {A : Type 0} (k : String) (d : Dict A) → contains k (keys d) ≡ false → lookup k d ≡ none
lookup_absent k [] h = refl
lookup_absent k ((j, v) ∷ d) h = ground (arith, lookup_absent k d)

module _ {V : Type 0} where
  -- In a merged dict a key has the local value if there is one, or else the default.
  pub overlay_lem :
      (k : String) (item old : Dict V)
      → IsUnique item
      → lookup k (overlay item old) ≡ over (lookup k old) (lookup k item)
  unfolding overlay
  overlay_lem k [] old unique = refl
  overlay_lem k ((j, v) ∷ item) old (fresh, unique) =
      overlay_lem k item (insert j v old) unique
      ∙ ap (λ o. over o (lookup k item)) (lookup-insert j k v old)
      ∙ elim (Bool-cases (str_eq j k)) [
        | inl same ↦ rw same (
            ap (λ o. over (some v) o)
              (lookup_absent k item
                (subst (λ x. contains x (keys item) ≡ false) ((eq_iff j k).0 same) fresh)))
        | inr different ↦ rw different refl
      ]

  -- What a setting is to be: the local one over the default.
  abbrev pub joined : Option (Setting V) → Option (Setting V) → Option (Setting V)
  joined old none = old
  joined none (some item) = some item
  joined (some old) (some item) = some (join old item)

  load_one_lem :
      (j k : String) (item : Setting V) (mine : Dict (Setting V))
      → lookup k (load_one j item mine)
        ≡ (if str_eq j k then joined (lookup j mine) (some item) else lookup k mine)
  unfolding load_one
  load_one_lem j k item mine = elim (Option-cases (lookup j mine)) [
    | inl absent ↦ rw (load_one, absent) (lookup-insert j k item mine)
    | inr (old, there) ↦ rw (load_one, there) (lookup-insert j k (join old item) mine)
  ]

  -- After the local settings are loaded, a name of the local settings that has no default has its local value; a name with
  -- both has the merged dict if both are dicts, and the local value otherwise; every other name has
  -- its default. (Python's own names of a module are none of these.)
  pub load_all_lem :
      (k : String) (local mine : Dict (Setting V))
      → IsUnique local
      → lookup k (load_all local mine) ≡ joined (lookup k mine) (lookup k local)
  unfolding load_all
  load_all_lem k [] mine unique = refl
  load_all_lem k ((j, item) ∷ local) mine (fresh, unique) =
      load_all_lem k local (load_one j item mine) unique
      ∙ ap (λ o. joined o (lookup k local)) (load_one_lem j k item mine)
      ∙ elim (Bool-cases (str_eq j k)) [
        | inl same ↦ rw same (
            ap (λ o. joined (joined (lookup j mine) (some item)) o)
              (lookup_absent k local
                (subst (λ x. contains x (keys local) ≡ false) ((eq_iff j k).0 same) fresh))
            ∙ ap (λ x. joined (lookup x mine) (some item)) ((eq_iff j k).0 same))
        | inr different ↦ rw different refl
      ]
