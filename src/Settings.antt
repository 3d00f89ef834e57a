-- ===== src/Settings.antt =====
-- `SettingsWrapper` (utils/scutils/settings_wrapper.py): the settings of a component, its local
-- ones merged over the defaults. Importing a module is outside: it gives the names and values of
-- the module, or fails.
pub mod Merged
use scrapy_cluster.Prelude.{
  String, Bool, true, false, Option, none, some, List, [], ◌∷◌, Dict, lookup, insert, contains,
  if◌then◌else◌,
}

-- A setting: a dict, or anything else, which the wrapper does not look into.
pub data Setting (V : Type 0) : Type 0 where
  dict : Dict V → Setting V
  other : V → Setting V

abbrev pub ignore : List String
ignore =
    "__builtins__" ∷ "__file__" ∷ "__package__" ∷ "__doc__" ∷ "__name__" ∷ "__spec__" ∷ "__loader__"
    ∷ "__cached__" ∷ []

module _ {V : Type 0} where
  -- _convert_to_dict
  unfoldable pub convert_to_dict : Dict (Setting V) → Dict (Setting V)
  convert_to_dict [] = []
  convert_to_dict ((key, value) ∷ names) =
      let rest = convert_to_dict names in if contains key ignore then rest else (key, value) ∷ rest

  -- a module that cannot be imported has no settings
  unfoldable pub imported : Option (Dict (Setting V)) → Dict (Setting V)
  imported none = []
  imported (some names) = convert_to_dict names

  -- `for key2 in item` of _load_custom
  unfoldable pub overlay : Dict V → Dict V → Dict V
  overlay [] old = old
  overlay ((key2, v) ∷ item) old = overlay item (insert key2 v old)

  -- a setting over one of the same name
  unfoldable pub join : Setting V → Setting V → Setting V
  join (dict old) (dict item) = dict (overlay item old)
  join (dict old) (other v) = other v
  join (other w) item = item

  -- one name of _load_custom
  unfoldable pub load_one : String → Setting V → Dict (Setting V) → Dict (Setting V)
  load_one key item mine = elim (lookup key mine) [
    | none ↦ insert key item mine
    | some old ↦ insert key (join old item) mine
  ]

  unfoldable pub load_all : Dict (Setting V) → Dict (Setting V) → Dict (Setting V)
  load_all [] mine = mine
  load_all ((key, item) ∷ new_settings) mine = load_all new_settings (load_one key item mine)

  -- _load_custom
  unfoldable pub load_custom : Option (Dict (Setting V)) → Dict (Setting V) → Dict (Setting V)
  load_custom local mine = load_all (imported local) mine

  -- load
  unfoldable pub load : Option (Dict (Setting V)) → Option (Dict (Setting V)) → Dict (Setting V)
  load local default = load_custom local (imported default)
