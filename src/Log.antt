-- ===== src/Log.antt =====
-- The logger of all parts: utils/scutils/log_factory.py, with its levels, what it writes, and the
-- callbacks that are registered for levels and criteria.
pub mod Callbacks
pub mod Criteria
mod Tests
use Prim.Native.Char.{Char}
use Prim.Native.String
use Prim.Native.String.{◌++◌ as append}
use scrapy_cluster.Prelude.{
  ℕ, ◌+◌, ◌-◌, suc, zero, String, Bool, true, false, not, ◌&&◌, ◌||◌, Option, none, some, List, [],
  ◌∷◌, ◌++◌, str_eq, leb, ◌==◌, is_some, Dict, lookup, insert, erase, if◌then◌else◌,
}
use scrapy_cluster.Text.{single}
use scrapy_cluster.Statistics.Queues.{and_then}

-- level_dict; none is a KeyError
abbrev pub level_of : String → Option ℕ
level_of name =
    if str_eq name "DEBUG"
    then some 0
    else if str_eq name "INFO"
    then some 1
    else if str_eq name "WARN"
    then some 2
    else if str_eq name "WARNING"
    then some 2
    else if str_eq name "ERROR"
    then some 3
    else if str_eq name "CRITICAL"
    then some 4
    else none

-- `n` numbers from `a` on
abbrev pub range : ℕ → ℕ → List ℕ
range a zero = []
range a (suc n) = a ∷ range (a + 1) n

abbrev pub up_to : ℕ → List ℕ
up_to n = range 0 (n + 1)

abbrev pub below : ℕ → List ℕ
below n = range 0 n

abbrev pub from : ℕ → List ℕ
from n = range n (5 - n)

abbrev pub above : ℕ → List ℕ
above n = range (n + 1) (4 - n)

abbrev pub only : ℕ → List ℕ
only n = n ∷ []

abbrev pub is_char : Char → String → Bool
is_char c s = str_eq (single c) s

-- the branch of parse_log_level and what is left of the text
abbrev pub at_level : String → (ℕ → List ℕ) → Option (List ℕ)
at_level name f = and_then (level_of name) (λ n. some (f n))

-- parse_log_level; none is a KeyError
unfoldable pub parse_log_level : String → Option (List ℕ)
parse_log_level String.[] = at_level "" only
parse_log_level (String.◌∷◌ c String.[]) =
    if is_char c "<"
    then at_level "" below
    else if is_char c ">"
    then at_level "" above
    else if is_char c "="
    then at_level "" only
    else if is_char c "*"
    then some (range 0 5)
    else at_level (single c) only
parse_log_level (String.◌∷◌ c (String.◌∷◌ d s)) =
    if is_char c "<" && is_char d "="
    then at_level s up_to
    else if is_char c "<"
    then at_level (String.◌∷◌ d s) below
    else if is_char c ">" && is_char d "="
    then at_level s from
    else if is_char c ">"
    then at_level (String.◌∷◌ d s) above
    else if is_char c "="
    then at_level (String.◌∷◌ d s) only
    else at_level (String.◌∷◌ c (String.◌∷◌ d s)) only

-- a callback, numbered, with its criteria
pub record Callback : Type 0 where
  pub fn : ℕ
  pub criteria : Dict String

-- self.callbacks by the number of the level, which num_to_level_map turns into its name
abbrev pub Callbacks : Type 0
Callbacks = ℕ → List Callback

abbrev pub append_at : ℕ → Callback → Callbacks → Callbacks
append_at n cb t k = if k == n then t k ++ (cb ∷ []) else t k

-- the loop of register_callback
unfoldable pub register_levels : List ℕ → Callback → Callbacks → Callbacks
register_levels [] cb t = t
register_levels (n ∷ levels) cb t = register_levels levels cb (append_at n cb t)

-- register_callback
unfoldable pub register_callback : String → Callback → Callbacks → Option Callbacks
register_callback log_level cb t =
    and_then (parse_log_level log_level) (λ levels. some (register_levels levels cb t))

-- is_subdict
unfoldable pub is_subdict : Dict String → Dict String → Bool
is_subdict [] b = true
is_subdict ((k, v) ∷ a) b =
    (elim (lookup k b) [ none ↦ false | some w ↦ str_eq w v ]) && is_subdict a b

-- `criteria and not self.is_subdict(criteria, log_extra)`
unfoldable pub unmatched : Dict String → Dict String → Bool
unmatched [] extra = false
unmatched ((k, v) ∷ a) extra = not (is_subdict ((k, v) ∷ a) extra)

-- the callbacks that fire_callbacks calls, in their order
unfoldable pub fire_callbacks : List Callback → Dict String → List ℕ
fire_callbacks [] extra = []
fire_callbacks (cb ∷ callbacks) extra =
    let later = fire_callbacks callbacks extra in
    if unmatched cb.criteria extra then later else cb.fn ∷ later

pub record Logger : Type 0 where
  pub json : Bool
  pub include_extra : Bool
  pub log_level : String
  pub name : String
  pub callbacks : Callbacks

-- _check_log_level
unfoldable pub check_log_level : String → Logger → Logger
check_log_level level l = if is_some (level_of level) then l else record l { log_level = "DEBUG" }

abbrev pub insert_new : String → String → Dict String → Dict String
insert_new k v d = if is_some (lookup k d) then d else insert k v d

-- add_extras
unfoldable pub add_extras : Dict String → String → String → Logger → Dict String
add_extras extra level time l =
    insert_new "logger" l.name (insert_new "timestamp" time (insert_new "level" level extra))

-- what is written: the level's method of Python's logger and the message
abbrev pub Written : Type 0
Written = String × String

abbrev pub stripped : Dict String → Dict String
stripped extra = erase "logger" (erase "level" (erase "timestamp" extra))

-- the method that _write_standard calls
unfoldable pub method_of : String → String
method_of level =
    if str_eq level "INFO"
      || (str_eq level "WARNING" || (str_eq level "ERROR" || str_eq level "CRITICAL"))
    then level
    else "DEBUG"

-- `message += " " + str(extra)` where the dict is not empty
abbrev pub with_extra : (Dict String → String) → String → Dict String → String
with_extra str message [] = message
with_extra str message (e ∷ extra) = append message (append " " (str (e ∷ extra)))

-- _write_standard over the text of a dict: with include_extra, the extras that it is given are changed
-- in place
unfoldable pub write_standard :
    (Dict String → String) → String → Dict String → Logger → Option (Written × Dict String)
write_standard str message extra l = and_then (lookup "level" extra) (λ level. some (
  (method_of level, if l.include_extra then with_extra str message (stripped extra) else message),
  if l.include_extra then stripped extra else extra,
))

-- _write_message
unfoldable pub write_message :
    (Dict String → String) → String → Dict String → Logger → Option (Written × Dict String)
write_message str message extra l =
    if l.json then some (("INFO", message), extra) else write_standard str message extra l

-- what a call of debug, info, warning, error or critical does: it is below the logger's level, it
-- raises, or it writes and calls callbacks
pub data Logged : Type 0 where
  quiet : Logged
  key_error : Logged
  logged : Written → List ℕ → Logged

-- the end of such a call
unfoldable pub fire_after : ℕ → Logger → Option (Written × Dict String) → Logged
fire_after n l none = key_error
fire_after n l (some (written, extra)) = logged written (fire_callbacks (l.callbacks n) extra)

-- debug, info, warning (and warn), error and critical, by the name of the level and its number
unfoldable pub log :
    (Dict String → String) → String → ℕ → String → String → Dict String → Logger → Logged
log str level n time message extra l = elim (level_of l.log_level) [
  | none ↦ key_error
  | some threshold ↦
      if leb threshold n
      then fire_after n l (write_message str message (add_extras extra level time l) l)
      else quiet
]
