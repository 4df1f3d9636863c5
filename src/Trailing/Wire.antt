-- ===== src/Trailing/Wire.antt =====
-- src/engine/trailing-math.ts, canonicalizeTrailingStop: the shape of a trailing stop that is asked for.
pub mod Canonical
mod Examples
use Prim.Native.String.{String}
use text.Mathlib.Text.{◌==◌ as str_eq}
use hy_paper.Prelude.{
  ℕ, Bool, true, false, not, ◌&&◌, Option, none, some, ◌>>=◌, List, [], ◌∷◌, ◌==◌, length,
  if◌then◌else◌,
}
use hy_paper.Prelude.Maps.{string_keys}
use hy_paper.Prelude.Entries.{lookup, has_key}

-- A value of an entry. A number is none if it is no whole number from 0 on, and the value of an
-- inner entry if it is no text.
pub data JsonValue : Type 0 where
  null_value array : JsonValue
  bool_value : Bool → JsonValue
  number_value : Option ℕ → JsonValue
  string_value : String → JsonValue
  object : List (String × Option String) → JsonValue

pub data RetracementText : Type 0 where
  px_text pct_text : String → RetracementText

-- `TrailingStopWire`, with its texts.
pub record StopAction : Type 0 where
  pub asset : ℕ
  pub is_buy : Bool
  pub sz : String
  pub reduce_only : Bool
  pub retracement : RetracementText
  pub activation_px : Option String

-- TRAILING_KEY_ORDER
abbrev pub trailing_key_order : List String
trailing_key_order =
    "type" ∷ "asset" ∷ "isBuy" ∷ "sz" ∷ "reduceOnly" ∷ "retracement" ∷ "activationPx" ∷ []

pub has_keys : List String → List (String × JsonValue) → Bool
unfolding has_key
has_keys [] entries = true
has_keys (key ∷ keys) entries = has_key key entries && has_keys keys entries

pub text_of : Option JsonValue → Option String
text_of (some (string_value s)) = some s
text_of _ = none

pub number_of : Option JsonValue → Option ℕ
number_of (some (number_value n)) = n
number_of _ = none

pub bool_of : Option JsonValue → Option Bool
bool_of (some (bool_value b)) = some b
bool_of _ = none

-- An object with one entry, whose value is a text.
pub retracement_of : Option JsonValue → Option RetracementText
retracement_of (some (object ((key, some v) ∷ []))) =
    if str_eq key "px"
    then some (px_text v)
    else if str_eq key "pct"
    then some (pct_text v)
    else none
retracement_of _ = none

pub nullable_text_of : Option JsonValue → Option (Option String)
nullable_text_of (some null_value) = some none
nullable_text_of (some (string_value s)) = some (some s)
nullable_text_of _ = none

of_type : String → StopAction → Option StopAction
of_type kind a = if not (str_eq kind "trailingStop") then none else some a

-- The checks of the values.
pub read_entries : List (String × JsonValue) → Option StopAction
unfolding lookup text_of number_of bool_of retracement_of nullable_text_of of_type
read_entries entries = do
  kind ← text_of (lookup "type" entries)
  asset ← number_of (lookup "asset" entries)
  is_buy ← bool_of (lookup "isBuy" entries)
  sz ← text_of (lookup "sz" entries)
  reduce_only ← bool_of (lookup "reduceOnly" entries)
  retracement ← retracement_of (lookup "retracement" entries)
  activation_px ← nullable_text_of (lookup "activationPx" entries)
  of_type kind (record {
    asset = asset;
    is_buy = is_buy;
    sz = sz;
    reduce_only = reduce_only;
    retracement = retracement;
    activation_px = activation_px;
  })

-- `canonicalizeTrailingStop`, on the entries of what is asked for, none if it is no object.
pub canonicalize_trailing_stop : Option (List (String × JsonValue)) → Option StopAction
unfolding has_keys read_entries
canonicalize_trailing_stop none = none
canonicalize_trailing_stop (some entries) =
    if not (length entries == length trailing_key_order)
    then none
    else if not (has_keys trailing_key_order entries)
    then none
    else read_entries entries

retracement_entry : RetracementText → String × Option String
retracement_entry (px_text v) = ("px", some v)
retracement_entry (pct_text v) = ("pct", some v)

nullable_text : Option String → JsonValue
nullable_text none = null_value
nullable_text (some s) = string_value s

-- The entries of the fresh object, in the order that is signed.
unfoldable pub entries_of : StopAction → List (String × JsonValue)
unfolding retracement_entry nullable_text
entries_of a =
    ("type", string_value "trailingStop")
    ∷ ("asset", number_value (some a.asset))
    ∷ ("isBuy", bool_value a.is_buy)
    ∷ ("sz", string_value a.sz)
    ∷ ("reduceOnly", bool_value a.reduce_only)
    ∷ ("retracement", object (retracement_entry a.retracement ∷ []))
    ∷ ("activationPx", nullable_text a.activation_px)
    ∷ []
