-- ===== src/Trailing/Wire/Examples.antt =====
-- An action for a trailing stop, as src/engine/trailing-math.ts is handed it, on test data.
use Prim.Native.String.{String}
use mathlib.Core.List.{Permᴰ}
use hy_paper.Prelude.{◌≡◌, refl, ◌↔◌, true, false, none, some, List, [], ◌∷◌}
use hy_paper.Prelude.Maps.{string_keys}
use hy_paper.Prelude.Entries.{lookup, has_key, keys_differ}
use hy_paper.Trailing.Wire.{
  JsonValue, null_value, bool_value, number_value, string_value, object, pct_text, StopAction,
  has_keys, text_of, number_of, bool_of, retracement_of, nullable_text_of, of_type, read_entries,
  canonicalize_trailing_stop, entries_of,
}
use hy_paper.Trailing.Wire.Canonical.{canonical_in_any_order}

-- The action as the web client sends it, with its keys sorted.
abbrev sorted_entries : List (String × JsonValue)
sorted_entries =
    ("activationPx", null_value)
    ∷ ("asset", number_value (some 4))
    ∷ ("isBuy", bool_value false)
    ∷ ("reduceOnly", bool_value true)
    ∷ ("retracement", object (("pct", some "2.5%") ∷ []))
    ∷ ("sz", string_value "0.1")
    ∷ ("type", string_value "trailingStop")
    ∷ []

abbrev stop_action : StopAction
stop_action = record {
  asset = 4;
  is_buy = false;
  sz = "0.1";
  reduce_only = true;
  retracement = pct_text "2.5%";
  activation_px = none;
}

sorted_entries_canonical : canonicalize_trailing_stop (some sorted_entries) ≡ some stop_action
unfolding canonicalize_trailing_stop has_keys has_key lookup read_entries of_type text_of number_of
    bool_of retracement_of nullable_text_of
sorted_entries_canonical = refl

canonical_in_any_order_example :
    (canonicalize_trailing_stop (some sorted_entries) ≡ some stop_action)
    ↔ Permᴰ sorted_entries (entries_of stop_action)
unfolding keys_differ has_key
canonical_in_any_order_example = canonical_in_any_order sorted_entries stop_action refl
