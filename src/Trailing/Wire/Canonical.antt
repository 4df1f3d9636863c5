-- ===== src/Trailing/Wire/Canonical.antt =====
-- canonicalizeTrailingStop of src/engine/trailing-math.ts takes an object with its keys in any order.
use Prim.Native.String.{String}
use mathlib.Core.List.{Permᴰ}
use mathlib.Core.Path.{subst}
use hy_paper.Prelude.{
  ℕ, ◌≡◌, refl, sym, ap, ◌∙◌, ◌↔◌, Bool, true, Option, none, some, ◌>>=◌, List, [], ◌∷◌, length,
  arith,
}
use hy_paper.Prelude.Maps.{string_keys}
use hy_paper.Prelude.Entries.{
  lookup, has_key, keys_differ, AllFound, Permᴰ-SameEntries, found-Permᴰ, AllFound-same,
  Permᴰ-length,
}
use hy_paper.Trailing.Wire.{
  JsonValue, null_value, array, bool_value, number_value, string_value, object, RetracementText,
  px_text, pct_text, StopAction, trailing_key_order, has_keys, text_of, number_of, bool_of,
  retracement_of, nullable_text_of, of_type, read_entries, canonicalize_trailing_stop,
  retracement_entry, nullable_text, entries_of,
}

-- The readers invert the printers.
text_of-some : (o : Option JsonValue) (s : String) → text_of o ≡ some s → o ≡ some (string_value s)
unfolding text_of
text_of-some (some (string_value t)) s h = ground (arith, h)
text_of-some none s h = cc
text_of-some (some null_value) s h = cc
text_of-some (some array) s h = cc
text_of-some (some (bool_value b)) s h = cc
text_of-some (some (number_value n)) s h = cc
text_of-some (some (object es)) s h = cc

number_of-some :
    (o : Option JsonValue) (n : ℕ) → number_of o ≡ some n → o ≡ some (number_value (some n))
unfolding number_of
number_of-some (some (number_value m)) n h = ap (λ x. some (number_value x)) h
number_of-some none n h = cc
number_of-some (some null_value) n h = cc
number_of-some (some array) n h = cc
number_of-some (some (bool_value b)) n h = cc
number_of-some (some (string_value s)) n h = cc
number_of-some (some (object es)) n h = cc

bool_of-some : (o : Option JsonValue) (b : Bool) → bool_of o ≡ some b → o ≡ some (bool_value b)
unfolding bool_of
bool_of-some (some (bool_value c)) b h = ground (arith, h)
bool_of-some none b h = cc
bool_of-some (some null_value) b h = cc
bool_of-some (some array) b h = cc
bool_of-some (some (number_value n)) b h = cc
bool_of-some (some (string_value s)) b h = cc
bool_of-some (some (object es)) b h = cc

bind-some :
    {A B : Type 0} (o : Option A) (f : A → Option B) (b : B)
    → (o >>= f) ≡ some b
    → (a : A) × (o ≡ some a) × (f a ≡ some b)
bind-some none f b h = cc
bind-some (some a) f b h = (a, refl, h)

nullable_text_of-some :
    (o : Option JsonValue) (t : Option String)
    → nullable_text_of o ≡ some t
    → o ≡ some (nullable_text t)
unfolding nullable_text_of nullable_text
nullable_text_of-some (some null_value) none h = refl
nullable_text_of-some (some null_value) (some s) h = cc
nullable_text_of-some (some (string_value s)) none h = cc
nullable_text_of-some (some (string_value s)) (some t) h = ground (arith, h)
nullable_text_of-some none t h = cc
nullable_text_of-some (some array) t h = cc
nullable_text_of-some (some (bool_value b)) t h = cc
nullable_text_of-some (some (number_value n)) t h = cc
nullable_text_of-some (some (object es)) t h = cc

entry-some :
    (key v : String) (r : RetracementText)
    → retracement_of (some (object ((key, some v) ∷ []))) ≡ some r
    → (key, some v) ≡ retracement_entry r
unfolding retracement_of retracement_entry
entry-some key v (px_text w) h =
    ground (arith, h, string_keys.beq_iff key "px", string_keys.beq_iff key "pct")
entry-some key v (pct_text w) h =
    ground (arith, h, string_keys.beq_iff key "px", string_keys.beq_iff key "pct")

retracement_of-some :
    (o : Option JsonValue) (r : RetracementText)
    → retracement_of o ≡ some r
    → o ≡ some (object (retracement_entry r ∷ []))
unfolding retracement_of
retracement_of-some (some (object ((key, some v) ∷ []))) r h =
    ap (λ entry. some (object (entry ∷ []))) (entry-some key v r h)
retracement_of-some (some (object ((key, none) ∷ []))) r h = cc
retracement_of-some (some (object [])) r h = cc
retracement_of-some (some (object ((key, some v) ∷ b ∷ es))) r h = cc
retracement_of-some (some (object ((key, none) ∷ b ∷ es))) r h = cc
retracement_of-some none r h = cc
retracement_of-some (some null_value) r h = cc
retracement_of-some (some array) r h = cc
retracement_of-some (some (bool_value b)) r h = cc
retracement_of-some (some (number_value n)) r h = cc
retracement_of-some (some (string_value s)) r h = cc

-- What is read was found.
read_entries-AllFound :
    (es : List (String × JsonValue)) (a : StopAction)
    → read_entries es ≡ some a
    → AllFound es (entries_of a)
unfolding read_entries AllFound entries_of of_type
read_entries-AllFound es a h =
    let (kind, e1, h1) = bind-some (text_of (lookup "type" es)) _ a h in
    let (asset, e2, h2) = bind-some (number_of (lookup "asset" es)) _ a h1 in
    let (is_buy, e3, h3) = bind-some (bool_of (lookup "isBuy" es)) _ a h2 in
    let (sz, e4, h4) = bind-some (text_of (lookup "sz" es)) _ a h3 in
    let (reduce_only, e5, h5) = bind-some (bool_of (lookup "reduceOnly" es)) _ a h4 in
    let (retracement, e6, h6) = bind-some (retracement_of (lookup "retracement" es)) _ a h5 in
    let (act, e7, h7) = bind-some (nullable_text_of (lookup "activationPx" es)) _ a h6 in
    let read : StopAction = record {
      asset = asset;
      is_buy = is_buy;
      sz = sz;
      reduce_only = reduce_only;
      retracement = retracement;
      activation_px = act;
    } in
    let same : (kind ≡ "trailingStop") × (read ≡ a) =
      ground (arith, h7, string_keys.beq_iff kind "trailingStop") in
    subst (λ b. AllFound es (entries_of b)) same.1
      (
        text_of-some _ "trailingStop" (e1 ∙ ap some same.0),
        (
          number_of-some _ asset e2,
          (
            bool_of-some _ is_buy e3,
            (
              text_of-some _ sz e4,
              (
                bool_of-some _ reduce_only e5,
                (retracement_of-some _ retracement e6, (nullable_text_of-some _ act e7, tt)),
              ),
            ),
          ),
        ),
      )

retracement_of_entry :
    (r : RetracementText) → retracement_of (some (object (retracement_entry r ∷ []))) ≡ some r
unfolding retracement_of retracement_entry
retracement_of_entry (px_text v) = refl
retracement_of_entry (pct_text v) = refl

nullable_text_of_text : (t : Option String) → nullable_text_of (some (nullable_text t)) ≡ some t
unfolding nullable_text_of nullable_text
nullable_text_of_text none = refl
nullable_text_of_text (some s) = refl

-- The values of an action are read from every list in which they are found.
read_entries-found :
    (es : List (String × JsonValue)) (a : StopAction)
    → AllFound es (entries_of a)
    → read_entries es ≡ some a
unfolding read_entries AllFound entries_of of_type text_of number_of bool_of
read_entries-found es a (e1, (e2, (e3, (e4, (e5, (e6, (e7, _))))))) =
    rw
      (
        e1,
        e2,
        e3,
        e4,
        e5,
        e6,
        e7,
        retracement_of_entry a.retracement,
        nullable_text_of_text a.activation_px,
      )
      refl

-- An object in which no key stands twice is taken for an action exactly if its entries are those of the
-- action, in any order.
pub canonical_in_any_order :
    (es : List (String × JsonValue)) (a : StopAction)
    → keys_differ es ≡ true
    → (canonicalize_trailing_stop (some es) ≡ some a) ↔ Permᴰ es (entries_of a)
unfolding canonicalize_trailing_stop has_keys has_key keys_differ lookup AllFound entries_of
canonical_in_any_order es a d = (
  λ h.
      let read : read_entries es ≡ some a = ground (arith, h) in
      let long : length es ≡ 7 = ground (arith, h) in
      found-Permᴰ es (entries_of a) refl long (read_entries-AllFound es a read),
  λ perm.
      let same = Permᴰ-SameEntries perm in
      let found =
        AllFound-same (entries_of a) es (entries_of a) (λ k. sym (same.found d k))
          (refl, (refl, (refl, (refl, (refl, (refl, (refl, tt))))))) in
      let long : length es ≡ 7 = Permᴰ-length perm in
      let listed : has_keys trailing_key_order es ≡ true =
        rw
          (
            sym (same.present "type"),
            sym (same.present "asset"),
            sym (same.present "isBuy"),
            sym (same.present "sz"),
            sym (same.present "reduceOnly"),
            sym (same.present "retracement"),
            sym (same.present "activationPx"),
          )
          refl in
      rw (long, listed) (read_entries-found es a found),
)
