-- ===== src/Trailing/Hash.antt =====
-- The fields of a trailing stop in its order hash, written and read by src/engine/trailing-math.ts.
use Prim.Native.String.{String}
use text.Mathlib.Text.{◌==◌ as str_eq}
use hy_paper.Prelude.{ℕ, ◌≡◌, refl, Bool, true, false, Option, if◌then◌else◌, arith}
use hy_paper.Trailing.{Kind, px, pct, TrailingParams, TrailingState}

-- An empty string is `none`; a number printed and parsed again is the number.
pub record TrailingFields (N : Type 0) : Type 0 where
  pub tr_kind : String
  pub tr_value : N
  pub tr_act_px : Option N
  pub tr_activated : String
  pub tr_best : Option N
  pub tr_sz_dec : ℕ

unfoldable pub show_bool : Bool → String
show_bool true = "true"
show_bool false = "false"

show_kind : Kind → String
show_kind px = "px"
show_kind pct = "pct"

pub read_bool : (b : Bool) → str_eq (show_bool b) "true" ≡ b
unfolding show_bool
read_bool true = refl
read_bool false = refl

read_kind : (k : Kind) → (if str_eq (show_kind k) "pct" then pct else px) ≡ k
unfolding show_kind
read_kind px = refl
read_kind pct = refl

module _ {N : Type 0} where
  pub fields_from : TrailingParams N → TrailingState N → TrailingFields N
  unfolding show_bool show_kind
  fields_from p s = record {
    tr_kind = show_kind p.kind;
    tr_value = p.amount;
    tr_act_px = p.activation_px;
    tr_activated = show_bool s.activated;
    tr_best = s.best;
    tr_sz_dec = p.sz_decimals;
  }

  -- `is_buy` is the hash's own `isBuy`.
  unfoldable pub read_trailing : String → TrailingFields N → TrailingParams N × TrailingState N
  read_trailing is_buy f = (
    record {
      is_buy = str_eq is_buy "true";
      kind = if str_eq f.tr_kind "pct" then pct else px;
      amount = f.tr_value;
      activation_px = f.tr_act_px;
      sz_decimals = f.tr_sz_dec;
    },
    record { activated = str_eq f.tr_activated "true"; best = f.tr_best },
  )

  -- What placement and every tick write into the hash is read back as the same parameters and state.
  pub read-fields_from :
      (p : TrailingParams N) (s : TrailingState N)
      → read_trailing (show_bool p.is_buy) (fields_from p s) ≡ (p, s)
  unfolding read_trailing fields_from
  read-fields_from p s = ground (arith, read_bool p.is_buy, read_kind p.kind, read_bool s.activated)
