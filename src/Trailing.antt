-- ===== src/Trailing.antt =====
-- src/engine/trailing-math.ts: the trailing stop as a state machine over mark prices.
pub mod Watermark
pub mod Ratchet
pub mod Activation
pub mod Hash
pub mod Wire
mod Examples
use Prim.Native.Nat.{min as min_ℕ, max as max_ℕ}
use hy_paper.Prelude.{
  ℕ, ◌-◌, Bool, true, false, Option, none, some, ◌>>=◌, List, [], ◌∷◌, if◌then◌else◌,
}
use hy_paper.Decimal.{Decimal, num, add, sub, mul, div, lte, gte, min, max, abs}

pub data Kind : Type 0 where
  px pct : Kind

pub record TrailingParams (N : Type 0) : Type 0 where
  pub is_buy : Bool
  pub kind : Kind
  pub amount : N
  pub activation_px : Option N
  pub sz_decimals : ℕ

pub record TrailingState (N : Type 0) : Type 0 where
  pub activated : Bool
  pub best : Option N

pub record TrailingEval (N : Type 0) : Type 0 where
  pub state : TrailingState N
  pub trigger_px : Option N
  pub limit_px : N
  pub fire : Bool

-- `Math.max(0, 6 - szDecimals)`
unfoldable pub price_decimals : ℕ → ℕ
price_decimals sz_decimals = 6 - sz_decimals

module _ {N : Type 0} ⦃d : Decimal N⦄ where
  unfoldable pub shifted : Kind → Bool → N → N → N
  shifted px is_buy amount best = if is_buy then add best amount else sub best amount
  shifted pct is_buy amount best =
      let rate = div amount (num 100) in
      if is_buy then mul best (add (num 1) rate) else mul best (sub (num 1) rate)

  unfoldable pub compute_trigger : TrailingParams N → N → N
  unfolding shifted price_decimals
  compute_trigger p best =
      d.places_half_up (shifted p.kind p.is_buy p.amount best) (price_decimals p.sz_decimals)

  unfoldable pub compute_limit : TrailingParams N → N → N
  unfolding price_decimals
  compute_limit p trigger =
      let raw = mul trigger (if p.is_buy then d.literal 11 1 else d.literal 9 1) in
      let int_digits = max_ℕ 1 (d.digits (d.floor (abs raw))) in
      let k = min_ℕ (price_decimals p.sz_decimals) (5 - int_digits) in
      let step = d.literal 1 k in
      let floored = mul (d.floor (div raw step)) step in
      if p.is_buy then floored else add floored step

  -- Whether a mark activates a stop that waits.
  unfoldable pub reached : TrailingParams N → N → Bool
  reached p mark = elim p.activation_px [
    | none ↦ true
    | some act ↦ if p.is_buy then lte mark act else gte mark act
  ]

  unfoldable pub ratchet : TrailingParams N → N → N → N
  ratchet p b mark = if p.is_buy then min b mark else max b mark

  -- The state after a mark, or none where `D(null)` throws; the watermark of a stop that is activated must be there.
  unfoldable pub step_state : TrailingParams N → TrailingState N → N → Option (TrailingState N)
  unfolding reached ratchet
  step_state p prev mark =
      if prev.activated
      then (prev.best >>= λ b. some (record { activated = true; best = some (ratchet p b mark) }))
      else if reached p mark
      then some (record { activated = true; best = some mark })
      else some (record { activated = false; best = none })

  unfoldable pub crosses : TrailingParams N → N → N → Bool
  crosses p mark trigger = if p.is_buy then gte mark trigger else lte mark trigger

  unfoldable pub report : TrailingParams N → N → TrailingState N → Option (TrailingEval N)
  unfolding compute_trigger compute_limit crosses
  report p mark s =
      if s.activated
      then (s.best >>= λ b.
          let trigger = compute_trigger p b in
          some (record {
            state = s;
            trigger_px = some trigger;
            limit_px = compute_limit p trigger;
            fire = crosses p mark trigger;
          }))
      else (p.activation_px >>= λ act. some (record {
        state = s;
        trigger_px = none;
        limit_px = compute_limit p (compute_trigger p act);
        fire = false;
      }))

  -- `evaluateTrailing`
  unfoldable pub evaluate_trailing :
      TrailingParams N → TrailingState N → N → Option (TrailingEval N)
  unfolding step_state report
  evaluate_trailing p prev mark = step_state p prev mark >>= report p mark

  -- The evaluations of successive ticks, each from the state that the one before left.
  unfoldable pub evaluate_all :
      TrailingParams N → TrailingState N → List N → Option (TrailingState N)
  evaluate_all p s [] = some s
  evaluate_all p s (mark ∷ marks) =
      evaluate_trailing p s mark >>= λ ev. evaluate_all p ev.state marks
