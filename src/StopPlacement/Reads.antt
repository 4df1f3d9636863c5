-- ===== src/StopPlacement/Reads.antt =====
-- How an action that passes the checks of src/engine/trailing-math.ts is read.
use hy_paper.Prelude.{ℕ, ◌≡◌, refl, false, Option, none, some, inl, inr, Option-cases, arith}
use hy_paper.Prelude.Maps.{nat_keys}
use hy_paper.Decimal.{Decimal, num, lte}
use hy_paper.Decimal.Order.{IsOrdered}
use hy_paper.Trailing.{pct, TrailingParams}
use hy_paper.Trailing.Ratchet.{InRange}
use hy_paper.StopPlacement.{
  Retracement, by_px, by_pct, TrailingStopWire, normalize_px, validate_retracement,
  validate_activation, validate_trailing_stop, kind_of, amount_of, activation_of, params_from_wire,
}

module _ {N : Type 0} ⦃d : Decimal N⦄ where
  retracement_reads :
      (r : Retracement N) (k : ℕ)
      → validate_retracement r k ≡ none
      → (v : N) × (amount_of r k ≡ some v)
        × (lte v (num 0) ≡ false)
        × (kind_of r ≡ pct → lte (num 100) v ≡ false)
  unfolding validate_retracement amount_of kind_of
  retracement_reads (by_px none) k h = absurd (ground arith)
  retracement_reads (by_pct none) k h = absurd (ground arith)
  retracement_reads (by_px (some v)) k h = (normalize_px v k, refl, ground arith, λ e. ground arith)
  retracement_reads (by_pct (some v)) k h = (v, refl, ground arith, λ e. ground arith)

  activation_reads :
      (a : Option (Option N))
      → validate_activation a ≡ none
      → (act : Option N) × (activation_of a ≡ some act)
  unfolding validate_activation activation_of
  activation_reads none h = (none, refl)
  activation_reads (some none) h = absurd (ground arith)
  activation_reads (some (some act)) h = (some act, refl)

  -- An action that passes the checks is read without an exception, within range.
  pub record Reads (w : TrailingStopWire N) (k : ℕ) : Type 0 where
    pub p : TrailingParams N
    pub sz : N
    pub params : params_from_wire w k ≡ some p
    pub sized : w.sz ≡ some sz
    pub positive : lte sz (num 0) ≡ false
    pub range : InRange p
    pub side : p.is_buy ≡ w.is_buy
    pub some_distance : lte p.amount (num 0) ≡ false

  pub validate_trailing_stop_lem :
      (w : TrailingStopWire N) (k : ℕ) → IsOrdered N → validate_trailing_stop w k ≡ none → Reads w k
  unfolding validate_trailing_stop params_from_wire
  validate_trailing_stop_lem w k laws h = elim (Option-cases w.sz) [
    | inl unsized ↦ absurd (ground arith)
    | inr (sz, sized) ↦
        let positive : lte sz (num 0) ≡ false = ground arith in
        let (v, amount, apart, capped) = retracement_reads w.retracement k (ground arith) in
        let (act, starts) = activation_reads w.activation_px (ground arith) in
        record {
          p = record {
            is_buy = w.is_buy;
            kind = kind_of w.retracement;
            amount = v;
            activation_px = act;
            sz_decimals = k;
          };
          sz = sz;
          params = rw (amount, starts) refl;
          sized = sized;
          positive = positive;
          range = record {
            nonneg = laws.lte_total v (num 0) apart;
            at_most = λ e. laws.lte_total (num 100) v (capped e);
          };
          side = refl;
          some_distance = apart;
        }
  ]
