-- ===== src/Trailing/Ratchet.antt =====
-- How the trigger price of src/engine/trailing-math.ts follows the watermark.
use hy_paper.Prelude.{◌>>=◌, ◌≡◌, refl, inl, inr, Bool, true, false, some, List, [], ◌∷◌, arith}
use hy_paper.Decimal.{Decimal, num, add, sub, div, lte}
use hy_paper.Decimal.Order.{IsOrdered}
use hy_paper.Trailing.{
  TrailingParams, TrailingEval, Kind, px, pct, shifted, compute_trigger, crosses, ratchet,
  evaluate_trailing, evaluate_all,
}
use hy_paper.Trailing.Watermark.{
  Favours, AllFavour, Among, active, active_eval, evaluate-active, evaluate_all-best,
  ratchet-Favours, Favours-trans,
}

module _ {N : Type 0} ⦃d : Decimal N⦄ where
  -- The range that placement checks for a percentage, and that a distance has in any case.
  pub record InRange (p : TrailingParams N) : Type 0 where
    pub nonneg : lte (num 0) p.amount ≡ true
    pub at_most : p.kind ≡ pct → lte p.amount (num 100) ≡ true

  module _ (laws : IsOrdered N) where
    open laws use {
      lte_refl, lte_trans, num_mono, add_mono, sub_mono, mul_mono, add_nonneg, sub_anti, sub_self,
      div_mono, div_self, div_zero, num_ne_zero, half_up_mono,
    }

    rate_nonneg :
        (v : N) → lte (num 0) v ≡ true → lte (num 0) (add (num 1) (div v (num 100))) ≡ true
    rate_nonneg v h = add_nonneg (num 1) (div v (num 100)) (num_mono 0 1 (omega arith)) (
        ground (
          arith,
          div_mono (num 0) v (num 100) (num_mono 0 100 (omega arith)) h,
          div_zero (num 100) (num_ne_zero 99),
        ))

    rate_below :
        (v : N) → lte v (num 100) ≡ true → lte (num 0) (sub (num 1) (div v (num 100))) ≡ true
    rate_below v h = ground (
      arith,
      div_mono v (num 100) (num 100) (num_mono 0 100 (omega arith)) h,
      div_self (num 100) (num_ne_zero 99),
      sub_anti (div v (num 100)) (num 1) (num 1),
      sub_self (num 1),
    )

    shifted_mono :
        (k : Kind) (is_buy : Bool) (v a b : N)
        → lte (num 0) v ≡ true
        → (k ≡ pct → lte v (num 100) ≡ true)
        → lte a b ≡ true
        → lte (shifted k is_buy v a) (shifted k is_buy v b) ≡ true
    unfolding shifted
    shifted_mono px true v a b r s h = add_mono a b v h
    shifted_mono px false v a b r s h = sub_mono a b v h
    shifted_mono pct true v a b r s h = mul_mono a b _ (rate_nonneg v r) h
    shifted_mono pct false v a b r s h = mul_mono a b _ (rate_below v (s refl)) h

    pub compute_trigger_mono :
        (p : TrailingParams N) (a b : N)
        → InRange p
        → lte a b ≡ true
        → lte (compute_trigger p a) (compute_trigger p b) ≡ true
    unfolding compute_trigger
    compute_trigger_mono p a b r h =
        half_up_mono _ _ _ (shifted_mono p.kind p.is_buy p.amount a b r.nonneg r.at_most h)

    trigger-Favours :
        (p : TrailingParams N) (a b : N)
        → InRange p
        → Favours p.is_buy a b
        → Favours p.is_buy (compute_trigger p a) (compute_trigger p b)
    trigger-Favours p a b r h =
        ground (arith, compute_trigger_mono p a b r, compute_trigger_mono p b a r)

    -- Over any run of ticks the trigger of an activated stop moves only in the stop's favour: up for a
    -- sell stop, down for a buy stop, if the distance is not negative and a percentage is 100 at most.
    pub trigger_ratchets :
        (p : TrailingParams N) (b : N) (ms : List N)
        → InRange p
        → (b' : N) × (evaluate_all p (active b) ms ≡ some (active b'))
          × Favours p.is_buy (compute_trigger p b) (compute_trigger p b')
    trigger_ratchets p b ms r =
        let (b', e, _, best) = evaluate_all-best laws p b ms in
        (b', e, trigger-Favours p b b' r best.0)

    AllFavour-Among :
        (is_buy : Bool) (x b : N) (ms : List N)
        → Among x ms
        → AllFavour is_buy b ms
        → Favours is_buy x b
    AllFavour-Among is_buy x b [] h k = absurd h
    AllFavour-Among is_buy x b (m ∷ ms) (inl e) k = ground arith
    AllFavour-Among is_buy x b (m ∷ ms) (inr h) k = AllFavour-Among is_buy x b ms h k.1

    crosses-Favours :
        (p : TrailingParams N) (m s t : N)
        → Favours p.is_buy s t
        → crosses p m s ≡ true
        → crosses p m t ≡ true
    unfolding crosses
    crosses-Favours p m s t h k = ground (arith, lte_trans m s t, lte_trans t s m)

    -- After any run of ticks, if an activated stop does not fire at the next mark, that mark does not
    -- cross the trigger of any mark seen so far, whichever of them was the best.
    pub unfired_clear :
        (p : TrailingParams N) (b m x : N) (ms : List N)
        → InRange p
        → Among x (b ∷ ms)
        → (ev : TrailingEval N) × ((evaluate_all p (active b) ms >>= λ s. evaluate_trailing p s m)
            ≡ some ev)
          × (ev.fire ≡ false → crosses p m (compute_trigger p x) ≡ false)
    unfired_clear p b m x ms r h =
        let (b', e, _, best) = evaluate_all-best laws p b ms in
        let up = (ratchet-Favours laws p b' m).0 in
        let seen = AllFavour-Among p.is_buy x b' (b ∷ ms) h best in
        let closer =
          trigger-Favours p x (ratchet p b' m) r (Favours-trans laws p.is_buy x b' _ seen up) in
        (
          active_eval p b' m,
          rw e (evaluate-active p b' m),
          λ quiet. ground (
            arith,
            crosses-Favours p m (compute_trigger p x) (compute_trigger p (ratchet p b' m)) closer,
          ),
        )
