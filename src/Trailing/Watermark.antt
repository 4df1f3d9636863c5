-- ===== src/Trailing/Watermark.antt =====
-- The watermark of an activated stop, over any run of ticks of src/engine/trailing-math.ts.
use hy_paper.Prelude.{
  ◌≡◌, refl, ◌⊎◌, inl, Bool, true, false, some, List, [], ◌∷◌, if◌then◌else◌, arith,
}
use hy_paper.Decimal.{Decimal, lte}
use hy_paper.Decimal.Order.{IsOrdered, lte-max_left, lte-max_right, min-lte_left, min-lte_right}
use hy_paper.Trailing.{
  TrailingParams, TrailingState, TrailingEval, ratchet, compute_trigger, compute_limit, crosses,
  evaluate_trailing, evaluate_all,
}

module _ {N : Type 0} ⦃d : Decimal N⦄ where
  -- `b` is at least as favourable as `a`: a sell stop follows the mark up, a buy stop down.
  abbrev pub Favours : Bool → N → N → Type 0
  Favours is_buy a b = (if is_buy then lte b a else lte a b) ≡ true

  abbrev pub AllFavour : Bool → N → List N → Type 0
  AllFavour is_buy b [] = Unit {0}
  AllFavour is_buy b (m ∷ ms) = Favours is_buy m b × AllFavour is_buy b ms

  abbrev pub Among : N → List N → Type 0
  Among b [] = ⊥
  Among b (m ∷ ms) = (b ≡ m) ⊎ Among b ms

  abbrev pub active : N → TrailingState N
  active b = record { activated = true; best = some b }

  pub watermark : TrailingParams N → N → List N → N
  watermark p b [] = b
  watermark p b (m ∷ ms) = watermark p (ratchet p b m) ms

  -- One tick of an activated stop.
  abbrev pub active_eval : TrailingParams N → N → N → TrailingEval N
  active_eval p b m =
      let best = ratchet p b m in
      let trigger = compute_trigger p best in
      record {
        state = active best;
        trigger_px = some trigger;
        limit_px = compute_limit p trigger;
        fire = crosses p m trigger;
      }

  pub evaluate-active :
      (p : TrailingParams N) (b m : N) → evaluate_trailing p (active b) m ≡ some (active_eval p b m)
  unfolding evaluate_trailing
  evaluate-active p b m = refl

  pub evaluate_all-active :
      (p : TrailingParams N) (b : N) (ms : List N)
      → evaluate_all p (active b) ms ≡ some (active (watermark p b ms))
  unfolding evaluate_all watermark evaluate_trailing
  evaluate_all-active p b [] = refl
  evaluate_all-active p b (m ∷ ms) = evaluate_all-active p (ratchet p b m) ms

  module _ (laws : IsOrdered N) where
    open laws use {lte_refl, lte_trans, min_lem, max_lem}

    pub Favours-refl : (is_buy : Bool) (a : N) → Favours is_buy a a
    Favours-refl true a = lte_refl a
    Favours-refl false a = lte_refl a

    pub Favours-trans :
        (is_buy : Bool) (a b c : N) → Favours is_buy a b → Favours is_buy b c → Favours is_buy a c
    Favours-trans true a b c h k = lte_trans c b a k h
    Favours-trans false a b c h k = lte_trans a b c h k

    -- A tick moves the watermark only in the stop's favour, up to the mark at most.
    pub ratchet-Favours :
        (p : TrailingParams N) (b m : N)
        → Favours p.is_buy b (ratchet p b m)
          × Favours p.is_buy m (ratchet p b m)
          × Among (ratchet p b m) (b ∷ m ∷ [])
    unfolding ratchet
    ratchet-Favours p b m = ground (
      arith,
      min_lem b m,
      max_lem b m,
      lte-max_left laws b m,
      lte-max_right laws b m,
      min-lte_left laws b m,
      min-lte_right laws b m,
    )

    watermark-AllFavour :
        (p : TrailingParams N) (b : N) (ms : List N)
        → AllFavour p.is_buy (watermark p b ms) (b ∷ ms)
    unfolding watermark
    watermark-AllFavour p b [] = (Favours-refl p.is_buy b, tt)
    watermark-AllFavour p b (m ∷ ms) =
        let (old, new, _) = ratchet-Favours p b m in
        let (up, rest) = watermark-AllFavour p (ratchet p b m) ms in
        (
          Favours-trans p.is_buy b (ratchet p b m) _ old up,
          (Favours-trans p.is_buy m (ratchet p b m) _ new up, rest),
        )

    watermark-Among :
        (p : TrailingParams N) (b : N) (ms : List N) → Among (watermark p b ms) (b ∷ ms)
    unfolding watermark
    watermark-Among p b [] = inl refl
    watermark-Among p b (m ∷ ms) =
        let (_, _, one) = ratchet-Favours p b m in
        ground (arith, one, watermark-Among p (ratchet p b m) ms)

    -- Over any run of ticks an activated stop keeps a watermark which is one of the marks, or the
    -- watermark it had, and which is the most favourable of them all: the highest for a sell stop,
    -- the lowest for a buy stop.
    pub evaluate_all-best :
        (p : TrailingParams N) (b : N) (ms : List N)
        → (b' : N) × (evaluate_all p (active b) ms ≡ some (active b'))
          × Among b' (b ∷ ms)
          × AllFavour p.is_buy b' (b ∷ ms)
    evaluate_all-best p b ms = (
      watermark p b ms,
      evaluate_all-active p b ms,
      watermark-Among p b ms,
      watermark-AllFavour p b ms,
    )
