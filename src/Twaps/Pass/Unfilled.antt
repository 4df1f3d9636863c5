-- ===== src/Twaps/Pass/Unfilled.antt =====
-- A slice of a reduce-only TWAP that finds nothing to reduce, in matchTwaps of
-- src/worker/order-matcher.ts.
use Prim.Native.String.{String}
use hy_paper.Prelude.{ℕ, ◌≡◌, refl, ap, arith, ◌∙◌, true, false, none, some}
use hy_paper.Prelude.Maps.{nat_keys, string_keys, pair_keys, update, beq_refl}
use hy_paper.Decimal.{Decimal, num, add, lte, is_zero}
use hy_paper.Orders.{ioc, na}
use hy_paper.Store.{SameHoldings}
use hy_paper.Env.{mid_of}
use hy_paper.NextPosition.{current_szi}
use hy_paper.Intake.{OrderWire, PlaceOpts, resolve_asset_coin}
use hy_paper.Intake.Place.{would_fill, place_single_order}
use hy_paper.Intake.Place.Unfilled.{Unfilled, place_single_order-Unfilled}
use hy_paper.Intake.Links.Alone.{place_orders_alone}
use hy_paper.Twaps.{Twap, TwapState, set_twap}
use hy_paper.Twaps.Pass.{
  TwapEnv, submit, slice_wire, slice_action, due_action, sized_action, twap_action, scheduled,
  settle_slice, submit_slice, carry_out, match_twap,
}

module _ {N : Type 0} ⦃d : Decimal N⦄ (te : TwapEnv N) where
  abbrev opts_of : ℕ → PlaceOpts
  opts_of id = record { expires_after = none; builder = none; twap_id = some id }

  -- The wire of a slice is an IOC order on the asset and the side of the TWAP.
  submitted_wire :
      (t : Twap N) (wire : OrderWire N)
      → twap_action te t ≡ submit wire
      → (wire.a ≡ t.asset)
        × (wire.b ≡ t.is_buy)
        × (wire.r ≡ t.reduce_only)
        × (wire.trigger ≡ none)
        × (wire.tif ≡ some ioc)
  unfolding twap_action sized_action due_action slice_action slice_wire
  submitted_wire t wire h = ground arith

  -- A slice that was answered as a fill of a size.
  settled_slice :
      (id : ℕ) (t : Twap N) (wire : OrderWire N) (ts : TwapState N) (sz : N)
      → Unfilled ts.intake sz wire.c
          (place_single_order te.intake t.user_id wire na (opts_of id) ts.intake)
      → ((submit_slice te id t wire ts).twaps id
          ≡ some (
              scheduled te id
                (record t { filled_size = d.places_half_up (add t.filled_size sz) 9 })))
        × SameHoldings ts.intake.store (submit_slice te id t wire ts).intake.store
  unfolding submit_slice settle_slice set_twap update
  settled_slice id t wire ts sz u =
      rw
        (
          place_orders_alone te.intake t.user_id wire (opts_of id) ts.intake,
          submit_slice,
          u.answered,
        )
        (rw (beq_refl id) refl, u.kept)

  -- Where a slice of a reduce-only TWAP is submitted on a known asset at a limit price that the mid meets,
  -- and the user holds no position in it: no position, balance or fill changes, and the size of the slice
  -- is counted as filled.
  pub unfilled_slice_is_counted :
      (id : ℕ) (t : Twap N) (ts : TwapState N) (wire : OrderWire N) (coin : String) (mid sz : N)
      → ts.twaps id ≡ some t
      → twap_action te t ≡ submit wire
      → t.reduce_only ≡ true
      → is_zero (current_szi (ts.intake.store.positions (t.user_id, t.asset))) ≡ true
      → resolve_asset_coin te.intake t.asset ≡ some coin
      → mid_of coin te.intake.env.mids ≡ some mid
      → would_fill t.is_buy mid wire.p ≡ true
      → wire.s ≡ some sz
      → lte sz (num 0) ≡ false
      → let after = match_twap te id ts in
        (after.twaps id
          ≡ some (
              scheduled te id
                (record t { filled_size = d.places_half_up (add t.filled_size sz) 9 })))
        × SameHoldings ts.intake.store after.intake.store
  unfolding match_twap carry_out
  unfilled_slice_is_counted id t ts wire coin mid sz e h reduces flat known mid_at crosses sized
        some_ =
      let (assets, sides, cuts, plain, asked) = submitted_wire t wire h in
      rw (match_twap, e, h)
        (settled_slice id t wire ts sz (
          place_single_order-Unfilled te.intake t.user_id coin wire sz mid na (opts_of id) ts.intake
            (cuts ∙ reduces)
            (ap (λ a. is_zero (current_szi (ts.intake.store.positions (t.user_id, a)))) assets
              ∙ flat)
            mid_at (ap (λ b. would_fill b mid wire.p) sides ∙ crosses)
            (ap (resolve_asset_coin te.intake) assets ∙ known) sized some_ plain asked))
