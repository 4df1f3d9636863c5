-- ===== src/Intake/Place/Unfilled.antt =====
-- A reduce-only IOC order of src/engine/order.ts that finds nothing to reduce.
use Prim.Native.String.{String}
use hy_paper.Prelude.{suc, ◌≡◌, refl, ap, ◌∙◌, true, false, Option, none, some, arith}
use hy_paper.Prelude.Maps.{nat_keys, string_keys, pair_keys}
use hy_paper.Decimal.{Decimal, num, lte, is_zero}
use hy_paper.Orders.{Order, limit, ioc, Grouping, is_open}
use hy_paper.Store.{Store, Holdings, holdings, SameHoldings}
use hy_paper.Env.{mid_of}
use hy_paper.NextPosition.{fill_size, current_szi}
use hy_paper.Matcher.{execute_fill}
use hy_paper.Ticks.{compute_fill_price}
use hy_paper.Intake.{
  IntakeEnv, IntakeState, OrderWire, PlaceOpts, OrderStatusReply, filled_at, resolve_asset_coin,
  draw_oid, save_order, announce_open, build_order,
}
use hy_paper.Intake.Saved.{hashed, save_order-holdings, save_order_self}
use hy_paper.Intake.Place.{
  would_fill, has_margin, fill_saved, place_ioc, place_by_tif, place_checked, place_single_order,
}

module _ {N : Type 0} ⦃d : Decimal N⦄ where
  fill_size_flat :
      (o : Order N) (szi : N) → o.reduce_only ≡ true → is_zero szi ≡ true → fill_size o szi ≡ none
  unfolding fill_size
  fill_size_flat o szi r z = ground arith

  execute_fill_flat :
      (ie : IntakeEnv N) (o : Order N) (px : N) (s : Store N)
      → o.reduce_only ≡ true
      → is_zero (current_szi (s.positions (o.user_id, o.asset))) ≡ true
      → execute_fill ie.env o px true s ≡ s
  unfolding execute_fill
  execute_fill_flat ie o px s r z = rw (execute_fill, fill_size_flat o _ r z) refl

  -- What a placement leaves that is answered as a fill and fills nothing.
  pub record Unfilled (st : IntakeState N) (sz : N) (cloid : Option String)
      (placed : OrderStatusReply N × IntakeState N) : Type 0 where
    pub px : N
    pub o : Order N
    pub answered : placed.0 ≡ filled_at sz px (suc st.seq_oid) cloid
    pub stored : placed.1.store.orders (suc st.seq_oid) ≡ some o
    pub still_open : is_open o.status ≡ true
    pub kept : SameHoldings st.store placed.1.store

  module _ (ie : IntakeEnv N) (user coin : String) (wire : OrderWire N) (sz mid : N)
      (grouping : Grouping) (opts : PlaceOpts) (st : IntakeState N) (reduces : wire.r ≡ true)
      (flat : is_zero (current_szi (st.store.positions (user, wire.a))) ≡ true)
      (mid_at : mid_of coin ie.env.mids ≡ some mid)
      (crosses : would_fill wire.b mid wire.p ≡ true) where
    place_ioc-Unfilled : Unfilled st sz wire.c (place_ioc ie user coin wire sz grouping opts st)
    unfolding place_ioc has_margin draw_oid fill_saved announce_open build_order
    place_ioc-Unfilled =
        let order =
          build_order (suc st.seq_oid) user coin wire sz limit ioc grouping ie.env.now opts.builder
            opts.twap_id in
        let drawn : IntakeState N = record st { seq_oid = suc st.seq_oid } in
        let saved = save_order order opts.expires_after drawn in
        let opened = (announce_open order saved).store in
        let held = save_order-holdings order opts.expires_after drawn in
        let still : is_zero (current_szi (opened.positions (user, wire.a))) ≡ true =
          ap (λ (h : Holdings N). is_zero (current_szi (h.positions (user, wire.a)))) held ∙ flat in
        let idle =
          execute_fill_flat ie order (compute_fill_price ie.env order mid (some order.limit_px))
            opened reduces still in
        let covered : has_margin ie user wire sz mid st.store ≡ true = rw reduces refl in
        rw (place_ioc, mid_at, crosses, covered)
          (record {
            px = compute_fill_price ie.env order mid (some order.limit_px);
            o = hashed order;
            answered = refl;
            stored =
                ap (λ (s : Store N). s.orders (suc st.seq_oid)) idle
                ∙ save_order_self order opts.expires_after drawn;
            still_open = refl;
            kept = ap holdings idle ∙ held;
          })

    -- The whole placement.
    pub place_single_order-Unfilled :
        resolve_asset_coin ie wire.a ≡ some coin
        → wire.s ≡ some sz
        → lte sz (num 0) ≡ false
        → wire.trigger ≡ none
        → wire.tif ≡ some ioc
        → Unfilled st sz wire.c (place_single_order ie user wire grouping opts st)
    unfolding place_single_order place_checked place_by_tif
    place_single_order-Unfilled known sized positive plain asked =
        rw (place_single_order, known, sized, positive, place_checked, reduces, plain, asked)
          place_ioc-Unfilled
