-- ===== src/Intake/Place/Placements.antt =====
-- What each kind of placement in placeSingleOrder of src/engine/order.ts comes to.
use Prim.Native.String.{String}
use hy_paper.Prelude.{
  ℕ, suc, ◌≡◌, ◌≢◌, refl, ap, ◌∙◌, true, Option, none, some, inl, inr, Bool-cases, Option-cases,
}
use hy_paper.Prelude.Maps.{nat_keys, string_keys, pair_keys, contains, contains-sadd, beq_refl}
use hy_paper.Decimal.{Decimal}
use hy_paper.Fill.{Builder}
use hy_paper.Orders.{Order, limit, trigger, TimeInForce, gtc, ioc, alo, Grouping}
use hy_paper.Store.{SameHoldings}
use hy_paper.Env.{mid_of}
use hy_paper.Intake.{
  IntakeEnv, IntakeState, TriggerWire, OrderWire, PlaceOpts, no_market_price, ioc_not_filled,
  insufficient_margin, alo_crossed, draw_oid, save_order, list_order, announce_open, build_order,
}
use hy_paper.Intake.Saved.{
  MatcherView, hashed, save_order-holdings, save_order_self, rest_order-view, rest_order-holdings,
  save_order-Expires, rest_order-Expires,
}
use hy_paper.Intake.Place.{
  would_fill, has_margin, fill_saved, place_resting, place_ioc, crosses_mid, place_alo, place_gtc,
  place_triggered_order, place_by_tif,
}
use hy_paper.Intake.Place.Placed.{IsOrderOf, PassesOn, Placed, refusal, rests, fills}

module _ {N : Type 0} ⦃d : Decimal N⦄ (ie : IntakeEnv N) (user coin : String) (wire : OrderWire N)
    (sz : N) (grouping : Grouping) (opts : PlaceOpts) where
  -- The hash of an order that is built from a wire without a trigger.
  limit-IsOrderOf :
      (oid : ℕ) (tif : TimeInForce) (builder : Option Builder) (twap_id : Option ℕ)
      → wire.trigger ≡ none
      → wire.tif ≡ some tif
      → IsOrderOf ie user coin wire sz grouping opts
          (hashed (build_order oid user coin wire sz limit tif grouping ie.env.now builder twap_id))
          oid
  unfolding build_order
  limit-IsOrderOf oid tif builder twap_id plain asked = record {
    number = refl;
    owner = refl;
    market = (refl, refl);
    side = refl;
    size = (refl, refl);
    price = refl;
    reduces = refl;
    kind = rw plain (refl, asked, refl, refl, refl);
    name = refl;
    group = refl;
    placed_at = refl;
    live = refl;
  }

  place_resting-Placed :
      (tif : TimeInForce) (st : IntakeState N)
      → wire.trigger ≡ none
      → wire.tif ≡ some tif
      → tif ≢ ioc
      → crosses_mid ie coin wire ≡ none
      → Placed ie user coin wire sz grouping opts st
          (place_resting ie user coin wire sz tif grouping opts st)
  unfolding place_resting draw_oid build_order
  place_resting-Placed tif st plain asked stays calm =
      let oid = suc st.seq_oid in
      let order =
        build_order oid user coin wire sz limit tif grouping ie.env.now opts.builder none in
      let drawn : IntakeState N = record st { seq_oid = oid } in
      let saved = save_order order opts.expires_after drawn in
      elim (Bool-cases (has_margin ie user wire sz wire.p st.store)) [
        | inl covered ↦
            rw (covered, place_resting)
              (rests (hashed order) refl
                (ap (λ (v : MatcherView N). v.orders oid) (rest_order-view ie order saved)
                  ∙ save_order_self order opts.expires_after drawn)
                (limit-IsOrderOf oid tif opts.builder none plain asked) refl
                (rest_order-holdings ie order saved
                  ∙ save_order-holdings order opts.expires_after drawn)
                (inl (record {
                  plain = plain;
                  stays = λ h. stays (cc);
                  expires =
                      rest_order-Expires ie opts.expires_after oid order saved
                        (save_order-Expires order opts.expires_after drawn);
                  calm = calm;
                  covered = covered;
                  listed =
                      ap (λ (v : MatcherView N). contains oid v.orders_open)
                        (rest_order-view ie order saved)
                      ∙ contains-sadd oid oid saved.store.orders_open
                      ∙ rw (beq_refl oid) refl;
                })))
        | inr short ↦ rw (short, place_resting) (refusal insufficient_margin)
      ]

  fill_saved-Placed :
      (o : Order N) (mid : N) (st saved : IntakeState N)
      → wire.trigger ≡ none
      → wire.tif ≢ some alo
      → PassesOn ie user coin wire sz grouping opts o.tif o
      → crosses_mid ie coin wire ≡ some mid
      → has_margin ie user wire sz mid st.store ≡ true
      → IsOrderOf ie user coin wire sz grouping opts (hashed o) (suc st.seq_oid)
      → saved.store.orders (suc st.seq_oid) ≡ some (hashed o)
      → SameHoldings st.store saved.store
      → Placed ie user coin wire sz grouping opts st (fill_saved ie o mid wire.c saved)
  unfolding fill_saved
  fill_saved-Placed o mid st saved plain takes passed_on crosses covered terms stored unpaid =
      simp (terms.size.0, terms.number)
        (fills refl (record {
          plain = plain;
          takes = takes;
          passed_on = passed_on;
          mid = mid;
          crosses = crosses;
          covered = covered;
          order = o;
          terms = terms;
          saved = saved;
          stored = stored;
          unpaid = unpaid;
          price_now = refl;
          filled_after = refl;
        }))

  place_gtc-Placed :
      (st : IntakeState N)
      → wire.trigger ≡ none
      → wire.tif ≡ some gtc
      → Placed ie user coin wire sz grouping opts st
          (place_gtc ie user coin wire sz grouping opts st)
  unfolding place_gtc draw_oid build_order
  place_gtc-Placed st plain asked =
      let oid = suc st.seq_oid in
      let order = build_order oid user coin wire sz limit gtc grouping ie.env.now none none in
      let drawn : IntakeState N = record st { seq_oid = oid } in
      let saved = save_order order opts.expires_after drawn in
      elim (Option-cases (crosses_mid ie coin wire)) [
        | inl calm ↦ rw (calm, place_gtc) (place_resting-Placed gtc st plain asked (λ h. cc) calm)
        | inr (mid, crosses) ↦ elim (Bool-cases (has_margin ie user wire sz mid st.store)) [
          | inl covered ↦
              rw (crosses, place_gtc, covered)
                (fill_saved-Placed order mid st saved plain (λ h. cc) (refl, refl) crosses covered
                  (limit-IsOrderOf oid gtc none none plain asked)
                  (save_order_self order opts.expires_after drawn)
                  (save_order-holdings order opts.expires_after drawn))
          | inr short ↦ rw (crosses, place_gtc, short) (refusal insufficient_margin)
        ]
      ]

  place_ioc-Placed :
      (st : IntakeState N)
      → wire.trigger ≡ none
      → wire.tif ≡ some ioc
      → Placed ie user coin wire sz grouping opts st
          (place_ioc ie user coin wire sz grouping opts st)
  unfolding place_ioc draw_oid build_order announce_open crosses_mid
  place_ioc-Placed st plain asked =
      let oid = suc st.seq_oid in
      let order =
        build_order oid user coin wire sz limit ioc grouping ie.env.now opts.builder opts.twap_id in
      let drawn : IntakeState N = record st { seq_oid = oid } in
      let saved = save_order order opts.expires_after drawn in
      elim (Option-cases (mid_of coin ie.env.mids)) [
        | inl none_now ↦ rw (none_now, place_ioc) (refusal no_market_price)
        | inr (mid, now_at) ↦ elim (Bool-cases (would_fill wire.b mid wire.p)) [
          | inl fill ↦ elim (Bool-cases (has_margin ie user wire sz mid st.store)) [
            | inl covered ↦
                rw (now_at, place_ioc, fill, covered)
                  (fill_saved-Placed order mid st (announce_open order saved) plain (λ h. cc)
                    (refl, refl) (rw (now_at, crosses_mid, fill) refl) covered
                    (limit-IsOrderOf oid ioc opts.builder opts.twap_id plain asked)
                    (save_order_self order opts.expires_after drawn)
                    (save_order-holdings order opts.expires_after drawn))
            | inr short ↦ rw (now_at, place_ioc, fill, short) (refusal insufficient_margin)
          ]
          | inr away ↦ rw (now_at, place_ioc, away) (refusal ioc_not_filled)
        ]
      ]

  place_alo-Placed :
      (st : IntakeState N)
      → wire.trigger ≡ none
      → wire.tif ≡ some alo
      → Placed ie user coin wire sz grouping opts st
          (place_alo ie user coin wire sz grouping opts st)
  unfolding place_alo
  place_alo-Placed st plain asked = elim (Option-cases (crosses_mid ie coin wire)) [
    | inl calm ↦ rw (calm, place_alo) (place_resting-Placed alo st plain asked (λ h. cc) calm)
    | inr (mid, crosses) ↦ rw (crosses, place_alo) (refusal alo_crossed)
  ]

  pub place_triggered_order-Placed :
      (t : TriggerWire N) (st : IntakeState N)
      → wire.trigger ≡ some t
      → Placed ie user coin wire sz grouping opts st
          (place_triggered_order ie user coin wire sz t grouping opts.builder st)
  unfolding place_triggered_order draw_oid build_order list_order announce_open
  place_triggered_order-Placed t st asked =
      let oid = suc st.seq_oid in
      let plain =
        build_order oid user coin wire sz trigger gtc grouping ie.env.now opts.builder none in
      let order : Order N = record plain {
        trigger_px = some t.trigger_px;
        tpsl = some t.tpsl;
        is_market = t.is_market;
      } in
      let drawn : IntakeState N = record st { seq_oid = oid } in
      let saved = save_order order none drawn in
      rests (hashed order) refl (save_order_self order none drawn)
        (record {
          number = refl;
          owner = refl;
          market = (refl, refl);
          side = refl;
          size = (refl, refl);
          price = refl;
          reduces = refl;
          kind = rw asked (refl, refl, refl, refl, refl);
          name = refl;
          group = refl;
          placed_at = refl;
          live = refl;
        })
        refl (save_order-holdings order none drawn)
        (inr (
          t,
          record {
            asked = asked;
            listed = contains-sadd oid oid saved.store.orders_triggers ∙ rw (beq_refl oid) refl;
          },
        ))

  pub place_by_tif-Placed :
      (tif : TimeInForce) (st : IntakeState N)
      → wire.trigger ≡ none
      → wire.tif ≡ some tif
      → Placed ie user coin wire sz grouping opts st
          (place_by_tif ie user coin wire sz tif grouping opts st)
  unfolding place_by_tif
  place_by_tif-Placed ioc st plain asked = place_ioc-Placed st plain asked
  place_by_tif-Placed alo st plain asked = place_alo-Placed st plain asked
  place_by_tif-Placed gtc st plain asked = place_gtc-Placed st plain asked
