-- ===== src/StopPlacement/Outcome.antt =====
-- What placeTrailingStop of src/engine/trailingStop.ts may come to.
use Prim.Native.String.{String}
use hy_paper.Prelude.{
  ℕ, suc, ◌≡◌, refl, sym, ◌∙◌, true, false, not, ◌&&◌, Option, some, List, inl, inr, ◌==◌,
  Bool-cases, Option-cases, arith,
}
use hy_paper.Prelude.Maps.{nat_keys, contains, contains-sadd, update, beq_refl}
use hy_paper.Decimal.{Decimal, num, lte, lt}
use hy_paper.Decimal.Order.{IsOrdered}
use hy_paper.Trailing.{
  px, TrailingParams, TrailingState, TrailingEval, evaluate_trailing, evaluate_all,
}
use hy_paper.Trailing.Hash.{read_trailing, show_bool, read-fields_from}
use hy_paper.Trailing.Ratchet.{InRange}
use hy_paper.Trailing.Activation.{waiting, IsWellFormed, evaluate-IsWellFormed, evaluate_all_total}
use hy_paper.AssetMeta.{is_spot_asset}
use hy_paper.Orders.{Order, open_order}
use hy_paper.Store.{SameHoldings, emit}
use hy_paper.Intake.{IntakeState, resolve_asset_coin, get_asset_decimals, draw_oid, list_order}
use hy_paper.Intake.Place.{leverage_blocks}
use hy_paper.StopPlacement.{
  TrailingStopWire, StopError, unknown_asset, invalid_leverage, no_market_price,
  retracement_invalid, StopReply, accepted, refused, StopEnv, validate_trailing_stop,
  params_from_wire, reference, beyond_reference, seed_mark, subscribe, new_stop, store_stop,
  place_seeded, place_trailing_stop,
}
use hy_paper.StopPlacement.Reads.{Reads, validate_trailing_stop_lem}

-- A stop that is stored for what was asked, from a fresh mark: nothing else of the store changes but
-- the events; its hash is read back as parameters in range and a state from which no marks throw.
pub record Stored {N : Type 0} ⦃d : Decimal N⦄ (se : StopEnv N) (user coin : String)
    (w : TrailingStopWire N) (st st' : IntakeState N) : Type 0 where
  pub mark : N
  pub p : TrailingParams N
  pub ev : TrailingEval N
  pub o : Order N
  pub fresh : seed_mark se coin ≡ some mark
  pub params : params_from_wire w (get_asset_decimals se.intake w.asset) ≡ some p
  pub range : InRange p
  pub some_distance : lte p.amount (num 0) ≡ false
  pub within : p.kind ≡ px → w.is_buy ≡ false → lt p.amount (reference p mark) ≡ true
  pub evaluated : evaluate_trailing p waiting mark ≡ some ev
  pub stored : st'.store.orders (suc st.seq_oid) ≡ some o
  pub owner : o.user_id ≡ user
  pub market : (o.asset ≡ w.asset) × (o.coin ≡ coin)
  pub side : o.is_buy ≡ w.is_buy
  pub size : (w.sz ≡ some o.sz) × (lte o.sz (num 0) ≡ false)
  pub limit_px : o.limit_px ≡ ev.limit_px
  pub reduces : o.reduce_only ≡ w.reduce_only
  pub live : o.status ≡ open_order
  pub reads : read_trailing (show_bool o.is_buy) o.trailing ≡ (p, ev.state)
  pub runs :
      (ms : List N) → (s : TrailingState N) × (evaluate_all p ev.state ms ≡ some s) × IsWellFormed s
  pub listed : contains (suc st.seq_oid) st'.store.orders_trailing ≡ true
  pub others : (j : ℕ) → (suc st.seq_oid == j) ≡ false → st'.store.orders j ≡ st.store.orders j
  pub matched :
      (st'.store.orders_open ≡ st.store.orders_open)
      × (st'.store.orders_triggers ≡ st.store.orders_triggers)
  pub kept : SameHoldings st.store st'.store

-- A refusal that changes nothing but that the coin may be subscribed, or a stop under the next number.
pub data StopOutcome {N : Type 0} ⦃d : Decimal N⦄ (se : StopEnv N) (user : String)
    (w : TrailingStopWire N) (st : IntakeState N) : StopReply × IntakeState N → Type 0 where
  turned_away : (e : StopError) → StopOutcome se user w st (refused e, st)
  turned_away_later :
      (e : StopError) (coin : String) → StopOutcome se user w st (refused e, subscribe coin st)
  placed :
      (coin : String) (st' : IntakeState N)
      → is_spot_asset w.asset ≡ false
      → resolve_asset_coin se.intake w.asset ≡ some coin
      → (not w.reduce_only && leverage_blocks se.intake user w.asset w.is_buy st.store) ≡ false
      → Stored se user coin w st st'
      → StopOutcome se user w st (accepted (suc st.seq_oid), st')

module _ {N : Type 0} ⦃d : Decimal N⦄ (se : StopEnv N) (user : String)
    (w : TrailingStopWire N) where
  -- No exception, and an outcome.
  abbrev pub Ends : IntakeState N → Option (StopReply × IntakeState N) → Type 0
  Ends st result = (r : StopReply × IntakeState N) × (result ≡ some r) × StopOutcome se user w st r

  beyond_reference-within :
      (p : TrailingParams N) (mark : N)
      → beyond_reference p mark ≡ false
      → p.is_buy ≡ w.is_buy
      → p.kind ≡ px
      → w.is_buy ≡ false
      → lt p.amount (reference p mark) ≡ true
  unfolding beyond_reference
  beyond_reference-within p mark h side e sell = ground arith

  store_stop-Stored :
      (coin : String) (st : IntakeState N) (mark : N) (ev : TrailingEval N)
      → (r : Reads w (get_asset_decimals se.intake w.asset)) → seed_mark se coin ≡ some mark
      → beyond_reference r.p mark ≡ false
      → evaluate_trailing r.p waiting mark ≡ some ev
      → IsWellFormed ev.state
      → Stored se user coin w st (
          store_stop se.intake
            (new_stop (suc st.seq_oid) user coin w r.sz r.p ev se.intake.env.now)
            (record (subscribe coin st) { seq_oid = suc st.seq_oid }))
  unfolding store_stop new_stop subscribe list_order update emit
  store_stop-Stored coin st mark ev r fresh near e well =
      let oid = suc st.seq_oid in
      record {
        mark = mark;
        p = r.p;
        ev = ev;
        o = new_stop oid user coin w r.sz r.p ev se.intake.env.now;
        fresh = fresh;
        params = r.params;
        range = r.range;
        some_distance = r.some_distance;
        within = beyond_reference-within r.p mark near r.side;
        evaluated = e;
        stored = rw (beq_refl oid) refl;
        owner = refl;
        market = (refl, refl);
        side = refl;
        size = (r.sized, r.positive);
        limit_px = refl;
        reduces = refl;
        live = refl;
        reads = rw (sym r.side) (read-fields_from r.p ev.state);
        runs = λ ms. let (s, run, w', _) = evaluate_all_total r.p ev.state ms well in (s, run, w');
        listed = contains-sadd oid oid st.store.orders_trailing ∙ rw (beq_refl oid) refl;
        others = λ j h. rw h refl;
        matched = (refl, refl);
        kept = refl;
      }

  place_seeded-Ends :
      (coin : String) (st : IntakeState N) (mark : N)
      → (r : Reads w (get_asset_decimals se.intake w.asset)) → is_spot_asset w.asset ≡ false
      → resolve_asset_coin se.intake w.asset ≡ some coin
      → (not w.reduce_only && leverage_blocks se.intake user w.asset w.is_buy st.store) ≡ false
      → seed_mark se coin ≡ some mark
      → Ends st (place_seeded se.intake user coin w mark (subscribe coin st))
  unfolding place_seeded draw_oid subscribe
  place_seeded-Ends coin st mark r perp known free fresh =
      let (ev, e, well, _, _) = evaluate-IsWellFormed r.p waiting mark (inl refl) in
      elim (Bool-cases (beyond_reference r.p mark)) [
        | inl far ↦ (
          (refused retracement_invalid, subscribe coin st),
          rw (place_seeded, r.params, far) refl,
          turned_away_later retracement_invalid coin,
        )
        | inr near ↦ (
          (
            accepted (suc st.seq_oid),
            store_stop se.intake
                (new_stop (suc st.seq_oid) user coin w r.sz r.p ev se.intake.env.now)
                (record (subscribe coin st) { seq_oid = suc st.seq_oid }),
          ),
          rw (place_seeded, r.params, near, e, r.sized) refl,
          placed coin _ perp known free (store_stop-Stored coin st mark ev r fresh near e well),
        )
      ]

  -- Placing a trailing stop never throws. It is refused, and at most the coin's mark is subscribed; or
  -- it is given the next number and stored for what was asked, on a known perpetual and with its
  -- leverage allowed unless it only reduces. The stop is then in the set of the stops and of no other
  -- matcher, no other order and no holding changes; its hash is read back as the parameters asked for,
  -- with a distance above zero and a percentage of 100 at most, and for a sell at a fixed distance that
  -- distance is below the reference price; from the state it starts in no run of marks throws.
  pub place_trailing_stop-Ends :
      (st : IntakeState N) → IsOrdered N → Ends st (place_trailing_stop se user w st)
  unfolding place_trailing_stop
  place_trailing_stop-Ends st laws = elim (Bool-cases (is_spot_asset w.asset)) [
    | inl spot ↦ (_, rw (place_trailing_stop, spot) refl, turned_away unknown_asset)
    | inr perp ↦ elim (Option-cases (resolve_asset_coin se.intake w.asset)) [
      | inl unknown ↦ (_, rw (place_trailing_stop, perp, unknown) refl, turned_away unknown_asset)
      | inr (coin, known) ↦
          elim (Option-cases (validate_trailing_stop w (get_asset_decimals se.intake w.asset))) [
            | inr (e, bad) ↦ (_, rw (place_trailing_stop, perp, known, bad) refl, turned_away e)
            | inl fine ↦
                elim (Bool-cases
                  (not w.reduce_only && leverage_blocks se.intake user w.asset w.is_buy st.store)) [
                    | inl blocks ↦ (
                      _,
                      rw (place_trailing_stop, perp, known, fine, blocks) refl,
                      turned_away invalid_leverage,
                    )
                    | inr free ↦ elim (Option-cases (seed_mark se coin)) [
                      | inl stale ↦ (
                        _,
                        rw (place_trailing_stop, perp, known, fine, free, stale) refl,
                        turned_away_later no_market_price coin,
                      )
                      | inr (mark, fresh) ↦
                          rw (place_trailing_stop, perp, known, fine, free, fresh)
                            (place_seeded-Ends coin st mark
                              (validate_trailing_stop_lem w _ laws fine) perp known free fresh)
                    ]
                  ]
          ]
    ]
  ]
