-- ===== src/TrailingTicks/Affords.antt =====
-- What a trailing stop that fires in src/worker/order-matcher.ts does with the margin that is free.
use Prim.Native.String.{String}
use hy_paper.Prelude.{
  ℕ, ◌≡◌, refl, ap, ◌∙◌, true, false, none, some, List, [], ◌∷◌, arith, if◌then◌else◌,
}
use hy_paper.Prelude.Maps.{nat_keys, string_keys, update, contains, beq_refl}
use hy_paper.Decimal.{
  Decimal, num, add, sub, mul, div, lte, gt, lt, min, is_zero, round_to_decimals,
}
use hy_paper.Decimal.Order.{IsOrdered}
use hy_paper.Decimal.Exact.{IsExact}
use hy_paper.Decimal.Ring.{ring_eq, minus, var, nought}
use hy_paper.Fill.{calculate_position_unrealized_pnl}
use hy_paper.AssetMeta.{get_leverage_setting, scope_for_asset}
use hy_paper.Orders.{Order, PaperFill, Position, margin_canceled, is_open, build_trailing_body}
use hy_paper.Store.{Store, SameHoldings, set_order, balance_of}
use hy_paper.Orphans.{ended, terminate_trailing_stop}
use hy_paper.Orphans.Reconcile.{
  end_stop-trailing, terminate-open, end_stop-holdings, end_stop-orders,
}
use hy_paper.Env.{Env}
use hy_paper.NextPosition.{current_szi, fill_size}
use hy_paper.Matcher.{fill_of, execute_fill}
use hy_paper.Matcher.Fills.{execute-own_fills, fill_of_lem}
use hy_paper.Margin.{
  total_at_mid, calculate_total_unrealized_pnl, calculate_account_value,
  calculate_position_margin_used, calculate_total_margin_used, available_margin, is_reducing,
  max_affordable_order_size,
}
use hy_paper.Ticks.{compute_fill_price}
use hy_paper.TrailingTicks.{
  fire_size, fill_stop, fire_frozen, freeze_trailing_snapshot, fire_trailing_stop,
  nothing_to_reduce, mid_or_mark,
}

module _ {N : Type 0} ⦃d : Decimal N⦄ where
  abbrev frozen_order : Order N → Order N
  frozen_order o = record o { tr_snap = some (build_trailing_body o false) }

  -- How a stop ends that cannot fire.
  pub record IsCancelled (oid : ℕ) (s t : Store N) : Type 0 where
    pub kept : SameHoldings s t
    pub hash : Order N
    pub stored_after : t.orders oid ≡ some hash
    pub status : hash.status ≡ margin_canceled
    pub unlisted : contains oid t.orders_trailing ≡ false

  -- The fill of a stop that fires at a size.
  pub record IsFired (o : Order N) (sz : N) (s t : Store N) : Type 0 where
    pub fill : PaperFill N
    pub recorded : t.user_fills o.user_id ≡ fill ∷ s.user_fills o.user_id
    pub order : fill.oid ≡ o.oid
    pub side : fill.is_buy ≡ o.is_buy
    pub size : fill.sz ≡ sz

  -- The snapshot of a stop changes nothing that the margin is reckoned from.
  total-freeze :
      (env : Env N) (user : String) (amount : ℕ → Position N → N → N) (oid : ℕ) (o : Order N)
      (s : Store N) (assets : List ℕ) (total : N)
      → total_at_mid env user amount assets (freeze_trailing_snapshot oid o s) total
        ≡ total_at_mid env user amount assets s total
  unfolding total_at_mid freeze_trailing_snapshot set_order
  total-freeze env user amount oid o s [] total = refl
  total-freeze env user amount oid o s (asset ∷ assets) total =
      total-freeze env user amount oid o s assets _

  available-freeze :
      (env : Env N) (user : String) (asset oid : ℕ) (o : Order N) (s : Store N)
      → available_margin env user asset (freeze_trailing_snapshot oid o s)
        ≡ available_margin env user asset s
  unfolding available_margin calculate_account_value calculate_total_unrealized_pnl
      calculate_total_margin_used freeze_trailing_snapshot set_order balance_of
  available-freeze env user asset oid o s =
      let scope = scope_for_asset env.market asset in
      let assets = s.position_assets (user, scope) in
      let pnl : ℕ → Position N → N → N =
        λ asset pos mid. calculate_position_unrealized_pnl pos.szi pos.entry_px mid in
      let used = calculate_position_margin_used env user in
      λ i.
        sub (add (balance_of s (user, scope)) (total-freeze env user pnl oid o s assets (num 0) i))
          (total-freeze env user used oid o s assets (num 0) i)

  affordable-freeze :
      (env : Env N) (oid : ℕ) (o : Order N) (mark : N) (s : Store N)
      → max_affordable_order_size env o.user_id o.asset o.is_buy mark
          (freeze_trailing_snapshot oid o s)
        ≡ max_affordable_order_size env o.user_id o.asset o.is_buy mark s
  unfolding max_affordable_order_size freeze_trailing_snapshot set_order
  affordable-freeze env oid o mark s =
      let leverage : N = num (get_leverage_setting env.market o.user_id o.asset).leverage in
      ap
        (λ (a : N).
          if is_reducing o.is_buy (current_szi (s.positions (o.user_id, o.asset)))
          then none
          else if gt a (num 0)
          then some (div (mul a leverage) mark)
          else some (num 0))
        (available-freeze env o.user_id o.asset oid o s)

  module _ (env : Env N) (oid : ℕ) (o : Order N) (mark : N) (s : Store N)
      (stored : s.orders oid ≡ some o) (live : is_open o.status ≡ true)
      (opens : o.reduce_only ≡ false) where
    frozen : Store N
    frozen = freeze_trailing_snapshot oid o s

    freeze-orders : frozen.orders oid ≡ some (frozen_order o)
    unfolding frozen freeze_trailing_snapshot set_order update
    freeze-orders = rw (beq_refl oid, stored) refl

    fires_frozen : fire_trailing_stop env oid o mark s ≡ fire_frozen env oid o mark s
    unfolding fire_trailing_stop nothing_to_reduce
    fires_frozen = rw (stored, fire_trailing_stop, live, opens) refl

    -- The size that fires, by the test of the code.
    fire_size_lem :
        (cap : N)
        → max_affordable_order_size env o.user_id o.asset o.is_buy mark s ≡ some cap
        → let affordable = round_to_decimals cap o.trailing.tr_sz_dec in
          fire_size env o mark frozen ≡ (
            if lt affordable o.sz
            then if gt affordable (num 0) then some affordable else none
            else some o.sz)
    unfolding fire_size frozen
    fire_size_lem cap c = simp (opens, affordable-freeze env oid o mark s, c, fire_size) refl

    fire-none :
        fire_size env o mark frozen ≡ none
        → fire_frozen env oid o mark s
          ≡ (terminate_trailing_stop oid margin_canceled env.now true true frozen).1
    unfolding fire_frozen frozen
    fire-none h = rw (h, fire_frozen) refl

    fire-some :
        (sz : N)
        → fire_size env o mark frozen ≡ some sz
        → fire_frozen env oid o mark s
          ≡ fill_stop env (record (frozen_order o) { sz = sz }) mark frozen
    unfolding fire_frozen frozen
    fire-some sz h = rw (h, fire_frozen, freeze-orders) refl

    terminate-IsCancelled :
        IsCancelled oid s (terminate_trailing_stop oid margin_canceled env.now true true frozen).1
    unfolding ended frozen freeze_trailing_snapshot set_order
    terminate-IsCancelled =
        let stopped = frozen_order o in
        rw (terminate-open oid stopped margin_canceled env.now true true frozen freeze-orders live)
          (record {
            kept = end_stop-holdings oid stopped margin_canceled env.now true true frozen;
            hash = ended margin_canceled env.now stopped;
            stored_after =
                end_stop-orders oid oid stopped margin_canceled env.now true true frozen
                  freeze-orders
                ∙ rw (beq_refl oid) refl;
            status = refl;
            unlisted = end_stop-trailing oid stopped margin_canceled env.now frozen;
          })

    fill-IsFired :
        (exact : IsExact N) (sz : N)
        → o.filled_sz ≡ num 0
        → is_zero sz ≡ false
        → IsFired o sz s (fill_stop env (record (frozen_order o) { sz = sz }) mark frozen)
    unfolding fill_stop execute_fill fill_size frozen freeze_trailing_snapshot set_order
    fill-IsFired exact sz unfilled some_size =
        let fired : Order N = record (frozen_order o) { sz = sz } in
        let px = compute_fill_price env fired (mid_or_mark env fired mark) (some o.limit_px) in
        let whole : sub sz o.filled_sz ≡ sz =
          rw unfilled (ring_eq exact (sz ∷ []) (minus (var 0) nought) (var 0) refl) in
        let (f_oid, f_buy, f_px, f_sz) = fill_of_lem env fired px sz true frozen in
        rw (whole, execute_fill, some_size, opens)
          (record {
            fill = fill_of env fired px sz true frozen;
            recorded = execute-own_fills env fired px sz true frozen;
            order = f_oid;
            side = f_buy;
            size = f_sz;
          })

    -- An open trailing stop that is not reduce-only fires, where the size that the free margin affords at
    -- the mark is known: if that size, rounded to the decimals of the asset, is above zero, one fill is
    -- recorded, of the stop, on its side and at the smaller of its size and that one. If it is not, the
    -- stop is cancelled: positions, balances and fills stay, its status is `marginCanceled`, and it
    -- leaves the set of trailing stops. The stop has a positive size, of which nothing is filled,
    -- and the arithmetic is exact.
    pub fires_what_margin_affords :
        (laws : IsOrdered N) (exact : IsExact N) (cap : N)
        → o.filled_sz ≡ num 0
        → lte o.sz (num 0) ≡ false
        → max_affordable_order_size env o.user_id o.asset o.is_buy mark s ≡ some cap
        → let affordable = round_to_decimals cap o.trailing.tr_sz_dec in
          let t = fire_trailing_stop env oid o mark s in
          (lte affordable (num 0) ≡ false → IsFired o (min o.sz affordable) s t)
          × (lte affordable (num 0) ≡ true → IsCancelled oid s t)
    fires_what_margin_affords laws exact cap unfilled positive c =
        let affordable = round_to_decimals cap o.trailing.tr_sz_dec in
        (
          λ h.
              let fires : fire_size env o mark frozen ≡ some (min o.sz affordable) =
                fire_size_lem cap c ∙ ground (arith, laws.min_lem o.sz affordable) in
              let nonzero : is_zero (min o.sz affordable) ≡ false =
                ground (arith, laws.min_lem o.sz affordable) in
              rw (fires_frozen, fire-some _ fires) (fill-IsFired exact _ unfilled nonzero),
          λ h.
              let nothing : fire_size env o mark frozen ≡ none =
                fire_size_lem cap c ∙ ground (arith, laws.lte_trans o.sz affordable (num 0)) in
              rw (fires_frozen, fire-none nothing) terminate-IsCancelled,
        )
