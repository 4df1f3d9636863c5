-- ===== src/Ticks/Indexed.antt =====
-- The positions over one tick of src/worker/order-matcher.ts.
use Prim.Native.String.{String}
use hy_paper.Prelude.{ℕ, Bool, true, false, List, [], ◌∷◌, inl, inr, Bool-cases, Option-cases}
use hy_paper.Prelude.Maps.{nat_keys}
use hy_paper.Decimal.{Decimal}
use hy_paper.Orders.{Order, is_open}
use hy_paper.Store.{Store}
use hy_paper.Env.{Env, mid_of}
use hy_paper.NextPosition.{fill_size, current_szi}
use hy_paper.Matcher.{execute_fill}
use hy_paper.Matcher.Settlement.{IsIndexed, execute_fill_with_size-IsIndexed}
use hy_paper.Ticks.{
  should_fill, match_open_order, drop_open, check_trigger, is_dormant, fire_trigger, drop_trigger,
  try_trigger, match_trigger_order, each, pass, match_open_orders, match_trigger_orders,
}

module _ {N : Type 0} ⦃d : Decimal N⦄ where
  module _ (P : Store N → Type 0) (step : ℕ → Store N → Store N)
      (keeps : (oid : ℕ) (s : Store N) → P s → P (step oid s)) where
    each-keeps : (oids : List ℕ) (s : Store N) → P s → P (each step oids s)
    unfolding each
    each-keeps [] s h = h
    each-keeps (oid ∷ oids) s h = each-keeps oids (step oid s) (keeps oid s h)

    pass-keeps :
        (mids : List (String × N)) (oids : List ℕ) (s : Store N) → P s → P (pass mids step oids s)
    unfolding pass
    pass-keeps [] oids s h = h
    pass-keeps (_ ∷ _) oids s h = each-keeps oids s h

  module _ (env : Env N) where
    pub execute_fill-IsIndexed :
        (o : Order N) (px : N) (is_taker : Bool) (s : Store N)
        → IsIndexed env.market s
        → IsIndexed env.market (execute_fill env o px is_taker s)
    unfolding execute_fill
    execute_fill-IsIndexed o px is_taker s h =
        elim (Option-cases (fill_size o (current_szi (s.positions (o.user_id, o.asset))))) [
          | inl e ↦ rw (e, execute_fill) h
          | inr (sz, e) ↦
              rw (e, execute_fill) (execute_fill_with_size-IsIndexed env o px sz is_taker s h)
        ]

    match_open_order-IsIndexed :
        (oid : ℕ) (s : Store N)
        → IsIndexed env.market s
        → IsIndexed env.market (match_open_order env oid s)
    unfolding match_open_order drop_open
    match_open_order-IsIndexed oid s h = elim (Option-cases (s.orders oid)) [
      | inl e ↦ rw (e, match_open_order) h
      | inr (o, e) ↦ elim (Bool-cases (is_open o.status)) [
        | inl is_live ↦ elim (Option-cases (mid_of o.coin env.mids)) [
          | inl m ↦ rw (e, match_open_order, is_live, m) h
          | inr (mid, m) ↦ elim (Bool-cases (should_fill o mid)) [
            | inl fills ↦
                rw (e, match_open_order, is_live, m, fills) (execute_fill-IsIndexed o _ false s h)
            | inr rests ↦ rw (e, match_open_order, is_live, m, rests) h
          ]
        ]
        | inr ended ↦ rw (e, match_open_order, ended) h
      ]
    ]

    try_trigger-IsIndexed :
        (oid : ℕ) (o : Order N) (s : Store N)
        → IsIndexed env.market s
        → IsIndexed env.market (try_trigger env oid o s)
    unfolding try_trigger fire_trigger drop_trigger
    try_trigger-IsIndexed oid o s h = elim (Option-cases (mid_of o.coin env.mids)) [
      | inl m ↦ rw (m, try_trigger) h
      | inr (mid, m) ↦ elim (Option-cases o.trigger_px) [
        | inl t ↦ rw (m, try_trigger, t) h
        | inr (px, t) ↦ elim (Option-cases o.tpsl) [
          | inl k ↦ rw (m, try_trigger, t, k) h
          | inr (kind, k) ↦ elim (Bool-cases (is_dormant oid s)) [
            | inl z ↦ rw (m, try_trigger, t, k, z) h
            | inr z ↦ elim (Bool-cases (check_trigger kind o.is_buy px mid)) [
              | inl c ↦ rw (m, try_trigger, t, k, z, c) (execute_fill-IsIndexed o _ true s h)
              | inr c ↦ rw (m, try_trigger, t, k, z, c) h
            ]
          ]
        ]
      ]
    ]

    match_trigger_order-IsIndexed :
        (oid : ℕ) (s : Store N)
        → IsIndexed env.market s
        → IsIndexed env.market (match_trigger_order env oid s)
    unfolding match_trigger_order drop_trigger
    match_trigger_order-IsIndexed oid s h = elim (Option-cases (s.orders oid)) [
      | inl e ↦ rw (e, match_trigger_order) h
      | inr (o, e) ↦ elim (Bool-cases (is_open o.status)) [
        | inl is_live ↦ rw (e, match_trigger_order, is_live) (try_trigger-IsIndexed oid o s h)
        | inr ended ↦ rw (e, match_trigger_order, ended) h
      ]
    ]

    -- A tick over the resting orders and then the trigger orders keeps the sets of positions in step with
    -- the positions, whatever fills, and leaves no position of size zero.
    pub tick_keeps_positions-IsIndexed :
        (s : Store N)
        → IsIndexed env.market s
        → IsIndexed env.market (match_trigger_orders env (match_open_orders env s))
    unfolding match_open_orders match_trigger_orders
    tick_keeps_positions-IsIndexed s h =
        let middle = match_open_orders env s in
        pass-keeps (IsIndexed env.market) (match_trigger_order env) match_trigger_order-IsIndexed
          env.mids middle.orders_triggers middle
          (pass-keeps (IsIndexed env.market) (match_open_order env) match_open_order-IsIndexed
            env.mids s.orders_open s h)
