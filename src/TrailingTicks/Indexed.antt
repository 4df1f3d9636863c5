-- ===== src/TrailingTicks/Indexed.antt =====
-- The positions over one tick of src/worker/order-matcher.ts, with its trailing stops.
use Prim.Native.String.{String}
use hy_paper.Prelude.{
  ℕ, ◌≡◌, refl, sym, Bool, true, false, Option, none, some, List, [], ◌∷◌, inl, inr, Bool-cases,
  Option-cases, if◌then◌else◌,
}
use mathlib.Core.Path.{subst}
use hy_paper.Prelude.Maps.{nat_keys, string_keys, pair_keys, contains}
use hy_paper.Decimal.{Decimal, is_zero}
use hy_paper.Trailing.{evaluate_trailing}
use hy_paper.Trailing.Hash.{show_bool, read_trailing}
use hy_paper.MarkFeed.{get_fresh_mark}
use hy_paper.Orders.{Order, Position, margin_canceled, is_open}
use hy_paper.Store.{Store, Holdings, SameHoldings, set_order}
use hy_paper.Orphans.{terminate_trailing_stop, persist_trailing_evaluation}
use hy_paper.Orphans.Reconcile.{terminate-holdings}
use hy_paper.AssetMeta.{Market, scope_for_asset}
use hy_paper.Env.{Env}
use hy_paper.NextPosition.{current_szi}
use hy_paper.Matcher.Settlement.{IsIndexed, is_some}
use hy_paper.Ticks.{match_open_orders, match_trigger_orders}
use hy_paper.Ticks.Indexed.{execute_fill-IsIndexed, tick_keeps_positions-IsIndexed}
use hy_paper.TrailingTicks.{
  nothing_to_reduce, freeze_trailing_snapshot, fire_size, fill_stop, fire_frozen,
  fire_trailing_stop, drop_trailing, evaluate_stop, match_trailing_stop, match_each_stop,
  match_trailing_stops,
}

module _ {N : Type 0} ⦃d : Decimal N⦄ where
  -- Of a step that may throw: what it leaves, where it does not.
  abbrev Holds : (Store N → Type 0) → Option (Store N) → Type 0
  Holds P none = true ≡ true
  Holds P (some t) = P t

  if-keeps : (P : Store N → Type 0) (b : Bool) (s t : Store N) → P s → P t → P (if b then s else t)
  if-keeps P true s t p q = p
  if-keeps P false s t p q = q

  pub SameHoldings-IsIndexed :
      (market : Market) (s t : Store N) → SameHoldings s t → IsIndexed market s → IsIndexed market t
  SameHoldings-IsIndexed market s t e h =
      subst
        (λ (k : Holdings N).
          (user : String) (asset : ℕ)
          → (contains asset (k.position_assets (user, scope_for_asset market asset))
              ≡ is_some (k.positions (user, asset)))
            × ((p : Position N) → k.positions (user, asset) ≡ some p → is_zero p.szi ≡ false))
        (sym e) h

module _ {N : Type 0} ⦃d : Decimal N⦄ (env : Env N) where
  fire_frozen-IsIndexed :
      (oid : ℕ) (o : Order N) (mark : N) (s : Store N)
      → IsIndexed env.market s
      → IsIndexed env.market (fire_frozen env oid o mark s)
  unfolding fire_frozen fill_stop freeze_trailing_snapshot set_order
  fire_frozen-IsIndexed oid o mark s h =
      let frozen = freeze_trailing_snapshot oid o s in
      elim (Option-cases (fire_size env o mark frozen)) [
        | inl short ↦
            rw (short, fire_frozen)
              (SameHoldings-IsIndexed env.market frozen
                (terminate_trailing_stop oid margin_canceled env.now true true frozen).1
                (terminate-holdings oid margin_canceled env.now true true frozen) h)
        | inr (sz, fires) ↦ elim (Option-cases (frozen.orders oid)) [
          | inl e ↦ rw (fires, fire_frozen, e) h
          | inr (full, e) ↦
              rw (fires, fire_frozen, e) (execute_fill-IsIndexed env _ _ true frozen h)
        ]
      ]

  fire_trailing_stop-IsIndexed :
      (oid : ℕ) (o : Order N) (mark : N) (s : Store N)
      → IsIndexed env.market s
      → IsIndexed env.market (fire_trailing_stop env oid o mark s)
  unfolding fire_trailing_stop
  fire_trailing_stop-IsIndexed oid o mark s h = elim (Option-cases (s.orders oid)) [
    | inl e ↦ rw (e, fire_trailing_stop) h
    | inr (stored, e) ↦ elim (Bool-cases (is_open stored.status)) [
      | inl live ↦
          elim (Bool-cases (nothing_to_reduce o (current_szi (s.positions (o.user_id, o.asset))))) [
            | inl idle ↦ rw (e, fire_trailing_stop, live, idle) h
            | inr fires ↦
                rw (e, fire_trailing_stop, live, fires) (fire_frozen-IsIndexed oid o mark s h)
          ]
      | inr over ↦ rw (e, fire_trailing_stop, over) h
    ]
  ]

  evaluate_stop-IsIndexed :
      (oid : ℕ) (o : Order N) (mark : N) (s : Store N)
      → IsIndexed env.market s
      → Holds (IsIndexed env.market) (evaluate_stop env oid o mark s)
  unfolding evaluate_stop set_order
  evaluate_stop-IsIndexed oid o mark s h =
      let read = read_trailing (show_bool o.is_buy) o.trailing in
      elim (Option-cases (evaluate_trailing read.0 read.1 mark)) [
        | inl e ↦ rw (e, evaluate_stop) refl
        | inr (ev, e) ↦
            let kept = set_order oid (persist_trailing_evaluation ev) s in
            let fired = fire_trailing_stop env oid (persist_trailing_evaluation ev o) mark kept in
            rw (e, evaluate_stop)
              (if-keeps (IsIndexed env.market) ev.fire fired kept
                (fire_trailing_stop-IsIndexed oid (persist_trailing_evaluation ev o) mark kept h) h)
      ]

  match_trailing_stop-IsIndexed :
      (oid : ℕ) (s : Store N)
      → IsIndexed env.market s
      → Holds (IsIndexed env.market) (match_trailing_stop env oid s)
  unfolding match_trailing_stop drop_trailing
  match_trailing_stop-IsIndexed oid s h = elim (Option-cases (s.orders oid)) [
    | inl e ↦ rw (e, match_trailing_stop) h
    | inr (o, e) ↦ elim (Bool-cases (is_open o.status)) [
      | inl live ↦ elim (Option-cases (get_fresh_mark (env.ctx o.coin) env.now)) [
        | inl m ↦ rw (e, match_trailing_stop, live, m) h
        | inr (mark, m) ↦
            rw (e, match_trailing_stop, live, m) (evaluate_stop-IsIndexed oid o mark s h)
      ]
      | inr over ↦ rw (e, match_trailing_stop, over) h
    ]
  ]

  match_each_stop-IsIndexed :
      (oids : List ℕ) (s : Store N)
      → IsIndexed env.market s
      → IsIndexed env.market (match_each_stop env oids s).1
  unfolding match_each_stop
  match_each_stop-IsIndexed [] s h = h
  match_each_stop-IsIndexed (oid ∷ oids) s h =
      let kept = match_trailing_stop-IsIndexed oid s h in
      elim (Option-cases (match_trailing_stop env oid s)) [
        | inl e ↦ rw (e, match_each_stop) h
        | inr (t, e) ↦ rw (e, match_each_stop) (match_each_stop-IsIndexed oids t (rw e at kept))
      ]

  -- A tick over the resting orders, the trigger orders and then the trailing stops keeps the sets of
  -- positions in step with the positions and leaves no position of size zero, whatever fills, is
  -- cancelled or throws.
  pub full_tick_keeps_positions-IsIndexed :
      (s : Store N)
      → IsIndexed env.market s
      → IsIndexed env.market
          (match_trailing_stops env (match_trigger_orders env (match_open_orders env s))).1
  unfolding match_trailing_stops
  full_tick_keeps_positions-IsIndexed s h =
      let middle = match_trigger_orders env (match_open_orders env s) in
      match_each_stop-IsIndexed middle.orders_trailing middle
        (tick_keeps_positions-IsIndexed env s h)
