-- ===== src/Matcher/Terms.antt =====
-- A fill of src/worker/order-matcher.ts changes the terms of no order.
use Prim.Native.String.{String}
use hy_paper.Prelude.{
  ℕ, ◌≡◌, refl, ap, ◌∙◌, Bool, Option, none, some, List, [], ◌∷◌, inl, inr, Option-cases, arith,
}
use hy_paper.Prelude.Maps.{nat_keys, string_keys, pair_keys, update}
use hy_paper.Decimal.{Decimal}
use hy_paper.Fill.{new_szi}
use hy_paper.Orders.{Order, OrderType, limit, trigger, trailing_stop}
use hy_paper.Store.{Store, credit, terms_of, SameTerms}
use hy_paper.Orphans.{Update}
use hy_paper.Orphans.Reconcile.{reconcile-terms}
use hy_paper.AssetMeta.{scope_for_asset}
use hy_paper.Env.{Env}
use hy_paper.NextPosition.{current_szi, fill_size}
use hy_paper.Bracket.Siblings.{cancel_order_siblings-terms}
use hy_paper.Matcher.{
  write_balance, write_order, emit_trailing_fire, announce_fill, fill_pnl, fee_of, write_fill,
  execute_fill_with_size, execute_fill,
}
use hy_paper.Matcher.Frame.{write_balance-keeps, write_position-keeps}
use hy_paper.Matcher.Settlement.{active, numbered}

module _ {N : Type 0} ⦃d : Decimal N⦄ where
  emit_trailing_fire-orders :
      (o : Option (Order N)) (user : String) (now : ℕ) (os : List (Update N)) (s : Store N)
      → (emit_trailing_fire o user now os s).orders ≡ s.orders
  unfolding emit_trailing_fire
  emit_trailing_fire-orders none user now os s = refl
  emit_trailing_fire-orders (some o) user now os s = refl

  announce_fill-orders :
      (order : Order N) (px : N) (now : ℕ) (type : OrderType) (os : List (Update N)) (s : Store N)
      → (announce_fill order px now type os s).orders ≡ s.orders
  unfolding announce_fill
  announce_fill-orders order px now trailing_stop os s = emit_trailing_fire-orders _ _ now os s
  announce_fill-orders order px now limit [] s = refl
  announce_fill-orders order px now limit (o ∷ os) s = refl
  announce_fill-orders order px now trigger [] s = refl
  announce_fill-orders order px now trigger (o ∷ os) s = refl

  write_order-terms :
      (o : Order N) (px : N) (now : ℕ) (s : Store N) → SameTerms s (write_order o px now s)
  unfolding write_order update
  write_order-terms o px now s j = elim (Option-cases (s.orders o.oid)) [
    | inl e ↦ rw e (ground (arith, e))
    | inr (old, e) ↦ rw e (ground (arith, e))
  ]

  pub execute_fill_with_size-terms :
      (env : Env N) (o : Order N) (px sz : N) (is_taker : Bool) (s : Store N)
      → SameTerms s (execute_fill_with_size env o px sz is_taker s)
  unfolding execute_fill_with_size write_fill credit
  execute_fill_with_size-terms env o px sz is_taker s j =
      let written = write_fill env o px sz is_taker s in
      let szi = new_szi o.is_buy sz (current_szi (s.positions (o.user_id, o.asset))) in
      let account : String × String = (o.user_id, scope_for_asset env.market o.asset) in
      let before = active env o px sz is_taker s in
      cancel_order_siblings-terms o.oid o.user_id env.now _ j
      ∙ ap (λ f. terms_of (f j)) (announce_fill-orders o px env.now o.order_type _ _)
      ∙ reconcile-terms o.user_id o.asset szi env.now written j
      ∙ write_order-terms o px env.now
          (write_balance account (fill_pnl o px sz s) (fee_of env o px sz is_taker) before) j
      ∙ write_balance-keeps (λ s'. terms_of (s'.orders j)) account (fill_pnl o px sz s)
          (fee_of env o px sz is_taker) (λ a s'. refl) before
      ∙ write_position-keeps (λ s'. terms_of (s'.orders j)) env o sz px (λ p a h s'. refl)
          (numbered env o px sz is_taker s)

  pub execute_fill-terms :
      (env : Env N) (o : Order N) (px : N) (is_taker : Bool) (s : Store N)
      → SameTerms s (execute_fill env o px is_taker s)
  unfolding execute_fill
  execute_fill-terms env o px is_taker s =
      elim (Option-cases (fill_size o (current_szi (s.positions (o.user_id, o.asset))))) [
        | inl e ↦ rw (e, execute_fill) (λ j. refl)
        | inr (sz, e) ↦ rw (e, execute_fill) (execute_fill_with_size-terms env o px sz is_taker s)
      ]
