-- ===== src/Matcher/Holdings.antt =====
-- What a fill of src/worker/order-matcher.ts leaves of positions and balances.
use Prim.Native.String.{String}
use hy_paper.Prelude.{ℕ, refl, ◌∙◌, Bool, Option, none, some, List, [], ◌∷◌}
use hy_paper.Prelude.Maps.{nat_keys, string_keys, pair_keys}
use hy_paper.Decimal.{Decimal}
use hy_paper.Fill.{new_szi}
use hy_paper.Orders.{Order, OrderType, limit, trigger, trailing_stop}
use hy_paper.Store.{Store, SameHoldings}
use hy_paper.Orphans.{Update}
use hy_paper.Orphans.Reconcile.{reconcile-holdings}
use hy_paper.Env.{Env}
use hy_paper.NextPosition.{current_szi}
use hy_paper.Bracket.Holdings.{cancel_order_siblings-holdings}
use hy_paper.Matcher.{emit_trailing_fire, announce_fill, write_fill, execute_fill_with_size}

module _ {N : Type 0} ⦃d : Decimal N⦄ where
  emit_trailing_fire-holdings :
      (o : Option (Order N)) (user : String) (now : ℕ) (os : List (Update N)) (s : Store N)
      → SameHoldings s (emit_trailing_fire o user now os s)
  unfolding emit_trailing_fire
  emit_trailing_fire-holdings none user now os s = refl
  emit_trailing_fire-holdings (some o) user now os s = refl

  announce_fill-holdings :
      (order : Order N) (px : N) (now : ℕ) (type : OrderType) (os : List (Update N)) (s : Store N)
      → SameHoldings s (announce_fill order px now type os s)
  unfolding announce_fill
  announce_fill-holdings order px now trailing_stop os s = emit_trailing_fire-holdings _ _ now os s
  announce_fill-holdings order px now limit [] s = refl
  announce_fill-holdings order px now limit (o ∷ os) s = refl
  announce_fill-holdings order px now trigger [] s = refl
  announce_fill-holdings order px now trigger (o ∷ os) s = refl

  -- Nothing that comes after the pipeline touches a position or a balance.
  pub execute_fill_with_size-holdings :
      (env : Env N) (order : Order N) (px sz : N) (taker : Bool) (s : Store N)
      → SameHoldings
          (write_fill env order px sz taker s)
          (execute_fill_with_size env order px sz taker s)
  unfolding execute_fill_with_size
  execute_fill_with_size-holdings env order px sz taker s =
      let written = write_fill env order px sz taker s in
      let szi = new_szi order.is_buy sz (current_szi (s.positions (order.user_id, order.asset))) in
      cancel_order_siblings-holdings order.oid order.user_id env.now _
      ∙ announce_fill-holdings order px env.now order.order_type _ _
      ∙ reconcile-holdings order.user_id order.asset szi env.now written
