-- ===== src/Matcher/Fills.antt =====
-- The fill that src/worker/order-matcher.ts puts on record.
use Prim.Native.String.{String}
use hy_paper.Prelude.{
  ◌≡◌, refl, sym, ap, ◌∙◌, Bool, true, false, List, ◌∷◌, if◌then◌else◌, inl, inr, Option-cases,
}
use hy_paper.Prelude.Maps.{nat_keys, string_keys, pair_keys, update, beq_refl}
use hy_paper.Decimal.{Decimal}
use hy_paper.AssetMeta.{scope_for_asset}
use hy_paper.Orders.{Order, PaperFill}
use hy_paper.Store.{Store, credit}
use hy_paper.Env.{Env}
use hy_paper.Matcher.{
  fill_pnl, fee_of, fill_of, paper_fill, write_balance, write_fill, execute_fill_with_size,
  execute_fill,
}
use hy_paper.NextPosition.{current_szi, fill_size}
use hy_paper.Matcher.Frame.{write_balance-keeps, write_position-keeps}
use hy_paper.Matcher.Settlement.{active, numbered}
use hy_paper.Matcher.Holdings.{execute_fill_with_size-holdings}

-- The second list is the first with elements put in front that satisfy a predicate.
pub data Grows {A : Type 0} (P : A → Type 0) : List A → List A → Type 0 where
  same : {xs : List A} → Grows P xs xs
  more : {xs ys : List A} {a : A} → P a → Grows P xs ys → Grows P xs (a ∷ ys)

module _ {N : Type 0} ⦃d : Decimal N⦄ (env : Env N) (o : Order N) (px sz : N)
    (is_taker : Bool) where
  pub execute-user_fills :
      (s : Store N) (user : String)
      → (execute_fill_with_size env o px sz is_taker s).user_fills user ≡ (
          if string_keys.beq o.user_id user
          then fill_of env o px sz is_taker s ∷ s.user_fills o.user_id
          else s.user_fills user)
  unfolding write_fill update credit
  execute-user_fills s user =
      let account : String × String = (o.user_id, scope_for_asset env.market o.asset) in
      let kept : (write_balance account (fill_pnl o px sz s) (fee_of env o px sz is_taker)
            (active env o px sz is_taker s)).user_fills
          ≡ s.user_fills =
        write_balance-keeps (λ s'. s'.user_fills) account (fill_pnl o px sz s)
          (fee_of env o px sz is_taker) (λ a s'. refl) (active env o px sz is_taker s)
        ∙ write_position-keeps (λ s'. s'.user_fills) env o sz px (λ p a h s'. refl)
            (numbered env o px sz is_taker s) in
      ap (λ h. h.user_fills user) (execute_fill_with_size-holdings env o px sz is_taker s)
      ∙ ap (λ fs. update fs o.user_id (fill_of env o px sz is_taker s ∷ fs o.user_id) user) kept

  pub execute-own_fills :
      (s : Store N)
      → (execute_fill_with_size env o px sz is_taker s).user_fills o.user_id
        ≡ fill_of env o px sz is_taker s ∷ s.user_fills o.user_id
  execute-own_fills s = execute-user_fills s o.user_id ∙ rw (beq_refl o.user_id) refl

  pub fill_of_lem :
      (s : Store N)
      → let f = fill_of env o px sz is_taker s in
        (f.oid ≡ o.oid) × (f.is_buy ≡ o.is_buy) × (f.px ≡ px) × (f.sz ≡ sz)
  unfolding fill_of paper_fill
  fill_of_lem s = (refl, refl, refl, refl)

Grows-if :
    {A : Type 0} {P : A → Type 0} (b : Bool) (f : A) (own other : List A)
    → P f
    → (b ≡ true → own ≡ other)
    → Grows P other (if b then f ∷ own else other)
Grows-if {P} true f own other p e = rw (sym (e refl)) (more p same)
Grows-if false f own other p e = same

module _ {N : Type 0} ⦃d : Decimal N⦄ (env : Env N) (o : Order N) (px : N) (is_taker : Bool)
    (s : Store N) where
  -- Filling an order adds at most one fill, of that order.
  pub execute_fill-Grows :
      {P : PaperFill N → Type 0} (user : String)
      → ((sz : N) → P (fill_of env o px sz is_taker s))
      → Grows P (s.user_fills user) ((execute_fill env o px is_taker s).user_fills user)
  unfolding execute_fill
  execute_fill-Grows user h =
      elim (Option-cases (fill_size o (current_szi (s.positions (o.user_id, o.asset))))) [
        | inl e ↦ rw (e, execute_fill) same
        | inr (sz, e) ↦
            rw (e, execute_fill, execute-user_fills env o px sz is_taker s user)
              (Grows-if _ _ _ _ (h sz) (λ q. ap s.user_fills ((string_keys.beq_iff _ _).0 q)))
      ]
