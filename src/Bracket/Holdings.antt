-- ===== src/Bracket/Holdings.antt =====
-- The positions and balances under `cancelOrderSiblings` of src/worker/order-matcher.ts.
use Prim.Native.String.{String}
use hy_paper.Prelude.{
  ℕ, refl, ◌∙◌, Option, none, some, List, [], ◌∷◌, arith, Option-cases, inl, inr,
}
use hy_paper.Decimal.{Decimal}
use hy_paper.Orders.{Order}
use hy_paper.Store.{Store, SameHoldings}
use hy_paper.Bracket.{
  drop_child, cancel_open, cancel_sibling, cancel_each, orphan_children, cancel_siblings_of,
  cancel_order_siblings,
}

module _ {N : Type 0} ⦃d : Decimal N⦄ where
  drop_child-holdings :
      (parent : Option ℕ) (oid : ℕ) (s : Store N) → SameHoldings s (drop_child parent oid s)
  unfolding drop_child
  drop_child-holdings none oid s = refl
  drop_child-holdings (some p) oid s = ground arith

  cancel_open-holdings :
      (user : String) (now : ℕ) (parent : Option ℕ) (sib : ℕ) (o : Order N) (s : Store N)
      → SameHoldings s (cancel_open user now parent sib o s)
  unfolding cancel_open
  cancel_open-holdings user now parent sib o s = drop_child-holdings parent sib _

  cancel_sibling-holdings :
      (user : String) (now : ℕ) (parent : Option ℕ) (sib : ℕ) (s : Store N)
      → SameHoldings s (cancel_sibling user now parent sib s)
  unfolding cancel_sibling
  cancel_sibling-holdings user now parent sib s = elim (Option-cases (s.orders sib)) [
    | inl e ↦ rw (e, cancel_sibling) refl
    | inr (o, e) ↦ let same = cancel_open-holdings user now parent sib o s in ground arith
  ]

  cancel_each-holdings :
      (user : String) (now : ℕ) (parent : Option ℕ) (sibs : List ℕ) (s : Store N)
      → SameHoldings s (cancel_each user now parent sibs s)
  unfolding cancel_each
  cancel_each-holdings user now parent [] s = refl
  cancel_each-holdings user now parent (sib ∷ sibs) s =
      cancel_each-holdings user now parent sibs _ ∙ cancel_sibling-holdings user now parent sib s

  orphan_children-holdings :
      (children : List ℕ) (s : Store N) → SameHoldings s (orphan_children children s)
  unfolding orphan_children
  orphan_children-holdings [] s = refl
  orphan_children-holdings (c ∷ cs) s = orphan_children-holdings cs _

  cancel_siblings_of-holdings :
      (oid : ℕ) (user : String) (now : ℕ) (children sibs : List ℕ) (s : Store N)
      → SameHoldings s (cancel_siblings_of oid user now children sibs s)
  unfolding cancel_siblings_of
  cancel_siblings_of-holdings oid user now (c ∷ cs) sibs s = orphan_children-holdings (c ∷ cs) _
  cancel_siblings_of-holdings oid user now [] [] s = refl
  cancel_siblings_of-holdings oid user now [] (sib ∷ sibs) s =
      cancel_each-holdings user now (s.order_parent oid) (sib ∷ sibs) _
      ∙ drop_child-holdings (s.order_parent oid) oid _

  pub cancel_order_siblings-holdings :
      (oid : ℕ) (user : String) (now : ℕ) (s : Store N)
      → SameHoldings s (cancel_order_siblings oid user now s)
  unfolding cancel_order_siblings
  cancel_order_siblings-holdings oid user now s =
      cancel_siblings_of-holdings oid user now (s.order_children oid) (s.order_bracket oid) s
