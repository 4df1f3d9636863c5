-- ===== src/Intake/Links/Entry.antt =====
-- The bracket of an entry that placeOrders of src/engine/order.ts links: what becomes of its children.
use Prim.Native.String.{String}
use text.Mathlib.Text.{◌==◌ as str_eq}
use hy_paper.Prelude.{
  ℕ, ◌<◌, ◌≡◌, ◌≢◌, refl, ap, ◌∙◌, true, false, Option, some, List, [], ◌∷◌, arith, ◌==◌,
}
use hy_paper.Prelude.Maps.{nat_keys, update_self, update_ne, contains, beq_refl}
use hy_paper.Decimal.{Decimal}
use hy_paper.Orders.{Order, is_open, normal_tpsl}
use hy_paper.Store.{Store}
use hy_paper.Bracket.{as_cancelled, cancel_order_siblings}
use hy_paper.Bracket.Siblings.{View, view, one_cancels_other}
use hy_paper.Intake.{OrderError, OrderStatusReply, refused, resting, success}
use hy_paper.Intake.Cancel.{is_own_open, cancel_order}
use hy_paper.Intake.Cancel.Only.{CancelView, book}
use hy_paper.Intake.Cancel.Count.{count_open, Covers}
use hy_paper.Intake.Cancel.Total.{cancel_order_takes_children}
use hy_paper.Intake.Links.{
  sadd_all, placed_oids, link_sibling, link_children, link_entry, link_bracket,
}
use hy_paper.Intake.Links.Oco.{contains-sadd_all, link_children-kept, link_children-bracket}

not_empty : (c : ℕ) (xs : List ℕ) → contains c xs ≡ true → xs ≢ []
unfolding contains
not_empty c [] h = ground (arith, h)
not_empty c (x ∷ xs) h = λ e. ground (arith, e)

module _ {N : Type 0} where
  link_children-book :
      (parent : ℕ) (all children : List ℕ) (s : Store N)
      → book (link_children parent all children s) ≡ book s
  unfolding link_children link_sibling
  link_children-book parent all [] s = refl
  link_children-book parent all (child ∷ children) s = link_children-book parent all children _

  link_entry-view :
      (p : ℕ) (children : List ℕ) (j : ℕ) (s : Store N)
      → view (link_entry p children s) j ≡ view s j
  unfolding link_entry
  link_entry-view p children j s = (link_children-kept p children children j _).0

  link_entry_children :
      (p : ℕ) (children : List ℕ) (c : ℕ) (s : Store N)
      → contains c children ≡ true
      → contains c ((link_entry p children s).order_children p) ≡ true
  unfolding link_entry
  link_entry_children p children c s mem =
      ap (contains c) (
        (link_children-kept p children children p _).1
        ∙ update_self s.order_children p (sadd_all children (s.order_children p)))
      ∙ contains-sadd_all c children (s.order_children p)
      ∙ rw mem (ground arith)

  link_entry_childless :
      (p : ℕ) (children : List ℕ) (a : ℕ) (s : Store N)
      → (p == a) ≡ false
      → s.order_children a ≡ []
      → (link_entry p children s).order_children a ≡ []
  unfolding link_entry
  link_entry_childless p children a s ne childless =
      (link_children-kept p children children a _).1
      ∙ update_ne s.order_children p a (sadd_all children (s.order_children p)) ne
      ∙ childless

  link_entry_siblings :
      (p : ℕ) (children : List ℕ) (a b : ℕ) (s : Store N)
      → contains a children ≡ true
      → contains b children ≡ true
      → (a == b) ≡ false
      → contains b ((link_entry p children s).order_bracket a) ≡ true
  unfolding link_entry
  link_entry_siblings p children a b s ha hb ne =
      link_children-bracket p children children a b _ ∙ rw (ha, hb, ne) (ground arith)

  -- Let a batch with the grouping `normalTpsl` be linked, and let two different children be given, of
  -- which the first is no parent and the second is open. When the entry fills, no order is changed or
  -- leaves the open and the trigger orders. When the first child fills, the second is cancelled and
  -- leaves both.
  pub entry_bracket_fills :
      (p c : ℕ) (more : List ℕ) (a b : ℕ) (user : String) (now : ℕ) (s : Store N) (o : Order N)
      → contains a (c ∷ more) ≡ true
      → contains b (c ∷ more) ≡ true
      → (a == b) ≡ false
      → (p == a) ≡ false
      → s.order_children a ≡ []
      → s.orders b ≡ some o
      → is_open o.status ≡ true
      → let linked = link_bracket normal_tpsl (p ∷ c ∷ more) s in
        let t = cancel_order_siblings a user now linked in
        ((j : ℕ) → view (cancel_order_siblings p user now linked) j ≡ view s j)
        × (t.orders b ≡ some (as_cancelled now o))
        × (contains b t.orders_open ≡ false)
        × (contains b t.orders_triggers ≡ false)
  unfolding link_bracket contains
  entry_bracket_fills p c more a b user now s o ha hb ne not_entry childless found was_open =
      let children = c ∷ more in
      let linked = link_entry p children s in
      let first : contains c children ≡ true = rw (beq_refl c) refl in
      let (gone, off_open, off_triggers) =
        (one_cancels_other a user now linked b).0
          (link_entry_childless p children a s not_entry childless)
          (link_entry_siblings p children a b s ha hb ne) o
          (ap (λ (v : View N). v.hash) (link_entry-view p children b s) ∙ found) was_open in
      (
        λ j.
            (one_cancels_other p user now linked j).2
              (not_empty c (linked.order_children p) (link_entry_children p children c s first))
            ∙ link_entry-view p children j s,
        gone,
        off_open,
        off_triggers,
      )

  -- Where the entry of a batch with the grouping `normalTpsl` is refused and its two children rest, the first
  -- child is linked as the parent of the second: when it fills, the second is not cancelled.
  pub refused_entry_links_children :
      (e : OrderError) (a b : ℕ) (cloid_a cloid_b : Option String) (user : String) (now : ℕ)
      (s : Store N)
      → let replies : List (OrderStatusReply N) =
          refused e ∷ resting a cloid_a ∷ resting b cloid_b ∷ [] in
        let linked = link_bracket normal_tpsl (placed_oids replies) s in
        (linked.order_parent b ≡ some a)
        × ((j : ℕ) → view (cancel_order_siblings a user now linked) j ≡ view s j)
  unfolding link_bracket placed_oids link_entry link_children link_sibling contains
  refused_entry_links_children e a b cloid_a cloid_b user now s =
      let children = b ∷ [] in
      let linked = link_entry a children s in
      (
        update_self s.order_parent b (some a),
        λ j.
            (one_cancels_other a user now linked j).2 (
              not_empty b (linked.order_children a)
                (link_entry_children a children b s (rw (beq_refl b) refl)))
            ∙ link_entry-view a children j s,
      )

module _ {N : Type 0} ⦃d : Decimal N⦄ where
  link_entry-book :
      (p : ℕ) (children : List ℕ) (s : Store N) → book (link_entry p children s) ≡ book s
  unfolding link_entry
  link_entry-book p children s = link_children-book p children children _

  -- Let a batch with the grouping `normalTpsl` be linked, a list cover the open orders, and the fuel exceed the number of open orders in it. When the user cancels the
  -- entry, and it is open, the cancellation succeeds, and no child is an open order of the user afterwards.
  pub cancelled_entry_takes_children :
      (p c : ℕ) (more : List ℕ) (fuel : ℕ) (user : String) (now : ℕ) (all : List ℕ) (o : Order N)
      (s : Store N)
      → Covers all (book s)
      → count_open all (book s) < fuel
      → s.orders p ≡ some o
      → str_eq o.user_id user ≡ true
      → is_open o.status ≡ true
      → (t : Store N) × (cancel_order fuel user now p (link_bracket normal_tpsl (p ∷ c ∷ more) s)
          ≡ some (success, t))
        × ((a : ℕ) → contains a (c ∷ more) ≡ true → is_own_open user (t.orders a) ≡ false)
  unfolding link_bracket
  cancelled_entry_takes_children p c more fuel user now all o s covers enough found owned was_open =
      let children = c ∷ more in
      let linked = link_entry p children s in
      let same = link_entry-book p children s in
      let (t, ran, done) =
        cancel_order_takes_children fuel user now all p o linked (rw same covers) (rw same enough)
          (ap (λ (b : CancelView N). b.orders p) same ∙ found) owned was_open in
      (t, ran, λ a mem. done a (link_entry_children p children a s mem))
