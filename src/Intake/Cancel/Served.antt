-- ===== src/Intake/Cancel/Served.antt =====
-- What it is to serve a request to cancel, one or several (src/engine/order.ts, cancelOrders).
use Prim.Native.String.{String}
use hy_paper.Prelude.{
  ℕ, suc, ◌≡◌, refl, sym, ap, ◌∙◌, true, false, inl, inr, Option, some, List, [], ◌∷◌, length,
  arith, ◌==◌, Bool-cases,
}
use hy_paper.Prelude.Maps.{nat_keys, contains}
use hy_paper.Store.{Store}
use hy_paper.Intake.{OrderStatusReply}
use hy_paper.Intake.Cancel.{is_own_open, open_children, in_turn}
use hy_paper.Intake.Cancel.Only.{CancelView, book, CancelsOnly, cancels_nothing, cancels_in_turn}

module _ {N : Type 0} where
  pub own_after :
      (user : String) (b c : CancelView N) (j : ℕ)
      → CancelsOnly user b c
      → is_own_open user (b.orders j) ≡ false
      → is_own_open user (c.orders j) ≡ false
  unfolding is_own_open
  own_after user b c j h off = elim (h.each j) [
    | inl same ↦ rw same off
    | inr closed ↦ rw (closed.stored, is_own_open, closed.closed) (ground arith)
  ]

  -- A cancellation that ends: it changes only open orders of the user, and the order that was asked
  -- for is no open order of the user any more.
  pub record Served (user : String) (oid : ℕ) (s : Store N)
      (r : Option (OrderStatusReply N × Store N)) : Type 0 where
    pub reply : OrderStatusReply N
    pub after : Store N
    pub ran : r ≡ some (reply, after)
    pub only : CancelsOnly user (book s) (book after)
    pub done : is_own_open user (after.orders oid) ≡ false

  -- The same of several, each with its reply.
  pub record AllServed (user : String) (oids : List ℕ) (s : Store N)
      (r : Option (List (OrderStatusReply N) × Store N)) : Type 0 where
    pub replies : List (OrderStatusReply N)
    pub after : Store N
    pub ran : r ≡ some (replies, after)
    pub only : CancelsOnly user (book s) (book after)
    pub answered : length replies ≡ length oids
    pub done : (j : ℕ) → contains j oids ≡ true → is_own_open user (after.orders j) ≡ false

  first_Served :
      (user : String) (oid : ℕ) (oids : List ℕ) (t u : Store N)
      → is_own_open user (t.orders oid) ≡ false
      → CancelsOnly user (book t) (book u)
      → ((j : ℕ) → contains j oids ≡ true → is_own_open user (u.orders j) ≡ false)
      → (j : ℕ) → contains j (oid ∷ oids) ≡ true
      → is_own_open user (u.orders j) ≡ false
  unfolding contains
  first_Served user oid oids t u off more rest j mem = elim (Bool-cases (j == oid)) [
    | inl e ↦
        let same : j ≡ oid = (nat_keys.beq_iff j oid).0 e in
        rw same (own_after user (book t) (book u) oid more off)
    | inr ne ↦ rest j (ground (arith, mem, ne))
  ]

  pub in_turn-AllServed :
      (step : ℕ → Store N → Option (OrderStatusReply N × Store N)) (user : String)
      (start : CancelView N)
      → ((oid : ℕ) (s : Store N) → CancelsOnly user start (book s) → Served user oid s (step oid s))
      → (oids : List ℕ) (s : Store N) → CancelsOnly user start (book s)
      → AllServed user oids s (in_turn step oids s)
  unfolding in_turn contains
  in_turn-AllServed step user start served [] s h = record {
    replies = [];
    after = s;
    ran = refl;
    only = cancels_nothing user (book s);
    answered = refl;
    done = λ j mem. ground (arith, mem);
  }
  in_turn-AllServed step user start served (oid ∷ oids) s h =
      let first = served oid s h in
      let t = first.after in
      let rest =
        in_turn-AllServed step user start served oids t
          (cancels_in_turn user start (book s) (book t) h first.only) in
      record {
        replies = first.reply ∷ rest.replies;
        after = rest.after;
        ran = rw (first.ran, in_turn, rest.ran) refl;
        only = cancels_in_turn user (book s) (book t) (book rest.after) first.only rest.only;
        answered = ap suc rest.answered;
        done = first_Served user oid oids t rest.after first.done rest.only rest.done;
      }

  pub open_children-contains :
      (user : String) (s : Store N) (children : List ℕ) (c : ℕ)
      → contains c children ≡ true
      → is_own_open user (s.orders c) ≡ true
      → contains c (open_children user s children) ≡ true
  unfolding open_children contains
  open_children-contains user s [] c mem own = mem
  open_children-contains user s (child ∷ children) c mem own = elim (Bool-cases (c == child)) [
    | inl e ↦
        let same : c ≡ child = (nat_keys.beq_iff c child).0 e in
        let own_child : is_own_open user (s.orders child) ≡ true =
          ap (λ j. is_own_open user (s.orders j)) (sym same) ∙ own in
        rw (own_child, open_children) (ground (arith, e))
    | inr ne ↦
        let rest = open_children-contains user s children c (ground (arith, mem, ne)) own in
        ground (arith, rest)
  ]

  -- The links of a closed order are followed to the end, and no child is an open order of the user then.
  pub record Cascaded (user : String) (children : List ℕ) (s : Store N) (r : Option (Store N))
      : Type 0 where
    pub after : Store N
    pub ran : r ≡ some after
    pub only : CancelsOnly user (book s) (book after)
    pub done : (c : ℕ) → contains c children ≡ true → is_own_open user (after.orders c) ≡ false
