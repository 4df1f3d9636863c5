-- ===== src/Intake/Cancel/Total.antt =====
-- Every cancellation of src/engine/order.ts ends, and cancels what it was asked to.
use Prim.Native.String.{String}
use text.Mathlib.Text.{◌==◌ as str_eq}
use hy_paper.Prelude.{
  ℕ, zero, suc, ◌<◌, ◌≡◌, refl, ◌∙◌, true, false, inl, inr, Option, some, List, [], ◌∷◌, arith,
  if◌then◌else◌, Bool-cases, Option-cases,
}
use hy_paper.Prelude.Maps.{nat_keys, contains, update_self}
use hy_paper.Decimal.{Decimal}
use hy_paper.Orders.{Order, cancelled, is_open}
use hy_paper.Store.{Store, set_order, emit, order_update}
use hy_paper.Bracket.{as_cancelled, cancelled_update, unlink}
use hy_paper.Orphans.{ended, drop_stop}
use hy_paper.Intake.{
  OrderError, not_found, not_open, already_finished, OrderStatusReply, refused, success,
}
use hy_paper.Intake.Cancel.{
  is_trailing, is_own_open, open_children, drop_children, close_order, cascade, cancel_own,
  cancel_request, cancel_order,
}
use hy_paper.Intake.Cancel.Only.{
  CancelView, book, CancelsOnly, cancels_nothing, cancels_in_turn, drop_children-book,
  close_order-CancelsOnly,
}
use hy_paper.Intake.Cancel.Count.{
  live, count_open, Covers, count_open_le, count_open_lt, still-Covers,
}
use hy_paper.Intake.Cancel.Served.{
  own_after, Served, in_turn-AllServed, open_children-contains, Cascaded,
}

module _ {N : Type 0} ⦃d : Decimal N⦄ where
  cascade-Cascaded :
      (step : ℕ → Store N → Option (OrderStatusReply N × Store N)) (user : String) (oid : ℕ)
      (children : List ℕ) (s : Store N)
      → ((j : ℕ) (t : Store N) → CancelsOnly user (book s) (book t) → Served user j t (step j t))
      → Cascaded user children s (cascade step user oid children s)
  unfolding cascade unlink contains
  cascade-Cascaded step user oid [] s served = record {
    after = unlink oid s;
    ran = refl;
    only = cancels_nothing user (book s);
    done = λ c mem. ground (arith, mem);
  }
  cascade-Cascaded step user oid (child ∷ children) s served =
      let all = child ∷ children in
      let dropped = drop_children oid all s in
      let same = drop_children-book oid all s in
      let unchanged : CancelsOnly user (book s) (book dropped) =
        rw same (cancels_nothing user (book s)) in
      let done =
        in_turn-AllServed step user (book s) served (open_children user s all) dropped unchanged in
      let only =
        cancels_in_turn user (book s) (book dropped) (book done.after) unchanged done.only in
      record {
        after = done.after;
        ran = rw (cascade, done.ran) refl;
        only = only;
        done = λ c mem. elim (Bool-cases (is_own_open user (s.orders c))) [
          | inl own ↦ done.done c (open_children-contains user s all c mem own)
          | inr off ↦ own_after user (book s) (book done.after) c only off
        ];
      }

  closing : ℕ → Order N → Order N
  unfolding ended as_cancelled
  closing now o = if is_trailing o.order_type then ended cancelled now o else as_cancelled now o

  closing-closed : (now : ℕ) (o : Order N) → is_open (closing now o).status ≡ false
  unfolding closing ended as_cancelled
  closing-closed now o = elim (Bool-cases (is_trailing o.order_type)) [
    | inl e ↦ rw (e, closing) refl
    | inr e ↦ rw (e, closing) refl
  ]

  close_order-stored :
      (oid : ℕ) (o : Order N) (now : ℕ) (s : Store N)
      → s.orders oid ≡ some o
      → (close_order oid o now s).orders oid ≡ some (closing now o)
  unfolding close_order drop_stop set_order closing emit
  close_order-stored oid o now s found = elim (Bool-cases (is_trailing o.order_type)) [
    | inl e ↦ rw (e, close_order, closing, found) (update_self s.orders oid _)
    | inr e ↦ rw (e, close_order, closing, found) (update_self s.orders oid _)
  ]

  close_order-live :
      (oid : ℕ) (o : Order N) (now : ℕ) (s : Store N)
      → s.orders oid ≡ some o
      → live (book (close_order oid o now s)) oid ≡ false
  unfolding live
  close_order-live oid o now s found =
      rw (close_order-stored oid o now s found, live) (closing-closed now o)

  live-own :
      (user : String) (b : CancelView N) (oid : ℕ)
      → live b oid ≡ false
      → is_own_open user (b.orders oid) ≡ false
  unfolding live is_own_open
  live-own user b oid h = ground (arith, h)

  cancel_own-Served :
      (step : ℕ → Store N → Option (OrderStatusReply N × Store N)) (user : String) (now oid : ℕ)
      (o : Order N) (s : Store N)
      → s.orders oid ≡ some o
      → str_eq o.user_id user ≡ true
      → is_open o.status ≡ true
      → ((j : ℕ) (t : Store N)
          → CancelsOnly user (book (close_order oid o now s)) (book t)
          → Served user j t (step j t))
      → Served user oid s (cancel_own step user now oid o s)
  unfolding cancel_own emit
  cancel_own-Served step user now oid o s found owned was_open served =
      let closed = close_order oid o now s in
      let first = close_order-CancelsOnly user oid o now s found owned was_open in
      let rest = cascade-Cascaded step user oid (s.order_children oid) closed served in
      record {
        reply = success;
        after = emit (order_update user (cancelled_update user now o) cancelled) rest.after;
        ran = rw (cancel_own, rest.ran) refl;
        only = cancels_in_turn user (book s) (book closed) (book rest.after) first rest.only;
        done =
            own_after user (book closed) (book rest.after) oid rest.only
              (live-own user (book closed) oid (close_order-live oid o now s found));
      }

  unserved :
      (user : String) (oid : ℕ) (s : Store N) (e : OrderError)
      → is_own_open user (s.orders oid) ≡ false
      → Served user oid s (some (refused e, s))
  unserved user oid s e off = record {
    reply = refused e;
    after = s;
    ran = refl;
    only = cancels_nothing user (book s);
    done = off;
  }

  cancel_request_own :
      (step : ℕ → Store N → Option (OrderStatusReply N × Store N)) (user : String) (now oid : ℕ)
      (o : Order N) (s : Store N)
      → s.orders oid ≡ some o
      → str_eq o.user_id user ≡ true
      → is_open o.status ≡ true
      → cancel_request step user now oid s ≡ cancel_own step user now oid o s
  unfolding cancel_request
  cancel_request_own step user now oid o s e owned was_open =
      simp (e, cancel_request, owned, was_open) refl

  cancel_request-Served :
      (step : ℕ → Store N → Option (OrderStatusReply N × Store N)) (user : String) (now oid : ℕ)
      (s : Store N)
      → ((o : Order N)
          → s.orders oid ≡ some o
          → str_eq o.user_id user ≡ true
          → is_open o.status ≡ true
          → (j : ℕ) (t : Store N) → CancelsOnly user (book (close_order oid o now s)) (book t)
          → Served user j t (step j t))
      → Served user oid s (cancel_request step user now oid s)
  unfolding cancel_request is_own_open
  cancel_request-Served step user now oid s served = elim (Option-cases (s.orders oid)) [
    | inl e ↦ simp (e, cancel_request) (unserved user oid s not_found (rw (e, is_own_open) refl))
    | inr (o, e) ↦ elim (Bool-cases (str_eq o.user_id user)) [
      | inr foreign ↦
          simp (e, cancel_request, foreign)
            (unserved user oid s not_found (rw (e, is_own_open, foreign) refl))
      | inl owned ↦ elim (Bool-cases (is_open o.status)) [
        | inr over ↦
            simp (e, cancel_request, owned, over)
              (unserved user oid s (if is_trailing o.order_type then already_finished else not_open)
                (rw (e, is_own_open, owned, over) refl))
        | inl was_open ↦
            rw (cancel_request_own step user now oid o s e owned was_open)
              (cancel_own-Served step user now oid o s e owned was_open (served o e owned was_open))
      ]
    ]
  ]

  close_order-fewer :
      (user : String) (all : List ℕ) (oid : ℕ) (o : Order N) (now : ℕ) (s : Store N)
      → Covers all (book s)
      → s.orders oid ≡ some o
      → is_open o.status ≡ true
      → CancelsOnly user (book s) (book (close_order oid o now s))
      → count_open all (book (close_order oid o now s)) < count_open all (book s)
  unfolding live Covers
  close_order-fewer user all oid o now s covers found was_open only =
      let live_now : live (book s) oid ≡ true = rw (live, found) was_open in
      count_open_lt user all (book s) (book (close_order oid o now s)) oid only
        (covers oid live_now) live_now (close_order-live oid o now s found)

  cancel_order-Served :
      (fuel : ℕ) (user : String) (now : ℕ) (all : List ℕ) (oid : ℕ) (s : Store N)
      → Covers all (book s)
      → count_open all (book s) < fuel
      → Served user oid s (cancel_order fuel user now oid s)
  unfolding cancel_order
  cancel_order-Served zero user now all oid s covers enough = absurd (omega arith)
  cancel_order-Served (suc fuel) user now all oid s covers enough =
      cancel_request-Served (cancel_order fuel user now) user now oid s
        (λ o found owned was_open j t h.
          let closed = book (close_order oid o now s) in
          let only = close_order-CancelsOnly user oid o now s found owned was_open in
          let fewer = close_order-fewer user all oid o now s covers found was_open only in
          let less = count_open_le user all closed (book t) h in
          cancel_order-Served fuel user now all j t
            (still-Covers user all closed (book t) h
              (still-Covers user all (book s) closed only covers))
            (omega arith))

  closed-Served :
      (fuel : ℕ) (user : String) (now : ℕ) (all : List ℕ) (oid : ℕ) (o : Order N) (s : Store N)
      → Covers all (book s)
      → count_open all (book s) < suc fuel
      → s.orders oid ≡ some o
      → str_eq o.user_id user ≡ true
      → is_open o.status ≡ true
      → (j : ℕ) (t : Store N) → CancelsOnly user (book (close_order oid o now s)) (book t)
      → Served user j t (cancel_order fuel user now j t)
  closed-Served fuel user now all oid o s covers enough found owned was_open j t h =
      let closed = book (close_order oid o now s) in
      let only = close_order-CancelsOnly user oid o now s found owned was_open in
      let fewer = close_order-fewer user all oid o now s covers found was_open only in
      let less = count_open_le user all closed (book t) h in
      cancel_order-Served fuel user now all j t
        (still-Covers user all closed (book t) h
          (still-Covers user all (book s) closed only covers))
        (omega arith)

  -- Let a list cover the open orders, and the fuel exceed the number of open orders in it. Then the cancellation of an
  -- open order of the user succeeds, and none of its children in the bracket is an open order of the user
  -- afterwards.
  pub cancel_order_takes_children :
      (fuel : ℕ) (user : String) (now : ℕ) (all : List ℕ) (oid : ℕ) (o : Order N) (s : Store N)
      → Covers all (book s)
      → count_open all (book s) < fuel
      → s.orders oid ≡ some o
      → str_eq o.user_id user ≡ true
      → is_open o.status ≡ true
      → (t : Store N) × (cancel_order fuel user now oid s ≡ some (success, t))
        × ((c : ℕ)
            → contains c (s.order_children oid) ≡ true
            → is_own_open user (t.orders c) ≡ false)
  unfolding cancel_order cancel_own emit
  cancel_order_takes_children zero user now all oid o s covers enough found owned was_open =
      absurd (omega arith)
  cancel_order_takes_children (suc fuel) user now all oid o s covers enough found owned was_open =
      let rest =
        cascade-Cascaded (cancel_order fuel user now) user oid (s.order_children oid)
          (close_order oid o now s)
          (closed-Served fuel user now all oid o s covers enough found owned was_open) in
      (
        emit (order_update user (cancelled_update user now o) cancelled) rest.after,
        cancel_request_own (cancel_order fuel user now) user now oid o s found owned was_open
            ∙ rw (cancel_own, rest.ran) refl,
        rest.done,
      )
