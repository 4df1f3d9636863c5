-- ===== src/Intake/Cancel/Only.antt =====
-- What a cancellation of src/engine/order.ts may change: open orders of the user, which it closes.
use Prim.Native.String.{String}
use text.Mathlib.Text.{◌==◌ as str_eq}
use hy_paper.Prelude.{
  ℕ, ◌≡◌, refl, sym, ap, ◌∙◌, true, false, ◌⊎◌, inl, inr, Option, some, List, [], ◌∷◌, arith, ◌==◌,
  Bool-cases,
}
use hy_paper.Prelude.Maps.{nat_keys, srem, update, contains, contains-srem, beq_refl}
use hy_paper.Decimal.{Decimal}
use hy_paper.Orders.{Order, cancelled, is_open}
use hy_paper.Store.{Store, Holdings, holdings, set_order, emit}
use hy_paper.Bracket.{as_cancelled, unlink}
use hy_paper.Orphans.{ended, drop_stop}
use hy_paper.Intake.Cancel.{is_trailing, unlink_each, drop_children, close_order}

-- What a cancellation changes of the store, besides the links and the events.
pub record CancelView (N : Type 0) : Type 0 where
  pub orders : ℕ → Option (Order N)
  pub open_set : List ℕ
  pub trigger_set : List ℕ
  pub trailing_set : List ℕ
  pub expiry_set : List ℕ
  pub held : Holdings N

not_in_srem : (oid j : ℕ) (xs : List ℕ) → contains j xs ≡ false → contains j (srem oid xs) ≡ false
not_in_srem oid j xs h = contains-srem oid j xs ∙ ground (arith, h)

srem_self : (oid : ℕ) (xs : List ℕ) → contains oid (srem oid xs) ≡ false
srem_self oid xs = contains-srem oid oid xs ∙ rw (beq_refl oid) refl

module _ {N : Type 0} where
  abbrev pub book : Store N → CancelView N
  book s = record {
    orders = s.orders;
    open_set = s.orders_open;
    trigger_set = s.orders_triggers;
    trailing_set = s.orders_trailing;
    expiry_set = s.orders_expiry;
    held = holdings s;
  }

  -- An order is in none of the sets that the worker looks at.
  pub record OffBook (j : ℕ) (b : CancelView N) : Type 0 where
    pub not_open : contains j b.open_set ≡ false
    pub not_watched : contains j b.trigger_set ≡ false
    pub not_trailing : contains j b.trailing_set ≡ false
    pub not_expiring : contains j b.expiry_set ≡ false

  -- An open order of the user was cancelled.
  pub record Closed (user : String) (j : ℕ) (b c : CancelView N) : Type 0 where
    pub before : Order N
    pub found : b.orders j ≡ some before
    pub owned : str_eq before.user_id user ≡ true
    pub was_open : is_open before.status ≡ true
    pub after : Order N
    pub stored : c.orders j ≡ some after
    pub closed : after.status ≡ cancelled
    pub kept_owner : after.user_id ≡ before.user_id
    pub kept_fill : after.filled_sz ≡ before.filled_sz
    pub gone : OffBook j c

  -- Between two books nothing but open orders of the user was cancelled.
  pub record CancelsOnly (user : String) (b c : CancelView N) : Type 0 where
    pub held : c.held ≡ b.held
    pub each : (j : ℕ) → (c.orders j ≡ b.orders j) ⊎ Closed user j b c
    pub shrinks : (j : ℕ) → OffBook j b → OffBook j c

  pub cancels_nothing : (user : String) (b : CancelView N) → CancelsOnly user b b
  cancels_nothing user b = record { held = refl; each = λ j. inl refl; shrinks = λ j h. h }

  same_order :
      (user : String) (b c d : CancelView N) (j : ℕ) (was : Closed user j b c)
      (now : Closed user j c d)
      → now.before ≡ was.after
  same_order user b c d j was now = cc (was.stored, now.found)

  then_Closed :
      (user : String) (b c d : CancelView N) (j : ℕ)
      → CancelsOnly user c d
      → Closed user j b c
      → (d.orders j ≡ c.orders j) ⊎ Closed user j c d
      → Closed user j b d
  then_Closed user b c d j more was (inl same) = record {
    before = was.before;
    found = was.found;
    owned = was.owned;
    was_open = was.was_open;
    after = was.after;
    stored = same ∙ was.stored;
    closed = was.closed;
    kept_owner = was.kept_owner;
    kept_fill = was.kept_fill;
    gone = more.shrinks j was.gone;
  }
  then_Closed user b c d j more was (inr now) = record {
    before = was.before;
    found = was.found;
    owned = was.owned;
    was_open = was.was_open;
    after = now.after;
    stored = now.stored;
    closed = now.closed;
    kept_owner =
        now.kept_owner
        ∙ ap (λ (o : Order N). o.user_id) (same_order user b c d j was now)
        ∙ was.kept_owner;
    kept_fill =
        now.kept_fill
        ∙ ap (λ (o : Order N). o.filled_sz) (same_order user b c d j was now)
        ∙ was.kept_fill;
    gone = now.gone;
  }

  then_each :
      (user : String) (b c d : CancelView N) (j : ℕ)
      → CancelsOnly user c d
      → (c.orders j ≡ b.orders j) ⊎ Closed user j b c
      → (d.orders j ≡ c.orders j) ⊎ Closed user j c d
      → (d.orders j ≡ b.orders j) ⊎ Closed user j b d
  then_each user b c d j more (inl same) (inl still) = inl (still ∙ same)
  then_each user b c d j more (inl same) (inr now) = inr (record {
    before = now.before;
    found = sym same ∙ now.found;
    owned = now.owned;
    was_open = now.was_open;
    after = now.after;
    stored = now.stored;
    closed = now.closed;
    kept_owner = now.kept_owner;
    kept_fill = now.kept_fill;
    gone = now.gone;
  })
  then_each user b c d j more (inr was) later = inr (then_Closed user b c d j more was later)

  pub cancels_in_turn :
      (user : String) (b c d : CancelView N)
      → CancelsOnly user b c
      → CancelsOnly user c d
      → CancelsOnly user b d
  cancels_in_turn user b c d first more = record {
    held = more.held ∙ first.held;
    each = λ j. then_each user b c d j more (first.each j) (more.each j);
    shrinks = λ j h. more.shrinks j (first.shrinks j h);
  }

  -- The book with an order closed.
  abbrev shut : ℕ → Order N → CancelView N → CancelView N
  shut oid o b = record b {
    orders = update b.orders oid (some o);
    open_set = srem oid b.open_set;
    trigger_set = srem oid b.trigger_set;
    trailing_set = srem oid b.trailing_set;
    expiry_set = srem oid b.expiry_set;
  }

  shut-CancelsOnly :
      (user : String) (oid : ℕ) (o after : Order N) (b : CancelView N)
      → b.orders oid ≡ some o
      → str_eq o.user_id user ≡ true
      → is_open o.status ≡ true
      → after.status ≡ cancelled
      → after.user_id ≡ o.user_id
      → after.filled_sz ≡ o.filled_sz
      → CancelsOnly user b (shut oid after b)
  unfolding update
  shut-CancelsOnly user oid o after b found owned was_open closed owner fill = record {
    held = refl;
    each = λ j. elim (Bool-cases (oid == j)) [
      | inr ne ↦ inl (rw ne refl)
      | inl e ↦
          let same : oid ≡ j = (nat_keys.beq_iff oid j).0 e in
          rw (← same) (
            inr (record {
              before = o;
              found = found;
              owned = owned;
              was_open = was_open;
              after = after;
              stored = rw (beq_refl oid) refl;
              closed = closed;
              kept_owner = owner;
              kept_fill = fill;
              gone = record {
                not_open = srem_self oid b.open_set;
                not_watched = srem_self oid b.trigger_set;
                not_trailing = srem_self oid b.trailing_set;
                not_expiring = srem_self oid b.expiry_set;
              };
            }))
    ];
    shrinks = λ j h. record {
      not_open = not_in_srem oid j b.open_set h.not_open;
      not_watched = not_in_srem oid j b.trigger_set h.not_watched;
      not_trailing = not_in_srem oid j b.trailing_set h.not_trailing;
      not_expiring = not_in_srem oid j b.expiry_set h.not_expiring;
    };
  }

  unlink_each-book : (children : List ℕ) (s : Store N) → book (unlink_each children s) ≡ book s
  unfolding unlink_each unlink
  unlink_each-book [] s = refl
  unlink_each-book (child ∷ children) s = unlink_each-book children (unlink child s)

  pub drop_children-book :
      (oid : ℕ) (children : List ℕ) (s : Store N) → book (drop_children oid children s) ≡ book s
  unfolding drop_children
  drop_children-book oid children s = unlink_each-book children _

module _ {N : Type 0} ⦃d : Decimal N⦄ where
  pub close_order-CancelsOnly :
      (user : String) (oid : ℕ) (o : Order N) (now : ℕ) (s : Store N)
      → s.orders oid ≡ some o
      → str_eq o.user_id user ≡ true
      → is_open o.status ≡ true
      → CancelsOnly user (book s) (book (close_order oid o now s))
  unfolding close_order drop_stop set_order ended as_cancelled emit
  close_order-CancelsOnly user oid o now s found owned was_open =
      elim (Bool-cases (is_trailing o.order_type)) [
        | inl e ↦
            rw (e, close_order, found)
              (shut-CancelsOnly user oid o (ended cancelled now o) (book s) found owned was_open
                refl refl refl)
        | inr e ↦
            rw (e, close_order, found)
              (shut-CancelsOnly user oid o (as_cancelled now o) (book s) found owned was_open refl
                refl refl)
      ]
