-- ===== src/Ticks/Resting.antt =====
-- The resting orders over one tick of src/worker/order-matcher.ts.
use Prim.Native.String.{String}
use hy_paper.Prelude.{
  ℕ, ◌≡◌, refl, sym, ap, ◌∙◌, Bool, true, false, some, List, [], ◌∷◌, inl, inr, Bool-cases,
  Option-cases,
}
use hy_paper.Prelude.Maps.{nat_keys, string_keys}
use hy_paper.Decimal.{Decimal}
use hy_paper.Decimal.Order.{IsOrdered}
use hy_paper.Slippage.{beyond}
use hy_paper.Orders.{Order, PaperFill, is_open}
use hy_paper.Store.{Store, Terms, terms, terms_of, SameTerms}
use hy_paper.Env.{Env, mid_of}
use hy_paper.Matcher.{fill_of, execute_fill}
use hy_paper.Matcher.Fills.{Grows, same, more, execute_fill-Grows, fill_of_lem}
use hy_paper.Matcher.Terms.{execute_fill-terms}
use hy_paper.Ticks.{
  should_fill, compute_fill_price, match_open_order, drop_open, each, pass, match_open_orders,
}
use hy_paper.Ticks.Price.{resting_price_within_limit}

Grows-trans :
    {A : Type 0} {P : A → Type 0} {xs ys zs : List A}
    → Grows P xs ys
    → Grows P ys zs
    → Grows P xs zs
Grows-trans g same = g
Grows-trans g (more p h) = more p (Grows-trans g h)

module _ {N : Type 0} ⦃d : Decimal N⦄ where
  -- Every order is stored under its own number.
  abbrev pub IsKeyed : Store N → Type 0
  IsKeyed s = (oid : ℕ) (t : Terms N) → terms_of (s.orders oid) ≡ some t → t.oid ≡ oid

  -- A fill is on the side of its order and within the limit that the store holds of it.
  abbrev pub Honours : Store N → PaperFill N → Type 0
  Honours s f =
      (t : Terms N) × (terms_of (s.orders f.oid) ≡ some t)
      × (f.is_buy ≡ t.is_buy)
      × (beyond (some t.limit_px) f.is_buy f.px ≡ false)

  -- What a step of a tick does to the fills and the terms of orders, by the terms of a first store.
  abbrev Fair : Store N → Store N → Store N → Type 0
  Fair s0 s t =
      SameTerms s t × ((user : String) → Grows (Honours s0) (s.user_fills user) (t.user_fills user))

  Fair-refl : (s0 s : Store N) → Fair s0 s s
  Fair-refl s0 s = (λ oid. refl, λ user. same)

  Fair-trans : (s0 s t u : Store N) → Fair s0 s t → Fair s0 t u → Fair s0 s u
  Fair-trans s0 s t u (p, g) (q, h) = (λ oid. q oid ∙ p oid, λ user. Grows-trans (g user) (h user))

  execute_fill-Fair :
      (env : Env N) (o : Order N) (px : N) (is_taker : Bool) (s0 s : Store N)
      → ((sz : N) → Honours s0 (fill_of env o px sz is_taker s))
      → Fair s0 s (execute_fill env o px is_taker s)
  unfolding execute_fill
  execute_fill-Fair env o px is_taker s0 s h = (
    execute_fill-terms env o px is_taker s,
    λ user. execute_fill-Grows env o px is_taker s user h,
  )

  module _ (laws : IsOrdered N) (env : Env N) (s0 : Store N) (keyed : IsKeyed s0) where
    resting-Honours :
        (oid : ℕ) (o : Order N) (mid sz : N) (s : Store N)
        → SameTerms s0 s
        → s.orders oid ≡ some o
        → should_fill o mid ≡ true
        → Honours s0 (fill_of env o (compute_fill_price env o mid (some o.limit_px)) sz false s)
    resting-Honours oid o mid sz s h e fills =
        let px = compute_fill_price env o mid (some o.limit_px) in
        let (f_oid, f_buy, f_px, f_sz) = fill_of_lem env o px sz false s in
        let held = sym (h oid) ∙ ap terms_of e in
        (
          terms o,
          ap (λ k. terms_of (s0.orders k)) (f_oid ∙ keyed oid (terms o) held) ∙ held,
          f_buy,
          rw (f_buy, f_px) (resting_price_within_limit laws env o mid fills),
        )

    match_open_order-Fair :
        (oid : ℕ) (s : Store N) → SameTerms s0 s → Fair s0 s (match_open_order env oid s)
    unfolding match_open_order drop_open
    match_open_order-Fair oid s h = elim (Option-cases (s.orders oid)) [
      | inl e ↦ rw (e, match_open_order) (Fair-refl s0 s)
      | inr (o, e) ↦ elim (Bool-cases (is_open o.status)) [
        | inl is_live ↦ elim (Option-cases (mid_of o.coin env.mids)) [
          | inl m ↦ rw (e, match_open_order, is_live, m) (Fair-refl s0 s)
          | inr (mid, m) ↦ elim (Bool-cases (should_fill o mid)) [
            | inl fills ↦
                rw (e, match_open_order, is_live, m, fills)
                  (execute_fill-Fair env o _ false s0 s
                    (λ sz. resting-Honours oid o mid sz s h e fills))
            | inr rests ↦ rw (e, match_open_order, is_live, m, rests) (Fair-refl s0 s)
          ]
        ]
        | inr ended ↦ rw (e, match_open_order, ended) (λ j. refl, λ user. same)
      ]
    ]

    each-Fair :
        (oids : List ℕ) (s : Store N)
        → SameTerms s0 s
        → Fair s0 s (each (match_open_order env) oids s)
    unfolding each
    each-Fair [] s h = Fair-refl s0 s
    each-Fair (oid ∷ oids) s h =
        let first = match_open_order-Fair oid s h in
        let next = match_open_order env oid s in
        Fair-trans s0 s next (each (match_open_order env) oids next) first
          (each-Fair oids next (λ j. first.0 j ∙ h j))

    pass-Fair :
        (mids : List (String × N)) (oids : List ℕ)
        → Fair s0 s0 (pass mids (match_open_order env) oids s0)
    unfolding pass
    pass-Fair [] oids = Fair-refl s0 s0
    pass-Fair (_ ∷ _) oids = each-Fair oids s0 (λ j. refl)

    -- Where every order is stored under its own number: a tick over the resting orders only adds fills, and
    -- each is on the side of its order and at its limit price or a better one, as the store held them before
    -- the tick.
    pub resting_fills_are_fair :
        (user : String)
        → Grows (Honours s0) (s0.user_fills user) ((match_open_orders env s0).user_fills user)
    unfolding match_open_orders
    resting_fills_are_fair user = (pass-Fair env.mids s0.orders_open).1 user
