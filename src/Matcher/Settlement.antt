-- ===== src/Matcher/Settlement.antt =====
-- How a fill of src/worker/order-matcher.ts settles: the position, the balance, the sets of positions.
use Prim.Native.String.{String}
use hy_paper.Prelude.{
  ℕ, suc, ◌≡◌, refl, sym, ap, ◌∙◌, Bool, true, false, not, Option, none, some, List, arith,
  if◌then◌else◌, ◌==◌, Bool-cases, inl, inr,
}
use hy_paper.Prelude.Maps.{
  nat_keys, string_keys, pair_keys, update, srem, sadd, contains, contains-srem, contains-sadd,
}
use hy_paper.Decimal.{Decimal, is_zero}
use hy_paper.Fill.{new_szi}
use hy_paper.AssetMeta.{Market, get_leverage_setting, scope_for_asset}
use hy_paper.Orders.{Order, Position}
use hy_paper.Store.{credit, Store}
use hy_paper.Env.{Env}
use hy_paper.NextPosition.{current_szi, next_position, alloc_px}
use hy_paper.Matcher.{write_position, fill_pnl, fee_of, write_fill, execute_fill_with_size}
use hy_paper.Matcher.Frame.{write_balance-keeps}
use hy_paper.Matcher.Holdings.{execute_fill_with_size-holdings}

module _ {N : Type 0} ⦃d : Decimal N⦄ where
  abbrev pub is_some : Option (Position N) → Bool
  is_some none = false
  is_some (some p) = true

  -- The set of a user's positions in each scope lists the positions that are there, and no position
  -- has size zero.
  abbrev pub IsIndexed : Market → Store N → Type 0
  IsIndexed market s =
      (user : String) (asset : ℕ)
      → (contains asset (s.position_assets (user, scope_for_asset market asset))
          ≡ is_some (s.positions (user, asset)))
        × ((p : Position N) → s.positions (user, asset) ≡ some p → is_zero p.szi ≡ false)

  module _ (env : Env N) (o : Order N) (fill_sz fill_px : N) where
    abbrev pub size_after : Store N → N
    size_after s = new_szi o.is_buy fill_sz (current_szi (s.positions (o.user_id, o.asset)))

    abbrev pub position_after : Store N → Option (Position N)
    position_after s =
        if is_zero (size_after s)
        then none
        else some (
            next_position (get_leverage_setting env.market o.user_id o.asset) o fill_sz fill_px
              (alloc_px env o fill_px) (s.positions (o.user_id, o.asset)))

    abbrev listed : Bool → List ℕ → List ℕ
    listed closed assets = if closed then srem o.asset assets else sadd o.asset assets

    write_position-positions :
        (s : Store N) (user : String) (asset : ℕ)
        → (write_position env o fill_sz fill_px s).positions (user, asset) ≡ (
            if pair_keys.beq (o.user_id, o.asset) (user, asset)
            then position_after s
            else s.positions (user, asset))
    unfolding write_position update
    write_position-positions s user asset = elim (Bool-cases (is_zero (size_after s))) [
      | inl z ↦ rw (z, write_position)
      | inr z ↦ rw (z, write_position)
    ]

    write_position-position_assets :
        (s : Store N) (k : String × String)
        → (write_position env o fill_sz fill_px s).position_assets k ≡ (
            if pair_keys.beq (o.user_id, scope_for_asset env.market o.asset) k
            then listed
                (is_zero (size_after s))
                (s.position_assets (o.user_id, scope_for_asset env.market o.asset))
            else s.position_assets k)
    unfolding write_position update
    write_position-position_assets s k = elim (Bool-cases (is_zero (size_after s))) [
      | inl z ↦ rw (z, write_position)
      | inr z ↦ rw (z, write_position)
    ]

    contains-listed :
        (closed : Bool) (asset : ℕ) (assets : List ℕ)
        → contains asset (listed closed assets)
          ≡ (if o.asset == asset then not closed else contains asset assets)
    contains-listed true asset assets = contains-srem o.asset asset assets
    contains-listed false asset assets = contains-sadd o.asset asset assets

    clash : {b : Bool} → b ≡ true → b ≡ false → ⊥
    clash h k = ground arith

    different :
        (user : String) (asset : ℕ)
        → let scope = scope_for_asset env.market in
          pair_keys.beq (o.user_id, scope o.asset) (user, scope asset) ≡ false
          → pair_keys.beq (o.user_id, o.asset) (user, asset) ≡ false
    different user asset h =
        let scope = scope_for_asset env.market in
        elim (Bool-cases (pair_keys.beq (o.user_id, o.asset) (user, asset))) [
          | inl e ↦
              let p : (o.user_id, o.asset) ≡ (user, asset) =
                (pair_keys.beq_iff (o.user_id, o.asset) (user, asset)).0 e in
              let same : (o.user_id, scope o.asset) ≡ (user, scope asset) =
                ap (λ k. (k.0, scope k.1)) p in
              absurd (clash ((pair_keys.beq_iff _ _).1 same) h)
          | inr e ↦ e
        ]

    -- The set at the scope of an asset, whichever scope the order is in.
    contains-write :
        (closed : Bool) (user : String) (asset : ℕ) (sets : String × String → List ℕ)
        → let scope = scope_for_asset env.market in
          contains asset (
            if pair_keys.beq (o.user_id, scope o.asset) (user, scope asset)
            then listed closed (sets (o.user_id, scope o.asset))
            else sets (user, scope asset))
          ≡ (if pair_keys.beq (o.user_id, o.asset) (user, asset)
              then not closed
              else contains asset (sets (user, scope asset)))
    contains-write closed user asset sets =
        let scope = scope_for_asset env.market in
        elim (Bool-cases (pair_keys.beq (o.user_id, scope o.asset) (user, scope asset))) [
          | inl h ↦
              let p = (pair_keys.beq_iff (o.user_id, scope o.asset) (user, scope asset)).0 h in
              rw h (rw p (contains-listed closed asset (sets (user, scope asset)) ∙ ground arith))
          | inr h ↦
              let apart : pair_keys.beq (o.user_id, o.asset) (user, asset) ≡ false =
                different user asset h in
              rw (h, apart)
        ]

  module _ (env : Env N) (o : Order N) (fill_px fill_sz : N) (is_taker : Bool) where
    abbrev account : String × String
    account = (o.user_id, scope_for_asset env.market o.asset)

    abbrev pub numbered : Store N → Store N
    numbered s = record s { seq_tid = suc s.seq_tid }

    -- Before the payment.
    abbrev pub active : Store N → Store N
    active s =
        let positioned = write_position env o fill_sz fill_px (numbered s) in
        record positioned { users_active = sadd o.user_id positioned.users_active }

    pub execute-positions :
        (s : Store N) (user : String) (asset : ℕ)
        → (execute_fill_with_size env o fill_px fill_sz is_taker s).positions (user, asset) ≡ (
            if pair_keys.beq (o.user_id, o.asset) (user, asset)
            then position_after env o fill_sz fill_px s
            else s.positions (user, asset))
    unfolding write_fill credit
    execute-positions s user asset =
        ap (λ h. h.positions (user, asset))
          (execute_fill_with_size-holdings env o fill_px fill_sz is_taker s)
        ∙ write_balance-keeps (λ s'. s'.positions (user, asset)) account
            (fill_pnl o fill_px fill_sz s) (fee_of env o fill_px fill_sz is_taker) (λ a s'. refl)
            (active s)
        ∙ write_position-positions env o fill_sz fill_px (numbered s) user asset

    execute-contains :
        (s : Store N) (user : String) (asset : ℕ)
        → let scope = scope_for_asset env.market asset in
          let t = execute_fill_with_size env o fill_px fill_sz is_taker s in
          contains asset (t.position_assets (user, scope)) ≡ (
            if pair_keys.beq (o.user_id, o.asset) (user, asset)
            then not (is_zero (size_after env o fill_sz fill_px s))
            else contains asset (s.position_assets (user, scope)))
    unfolding write_fill credit
    execute-contains s user asset =
        let scope = scope_for_asset env.market asset in
        ap (λ h. contains asset (h.position_assets (user, scope)))
          (execute_fill_with_size-holdings env o fill_px fill_sz is_taker s)
        ∙ write_balance-keeps (λ s'. contains asset (s'.position_assets (user, scope))) account
            (fill_pnl o fill_px fill_sz s) (fee_of env o fill_px fill_sz is_taker) (λ a s'. refl)
            (active s)
        ∙ ap (contains asset)
            (write_position-position_assets env o fill_sz fill_px (numbered s) (user, scope))
        ∙ contains-write env o fill_sz fill_px (is_zero (size_after env o fill_sz fill_px s)) user
            asset s.position_assets

    position_after-IsIndexed :
        (s : Store N)
        → (not (is_zero (size_after env o fill_sz fill_px s))
            ≡ is_some (position_after env o fill_sz fill_px s))
          × ((p : Position N)
              → position_after env o fill_sz fill_px s ≡ some p
              → is_zero p.szi ≡ false)
    unfolding next_position current_szi
    position_after-IsIndexed s = elim (Bool-cases (is_zero (size_after env o fill_sz fill_px s))) [
      | inl z ↦ rw z (refl, λ p e. cc)
      | inr z ↦ rw z (refl, λ p e. ap (λ x. is_zero (current_szi x)) (sym e) ∙ z)
    ]

    -- A fill keeps the sets of positions in step with the positions, whatever it opens, closes or flips.
    pub execute_fill_with_size-IsIndexed :
        (s : Store N)
        → IsIndexed env.market s
        → IsIndexed env.market (execute_fill_with_size env o fill_px fill_sz is_taker s)
    execute_fill_with_size-IsIndexed s h user asset =
        let is_own = pair_keys.beq (o.user_id, o.asset) (user, asset) in
        rw (execute-positions s user asset, execute-contains s user asset)
          (elim (Bool-cases is_own) [
            | inl e ↦ rw e (position_after-IsIndexed s)
            | inr e ↦ rw e (h user asset)
          ])
