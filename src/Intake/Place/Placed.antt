-- ===== src/Intake/Place/Placed.antt =====
-- The ways in which placeSingleOrder of src/engine/order.ts may end for an order on a known asset.
use Prim.Native.String.{String}
use hy_paper.Prelude.{ℕ, suc, ◌≡◌, ◌≢◌, true, false, ◌⊎◌, Option, none, some}
use hy_paper.Prelude.Maps.{nat_keys, string_keys, pair_keys, contains}
use hy_paper.Decimal.{Decimal, num}
use hy_paper.Orders.{Order, limit, trigger, TimeInForce, gtc, ioc, alo, Grouping, is_open}
use hy_paper.Store.{SameHoldings}
use hy_paper.Matcher.{execute_fill}
use hy_paper.Ticks.{compute_fill_price}
use hy_paper.Intake.{
  IntakeEnv, IntakeState, TriggerWire, OrderWire, PlaceOpts, OrderError, OrderStatusReply, resting,
  filled_at, refused, stored_cloid,
}
use hy_paper.Intake.Saved.{hashed, Expires}
use hy_paper.Intake.Place.{has_margin, crosses_mid}

module _ {N : Type 0} ⦃d : Decimal N⦄ (ie : IntakeEnv N) (user coin : String) (wire : OrderWire N)
    (sz : N) (grouping : Grouping) (opts : PlaceOpts) where
  -- What the wire asks for: a limit order with its time in force, or a trigger order.
  abbrev pub IsKind : Option (TriggerWire N) → Order N → Type 0
  IsKind none o =
      (o.order_type ≡ limit)
      × (wire.tif ≡ some o.tif)
      × (o.trigger_px ≡ none)
      × (o.tpsl ≡ none)
      × (o.is_market ≡ false)
  IsKind (some t) o =
      (o.order_type ≡ trigger)
      × (o.tif ≡ gtc)
      × (o.trigger_px ≡ some t.trigger_px)
      × (o.tpsl ≡ some t.tpsl)
      × (o.is_market ≡ t.is_market)

  -- The hash of an order that was asked for.
  pub record IsOrderOf (o : Order N) (oid : ℕ) : Type 0 where
    pub number : o.oid ≡ oid
    pub owner : o.user_id ≡ user
    pub market : (o.asset ≡ wire.a) × (o.coin ≡ coin)
    pub side : o.is_buy ≡ wire.b
    pub size : (o.sz ≡ sz) × (o.filled_sz ≡ num 0)
    pub price : o.limit_px ≡ wire.p
    pub reduces : o.reduce_only ≡ wire.r
    pub kind : IsKind wire.trigger o
    pub name : o.cloid ≡ stored_cloid wire.c
    pub group : o.grouping ≡ grouping
    pub placed_at : o.created_at ≡ ie.env.now
    pub live : is_open o.status ≡ true

  -- What an order that fills at once passes on of the options: a GTC order neither builder nor TWAP.
  abbrev pub PassesOn : TimeInForce → Order N → Type 0
  PassesOn gtc o = (o.builder ≡ none) × (o.twap_id ≡ none)
  PassesOn ioc o = (o.builder ≡ opts.builder) × (o.twap_id ≡ opts.twap_id)
  PassesOn alo o = (o.builder ≡ opts.builder) × (o.twap_id ≡ none)

  -- A limit order rests, which is no IOC order: it does not cross the mid, has margin at its limit price,
  -- and is listed with its deadline.
  pub record RestsOpen (st after : IntakeState N) (oid : ℕ) : Type 0 where
    pub plain : wire.trigger ≡ none
    pub stays : wire.tif ≢ some ioc
    pub expires : Expires opts.expires_after oid after.store
    pub calm : crosses_mid ie coin wire ≡ none
    pub covered : has_margin ie user wire sz wire.p st.store ≡ true
    pub listed : contains oid after.store.orders_open ≡ true

  -- A trigger order rests.
  pub record RestsWatched (after : IntakeState N) (oid : ℕ) (t : TriggerWire N) : Type 0 where
    pub asked : wire.trigger ≡ some t
    pub listed : contains oid after.store.orders_triggers ≡ true

  -- A limit order is filled, which is no ALO order: at the mid it crosses and has margin, and the state is
  -- that in which an order with the terms that were asked for was saved, and then filled as a taker.
  pub record FillsNow (st after : IntakeState N) (oid : ℕ) (px : N) : Type 0 where
    pub plain : wire.trigger ≡ none
    pub takes : wire.tif ≢ some alo
    pub mid : N
    pub crosses : crosses_mid ie coin wire ≡ some mid
    pub covered : has_margin ie user wire sz mid st.store ≡ true
    pub order : Order N
    pub terms : IsOrderOf (hashed order) oid
    pub passed_on : PassesOn order.tif order
    pub saved : IntakeState N
    pub stored : saved.store.orders oid ≡ some (hashed order)
    pub unpaid : SameHoldings st.store saved.store
    pub price_now : px ≡ compute_fill_price ie.env order mid (some order.limit_px)
    pub filled_after : after.store ≡ execute_fill ie.env order px true saved.store

  -- What a placement may come to: a refusal that changes nothing, an order that rests under a new number
  -- with no balance or position changed, or an order that is filled at once.
  pub data Placed (st : IntakeState N) : OrderStatusReply N × IntakeState N → Type 0 where
    refusal : (e : OrderError) → Placed st (refused e, st)
    rests :
        {after : IntakeState N} {oid : ℕ} (o : Order N)
        → oid ≡ suc st.seq_oid
        → after.store.orders oid ≡ some o
        → IsOrderOf o oid
        → o.builder ≡ opts.builder
        → SameHoldings st.store after.store
        → RestsOpen st after oid ⊎ ((t : TriggerWire N) × RestsWatched after oid t)
        → Placed st (resting oid wire.c, after)
    fills :
        {after : IntakeState N} {oid : ℕ} {px : N}
        → oid ≡ suc st.seq_oid
        → FillsNow st after oid px
        → Placed st (filled_at sz px oid wire.c, after)
