-- ===== src/Twaps/Pass.antt =====
-- src/worker/order-matcher.ts, matchTwaps: a tick over the active TWAPs.
pub mod Steps
pub mod Actions
pub mod Ticks
pub mod Runs
pub mod Pace
pub mod Unfilled
pub mod Indexed
mod Examples
use Prim.Native.String.{String}
use hy_paper.Prelude.{
  ℕ, ◌+◌, ◌-◌, Bool, true, false, not, Option, none, some, List, [], ◌∷◌, if◌then◌else◌, ltb, ◌||◌,
}
use hy_paper.Prelude.Maps.{nat_keys}
use hy_paper.Decimal.{Decimal, num, add, sub, mul, div, lte, gte, lt, abs, min, max}
use hy_paper.Orders.{ioc, na}
use hy_paper.Store.{Store}
use hy_paper.Env.{mid_of}
use hy_paper.Intake.{IntakeEnv, IntakeState, OrderWire, PlaceOpts, OrderStatusReply, filled_at}
use hy_paper.Intake.Links.{place_orders}
use hy_paper.Twaps.{
  Twap, TwapStatus, running, finished, cancelled, is_running, TwapState, TwapRow, ended,
  twap_finished, twap_progress, set_twap, deactivate, row_of, log_row,
}

abbrev pub twap_slice_interval_ms : ℕ
twap_slice_interval_ms = 30_000

-- `jitter` is what `Math.round(30000 * Math.random())` gives for the slice of a TWAP, and
-- `to_precision` the number that `px.toPrecision(5)` prints.
pub record TwapEnv (N : Type 0) : Type 0 where
  pub intake : IntakeEnv N
  pub jitter : ℕ → ℕ
  pub to_precision : N → N

-- What a tick does with a TWAP. `skip` waits for the next tick.
pub data Action (N : Type 0) : Type 0 where
  drop drop_malformed finish skip : Action N
  submit : OrderWire N → Action N

module _ {N : Type 0} where
  -- Whether the next slice is not due.
  pub too_soon : ℕ → Twap N → Bool
  too_soon now t = elim t.next_slice_at [
    | some at ↦ ltb now at
    | none ↦ elim t.last_submitted_at [
      | some last ↦ ltb (now - last) twap_slice_interval_ms
      | none ↦ false
    ]
  ]

  pub next_at : TwapEnv N → ℕ → Twap N → ℕ
  next_at te id t =
      te.intake.env.now + (if t.randomize then 15_000 + te.jitter id else twap_slice_interval_ms)

  pub scheduled : TwapEnv N → ℕ → Twap N → Twap N
  unfolding next_at
  scheduled te id t = record t {
    last_submitted_at = some te.intake.env.now;
    next_slice_at = some (next_at te id t);
  }

  -- A TWAP that ends by itself.
  pub finish_twap : ℕ → ℕ → Twap N → TwapState N → TwapState N
  unfolding set_twap deactivate row_of log_row
  finish_twap now id t ts =
      let done =
        deactivate id
          (set_twap id (record t { status = finished; last_submitted_at = some now }) ts) in
      log_row (row_of id t t.filled_size (ended finished now))
        (record done { twap_events = twap_finished t.user_id id ∷ done.twap_events })

  -- A TWAP that another request has ended.
  pub drop_twap : ℕ → ℕ → Twap N → TwapState N → TwapState N
  unfolding deactivate row_of log_row
  drop_twap now id t ts =
      let dropped = deactivate id ts in
      elim t.status [
        | cancelled ↦ log_row (row_of id t t.filled_size (ended cancelled now)) dropped
        | running ↦ dropped
        | finished ↦ dropped
      ]

module _ {N : Type 0} ⦃d : Decimal N⦄ where
  -- `fmtPx5`
  pub fmt_px5 : TwapEnv N → N → N
  fmt_px5 te px =
      let p = te.to_precision px in if lt (abs p) (d.literal 1 6) then d.places_half_up p 8 else p

  pub decimals_of : Twap N → ℕ
  decimals_of t = elim t.sz_decimals [ none ↦ 8 | some k ↦ k ]

  -- A round half up to a whole number, as `Math.round`.
  pub round_whole : N → N
  round_whole a = d.floor (add a (d.literal 5 1))

  pub base_slice_size : N → ℕ → ℕ → N
  unfolding round_whole
  base_slice_size total start end_ =
      let slices = round_whole (div (sub (num end_) (num start)) (num twap_slice_interval_ms)) in
      div total (max (num 1) slices)

  -- How far the TWAP is behind its schedule.
  pub gap_size : N → N → ℕ → ℕ → ℕ → N
  gap_size total filled start end_ now =
      let target = mul total (div (sub (num now) (num start)) (sub (num end_) (num start))) in
      max (num 0) (sub target filled)

  pub remaining_size : N → N → N
  remaining_size total filled = max (num 0) (sub total filled)

  -- The size of a slice before it is cut to the decimals of the asset.
  pub raw_slice : N → N → ℕ → ℕ → ℕ → N
  unfolding base_slice_size gap_size remaining_size
  raw_slice total filled start end_ now =
      let base = base_slice_size total start end_ in
      min (min (max (gap_size total filled start end_ now) base) (mul base (num 3)))
        (remaining_size total filled)

  pub cut_slice : N → ℕ → N
  cut_slice slice k =
      let step = d.literal 1 k in
      mul (d.floor (div (add slice (mul step (d.literal 1 6))) step)) step

  pub slice_wire : TwapEnv N → Twap N → N → N → OrderWire N
  unfolding fmt_px5 decimals_of
  slice_wire te t mid slice = record {
    a = t.asset;
    b = t.is_buy;
    p =
        fmt_px5 te
          (mul mid (if t.is_buy then add (num 1) (d.literal 3 2) else sub (num 1) (d.literal 3 2)));
    s = some (d.places_half_up slice (decimals_of t));
    r = t.reduce_only;
    tif = some ioc;
    trigger = none;
    c = none;
  }

  -- Without a mid nothing is submitted.
  pub slice_action : TwapEnv N → Twap N → N → Option N → Action N
  unfolding slice_wire
  slice_action te t slice none = skip
  slice_action te t slice (some mid) = submit (slice_wire te t mid slice)

  -- A slice that is due: what is left may be too little, or the mid may not be known.
  pub due_action : TwapEnv N → Twap N → N → ℕ → ℕ → Action N
  unfolding raw_slice remaining_size cut_slice decimals_of slice_action
  due_action te t total start end_ =
      let k = decimals_of t in
      let slice = cut_slice (raw_slice total t.filled_size start end_ te.intake.env.now) k in
      if lt (remaining_size total t.filled_size) (d.literal 1 k)
      then finish
      else if lte slice (num 0)
      then skip
      else slice_action te t slice (mid_of t.coin te.intake.env.mids)

  pub sized_action : TwapEnv N → Twap N → N → ℕ → ℕ → Action N
  unfolding too_soon due_action
  sized_action te t total start end_ =
      if not (ltb te.intake.env.now end_) || gte t.filled_size total
      then finish
      else if too_soon te.intake.env.now t
      then skip
      else due_action te t total start end_

  -- What the body of the loop decides.
  pub twap_action : TwapEnv N → Twap N → Action N
  unfolding sized_action
  twap_action te t = if not (is_running t.status) then drop else elim t.total_size [
    | none ↦ drop_malformed
    | some total ↦ elim t.start_time [
      | none ↦ drop_malformed
      | some start ↦ elim t.end_time [
        | none ↦ drop_malformed
        | some end_ ↦ sized_action te t total start end_
      ]
    ]
  ]

  -- What a slice came to: only a fill is counted.
  pub settle_slice : TwapEnv N → ℕ → Twap N → List (OrderStatusReply N) → TwapState N → TwapState N
  unfolding set_twap scheduled
  settle_slice te id t (filled_at total_sz avg_px oid cloid ∷ replies) ts =
      let filled = d.places_half_up (add t.filled_size total_sz) 9 in
      let kept = set_twap id (scheduled te id (record t { filled_size = filled })) ts in
      record kept { twap_events = twap_progress t.user_id id filled ∷ kept.twap_events }
  settle_slice te id t _ ts = set_twap id (scheduled te id t) ts

  pub submit_slice : TwapEnv N → ℕ → Twap N → OrderWire N → TwapState N → TwapState N
  unfolding settle_slice
  submit_slice te id t wire ts =
      let placed =
        place_orders te.intake t.user_id (wire ∷ []) na
          (record { expires_after = none; builder = none; twap_id = some id }) ts.intake in
      settle_slice te id t placed.0 (record ts { intake = placed.1 })

  pub carry_out : TwapEnv N → ℕ → Twap N → Action N → TwapState N → TwapState N
  unfolding drop_twap finish_twap submit_slice set_twap deactivate
  carry_out te id t drop ts = drop_twap te.intake.env.now id t ts
  carry_out te id t drop_malformed ts =
      deactivate id (set_twap id (record t { status = finished }) ts)
  carry_out te id t finish ts = finish_twap te.intake.env.now id t ts
  carry_out te id t skip ts = ts
  carry_out te id t (submit wire) ts = submit_slice te id t wire ts

  -- The body of the loop of `matchTwaps`.
  pub match_twap : TwapEnv N → ℕ → TwapState N → TwapState N
  unfolding twap_action carry_out deactivate
  match_twap te id ts = elim (ts.twaps id) [
    | none ↦ deactivate id ts
    | some t ↦ carry_out te id t (twap_action te t) ts
  ]

  pub match_each_twap : TwapEnv N → List ℕ → TwapState N → TwapState N
  unfolding match_twap
  match_each_twap te [] ts = ts
  match_each_twap te (id ∷ ids) ts = match_each_twap te ids (match_twap te id ts)

  pub match_twaps : TwapEnv N → TwapState N → TwapState N
  unfolding match_each_twap
  match_twaps te ts = match_each_twap te ts.twaps_active ts
