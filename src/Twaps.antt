-- ===== src/Twaps.antt =====
-- The TWAP orders of src/engine/order.ts: createTwapOrder and cancelTwapOrder.
pub mod Pass
pub mod Sound
use Prim.Native.String.{String}
use text.Mathlib.Text.{◌==◌ as str_eq}
use Prim.Native.Nat.{max as max_ℕ}
use hy_paper.Prelude.{
  ℕ, suc, ◌+◌, ◌*◌, Bool, true, false, not, Option, none, some, List, ◌∷◌, if◌then◌else◌,
}
use hy_paper.Prelude.Maps.{nat_keys, string_keys, sadd, srem, update}
use hy_paper.Decimal.{Decimal, num, mul, div, lt, lte}
use hy_paper.Env.{mid_of}
use hy_paper.Intake.{IntakeEnv, IntakeState, resolve_asset_coin, get_asset_decimals}

pub data TwapStatus : Type 0 where
  running finished cancelled : TwapStatus

abbrev pub is_running : TwapStatus → Bool
is_running running = true
is_running _ = false

-- The hash of a TWAP. The size and the times are none where they are not numbers, and what a run writes
-- is none before the first slice.
pub record Twap (N : Type 0) : Type 0 where
  pub twap_id : ℕ
  pub user_id : String
  pub asset : ℕ
  pub coin : String
  pub is_buy : Bool
  pub reduce_only : Bool
  pub total_size : Option N
  pub filled_size : N
  pub start_time : Option ℕ
  pub end_time : Option ℕ
  pub minutes : ℕ
  pub randomize : Bool
  pub sz_decimals : Option ℕ
  pub status : TwapStatus
  pub last_submitted_at : Option ℕ
  pub next_slice_at : Option ℕ

-- A row of twapHistory as it is handed to the sink: of a TWAP that is activated, or has ended.
pub data RowState : Type 0 where
  activated : RowState
  ended : TwapStatus → ℕ → RowState

pub record TwapRow (N : Type 0) : Type 0 where
  pub twap_id : ℕ
  pub user_id : String
  pub asset : ℕ
  pub coin : String
  pub is_buy : Bool
  pub reduce_only : Bool
  pub total_size : Option N
  pub executed_size : N
  pub minutes : ℕ
  pub randomize : Bool
  pub state : RowState
  pub start_time : Option ℕ
  pub end_time : Option ℕ

pub data TwapEvent (N : Type 0) : Type 0 where
  twap_finished : String → ℕ → TwapEvent N
  twap_progress : String → ℕ → N → TwapEvent N

-- Besides the orders: TWAP, TWAPS_ACTIVE, USER_TWAPS without the scores, SEQ_TWAP, the rows for the sink and
-- the events, newest first.
pub record TwapState (N : Type 0) : Type 0 where
  pub intake : IntakeState N
  pub twaps : ℕ → Option (Twap N)
  pub twaps_active : List ℕ
  pub user_twaps : String → List ℕ
  pub seq_twap : ℕ
  pub history : List (TwapRow N)
  pub twap_events : List (TwapEvent N)

pub data TwapError : Type 0 where
  unknown_asset invalid_twap_size suborder_too_small twap_not_found twap_not_running : TwapError

pub data TwapReply : Type 0 where
  created : ℕ → TwapReply
  cancelled_ok : TwapReply
  refused : TwapError → TwapReply

module _ {N : Type 0} where
  pub set_twap : ℕ → Twap N → TwapState N → TwapState N
  unfolding update
  set_twap id t ts = record ts { twaps = update ts.twaps id (some t) }

  pub deactivate : ℕ → TwapState N → TwapState N
  unfolding srem
  deactivate id ts = record ts { twaps_active = srem id ts.twaps_active }

  pub row_of : ℕ → Twap N → N → RowState → TwapRow N
  row_of id t executed state = record {
    twap_id = id;
    user_id = t.user_id;
    asset = t.asset;
    coin = t.coin;
    is_buy = t.is_buy;
    reduce_only = t.reduce_only;
    total_size = t.total_size;
    executed_size = executed;
    minutes = t.minutes;
    randomize = t.randomize;
    state = state;
    start_time = t.start_time;
    end_time = t.end_time;
  }

  pub log_row : TwapRow N → TwapState N → TwapState N
  log_row row ts = record ts { history = row ∷ ts.history }

  -- `cancelTwapOrder`
  pub cancel_twap_order : ℕ → String → ℕ → TwapState N → TwapReply × TwapState N
  unfolding set_twap deactivate row_of log_row
  cancel_twap_order now user id ts = elim (ts.twaps id) [
    | none ↦ (refused twap_not_found, ts)
    | some t ↦
        if not (str_eq t.user_id user)
        then (refused twap_not_found, ts)
        else if not (is_running t.status)
        then (refused twap_not_running, ts)
        else (
          cancelled_ok,
          log_row (row_of id t t.filled_size (ended cancelled now))
              (deactivate id (set_twap id (record t { status = cancelled }) ts)),
        )
  ]

module _ {N : Type 0} ⦃d : Decimal N⦄ where
  -- A slice of an even split would be worth less than 10 at the mid.
  too_small : N → ℕ → Option N → Bool
  too_small total minutes none = false
  too_small total minutes (some mid) =
      lt (mul (div total (num (max_ℕ 1 (minutes * 2)))) mid) (num 10)

  pub new_twap : ℕ → String → ℕ → String → Bool → N → Bool → ℕ → Bool → ℕ → ℕ → Twap N
  new_twap id user asset coin is_buy total reduce_only minutes randomize sz_decimals now = record {
    twap_id = id;
    user_id = user;
    asset = asset;
    coin = coin;
    is_buy = is_buy;
    reduce_only = reduce_only;
    total_size = some total;
    filled_size = num 0;
    start_time = some now;
    end_time = some (now + minutes * 60_000);
    minutes = minutes;
    randomize = randomize;
    sz_decimals = some sz_decimals;
    status = running;
    last_submitted_at = none;
    next_slice_at = none;
  }

  -- A TWAP under the next number.
  pub start_twap : ℕ → Twap N → TwapState N → TwapState N
  unfolding set_twap sadd update row_of log_row
  start_twap id t ts =
      let numbered : TwapState N = record ts {
        seq_twap = id;
        twaps_active = sadd id ts.twaps_active;
        user_twaps = update ts.user_twaps t.user_id (sadd id (ts.user_twaps t.user_id));
      } in
      log_row (row_of id t (num 0) activated) (set_twap id t numbered)

  -- `createTwapOrder`
  pub create_twap_order :
      IntakeEnv N
      → String
      → ℕ
      → Bool
      → Option N
      → Bool
      → ℕ
      → Bool
      → TwapState N
      → TwapReply × TwapState N
  unfolding too_small new_twap start_twap
  create_twap_order ie user asset is_buy total_sz reduce_only minutes randomize ts =
      elim (resolve_asset_coin ie asset) [
        | none ↦ (refused unknown_asset, ts)
        | some coin ↦ elim total_sz [
          | none ↦ (refused invalid_twap_size, ts)
          | some total ↦
              if lte total (num 0)
              then (refused invalid_twap_size, ts)
              else if too_small total minutes (mid_of coin ie.env.mids)
              then (refused suborder_too_small, ts)
              else let id = suc ts.seq_twap in
                let k = get_asset_decimals ie asset in
                (
                  created id,
                  start_twap id
                      (new_twap id user asset coin is_buy total reduce_only minutes randomize k
                        ie.env.now)
                      ts,
                )
        ]
      ]
