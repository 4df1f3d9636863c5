-- ===== src/Samples.antt =====
-- The test data of the examples, in whole numbers: an environment, an order and a store.
use hy_paper.Prelude.{ℕ, Bool, true, false, none, some, [], ◌∷◌, ◌==◌, if◌then◌else◌}
use hy_paper.Prelude.Int.{ℤ, pos}
use hy_paper.Prelude.Maps.{nat_keys, string_keys, pair_keys}
use hy_paper.Decimal.Integers.{integers}
use hy_paper.Trailing.Hash.{TrailingFields}
use hy_paper.Fill.{Fees}
use hy_paper.AssetMeta.{Market}
use hy_paper.Orders.{Order, limit, gtc, na, open_order, Position}
use hy_paper.Store.{Store}
use hy_paper.Env.{Env}
use hy_paper.Slippage.{Level}

abbrev pub level : ℕ → ℕ → Level ℤ
level px sz = record { px = pos px; sz = pos sz }

abbrev pub sample_market : Market
sample_market = record {
  meta = none;
  perp_dexs = none;
  meta_dex = λ dex. none;
  user_lev = λ k. record { leverage = some 10; is_cross = none };
}

abbrev pub sample_fees : Fees ℤ
sample_fees = record { fees_enabled = true; fee_rate_taker = pos 2; fee_rate_maker = pos 1 }

-- BTC has a mid of 110 and a book, and no fresh mark.
abbrev pub sample_env : Env ℤ
sample_env = record {
  now = 1_000;
  fees = sample_fees;
  market = sample_market;
  mids = ("BTC", pos 110) ∷ [];
  ctx = λ coin. record { mark_px = none; mark_ts = none };
  book = λ coin.
      some
        (record { bids = level 109 3 ∷ level 108 10 ∷ []; asks = level 111 3 ∷ level 112 10 ∷ [] });
}

abbrev pub sample_trailing : TrailingFields ℤ
sample_trailing = record {
  tr_kind = "px";
  tr_value = pos 5;
  tr_act_px = none;
  tr_activated = "true";
  tr_best = some (pos 100);
  tr_sz_dec = 2;
}

-- A resting limit order of Ann, number 7.
abbrev pub sample_order : Bool → ℕ → ℕ → Order ℤ
sample_order is_buy sz limit_px = record {
  oid = 7;
  cloid = none;
  user_id = "ann";
  asset = 0;
  coin = "BTC";
  is_buy = is_buy;
  sz = pos sz;
  limit_px = pos limit_px;
  order_type = limit;
  tif = gtc;
  reduce_only = false;
  trigger_px = none;
  tpsl = none;
  is_market = false;
  grouping = na;
  status = open_order;
  filled_sz = pos 0;
  avg_px = pos 0;
  created_at = 10;
  updated_at = 10;
  builder = none;
  twap_id = none;
  trailing = sample_trailing;
  tr_snap = none;
}

abbrev pub sample_position : ℤ → ℤ → Position ℤ
sample_position szi entry_px = record {
  coin = "BTC";
  szi = szi;
  entry_px = entry_px;
  cum_funding = pos 0;
  cum_funding_since_open = pos 0;
  cum_funding_since_change = pos 0;
  margin_alloc = none;
  raw_usd = none;
}

-- Ann holds a position in asset 0 and 1000 of money; one order rests.
abbrev pub sample_store : Position ℤ → Order ℤ → Store ℤ
sample_store p o = record {
  positions = λ k. if pair_keys.beq ("ann", 0) k then some p else none;
  balances = λ k. if pair_keys.beq ("ann", "") k then some (pos 1_000) else none;
  position_assets = λ k. if pair_keys.beq ("ann", "") k then 0 ∷ [] else [];
  position_holders = ("ann", "") ∷ [];
  users_active = "ann" ∷ [];
  orders = λ oid. if oid == o.oid then some o else none;
  orders_open = o.oid ∷ [];
  orders_triggers = [];
  orders_trailing = [];
  orders_expiry = [];
  expiry_at = λ oid. 0;
  order_children = λ oid. [];
  order_bracket = λ oid. [];
  order_parent = λ oid. none;
  user_fills = λ user. [];
  seq_tid = 0;
  events = [];
}
