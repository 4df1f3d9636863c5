-- ===== src/Lib.antt =====
-- HyPaper is a paper-trading copy of a perpetuals exchange. An order that rests is matched on every price
-- tick by src/worker/order-matcher.ts; a fill changes a position, a balance, the order and the orders that
-- are linked to it, in Redis; a worker liquidates accounts by src/engine/liquidation.ts. This library
-- models these parts and proves what they keep.
--
-- The parts, and where they are modelled:
--   Decimal       src/utils/math.ts. decimal.js is a parameter: an instance of `Decimal N`. Theorems name
--                 what they need of it: `IsOrdered`, which its rounding respects, and `IsExact`, for
--                 results that need no more than the 30 digits which the file sets, so are not rounded.
--                 Decimal.Integers shows that both can hold; Decimal.Ring proves ring identities.
--   Trailing      src/engine/trailing-math.ts, the trailing stop as a state machine over mark prices; its fields
--                 in the order hash (Hash), and the shape of the action that asks for one (Wire).
--   Slippage      src/utils/slippage.ts, the average price of walking an order book.
--   AssetMeta     src/engine/assetMeta.ts, asset ids, dex scopes and leverage settings.
--   MarkFeed      src/worker/mark-feed.ts, the mark and its freshness.
--   Orders, Store, Env
--                 src/types/order.ts, src/types/position.ts and the keys of src/store/keys.ts: the state
--                 that is passed through, with the events on the bus, and what a tick only reads.
--   Fill, NextPosition, Matcher
--                 executeFill and executeFillWithSize: the arithmetic, the position that a fill leaves,
--                 and all writes in their order. Matcher calls Orphans and Bracket as the code does.
--   Orphans       src/engine/trailing-state.ts, ending trailing stops and reconcileReduceOnlyStops.
--   Bracket       cancelOrderSiblings.
--   Ticks         matchOpenOrders and matchTriggerOrders, with computeFillPrice.
--   TrailingTicks matchTrailingStops and fireTrailingStop: Trailing runs on the stored stops, and a stop
--                 that fires is capped by the margin.
--   MarginTiers   src/engine/marginTiers.ts.
--   Liquidation   src/engine/liquidation.ts and queueVaultCredit of src/engine/liquidator-vault.ts:
--                 assessment (Liquidation), the closes and the transaction (Closing), the pass over
--                 an account (Scan) and over all (Holders), what a backstop leaves (Outcome).
--   Margin        src/engine/margin.ts, account value, free margin, the liquidation price. The loop that picks
--                 the tier again runs on the fuel of 8 rounds that the source gives it.
--   UserLock      src/utils/userLock.ts, withUserLock as a step relation over calls that interleave.
--   Transfers     src/engine/transfers.ts. JS numbers are modelled as decimals, so toFixed(6) rounds to six
--                 places; parseFloat is an argument, which gives none for what is not finite.
--   Intake        src/engine/order.ts: the placement of one order (Place), of a batch with the links of its
--                 bracket (Links), cancellation with its cascade over the links (Cancel), modification
--                 (Modify), the settings of leverage, isolated margin and scheduled cancel, with what HL
--                 answers to fetchMaxLeverage as an argument (Settings). The cascade is on fuel, one for
--                 each step down the links; more fuel than there are open orders is enough.
--   Twaps         createTwapOrder and cancelTwapOrder of src/engine/order.ts; Twaps.Pass has matchTwaps, the
--                 tick's pass over the running ones. The random jitter and toPrecision are arguments, and
--                 each slice is placed by placeOrders as Intake.Links has it. JS numbers are
--                 decimals, as in Transfers.
--   Expiry        sweepExpired, which ends the orders whose deadline has passed.
--   Tick          matchAll: the five passes of a tick in their order. A pass that throws ends the tick.
--   StopPlacement src/engine/trailingStop.ts and the checks of src/engine/trailing-math.ts on an action: the
--                 placement of a trailing stop, with the mark that refreshMarks leaves as an argument.
--   Staking       src/engine/staking.ts. Staking.Zset has the sorted sets of Redis, as the lists that ZRANGE
--                 returns.
--   SubAccounts   src/engine/subaccount.ts and ensureAccount of src/api/middleware/auth.ts, on the wallets of
--                 Transfers; SubAccounts.Address derives the addresses.
--   Samples       the test data; the modules named Examples apply the theorems to it.
--
-- Conventions. A numeric string of the source is the decimal that it denotes; an empty string or a missing
-- hash field is `none`. Redis maps are functions of their keys and sets are lists, whose order is
-- that of a scan. `await` is left out: a fill runs under the lock of its user, and the clock stands still
-- within one. A throw is `none`, and the pass over the trailing stops says whether it ran to its end.
-- Loops are structural recursion on the lists that they read, so no fuel is needed but where said. `+=` by
-- HINCRBYFLOAT is the addition of decimals; Redis adds with its own floats there.
--
-- Not modelled: src/engine/agents.ts, src/engine/account.ts and src/engine/position.ts; the funding payments
-- of src/worker/funding-worker.ts; the bus messages and Postgres rows of a liquidation. These are left for an extension. The HTTP, WebSocket
-- and EVM servers move data to and from this core, and are left out with the scripts.
pub mod Prelude
pub mod Decimal
pub mod Trailing
pub mod Slippage
pub mod Fill
pub mod AssetMeta
pub mod MarkFeed
pub mod Orders
pub mod Store
pub mod Orphans
pub mod Bracket
pub mod Env
pub mod NextPosition
pub mod Matcher
pub mod Ticks
pub mod MarginTiers
pub mod Liquidation
pub mod Margin
pub mod TrailingTicks
pub mod Expiry
pub mod UserLock
pub mod Transfers
pub mod Intake
pub mod Twaps
pub mod Tick
pub mod StopPlacement
pub mod Staking
pub mod SubAccounts
pub mod Samples
