-- ===== src/Store.antt =====
-- The part of the Redis state (src/store/keys.ts) that orders, fills and positions live in, with the
-- events that the engine puts on its bus. A read of what was last written returns it.
use Prim.Native.String.{String}
use hy_paper.Prelude.{ℕ, ◌≡◌, Bool, Option, none, some, List, ◌∷◌}
use hy_paper.Prelude.Maps.{nat_keys, string_keys, pair_keys, update}
use hy_paper.Decimal.{Decimal, num, add}
use hy_paper.Orders.{Order, OrderStatus, PaperFill, Position, TrailingBody}

pub data Event (N : Type 0) : Type 0 where
  order_update : String → Order N → OrderStatus → Event N
  order_update_batch : String → List (Order N × OrderStatus) → Event N
  fill_event : String → PaperFill N → Event N
  trailing_history : String → ℕ → OrderStatus → ℕ → TrailingBody N → Event N
  account_update : String → Event N
  mark_sub : String → Event N

pub record Store (N : Type 0) : Type 0 where
  -- USER_POS, by user and asset
  pub positions : String × ℕ → Option (Position N)
  -- USER_ACCOUNT, the field USER_BAL_FIELD of a scope
  pub balances : String × String → Option N
  -- USER_POSITIONS_SCOPED, by user and scope
  pub position_assets : String × String → List ℕ
  pub position_holders : List (String × String)
  pub users_active : List String
  pub orders : ℕ → Option (Order N)
  pub orders_open : List ℕ
  pub orders_triggers : List ℕ
  pub orders_trailing : List ℕ
  -- ORDERS_EXPIRY, its members and their scores
  pub orders_expiry : List ℕ
  pub expiry_at : ℕ → ℕ
  pub order_children : ℕ → List ℕ
  pub order_bracket : ℕ → List ℕ
  pub order_parent : ℕ → Option ℕ
  pub user_fills : String → List (PaperFill N)
  pub seq_tid : ℕ
  -- newest first
  pub events : List (Event N)

-- What the engine keeps of positions, money and fills.
pub record Holdings (N : Type 0) : Type 0 where
  pub positions : String × ℕ → Option (Position N)
  pub balances : String × String → Option N
  pub position_assets : String × String → List ℕ
  pub user_fills : String → List (PaperFill N)

-- What no write of the engine changes of an order.
pub record Terms (N : Type 0) : Type 0 where
  pub oid : ℕ
  pub user_id : String
  pub is_buy : Bool
  pub limit_px : N

module _ {N : Type 0} where
  abbrev pub terms : Order N → Terms N
  terms o = record { oid = o.oid; user_id = o.user_id; is_buy = o.is_buy; limit_px = o.limit_px }

  abbrev pub terms_of : Option (Order N) → Option (Terms N)
  terms_of none = none
  terms_of (some o) = some (terms o)

  abbrev pub SameTerms : Store N → Store N → Type 0
  SameTerms s t = (oid : ℕ) → terms_of (t.orders oid) ≡ terms_of (s.orders oid)

  abbrev pub holdings : Store N → Holdings N
  holdings s = record {
    positions = s.positions;
    balances = s.balances;
    position_assets = s.position_assets;
    user_fills = s.user_fills;
  }

  abbrev pub SameHoldings : Store N → Store N → Type 0
  SameHoldings s t = holdings t ≡ holdings s

  unfoldable pub emit : Event N → Store N → Store N
  emit e s = record s { events = e ∷ s.events }

  -- HSET of some fields of an order's hash. Without the order the hash has no `oid`, and every reader
  -- takes it for missing.
  unfoldable pub set_order : ℕ → (Order N → Order N) → Store N → Store N
  set_order oid change s = record s {
    orders = update s.orders oid (elim (s.orders oid) [ none ↦ none | some o ↦ some (change o) ]);
  }

module _ {N : Type 0} ⦃d : Decimal N⦄ where
  unfoldable pub balance_of : Store N → String × String → N
  balance_of s account = elim (s.balances account) [ none ↦ num 0 | some b ↦ b ]

  -- HINCRBYFLOAT
  unfoldable pub credit : String × String → N → Store N → Store N
  unfolding balance_of
  credit account amount s = record s {
    balances = update s.balances account (some (add (balance_of s account) amount));
  }
