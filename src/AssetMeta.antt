-- ===== src/AssetMeta.antt =====
-- src/engine/assetMeta.ts: what an asset id says, and the leverage of a user on it.
pub mod Leverage
use Prim.Native.String.{String}
use Prim.Native.Nat.{min as min_ℕ}
use text.Mathlib.Text.{◌==◌ as str_eq}
use hy_paper.Prelude.{
  ℕ, ◌-◌, ◌/◌, ◌%◌, Bool, true, false, ◌&&◌, Option, none, some, ◌>>=◌, List, [], ◌∷◌,
  if◌then◌else◌, ltb, leb, length, get_elem?,
}
use hy_paper.Prelude.Maps.{pair_keys, nat_keys, string_keys}

abbrev pub sub_dex_offset : ℕ
sub_dex_offset = 100_000

abbrev pub sub_dex_stride : ℕ
sub_dex_stride = 10_000

abbrev pub spot_offset : ℕ
spot_offset = 10_000

abbrev pub hl_default_leverage : ℕ
hl_default_leverage = 20

-- The fields of a universe entry of HL's `meta` that the engine reads.
pub record UniverseEntry : Type 0 where
  pub name : String
  pub sz_decimals : ℕ
  pub max_leverage : ℕ

-- The hash of a user's leverage on an asset: `isCross` is stored as text, absent or not.
pub record LeverageHash : Type 0 where
  pub leverage : Option ℕ
  pub is_cross : Option String

pub record LeverageSetting : Type 0 where
  pub leverage : ℕ
  pub is_cross : Bool

-- What of the cached metadata and settings these functions read.
pub record Market : Type 0 where
  pub meta : Option (List UniverseEntry)
  pub perp_dexs : Option (List (Option String))
  pub meta_dex : String → Option (List UniverseEntry)
  pub user_lev : String × ℕ → LeverageHash

unfoldable pub is_spot_asset : ℕ → Bool
is_spot_asset asset = leb spot_offset asset && ltb asset sub_dex_offset

pub dex_index : ℕ → ℕ
dex_index asset = (asset - sub_dex_offset) / sub_dex_stride

pub local_index : ℕ → ℕ
local_index asset = (asset - sub_dex_offset) % sub_dex_stride

-- An entry of the universe that is there.
pub entry_at : List UniverseEntry → ℕ → Option (List UniverseEntry × ℕ)
entry_at universe i = if ltb i (length universe) then some (universe, i) else none

-- `!dex || !dex.name`: an entry that is null or has an empty name counts as none.
dex_named : Option String → Option String
dex_named none = none
dex_named (some name) = if str_eq name "" then none else some name

unfoldable pub load_universe_entry : Market → ℕ → Option (List UniverseEntry × ℕ)
unfolding entry_at dex_index local_index dex_named
load_universe_entry m asset =
    if ltb asset sub_dex_offset then (m.meta >>= λ universe. entry_at universe asset) else do
      perp_dexs ← m.perp_dexs
      name ← dex_named (get_elem? perp_dexs (dex_index asset) >>= λ dex. dex)
      universe ← m.meta_dex name
      entry_at universe (local_index asset)

-- The empty scope is the native dex.
unfoldable pub scope_for_asset : Market → ℕ → String
unfolding dex_index
scope_for_asset m asset =
    if ltb asset sub_dex_offset
    then ""
    else elim (m.perp_dexs >>= λ perp_dexs. get_elem? perp_dexs (dex_index asset) >>= λ dex. dex) [
      | none ↦ ""
      | some name ↦ name
    ]

sub_dexes : List (Option String) → List String
unfolding dex_named
sub_dexes [] = []
sub_dexes (dex ∷ dexes) =
    let rest = sub_dexes dexes in elim (dex_named dex) [ none ↦ rest | some name ↦ name ∷ rest ]

-- `subDexNames`
pub sub_dex_names : Market → List String
unfolding sub_dexes
sub_dex_names m = elim m.perp_dexs [ none ↦ [] | some dexes ↦ sub_dexes dexes ]

pub cached_max_leverage : Market → ℕ → Option ℕ
unfolding is_spot_asset load_universe_entry
cached_max_leverage m asset = if is_spot_asset asset then none else do
  found ← load_universe_entry m asset
  entry ← get_elem? found.0 found.1
  some entry.max_leverage

is_cross_of : Option String → Bool
is_cross_of none = true
is_cross_of (some text) = if str_eq text "false" then false else true

default_leverage : Option ℕ → ℕ
default_leverage none = hl_default_leverage
default_leverage (some max) = min_ℕ hl_default_leverage max

unfoldable pub get_leverage_setting : Market → String → ℕ → LeverageSetting
unfolding is_cross_of default_leverage cached_max_leverage
get_leverage_setting m user asset =
    let lev = m.user_lev (user, asset) in
    record {
      leverage = elim lev.leverage [
        | some n ↦ n
        | none ↦ default_leverage (cached_max_leverage m asset)
      ];
      is_cross = is_cross_of lev.is_cross;
    }
