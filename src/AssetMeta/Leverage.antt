-- ===== src/AssetMeta/Leverage.antt =====
-- The leverage of a user, as src/engine/assetMeta.ts reads it.
use Prim.Native.String.{String}
use hy_paper.Prelude.{ℕ, ◌≡◌, refl, some, true, false, if◌then◌else◌}
use text.Mathlib.Text.{◌==◌ as str_eq}
use hy_paper.AssetMeta.{
  LeverageHash, is_cross_of, load_universe_entry, Market, cached_max_leverage, get_leverage_setting,
}

-- A leverage that is stored is the setting.
pub stored_setting :
    (m : Market) (user : String) (asset n : ℕ) (text : String)
    → m.user_lev (user, asset) ≡ record { leverage = some n; is_cross = some text }
    → get_leverage_setting m user asset
      ≡ record { leverage = n; is_cross = if str_eq text "false" then false else true }
unfolding get_leverage_setting is_cross_of
stored_setting m user asset n text h = rw h refl

-- The maximum does not depend on what users set.
pub cached_max_leverage_same :
    (m : Market) (lev : String × ℕ → LeverageHash) (asset : ℕ)
    → cached_max_leverage (record m { user_lev = lev }) asset ≡ cached_max_leverage m asset
unfolding cached_max_leverage load_universe_entry
cached_max_leverage_same m lev asset = refl
