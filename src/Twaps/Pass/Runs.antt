-- ===== src/Twaps/Pass/Runs.antt =====
-- Any run of the requests on TWAPs of src/engine/order.ts and of the ticks of matchTwaps.
use Prim.Native.String.{String}
use text.Mathlib.Text.{◌==◌ as str_eq}
use hy_paper.Prelude.{ℕ, refl, Bool, Option, none, [], inl, inr, Bool-cases, Option-cases}
use hy_paper.Prelude.Maps.{nat_keys, contains}
use hy_paper.Decimal.{Decimal, num, lte}
use hy_paper.Env.{mid_of}
use hy_paper.Intake.{IntakeEnv, IntakeState, resolve_asset_coin}
use hy_paper.Twaps.{
  cancelled, is_running, TwapState, set_twap, deactivate, row_of, log_row, cancel_twap_order,
  too_small, new_twap, start_twap, create_twap_order,
}
use hy_paper.Twaps.Pass.{TwapEnv, match_twaps}
use hy_paper.Twaps.Sound.{end-Sound, new-Sound}
use hy_paper.Twaps.Pass.Ticks.{IsSound, IsFormed-as, match_twaps-IsSound}

module _ {N : Type 0} where
  cancel_twap_order-IsSound :
      (now : ℕ) (user : String) (id : ℕ) (ts : TwapState N)
      → IsSound ts
      → IsSound (cancel_twap_order now user id ts).1
  unfolding cancel_twap_order set_twap deactivate row_of log_row
  cancel_twap_order-IsSound now user id ts h = elim (Option-cases (ts.twaps id)) [
    | inl e ↦ rw (cancel_twap_order, e) h
    | inr (t, e) ↦ elim (Bool-cases (str_eq t.user_id user)) [
      | inr foreign ↦ rw (cancel_twap_order, e, foreign) h
      | inl own ↦ elim (Bool-cases (is_running t.status)) [
        | inr over ↦ rw (cancel_twap_order, e, own, over) h
        | inl r ↦
            rw (cancel_twap_order, e, own, r)
              (end-Sound ts.twaps ts.twaps_active ts.history ts.seq_twap h id t e r _ _ refl
                (IsFormed-as t _ refl refl refl ((h id).formed t e)) refl (cancelled, now, refl))
      ]
    ]
  ]

module _ {N : Type 0} ⦃d : Decimal N⦄ where
  create_twap_order-IsSound :
      (ie : IntakeEnv N) (user : String) (asset : ℕ) (is_buy : Bool) (total_sz : Option N)
      (reduce_only : Bool) (minutes : ℕ) (randomize : Bool) (ts : TwapState N)
      → IsSound ts
      → IsSound (create_twap_order ie user asset is_buy total_sz reduce_only minutes randomize ts).1
  unfolding create_twap_order start_twap new_twap set_twap row_of log_row
  create_twap_order-IsSound ie user asset is_buy total_sz reduce_only minutes randomize ts h =
      elim (Option-cases (resolve_asset_coin ie asset)) [
        | inl e ↦ rw (create_twap_order, e) h
        | inr (coin, e) ↦ elim (Option-cases total_sz) [
          | inl z ↦ rw (create_twap_order, e, z) h
          | inr (total, z) ↦ elim (Bool-cases (lte total (num 0))) [
            | inl none_ ↦ rw (create_twap_order, e, z, none_) h
            | inr some_ ↦ elim (Bool-cases (too_small total minutes (mid_of coin ie.env.mids))) [
              | inl small ↦ rw (create_twap_order, e, z, some_, small) h
              | inr large ↦
                  rw (create_twap_order, e, z, some_, large)
                    (new-Sound ts.twaps ts.twaps_active ts.history ts.seq_twap h _ _ refl
                      (record {
                        total = total;
                        start = _;
                        end_ = _;
                        sized = refl;
                        starts = refl;
                        ends = refl;
                      })
                      refl refl)
            ]
          ]
        ]
      ]

-- What changes the TWAPs: a request, or a tick. Orders and positions may change in between.
pub data Step {N : Type 0} ⦃d : Decimal N⦄ : TwapState N → TwapState N → Type 0 where
  creates :
      (ie : IntakeEnv N) (user : String) (asset : ℕ) (is_buy : Bool) (total_sz : Option N)
      (reduce_only : Bool) (minutes : ℕ) (randomize : Bool) (ts : TwapState N)
      → Step ts (create_twap_order ie user asset is_buy total_sz reduce_only minutes randomize ts).1
  cancels :
      (now : ℕ) (user : String) (id : ℕ) (ts : TwapState N)
      → Step ts (cancel_twap_order now user id ts).1
  ticks : (te : TwapEnv N) (ts : TwapState N) → Step ts (match_twaps te ts)
  trades : (st : IntakeState N) (ts : TwapState N) → Step ts (record ts { intake = st })

pub data Reach {N : Type 0} ⦃d : Decimal N⦄ (ts : TwapState N) : TwapState N → Type 0 where
  here : Reach ts ts
  next : {us vs : TwapState N} → Reach ts us → Step us vs → Reach ts vs

module _ {N : Type 0} ⦃d : Decimal N⦄ where
  abbrev pub no_twaps : IntakeState N → TwapState N
  no_twaps st = record {
    intake = st;
    twaps = λ id. none;
    twaps_active = [];
    user_twaps = λ user. [];
    seq_twap = 0;
    history = [];
    twap_events = [];
  }

  Step-IsSound : {ts us : TwapState N} → Step ts us → IsSound ts → IsSound us
  Step-IsSound (creates ie user asset is_buy total_sz reduce_only minutes randomize ts) h =
      create_twap_order-IsSound ie user asset is_buy total_sz reduce_only minutes randomize ts h
  Step-IsSound (cancels now user id ts) h = cancel_twap_order-IsSound now user id ts h
  Step-IsSound (ticks te ts) h = match_twaps-IsSound te ts h
  Step-IsSound (trades st ts) h = h

  -- After any run of requests and ticks from a state without TWAPs: a TWAP is in the set of the active ones
  -- exactly while it runs, the history has exactly one row of its start and, once it does not run, exactly one
  -- row of its end, however it ended, and its size and its times are numbers.
  pub reached-IsSound :
      (st : IntakeState N) {ts : TwapState N} → Reach (no_twaps st) ts → IsSound ts
  unfolding contains
  reached-IsSound st here = λ id. record {
    listed = refl;
    one_start = refl;
    one_end = refl;
    formed = λ t k. cc;
    fresh = λ k. refl;
  }
  reached-IsSound st (next r s) = Step-IsSound s (reached-IsSound st r)
