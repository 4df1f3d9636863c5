-- ===== src/Twaps/Sound.antt =====
-- The set and the history of the TWAPs, for the requests of src/engine/order.ts and the ticks of
-- src/worker/order-matcher.ts.
use hy_paper.Prelude.{
  ℕ, suc, ◌≡◌, refl, ◌∙◌, Bool, true, false, Option, none, some, List, ◌∷◌, inl, inr, sym, ap,
  total, ==_iff, ◌==◌, ltb, arith, Bool-cases, if◌then◌else◌,
}
use mathlib.Core.Path.{subst}
use hy_paper.Prelude.Maps.{
  nat_keys, contains, contains-sadd, contains-srem, sadd, srem, update, beq_refl,
}
use hy_paper.Twaps.{Twap, TwapStatus, is_running, TwapRow, RowState, activated, ended}

-- At one number, and at every other.
at_each : (P : ℕ → Type 0) (id : ℕ) → P id → ((j : ℕ) → (id == j) ≡ false → P j) → (j : ℕ) → P j
at_each P id here there j = elim (Bool-cases (id == j)) [
  | inl same ↦ subst P ((==_iff id j).0 same) here
  | inr other ↦ there j other
]

start_weight : RowState → Bool → ℕ
start_weight activated own = if own then 1 else 0
start_weight (ended _ _) own = 0

end_weight : RowState → Bool → ℕ
end_weight activated own = 0
end_weight (ended _ _) own = if own then 1 else 0

module _ {N : Type 0} where
  abbrev pub running_at : Option (Twap N) → Bool
  running_at none = false
  running_at (some t) = is_running t.status

  abbrev pub started_at : Option (Twap N) → ℕ
  started_at none = 0
  started_at (some t) = 1

  abbrev pub ended_at : Option (Twap N) → ℕ
  ended_at none = 0
  ended_at (some t) = if is_running t.status then 0 else 1

  pub starts_of : ℕ → TwapRow N → ℕ
  unfolding start_weight
  starts_of id row = start_weight row.state (row.twap_id == id)

  pub ends_of : ℕ → TwapRow N → ℕ
  unfolding end_weight
  ends_of id row = end_weight row.state (row.twap_id == id)

  -- Its size and its times are numbers.
  pub record IsFormed (t : Twap N) : Type 0 where
    pub total : N
    pub start : ℕ
    pub end_ : ℕ
    pub sized : t.total_size ≡ some total
    pub starts : t.start_time ≡ some start
    pub ends : t.end_time ≡ some end_

  -- The row of an end.
  abbrev pub IsEnd : TwapRow N → Type 0
  IsEnd row = (status : TwapStatus) × (at : ℕ) × (row.state ≡ ended status at)

  -- Of one number: it is in the set exactly while its TWAP runs, and the history has one row of its start
  -- and, once it does not run, one row of its end.
  pub record SoundAt (twaps : ℕ → Option (Twap N)) (active : List ℕ) (rows : List (TwapRow N))
      (seq id : ℕ) : Type 0 where
    pub listed : contains id active ≡ running_at (twaps id)
    pub one_start : total (starts_of id) rows ≡ started_at (twaps id)
    pub one_end : total (ends_of id) rows ≡ ended_at (twaps id)
    pub formed : (t : Twap N) → twaps id ≡ some t → IsFormed t
    pub fresh : ltb seq id ≡ true → twaps id ≡ none

  abbrev pub Sound : (ℕ → Option (Twap N)) → List ℕ → List (TwapRow N) → ℕ → Type 0
  Sound twaps active rows seq = (id : ℕ) → SoundAt twaps active rows seq id

  SoundAt-same :
      (twaps twaps' : ℕ → Option (Twap N)) (active active' : List ℕ) (rows rows' : List (TwapRow N))
      (seq seq' id : ℕ)
      → twaps' id ≡ twaps id
      → contains id active' ≡ contains id active
      → total (starts_of id) rows' ≡ total (starts_of id) rows
      → total (ends_of id) rows' ≡ total (ends_of id) rows
      → (ltb seq' id ≡ true → ltb seq id ≡ true)
      → SoundAt twaps active rows seq id
      → SoundAt twaps' active' rows' seq' id
  SoundAt-same twaps twaps' active active' rows rows' seq seq' id e a b c f h = record {
    listed = rw e (a ∙ h.listed);
    one_start = rw e (b ∙ h.one_start);
    one_end = rw e (c ∙ h.one_end);
    formed = λ t k. h.formed t (sym e ∙ k);
    fresh = λ k. e ∙ h.fresh (f k);
  }

  end_row :
      (row : TwapRow N) (id : ℕ)
      → IsEnd row
      → (starts_of id row ≡ 0) × (ends_of id row ≡ (if row.twap_id == id then 1 else 0))
  unfolding starts_of ends_of
  end_row row id (status, at, e) =
      (ap (λ s. start_weight s (row.twap_id == id)) e, ap (λ s. end_weight s (row.twap_id == id)) e)

  start_row :
      (row : TwapRow N) (id : ℕ)
      → row.state ≡ activated
      → (ends_of id row ≡ 0) × (starts_of id row ≡ (if row.twap_id == id then 1 else 0))
  unfolding starts_of ends_of
  start_row row id e =
      (ap (λ s. end_weight s (row.twap_id == id)) e, ap (λ s. start_weight s (row.twap_id == id)) e)

  IsFormed-some : (t u : Twap N) → IsFormed t → some t ≡ some u → IsFormed u
  IsFormed-some t u f k = let q : t ≡ u = cc in subst IsFormed q f

  module _ (twaps : ℕ → Option (Twap N)) (active : List ℕ) (rows : List (TwapRow N)) (seq : ℕ)
      (h : Sound twaps active rows seq) where
    -- A number that holds no running TWAP leaves the set.
    pub gone-Sound :
        (id : ℕ) → running_at (twaps id) ≡ false → Sound twaps (srem id active) rows seq
    gone-Sound id over j =
        let at = h j in
        record {
          listed = contains-srem id j active ∙ elim (Bool-cases (id == j)) [
            | inl same ↦
                let e = (==_iff id j).0 same in
                rw same (sym over ∙ ap (λ k. running_at (twaps k)) e)
            | inr other ↦ rw other at.listed
          ];
          one_start = at.one_start;
          one_end = at.one_end;
          formed = at.formed;
          fresh = at.fresh;
        }

    module _ (id : ℕ) (t : Twap N) (e : twaps id ≡ some t) (r : is_running t.status ≡ true) where
      -- A running TWAP that goes on.
      pub keep-Sound :
          (t' : Twap N)
          → is_running t'.status ≡ true
          → IsFormed t'
          → Sound (update twaps id (some t')) active rows seq
      unfolding update
      keep-Sound t' r' f =
          at_each (SoundAt (update twaps id (some t')) active rows seq) id
            (record {
              listed = rw (beq_refl id) ((h id).listed ∙ rw (e, r) (sym r'));
              one_start = rw (beq_refl id) ((h id).one_start ∙ rw e refl);
              one_end = rw (beq_refl id, r') ((h id).one_end ∙ rw (e, r) refl);
              formed = λ u k. IsFormed-some t' u f (rw (beq_refl id) at k);
              fresh = λ k. let old = (h id).fresh k in cc;
            })
            (λ j other.
              SoundAt-same twaps _ active _ rows _ seq _ j (rw other) refl refl refl (λ k. k) (h j))

      -- A running TWAP that ends, with a row of its end.
      pub end-Sound :
          (t' : Twap N) (row : TwapRow N)
          → is_running t'.status ≡ false
          → IsFormed t'
          → row.twap_id ≡ id
          → IsEnd row
          → Sound (update twaps id (some t')) (srem id active) (row ∷ rows) seq
      unfolding update
      end-Sound t' row r' f same is_end =
          let started : total (starts_of id) rows ≡ 1 = (h id).one_start ∙ rw e refl in
          let live : total (ends_of id) rows ≡ 0 = (h id).one_end ∙ rw (e, r) refl in
          at_each (SoundAt (update twaps id (some t')) (srem id active) (row ∷ rows) seq) id
            (record {
              listed = contains-srem id id active ∙ rw (beq_refl id, r') refl;
              one_start = rw ((end_row row id is_end).0, beq_refl id) (omega arith);
              one_end = rw ((end_row row id is_end).1, same, beq_refl id, r') (omega arith);
              formed = λ u k. IsFormed-some t' u f (rw (beq_refl id) at k);
              fresh = λ k. let old = (h id).fresh k in cc;
            })
            (λ j other.
              SoundAt-same twaps _ active _ rows _ seq _ j (rw other)
                (contains-srem id j active ∙ rw other refl)
                (rw (end_row row j is_end).0 (omega arith))
                (rw ((end_row row j is_end).1, same, other) (omega arith)) (λ k. k) (h j))

    -- A TWAP under the next number, with a row of its start.
    pub new-Sound :
        (t : Twap N) (row : TwapRow N)
        → is_running t.status ≡ true
        → IsFormed t
        → row.twap_id ≡ suc seq
        → row.state ≡ activated
        → Sound (update twaps (suc seq) (some t)) (sadd (suc seq) active) (row ∷ rows) (suc seq)
    unfolding update
    new-Sound t row r f same starts =
        let id = suc seq in
        let old : twaps id ≡ none = (h id).fresh (ground arith) in
        let unstarted : total (starts_of id) rows ≡ 0 = (h id).one_start ∙ rw old refl in
        let unended : total (ends_of id) rows ≡ 0 = (h id).one_end ∙ rw old refl in
        at_each (SoundAt (update twaps id (some t)) (sadd id active) (row ∷ rows) id) id
          (record {
            listed = contains-sadd id id active ∙ rw (beq_refl id, r) refl;
            one_start = rw ((start_row row id starts).1, same, beq_refl id) (omega arith);
            one_end = rw ((start_row row id starts).0, beq_refl id, r) (omega arith);
            formed = λ u k. IsFormed-some t u f (rw (beq_refl id) at k);
            fresh = λ k. absurd (ground arith);
          })
          (λ j other.
            SoundAt-same twaps _ active _ rows _ seq _ j (rw other)
              (contains-sadd id j active ∙ rw other refl)
              (rw ((start_row row j starts).1, same, other) (omega arith))
              (rw (start_row row j starts).0 (omega arith)) (λ k. ground arith) (h j))
