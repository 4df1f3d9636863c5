-- ===== src/UserLock/Invariant.antt =====
-- What the queues of src/utils/userLock.ts keep.
use Prim.Native.String.{String}
use hy_paper.Prelude.{
  ℕ, ◌≡◌, ◌≢◌, ◌<◌, ◌≤◌, ◌⊎◌, refl, sym, ap, ◌∙◌, Option, none, some, inl, inr, arith, ◌==◌,
  if◌then◌else◌, Bool-cases,
}
use hy_paper.Prelude.Maps.{nat_keys, string_keys}
use hy_paper.UserLock.{Phase, waiting, finished, Call, Locks, Resolved, at_once, linked}

-- The calls of a user before a number have all finished.
abbrev pub AllDone : Locks → String → ℕ → Type 0
AllDone s user c =
    (q : ℕ) (j : Call) → q < c → s.calls q ≡ some j → j.user ≡ user → j.phase ≡ finished

-- A number is that of the last call of a user before another number.
abbrev pub IsLast : Locks → String → ℕ → ℕ → Type 0
IsLast s user c p =
    (p < c)
    × ((j : Call) × (s.calls p ≡ some j) × (j.user ≡ user))
    × ((q : ℕ) (i : Call) → q < c → s.calls q ≡ some i → i.user ≡ user → q ≤ p)

pub record Inv (s : Locks) : Type 0 where
  pub counted : (c : ℕ) (k : Call) → s.calls c ≡ some k → c < s.count
  pub first : (c : ℕ) (k : Call) → s.calls c ≡ some k → k.prev ≡ none → AllDone s k.user c
  pub next : (c p : ℕ) (k : Call) → s.calls c ≡ some k → k.prev ≡ some p → IsLast s k.user c p
  pub free : (user : String) → s.tails user ≡ none → AllDone s user s.count
  pub taken : (user : String) (t : ℕ) → s.tails user ≡ some t → IsLast s user s.count t
  pub fifo : (c : ℕ) (k : Call) → s.calls c ≡ some k → k.phase ≢ waiting → AllDone s k.user c

module _ (s : Locks) (inv : Inv s) where
  -- Whoever finds the promise before its own resolved comes after finished calls only.
  pub Resolved-AllDone :
      {x : Option ℕ} (c : ℕ) (k : Call)
      → Resolved s x
      → s.calls c ≡ some k
      → k.prev ≡ x
      → AllDone s k.user c
  Resolved-AllDone c k at_once e h = inv.first c k e h
  Resolved-AllDone c k (linked {p = p} {j = j} held over before) e h = λ q i lt is same.
      let (below, (o, there, owner), last) = inv.next c p k e h in
      let alike : o ≡ j = cc in
      elim (Bool-cases (q == p)) [
        | inl here ↦ let num : q ≡ p = ground arith in let same_call : i ≡ j = cc in cc
        | inr apart ↦ inv.fifo p j held (λ w. cc) q i (ground (arith, last q i lt is same)) is (cc)
      ]

-- A state in which one call that has not finished has moved on.
module _ (s t : Locks) (inv : Inv s) (c : ℕ) (k : Call) (b : Phase) (held : s.calls c ≡ some k)
    (open_call : k.phase ≢ finished) (began : b ≢ waiting) (before : AllDone s k.user c)
    (calls : (q : ℕ) → t.calls q ≡ (if c == q then some (record k { phase = b }) else s.calls q))
    (count : t.count ≡ s.count) where
  back :
      (q : ℕ) (j : Call)
      → t.calls q ≡ some j
      → (i : Call) × (s.calls q ≡ some i)
        × (j.user ≡ i.user)
        × (j.prev ≡ i.prev)
        × ((q ≡ c) ⊎ (j ≡ i))
  back q j e = elim (Bool-cases (c == q)) [
    | inl here ↦
        let num : c ≡ q = ground arith in
        let new : j ≡ record k { phase = b } = ground (arith, calls q) in
        (
          k,
          rw (← num) held,
          ap (λ (x : Call). x.user) new,
          ap (λ (x : Call). x.prev) new,
          inl (sym num),
        )
    | inr apart ↦ (j, sym (rw apart at (calls q)) ∙ e, refl, refl, inr refl)
  ]

  forth :
      (q : ℕ) (i : Call)
      → s.calls q ≡ some i
      → (j : Call) × (t.calls q ≡ some j) × (j.user ≡ i.user)
  forth q i e = elim (Bool-cases (c == q)) [
    | inl here ↦
        let num : c ≡ q = ground arith in
        (
          record k { phase = b },
          rw here at (calls q),
          let one : k ≡ i = cc in ap (λ (x : Call). x.user) one,
        )
    | inr apart ↦ (i, rw apart at (calls q) ∙ e, refl)
  ]

  pub AllDone-moved : (user : String) (n : ℕ) → AllDone s user n → AllDone t user n
  AllDone-moved user n done q j lt e same =
      let (i, old, owner, queue, how) = back q j e in
      let over : i.phase ≡ finished = done q i lt old (cc) in
      elim how [ inl here ↦ let one : i ≡ k = cc in absurd (open_call (cc)) | inr alike ↦ cc ]

  pub IsLast-moved : (user : String) (n p : ℕ) → IsLast s user n p → IsLast t user n p
  IsLast-moved user n p (below, (o, there, owner), last) =
      let (j, moved, same) = forth p o there in
      (
        below,
        (j, moved, same ∙ owner),
        λ q i lt is alike. let (h, old, name, queue, how) = back q i is in last q h lt old (cc),
      )

  fifo-moved : (q : ℕ) (j : Call) → t.calls q ≡ some j → j.phase ≢ waiting → AllDone t j.user q
  fifo-moved q j e ahead =
      let (i, old, owner, queue, how) = back q j e in
      rw owner (
        AllDone-moved i.user q (elim how [
          | inl here ↦ let one : i ≡ k = cc in rw (here, one) before
          | inr alike ↦ inv.fifo q i old (λ w. ahead (cc))
        ]))

  -- All of the invariant but what it says of the tails.
  pub moved-Inv :
      ((user : String) → t.tails user ≡ none → AllDone t user t.count)
      → ((user : String) (p : ℕ) → t.tails user ≡ some p → IsLast t user t.count p)
      → Inv t
  moved-Inv free taken = record {
    counted =
        λ q j e. let (i, old, owner, queue, how) = back q j e in rw count (inv.counted q i old);
    first = λ q j e h.
        let (i, old, owner, queue, how) = back q j e in
        rw owner (AllDone-moved i.user q (inv.first q i old (sym queue ∙ h)));
    next = λ q p j e h.
        let (i, old, owner, queue, how) = back q j e in
        rw owner (IsLast-moved i.user q p (inv.next q p i old (sym queue ∙ h)));
    free = free;
    taken = taken;
    fifo = fifo-moved;
  }
