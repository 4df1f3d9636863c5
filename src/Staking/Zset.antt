-- ===== src/Staking/Zset.antt =====
-- Redis sorted sets, as the lists in which ZRANGE returns them (used by src/engine/staking.ts).
use hy_paper.Prelude.{
  ℕ, ◌+◌, ◌≡◌, refl, Bool, true, false, ◌&&◌, ◌||◌, List, [], ◌∷◌, if◌then◌else◌, ltb, ◌==◌, arith,
  total, inl, inr, Bool-cases,
}
use hy_paper.Prelude.Maps.{Eq, contains}

module _ {A : Type 0} ⦃e : Eq A⦄ (score : A → ℕ) (before : A → A → Bool) where
  insert_member : A → List A → List A
  insert_member x [] = x ∷ []
  insert_member x (y ∷ ys) =
      let rest = insert_member x ys in
      if ltb (score x) (score y) || ((score x == score y) && before x y)
      then x ∷ y ∷ ys
      else y ∷ rest

  -- ZADD of a member with its own score: one that is there stays.
  unfoldable pub zadd : A → List A → List A
  unfolding insert_member contains
  zadd x xs = if contains x xs then xs else insert_member x xs

  contains-insert_member :
      (x y : A) (xs : List A) → contains y (insert_member x xs) ≡ (e.beq y x || contains y xs)
  unfolding insert_member contains
  contains-insert_member x y [] = ground arith
  contains-insert_member x y (z ∷ zs) = ground (arith, contains-insert_member x y zs)

  pub contains-zadd : (x y : A) (xs : List A) → contains y xs ≡ true → contains y (zadd x xs) ≡ true
  unfolding zadd
  contains-zadd x y xs h = ground (arith, contains-insert_member x y xs)

  pub contains-zadd_self : (x : A) (xs : List A) → contains x (zadd x xs) ≡ true
  unfolding zadd
  contains-zadd_self x xs = ground (arith, contains-insert_member x x xs, e.beq_iff x x)

  total-insert_member :
      (w : A → ℕ) (x : A) (xs : List A) → total w (insert_member x xs) ≡ w x + total w xs
  unfolding insert_member
  total-insert_member w x [] = refl
  total-insert_member w x (y ∷ ys) = ground (arith, total-insert_member w x ys)

  -- A new member adds its weight; one that is there adds nothing.
  pub total-zadd :
      (w : A → ℕ) (x : A) (xs : List A)
      → total w (zadd x xs) ≡ (if contains x xs then total w xs else w x + total w xs)
  unfolding zadd
  total-zadd w x xs = ground (arith, total-insert_member w x xs)

module _ {A : Type 0} ⦃e : Eq A⦄ where
  -- ZREM
  unfoldable pub zrem : A → List A → List A
  zrem x [] = []
  zrem x (y ∷ ys) = let rest = zrem x ys in if e.beq x y then ys else y ∷ rest

  pub contains-zrem :
      (x y : A) (xs : List A)
      → e.beq y x ≡ false
      → contains y xs ≡ true
      → contains y (zrem x xs) ≡ true
  unfolding zrem contains
  contains-zrem x y [] ne h = h
  contains-zrem x y (z ∷ zs) ne h =
      ground (arith, contains-zrem x y zs ne, e.beq_iff x z, e.beq_iff y z, e.beq_iff y x)

  pub total-zrem :
      (w : A → ℕ) (x : A) (xs : List A)
      → contains x xs ≡ true
      → w x + total w (zrem x xs) ≡ total w xs
  unfolding zrem contains
  total-zrem w x [] h = ground (arith, h)
  total-zrem w x (y ∷ ys) h = elim (Bool-cases (e.beq x y)) [
    | inl same ↦ rw (same, (e.beq_iff x y).0 same) refl
    | inr ne ↦ let rest = total-zrem w x ys (ground (arith, h, ne)) in rw ne (omega arith)
  ]
