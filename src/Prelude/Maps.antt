-- ===== src/Prelude/Maps.antt =====
-- Keys with a Boolean equality, maps as functions of keys, and sets as lists.
use Prim.Native.String.{String}
use Prim.Native.Nat.{ℕ}
use text.Mathlib.Text.{◌==◌ as str_eq}
use text.Mathlib.TextEquality.{eq_iff}
use mathlib.Core.Path.{◌≡◌, refl}
use mathlib.Core.Logic.{◌↔◌}
use mathlib.Core.Bool.{Bool, true, false, ◌&&◌, ◌||◌}
use mathlib.Core.List.{List, [], ◌∷◌}
use native.Mathlib.Omega.{arith}
use hy_paper.Prelude.Tests.{if◌then◌else◌, ==_iff, ◌==◌ as nat_eq}

pub record Eq (K : Type 0) : Type 0 where
  pub beq : K → K → Bool
  pub beq_iff : (a b : K) → (beq a b ≡ true) ↔ (a ≡ b)

instance abbrev pub nat_keys : Eq ℕ
nat_keys = record { beq = nat_eq; beq_iff = ==_iff }

instance abbrev pub string_keys : Eq String
string_keys = record { beq = str_eq; beq_iff = eq_iff }

module _ {K L : Type 0} ⦃e : Eq K⦄ ⦃f : Eq L⦄ where
  abbrev pub pair_eq : K × L → K × L → Bool
  pair_eq a b = e.beq a.0 b.0 && f.beq a.1 b.1

  pub pair_eq_iff : (a b : K × L) → (pair_eq a b ≡ true) ↔ (a ≡ b)
  pair_eq_iff a b = (
    λ h. λ i. ((e.beq_iff a.0 b.0).0 (ground arith) i, (f.beq_iff a.1 b.1).0 (ground arith) i),
    λ p. rw p (rw ((e.beq_iff b.0 b.0).1 refl) ((f.beq_iff b.1 b.1).1 refl)),
  )

  instance abbrev pub pair_keys : Eq (K × L)
  pair_keys = record { beq = pair_eq; beq_iff = pair_eq_iff }

module _ {K : Type 0} ⦃e : Eq K⦄ where
  pub beq_refl : (a : K) → e.beq a a ≡ true
  beq_refl a = (e.beq_iff a a).1 refl

  pub beq_ne : (a b : K) → e.beq a b ≡ false → e.beq b a ≡ false
  beq_ne a b h = ground (arith, e.beq_iff a b, e.beq_iff b a)

  -- `m` with the value `v` at `k`.
  unfoldable pub update {ℓ} : {V : Type ℓ} → (K → V) → K → V → K → V
  update m k v j = if e.beq k j then v else m j

  pub update_self {ℓ} : {V : Type ℓ} (m : K → V) (k : K) (v : V) → update m k v k ≡ v
  unfolding update
  update_self m k v = rw (beq_refl k)

  pub update_ne {ℓ} :
      {V : Type ℓ} (m : K → V) (k j : K) (v : V) → e.beq k j ≡ false → update m k v j ≡ m j
  unfolding update
  update_ne m k j v h = rw h

  -- SISMEMBER, SREM and SADD on the members of a set.
  unfoldable pub contains : K → List K → Bool
  contains a [] = false
  contains a (b ∷ bs) = e.beq a b || contains a bs

  unfoldable pub srem : K → List K → List K
  srem a [] = []
  srem a (b ∷ bs) = let rest = srem a bs in if e.beq a b then rest else b ∷ rest

  unfoldable pub sadd : K → List K → List K
  unfolding contains
  sadd a bs = if contains a bs then bs else a ∷ bs

  pub contains-srem :
      (a b : K) (bs : List K)
      → contains b (srem a bs) ≡ (if e.beq a b then false else contains b bs)
  unfolding contains srem
  contains-srem a b [] = ground arith
  contains-srem a b (c ∷ bs) =
      ground (arith, contains-srem a b bs, e.beq_iff a b, e.beq_iff a c, e.beq_iff b c)

  pub contains-sadd :
      (a b : K) (bs : List K) → contains b (sadd a bs) ≡ (if e.beq a b then true else contains b bs)
  unfolding contains sadd
  contains-sadd a b bs = ground (arith, e.beq_iff a b, e.beq_iff b a)

  pub contains_head : (a : K) (bs : List K) → contains a (a ∷ bs) ≡ true
  unfolding contains
  contains_head a bs = rw (beq_refl a) refl
