-- ===== src/Prelude/Entries.antt =====
-- Objects of JS as lists of their entries, in the order of their keys.
use mathlib.Core.List.{Permᴰ}
use mathlib.Core.List.Permᴰ
use mathlib.Core.Logic.{inl, inr}
use mathlib.Core.Path.{◌≡◌, refl, sym, ap, ◌∙◌, subst}
use mathlib.Core.Bool.{Bool, true, false, not, ◌&&◌}
use mathlib.Core.Option.{Option, none, some}
use mathlib.Core.List.{List, [], ◌∷◌}
use native.Mathlib.Omega.{arith}
use hy_paper.Prelude.Tests.{if◌then◌else◌, Bool-cases}
use Prim.Native.Nat.{suc}
use hy_paper.Prelude.Lists.{length}
use hy_paper.Prelude.Maps.{Eq, beq_ne}

module _ {K V : Type 0} ⦃e : Eq K⦄ where
  unfoldable pub lookup : K → List (K × V) → Option V
  lookup k [] = none
  lookup k (entry ∷ entries) =
      let rest = lookup k entries in if e.beq k entry.0 then some entry.1 else rest

  unfoldable pub has_key : K → List (K × V) → Bool
  has_key k [] = false
  has_key k (entry ∷ entries) =
      let rest = has_key k entries in if e.beq k entry.0 then true else rest

  -- No key stands twice.
  unfoldable pub keys_differ : List (K × V) → Bool
  unfolding has_key
  keys_differ [] = true
  keys_differ (entry ∷ entries) = not (has_key entry.0 entries) && keys_differ entries

  -- Without the first entry at a key.
  remove : K → List (K × V) → List (K × V)
  remove k [] = []
  remove k (entry ∷ entries) =
      let rest = remove k entries in if e.beq k entry.0 then entries else entry ∷ rest

  -- Every entry is found under its key.
  unfoldable pub AllFound : List (K × V) → List (K × V) → Type 0
  unfolding lookup
  AllFound es [] = Unit {0}
  AllFound es (entry ∷ entries) = (lookup entry.0 es ≡ some entry.1) × AllFound es entries

  -- What two lists with the same entries agree on. A key that stands twice may be read differently.
  pub record SameEntries (es fs : List (K × V)) : Type 0 where
    pub differ : keys_differ fs ≡ keys_differ es
    pub found : keys_differ es ≡ true → (k : K) → lookup k fs ≡ lookup k es
    pub present : (k : K) → has_key k fs ≡ has_key k es

  cons-SameEntries :
      (a : K × V) (es fs : List (K × V)) → SameEntries es fs → SameEntries (a ∷ es) (a ∷ fs)
  unfolding lookup has_key keys_differ
  cons-SameEntries a es fs h = record {
    differ = rw (h.present a.0, h.differ) refl;
    found = λ d k. rw (h.found (ground arith) k) refl;
    present = λ k. rw (h.present k) refl;
  }

  swap-SameEntries : (a b : K × V) (es : List (K × V)) → SameEntries (a ∷ b ∷ es) (b ∷ a ∷ es)
  unfolding lookup has_key keys_differ
  swap-SameEntries a b es = record {
    differ = ground (arith, beq_ne a.0 b.0, beq_ne b.0 a.0);
    found = λ d k. ground (arith, e.beq_iff k a.0, e.beq_iff k b.0, e.beq_iff a.0 b.0);
    present = λ k. ground arith;
  }

  pub Permᴰ-SameEntries : {es fs : List (K × V)} → Permᴰ es fs → SameEntries es fs
  Permᴰ-SameEntries Permᴰ.nil = record { differ = refl; found = λ d k. refl; present = λ k. refl }
  Permᴰ-SameEntries (Permᴰ.cons {a = a} {l₁ = es} {l₂ = fs} p perm) =
      subst (λ b. SameEntries (a ∷ es) (b ∷ fs)) p
        (cons-SameEntries a es fs (Permᴰ-SameEntries perm))
  Permᴰ-SameEntries (Permᴰ.swap {a = a} {b = b} {b' = b'} {l = es} p q) =
      subst (λ x. SameEntries (a ∷ b ∷ es) (x ∷ b' ∷ es)) q
        (subst (λ y. SameEntries (a ∷ b ∷ es) (b ∷ y ∷ es)) p (swap-SameEntries a b es))
  Permᴰ-SameEntries (Permᴰ.trans first second) =
      let h = Permᴰ-SameEntries first in
      let k = Permᴰ-SameEntries second in
      record {
        differ = k.differ ∙ h.differ;
        found = λ d j. k.found (h.differ ∙ d) j ∙ h.found d j;
        present = λ j. k.present j ∙ h.present j;
      }

  take_out :
      (k : K) (v : V) (es : List (K × V)) → lookup k es ≡ some v → Permᴰ es ((k, v) ∷ remove k es)
  unfolding lookup remove
  take_out k v [] h = cc
  take_out k v (entry ∷ es) h = elim (Bool-cases (e.beq k entry.0)) [
    | inl here ↦
        let key : entry.0 ≡ k = sym ((e.beq_iff k entry.0).0 here) in
        let value : entry.1 ≡ v = ground (arith, h) in
        rw here (Permᴰ.cons (λ i. (key i, value i)) (Permᴰ.refl es))
    | inr there ↦
        let rest : lookup k es ≡ some v = ground (arith, h) in
        rw there (Permᴰ.trans (Permᴰ.cons refl (take_out k v es rest)) (Permᴰ.swap refl refl))
  ]

  lookup-remove :
      (j k : K) (es : List (K × V)) → e.beq j k ≡ false → lookup j (remove k es) ≡ lookup j es
  unfolding lookup remove
  lookup-remove j k [] ne = refl
  lookup-remove j k (entry ∷ es) ne =
      ground
        (arith, lookup-remove j k es ne, e.beq_iff k entry.0, e.beq_iff j entry.0, e.beq_iff j k)

  length-remove :
      (k : K) (v : V) (es : List (K × V))
      → lookup k es ≡ some v
      → suc (length (remove k es)) ≡ length es
  unfolding lookup remove
  length-remove k v [] h = cc
  length-remove k v (entry ∷ es) h = ground (arith, h, length-remove k v es)

  AllFound-remove :
      (k : K) (es fs : List (K × V))
      → has_key k fs ≡ false
      → AllFound es fs
      → AllFound (remove k es) fs
  unfolding AllFound has_key
  AllFound-remove k es [] unlisted h = tt
  AllFound-remove k es (entry ∷ fs) unlisted (here, there) = (
    lookup-remove entry.0 k es (ground (arith, unlisted, e.beq_iff entry.0 k, e.beq_iff k entry.0))
        ∙ here,
    AllFound-remove k es fs (ground (arith, unlisted)) there,
  )

  -- As many entries, with those of the one found in the other, are the same entries.
  pub found-Permᴰ :
      (es fs : List (K × V))
      → keys_differ fs ≡ true
      → length es ≡ length fs
      → AllFound es fs
      → Permᴰ es fs
  unfolding AllFound keys_differ
  found-Permᴰ [] [] d l h = Permᴰ.nil
  found-Permᴰ (entry ∷ es) [] d l h = absurd (omega arith)
  found-Permᴰ es (entry ∷ fs) d l (here, there) =
      let rest = remove entry.0 es in
      Permᴰ.trans (take_out entry.0 entry.1 es here) (
        Permᴰ.cons refl (
          found-Permᴰ rest fs (ground (arith, d))
            (omega (arith, length-remove entry.0 entry.1 es here))
            (AllFound-remove entry.0 es fs (ground (arith, d)) there)))

  -- What is found in a list is found in every list with the same entries.
  pub AllFound-same :
      (es fs gs : List (K × V))
      → ((k : K) → lookup k fs ≡ lookup k es)
      → AllFound es gs
      → AllFound fs gs
  unfolding AllFound
  AllFound-same es fs [] h all = tt
  AllFound-same es fs (entry ∷ gs) h (here, there) =
      (h entry.0 ∙ here, AllFound-same es fs gs h there)

  pub Permᴰ-length : {es fs : List (K × V)} → Permᴰ es fs → length es ≡ length fs
  Permᴰ-length Permᴰ.nil = refl
  Permᴰ-length (Permᴰ.cons p perm) = ap suc (Permᴰ-length perm)
  Permᴰ-length (Permᴰ.swap p q) = refl
  Permᴰ-length (Permᴰ.trans first second) = Permᴰ-length first ∙ Permᴰ-length second
