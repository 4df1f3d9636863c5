-- ===== src/Decimal/Ring.antt =====
-- Equations of exact arithmetic, proved by normal forms: an expression is a sum of signed products of
-- variables, and two expressions are equal if the sum of one and the negated other cancels.
use hy_paper.Prelude.{
  ℕ, zero, suc, ◌≡◌, refl, sym, ap, ◌∙◌, inl, inr, Bool, true, false, not, ◌&&◌, List, [], ◌∷◌,
  arith, ◌==◌, leb, if◌then◌else◌, Bool-cases,
}
use hy_paper.Decimal.{Decimal, num, add, sub, mul, neg}
use hy_paper.Decimal.Exact.{IsExact}

pub data Expr : Type 0 where
  var : ℕ → Expr
  nought one : Expr
  plus minus times : Expr → Expr → Expr
  negated : Expr → Expr

-- A product of variables, in order, with its sign.
pub record Monomial : Type 0 where
  pub negative : Bool
  pub vars : List ℕ

abbrev pub same_vars : List ℕ → List ℕ → Bool
same_vars [] [] = true
same_vars [] (_ ∷ _) = false
same_vars (_ ∷ _) [] = false
same_vars (i ∷ is) (j ∷ js) = (i == j) && same_vars is js

abbrev pub differ : Bool → Bool → Bool
differ true b = not b
differ false b = b

abbrev pub insert_var : ℕ → List ℕ → List ℕ
insert_var i [] = i ∷ []
insert_var i (j ∷ js) = if leb i j then i ∷ j ∷ js else j ∷ insert_var i js

abbrev pub merge_vars : List ℕ → List ℕ → List ℕ
merge_vars [] js = js
merge_vars (i ∷ is) js = insert_var i (merge_vars is js)

abbrev pub product : Monomial → Monomial → Monomial
product m n = record { negative = differ m.negative n.negative; vars = merge_vars m.vars n.vars }

abbrev pub cancels : Monomial → Monomial → Bool
cancels m n = differ m.negative n.negative && same_vars m.vars n.vars

abbrev pub insert : Monomial → List Monomial → List Monomial
insert m [] = m ∷ []
insert m (n ∷ p) = if cancels m n then p else n ∷ insert m p

abbrev pub sum : List Monomial → List Monomial → List Monomial
sum [] q = q
sum (m ∷ p) q = insert m (sum p q)

abbrev pub flip : List Monomial → List Monomial
flip [] = []
flip (m ∷ p) = record m { negative = not m.negative } ∷ flip p

abbrev pub scale : Monomial → List Monomial → List Monomial
scale m [] = []
scale m (n ∷ p) = insert (product m n) (scale m p)

abbrev pub multiply : List Monomial → List Monomial → List Monomial
multiply [] q = []
multiply (m ∷ p) q = sum (scale m q) (multiply p q)

abbrev pub norm : Expr → List Monomial
norm (var i) = record { negative = false; vars = i ∷ [] } ∷ []
norm nought = []
norm one = record { negative = false; vars = [] } ∷ []
norm (plus a b) = sum (norm a) (norm b)
norm (minus a b) = sum (norm a) (flip (norm b))
norm (times a b) = multiply (norm a) (norm b)
norm (negated a) = flip (norm a)

same_vars→eq : (is js : List ℕ) → same_vars is js ≡ true → is ≡ js
same_vars→eq [] [] h = refl
same_vars→eq [] (_ ∷ _) h = ground arith
same_vars→eq (_ ∷ _) [] h = ground arith
same_vars→eq (i ∷ is) (j ∷ js) h = ground (arith, same_vars→eq is js)

module _ {N : Type 0} ⦃d : Decimal N⦄ where
  abbrev pub value : List N → ℕ → N
  value [] i = num 0
  value (a ∷ xs) zero = a
  value (a ∷ xs) (suc i) = value xs i

  abbrev pub eval : List N → Expr → N
  eval xs (var i) = value xs i
  eval xs nought = num 0
  eval xs one = num 1
  eval xs (plus a b) = add (eval xs a) (eval xs b)
  eval xs (minus a b) = sub (eval xs a) (eval xs b)
  eval xs (times a b) = mul (eval xs a) (eval xs b)
  eval xs (negated a) = neg (eval xs a)

  abbrev eval_vars : List N → List ℕ → N
  eval_vars xs [] = num 1
  eval_vars xs (i ∷ is) = mul (value xs i) (eval_vars xs is)

  abbrev sign : Bool → N → N
  sign true a = neg a
  sign false a = a

  abbrev eval_mono : List N → Monomial → N
  eval_mono xs m = sign m.negative (eval_vars xs m.vars)

  abbrev eval_poly : List N → List Monomial → N
  eval_poly xs [] = num 0
  eval_poly xs (m ∷ p) = add (eval_mono xs m) (eval_poly xs p)

  module _ (laws : IsExact N) where
    open laws use {
      add_comm, add_assoc, add_zero, add_neg, sub_lem, mul_comm, mul_assoc, mul_one, mul_add,
    }

    pub add_left_comm : (a b c : N) → add a (add b c) ≡ add b (add a c)
    add_left_comm a b c = sym (add_assoc a b c) ∙ ap (λ t. add t c) (add_comm a b) ∙ add_assoc b a c

    mul_left_comm : (a b c : N) → mul a (mul b c) ≡ mul b (mul a c)
    mul_left_comm a b c = sym (mul_assoc a b c) ∙ ap (λ t. mul t c) (mul_comm a b) ∙ mul_assoc b a c

    zero_add : (a : N) → add (num 0) a ≡ a
    zero_add a = add_comm (num 0) a ∙ add_zero a

    pub neg-add_cancel : (a b : N) → add (neg a) (add a b) ≡ b
    neg-add_cancel a b =
        sym (add_assoc (neg a) a b)
        ∙ ap (λ t. add t b) (add_comm (neg a) a ∙ add_neg a)
        ∙ zero_add b

    add-neg_cancel : (a b : N) → add a (add (neg a) b) ≡ b
    add-neg_cancel a b = sym (add_assoc a (neg a) b) ∙ ap (λ t. add t b) (add_neg a) ∙ zero_add b

    pub add_cancel : (a b c : N) → add a b ≡ add a c → b ≡ c
    add_cancel a b c e = sym (neg-add_cancel a b) ∙ ap (λ t. add (neg a) t) e ∙ neg-add_cancel a c

    neg_unique : (a b : N) → add a b ≡ num 0 → b ≡ neg a
    neg_unique a b e = add_cancel a b (neg a) (e ∙ sym (add_neg a))

    pub neg-neg : (a : N) → neg (neg a) ≡ a
    neg-neg a = sym (neg_unique (neg a) a (add_comm (neg a) a ∙ add_neg a))

    pub neg_zero : ◌≡◌ {A = N} (neg (num 0)) (num 0)
    neg_zero = sym (neg_unique (num 0) (num 0) (add_zero (num 0)))

    neg-add : (a b : N) → neg (add a b) ≡ add (neg a) (neg b)
    neg-add a b = sym (neg_unique (add a b) (add (neg a) (neg b)) cancelled)
      where
        cancelled : add (add a b) (add (neg a) (neg b)) ≡ num 0
        cancelled =
            add_assoc a b (add (neg a) (neg b))
            ∙ ap (λ t. add a t) (add_left_comm b (neg a) (neg b))
            ∙ add-neg_cancel a (add b (neg b))
            ∙ add_neg b

    mul_zero : (a : N) → mul a (num 0) ≡ num 0
    mul_zero a = sym (
        add_cancel (mul a (num 0)) (num 0) (mul a (num 0)) (
          add_zero (mul a (num 0))
          ∙ ap (λ t. mul a t) (sym (add_zero (num 0)))
          ∙ mul_add a (num 0) (num 0)))

    mul-neg : (a b : N) → mul a (neg b) ≡ neg (mul a b)
    mul-neg a b =
        neg_unique (mul a b) (mul a (neg b))
          (sym (mul_add a b (neg b)) ∙ ap (λ t. mul a t) (add_neg b) ∙ mul_zero a)

    mul-neg_left : (a b : N) → mul (neg a) b ≡ neg (mul a b)
    mul-neg_left a b = mul_comm (neg a) b ∙ mul-neg b a ∙ ap neg (mul_comm b a)

    eval-insert_var :
        (xs : List N) (i : ℕ) (js : List ℕ)
        → eval_vars xs (insert_var i js) ≡ mul (value xs i) (eval_vars xs js)
    eval-insert_var xs i [] = refl
    eval-insert_var xs i (j ∷ js) = elim (Bool-cases (leb i j)) [
      | inl e ↦ rw e
      | inr e ↦
          rw (e, eval-insert_var xs i js)
            (mul_left_comm (value xs j) (value xs i) (eval_vars xs js))
    ]

    eval-merge_vars :
        (xs : List N) (is js : List ℕ)
        → eval_vars xs (merge_vars is js) ≡ mul (eval_vars xs is) (eval_vars xs js)
    eval-merge_vars xs [] js = sym (mul_comm (num 1) _ ∙ mul_one _)
    eval-merge_vars xs (i ∷ is) js =
        eval-insert_var xs i (merge_vars is js)
        ∙ ap (λ t. mul (value xs i) t) (eval-merge_vars xs is js)
        ∙ sym (mul_assoc _ _ _)

    sign-differ : (s t : Bool) (a b : N) → sign (differ s t) (mul a b) ≡ mul (sign s a) (sign t b)
    sign-differ true true a b =
        sym (mul-neg_left a (neg b) ∙ ap neg (mul-neg a b) ∙ neg-neg (mul a b))
    sign-differ true false a b = sym (mul-neg_left a b)
    sign-differ false true a b = sym (mul-neg a b)
    sign-differ false false a b = refl

    eval-product :
        (xs : List N) (m n : Monomial)
        → eval_mono xs (product m n) ≡ mul (eval_mono xs m) (eval_mono xs n)
    eval-product xs m n =
        rw (eval-merge_vars xs m.vars n.vars) (sign-differ m.negative n.negative _ _)

    sign-cancels :
        (s t : Bool) (a b : N) → differ s t ≡ true → add (sign s a) (add (sign t a) b) ≡ b
    sign-cancels true true a b h = ground arith
    sign-cancels true false a b h = neg-add_cancel a b
    sign-cancels false true a b h = add-neg_cancel a b
    sign-cancels false false a b h = ground arith

    eval-insert :
        (xs : List N) (m : Monomial) (p : List Monomial)
        → eval_poly xs (insert m p) ≡ add (eval_mono xs m) (eval_poly xs p)
    eval-insert xs m [] = refl
    eval-insert xs m (n ∷ p) = elim (Bool-cases (cancels m n)) [
      | inl e ↦
          let same : m.vars ≡ n.vars = same_vars→eq m.vars n.vars (ground arith) in
          rw (e, same)
            (sym (sign-cancels m.negative n.negative (eval_vars xs n.vars) _ (ground arith)))
      | inr e ↦ rw (e, eval-insert xs m p) (add_left_comm _ _ _)
    ]

    eval-sum :
        (xs : List N) (p q : List Monomial)
        → eval_poly xs (sum p q) ≡ add (eval_poly xs p) (eval_poly xs q)
    eval-sum xs [] q = sym (zero_add _)
    eval-sum xs (m ∷ p) q = rw (eval-insert xs m (sum p q), eval-sum xs p q) (sym (add_assoc _ _ _))

    sign-not : (s : Bool) (a : N) → sign (not s) a ≡ neg (sign s a)
    sign-not true a = sym (neg-neg a)
    sign-not false a = refl

    eval-flip : (xs : List N) (p : List Monomial) → eval_poly xs (flip p) ≡ neg (eval_poly xs p)
    eval-flip xs [] = sym neg_zero
    eval-flip xs (m ∷ p) =
        rw (eval-flip xs p, sign-not m.negative (eval_vars xs m.vars)) (sym (neg-add _ _))

    eval-scale :
        (xs : List N) (m : Monomial) (p : List Monomial)
        → eval_poly xs (scale m p) ≡ mul (eval_mono xs m) (eval_poly xs p)
    eval-scale xs m [] = sym (mul_zero _)
    eval-scale xs m (n ∷ p) =
        eval-insert xs (product m n) (scale m p)
        ∙ rw (eval-product xs m n, eval-scale xs m p) (sym (mul_add _ _ _))

    mul-add_left : (a b c : N) → mul (add a b) c ≡ add (mul a c) (mul b c)
    mul-add_left a b c = rw (mul_comm (add a b) c, mul_comm a c, mul_comm b c) (mul_add c a b)

    eval-multiply :
        (xs : List N) (p q : List Monomial)
        → eval_poly xs (multiply p q) ≡ mul (eval_poly xs p) (eval_poly xs q)
    eval-multiply xs [] q = sym (mul_comm (num 0) _ ∙ mul_zero _)
    eval-multiply xs (m ∷ p) q =
        eval-sum xs (scale m q) (multiply p q)
        ∙ rw (eval-scale xs m q, eval-multiply xs p q) (sym (mul-add_left _ _ _))

    eval-norm : (xs : List N) (a : Expr) → eval_poly xs (norm a) ≡ eval xs a
    eval-norm xs (var i) = add_zero _ ∙ mul_one (value xs i)
    eval-norm xs nought = refl
    eval-norm xs one = add_zero (num 1)
    eval-norm xs (plus a b) = eval-sum xs (norm a) (norm b) ∙ rw (eval-norm xs a, eval-norm xs b)
    eval-norm xs (minus a b) =
        eval-sum xs (norm a) (flip (norm b))
        ∙ rw (eval-flip xs (norm b), eval-norm xs a, eval-norm xs b) (sym (sub_lem _ _))
    eval-norm xs (times a b) =
        eval-multiply xs (norm a) (norm b) ∙ rw (eval-norm xs a, eval-norm xs b)
    eval-norm xs (negated a) = eval-flip xs (norm a) ∙ ap neg (eval-norm xs a)

    pub sub_zero-eq : (a b : N) → sub a b ≡ num 0 → a ≡ b
    sub_zero-eq a b e =
        sym (neg-neg a) ∙ ap neg (sym (neg_unique a (neg b) (sym (sub_lem a b) ∙ e))) ∙ neg-neg b

    -- `ring_eq laws xs a b refl` proves that the expressions agree at the values `xs`.
    pub ring_eq : (xs : List N) (a b : Expr) → norm (minus a b) ≡ [] → eval xs a ≡ eval xs b
    ring_eq xs a b e = sub_zero-eq _ _ (sym (eval-norm xs (minus a b)) ∙ ap (λ p. eval_poly xs p) e)

    pub add-sub_cancel : (a b : N) → add a (sub b a) ≡ b
    add-sub_cancel a b = ring_eq (a ∷ b ∷ []) (plus (var 0) (minus (var 1) (var 0))) (var 1) refl

    pub add-sub : (a b : N) → sub (add a b) a ≡ b
    add-sub a b = ring_eq (a ∷ b ∷ []) (minus (plus (var 0) (var 1)) (var 0)) (var 1) refl
