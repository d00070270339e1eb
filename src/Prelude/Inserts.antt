-- ===== src/Prelude/Inserts.antt =====
-- Tables that grow or shrink: the constraints of an INSERT ... SELECT and of a DELETE.
use Prim.Native.Nat.{suc}
use mathlib.Core.Path.{◌≡◌, refl, ap}
use mathlib.Core.Logic.{inl, inr}
use mathlib.Core.Bool.{Bool, true, false, not, ◌||◌}
use mathlib.Core.List.{List, [], ◌∷◌, ◌++◌, map}
use native.Mathlib.Omega.{arith}
use pg_task_scheduler.Prelude.Tests.{if◌then◌else◌, Bool-cases}
use pg_task_scheduler.Prelude.Lists.{count, select, any, all, length, update_where, All}
use pg_task_scheduler.Prelude.Unique.{unique}

module _ {ℓ} {A : Type ℓ} where
  pub any-append : (p : A → Bool) (xs ys : List A) → any p (xs ++ ys) ≡ (any p xs || any p ys)
  unfolding any
  any-append p [] ys = refl
  any-append p (x ∷ xs) ys = ground (arith, any-append p xs ys)

  pub any-mono_false :
      (p q : A → Bool) (xs : List A)
      → ((x : A) → p x ≡ true → q x ≡ true)
      → any q xs ≡ false
      → any p xs ≡ false
  unfolding any
  any-mono_false p q [] sub h = refl
  any-mono_false p q (x ∷ xs) sub h = ground (arith, sub x, any-mono_false p q xs sub)

  pub unique-append :
      (same : A → A → Bool) (xs ys : List A)
      → unique same xs ≡ true
      → unique same ys ≡ true
      → All (λ x. any (same x) ys ≡ false) xs
      → unique same (xs ++ ys) ≡ true
  unfolding unique
  unique-append same [] ys hx hy apart = hy
  unique-append same (x ∷ xs) ys hx hy apart = ground (
    arith,
    any-append (same x) xs ys,
    unique-append same xs ys (ground arith) hy apart.1,
    apart.0,
  )

  pub count-none_All : (p : A → Bool) (xs : List A) → All (λ x. p x ≡ false) xs → count p xs ≡ 0
  unfolding count
  count-none_All p [] h = refl
  count-none_All p (x ∷ xs) h = rw h.0 (omega (arith, count-none_All p xs h.1))

  -- Every row after an UPDATE, from what holds of each row and its update.
  pub all-updated :
      (c p : A → Bool) (f : A → A) (xs : List A)
      → All (λ x. c (if p x then f x else x) ≡ true) xs
      → all c (update_where p f xs) ≡ true
  unfolding all update_where
  all-updated c p f [] h = refl
  all-updated c p f (x ∷ xs) h = rw h.0 (all-updated c p f xs h.1)

  pub all-select : (c p : A → Bool) (xs : List A) → all c xs ≡ true → all c (select p xs) ≡ true
  unfolding all select
  all-select c p [] h = refl
  all-select c p (x ∷ xs) h = ground (arith, all-select c p xs)

  pub all-select_of :
      (c p : A → Bool) (xs : List A)
      → All (λ x. p x ≡ true → c x ≡ true) xs
      → all c (select p xs) ≡ true
  unfolding all select
  all-select_of c p [] h = refl
  all-select_of c p (x ∷ xs) h = elim (Bool-cases (p x)) [
    | inl e ↦ rw (e, h.0 e) (all-select_of c p xs h.1)
    | inr e ↦ rw e (all-select_of c p xs h.1)
  ]

  any-select-false : (q p : A → Bool) (xs : List A) → any q xs ≡ false → any q (select p xs) ≡ false
  unfolding any select
  any-select-false q p [] h = refl
  any-select-false q p (x ∷ xs) h = ground (arith, any-select-false q p xs)

  pub unique-select :
      (same : A → A → Bool) (p : A → Bool) (xs : List A)
      → unique same xs ≡ true
      → unique same (select p xs) ≡ true
  unfolding unique select
  unique-select same p [] h = refl
  unique-select same p (x ∷ xs) h =
      ground (arith, any-select-false (same x) p xs, unique-select same p xs)

  pub any-select-not :
      (q p : A → Bool) (xs : List A) → any q xs ≡ false → not (any q (select p xs)) ≡ true
  any-select-not q p xs h = ap not (any-select-false q p xs h)

  -- An UPDATE that sets what is there already.
  pub update_where-same :
      (p : A → Bool) (f : A → A) (xs : List A)
      → ((x : A) → p x ≡ true → f x ≡ x)
      → update_where p f xs ≡ xs
  unfolding update_where
  update_where-same p f [] same = refl
  update_where-same p f (x ∷ xs) same = elim (Bool-cases (p x)) [
    | inl e ↦ rw (e, same x e, update_where-same p f xs same)
    | inr e ↦ rw (e, update_where-same p f xs same)
  ]

module _ {ℓ κ} {A : Type ℓ} {B : Type κ} where
  pub count-map :
      (p : B → Bool) (g : A → B) (xs : List A) → count p (map g xs) ≡ count (λ x. p (g x)) xs
  unfolding count
  count-map p g [] = refl
  count-map p g (x ∷ xs) = rw (count-map p g xs)

  pub map-append : (g : A → B) (xs ys : List A) → map g (xs ++ ys) ≡ map g xs ++ map g ys
  map-append g [] ys = refl
  map-append g (x ∷ xs) ys = ap (λ rest. g x ∷ rest) (map-append g xs ys)

  pub length-map : (g : A → B) (xs : List A) → length (map g xs) ≡ length xs
  length-map g [] = refl
  length-map g (x ∷ xs) = ap suc (length-map g xs)

  pub all-map-select :
      (c : B → Bool) (p : A → Bool) (g : A → B) (xs : List A)
      → All (λ x. p x ≡ true → c (g x) ≡ true) xs
      → all c (map g (select p xs)) ≡ true
  unfolding all select
  all-map-select c p g [] h = refl
  all-map-select c p g (x ∷ xs) h = elim (Bool-cases (p x)) [
    | inl e ↦ rw (e, h.0 e) (all-map-select c p g xs h.1)
    | inr e ↦ rw e (all-map-select c p g xs h.1)
  ]

  any-map-select :
      (same : A → A → Bool) (same' : B → B → Bool) (p : A → Bool) (g : A → B) (x : A) (xs : List A)
      → ((x y : A) → same' (g x) (g y) ≡ true → same x y ≡ true)
      → any (same x) xs ≡ false
      → any (same' (g x)) (map g (select p xs)) ≡ false
  unfolding any select
  any-map-select same same' p g x [] sub h = refl
  any-map-select same same' p g x (y ∷ ys) sub h =
      ground (arith, sub x y, any-map-select same same' p g x ys sub)

  -- Rows made from rows that do not conflict do not conflict.
  pub unique-map-select :
      (same : A → A → Bool) (same' : B → B → Bool) (p : A → Bool) (g : A → B) (xs : List A)
      → ((x y : A) → same' (g x) (g y) ≡ true → same x y ≡ true)
      → unique same xs ≡ true
      → unique same' (map g (select p xs)) ≡ true
  unfolding unique select
  unique-map-select same same' p g [] sub h = refl
  unique-map-select same same' p g (x ∷ xs) sub h =
      ground
        (arith, any-map-select same same' p g x xs sub, unique-map-select same same' p g xs sub)
