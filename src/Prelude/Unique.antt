-- ===== src/Prelude/Unique.antt =====
-- Unique indexes: no two rows of a table conflict.
use Prim.Native.Nat.{◌≤◌}
use mathlib.Core.Path.{◌≡◌, refl, fun_ext, ap, ap₂, ◌∙◌}
use mathlib.Core.Logic.{inl, inr}
use mathlib.Core.Bool.{Bool, true, false, not, ◌&&◌}
use mathlib.Core.List.{List, [], ◌∷◌}
use native.Mathlib.Omega.{arith}
use pg_task_scheduler.Prelude.Tests.{if◌then◌else◌, Bool-cases}
use pg_task_scheduler.Prelude.Lists.{count, update_where, any}

module _ {ℓ} {A : Type ℓ} (same : A → A → Bool) where
  unfoldable pub unique : List A → Bool
  unique [] = true
  unique (x ∷ xs) = not (any (same x) xs) && unique xs

module _ {ℓ} {A : Type ℓ} where
  pub any-update_where :
      (q p : A → Bool) (f : A → A) (xs : List A)
      → ((x : A) → q (f x) ≡ q x)
      → any q (update_where p f xs) ≡ any q xs
  unfolding any update_where
  any-update_where q p f [] same = refl
  any-update_where q p f (x ∷ xs) same = ground (arith, same x, any-update_where q p f xs same)

  -- An update that leaves the key columns alone keeps the table unique.
  pub unique-update_where :
      (same : A → A → Bool) (p : A → Bool) (f : A → A) (xs : List A)
      → ((x y : A) → same (f x) y ≡ same x y)
      → ((x y : A) → same x (f y) ≡ same x y)
      → unique same (update_where p f xs) ≡ unique same xs
  unfolding unique update_where
  unique-update_where same p f [] left right = refl
  unique-update_where same p f (x ∷ xs) left right =
      ap₂ (λ b c. not b && c)
        (any-update_where (same (if p x then f x else x)) p f xs (right (if p x then f x else x))
          ∙ ap (λ q. any q xs) (fun_ext (head (p x))))
        (unique-update_where same p f xs left right)
    where
      head : (b : Bool) (y : A) → same (if b then f x else x) y ≡ same x y
      head true y = left x y
      head false y = refl

  count-any-false :
      (q p : A → Bool) (xs : List A)
      → ((x : A) → p x ≡ true → q x ≡ true)
      → any q xs ≡ false
      → count p xs ≡ 0
  unfolding any count
  count-any-false q p [] sub h = refl
  count-any-false q p (x ∷ xs) sub h = ground (arith, sub x, count-any-false q p xs sub)

  -- Rows that pass a test under which any two conflict: there is at most one.
  pub unique-count :
      (same : A → A → Bool) (p : A → Bool) (xs : List A)
      → ((x y : A) → p x ≡ true → p y ≡ true → same x y ≡ true)
      → unique same xs ≡ true
      → count p xs ≤ 1
  unfolding unique count
  unique-count same p [] clash h = omega arith
  unique-count same p (x ∷ xs) clash h = elim (Bool-cases (p x)) [
    | inl e ↦ rw e (ground (arith, count-any-false (same x) p xs (λ y. clash x y e)))
    | inr e ↦ rw e (ground (arith, unique-count same p xs clash))
  ]
