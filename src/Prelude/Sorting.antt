-- ===== src/Prelude/Sorting.antt =====
-- `ORDER BY` and `LIMIT`: what is taken comes before what is left.
use Prim.Native.Nat.{ℕ, zero, suc, ◌<◌}
use mathlib.Core.Path.{◌≡◌, refl, ap}
use mathlib.Core.Logic.{inl, inr}
use mathlib.Core.Bool.{Bool, true, false}
use mathlib.Core.List.{List, [], ◌∷◌}
use native.Mathlib.Omega.{arith}
use pg_task_scheduler.Prelude.Tests.{Bool-cases}
use pg_task_scheduler.Prelude.Lists.{
  length, take, count, All, All-map, All-all, insert_by, order_by,
}
use pg_task_scheduler.Prelude.Counting.{count-witness, all-counted, count-take-le, count-order_by}

module _ {ℓ} {A : Type ℓ} (before : A → A → Bool)
    (total : (x y : A) → before x y ≡ false → before y x ≡ true)
    (transitive : (x y z : A) → before x y ≡ true → before y z ≡ true → before x z ≡ true) where
  abbrev pub Sorted : List A → Type 0
  Sorted [] = Unit {0}
  Sorted (x ∷ xs) = (All (λ y. before x y ≡ true) xs) × Sorted xs

  insert_by-All :
      (p : A → Type 0) (x : A) (xs : List A) → p x → All p xs → All p (insert_by before x xs)
  unfolding insert_by
  insert_by-All p x [] h hs = (h, tt)
  insert_by-All p x (y ∷ ys) h hs = elim (Bool-cases (before x y)) [
    | inl e ↦ rw e (h, hs)
    | inr e ↦ rw e (hs.0, insert_by-All p x ys h hs.1)
  ]

  insert_by-Sorted : (x : A) (xs : List A) → Sorted xs → Sorted (insert_by before x xs)
  unfolding insert_by
  insert_by-Sorted x [] s = (tt, tt)
  insert_by-Sorted x (y ∷ ys) s = elim (Bool-cases (before x y)) [
    | inl e ↦ rw e ((e, All-map ys (λ z h. transitive x y z e h) s.0), s)
    | inr e ↦
        rw e
          (insert_by-All (λ z. before y z ≡ true) x ys (total x y e) s.0, insert_by-Sorted x ys s.1)
  ]

  order_by-Sorted : (xs : List A) → Sorted (order_by before xs)
  unfolding order_by
  order_by-Sorted [] = tt
  order_by-Sorted (x ∷ xs) = insert_by-Sorted x (order_by before xs) (order_by-Sorted xs)

  -- Of two rows of a sorted list, one taken and one left, the taken one comes first.
  Sorted-take_first :
      (n : ℕ) (xs : List A) (p q : A → Bool)
      → Sorted xs
      → 0 < count p (take n xs)
      → count q (take n xs) < count q xs
      → (x : A) × (y : A) × (p x ≡ true)
        × (q y ≡ true)
        × (before x y ≡ true)
        × ((c : A → Bool) → c x ≡ true → 0 < count c xs)
        × ((c : A → Bool) → c y ≡ true → 0 < count c xs)
  unfolding count
  Sorted-take_first zero xs p q s taken left = absurd (omega (arith, taken))
  Sorted-take_first (suc n) [] p q s taken left = absurd (omega (arith, taken))
  Sorted-take_first (suc n) (x ∷ xs) p q s taken left = elim (Bool-cases (p x)) [
    | inl hit ↦
        let (y, found, within) = count-witness q xs (omega (arith, left, count-take-le q n xs)) in
        (
          x,
          y,
          hit,
          found,
          all-counted (before x) xs y (All-all (before x) xs s.0) within,
          λ c h. ground arith,
          λ c h. omega (arith, within c h),
        )
    | inr miss ↦
        let (u, y, hit, found, first, in_u, in_y) =
          Sorted-take_first n xs p q s.1 (ground arith) (omega (arith, left)) in
        (u, y, hit, found, first, λ c h. omega (arith, in_u c h), λ c h. omega (arith, in_y c h))
  ]

  pub taken_first :
      (n : ℕ) (xs : List A) (p q : A → Bool)
      → 0 < count p (take n (order_by before xs))
      → count q (take n (order_by before xs)) < count q xs
      → (x : A) × (y : A) × (p x ≡ true)
        × (q y ≡ true)
        × (before x y ≡ true)
        × ((c : A → Bool) → c x ≡ true → 0 < count c xs)
        × ((c : A → Bool) → c y ≡ true → 0 < count c xs)
  taken_first n xs p q taken left =
      let (x, y, hit, found, first, in_x, in_y) =
        Sorted-take_first n (order_by before xs) p q (order_by-Sorted xs) taken
          (omega (arith, left, count-order_by q before xs)) in
      (
        x,
        y,
        hit,
        found,
        first,
        λ c h. omega (arith, in_x c h, count-order_by c before xs),
        λ c h. omega (arith, in_y c h, count-order_by c before xs),
      )

  take_full :
      (n : ℕ) (xs : List A) (q : A → Bool)
      → count q (take n xs) < count q xs
      → length (take n xs) ≡ n
  unfolding count
  take_full zero xs q left = refl
  take_full (suc n) [] q left = absurd (omega (arith, left))
  take_full (suc n) (x ∷ xs) q left = ap suc (take_full n xs q (omega (arith, left)))

  -- A row is left only if the limit is reached.
  pub left_full :
      (n : ℕ) (xs : List A) (q : A → Bool)
      → count q (take n (order_by before xs)) < count q xs
      → length (take n (order_by before xs)) ≡ n
  left_full n xs q left =
      take_full n (order_by before xs) q (omega (arith, left, count-order_by q before xs))
