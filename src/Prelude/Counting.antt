-- ===== src/Prelude/Counting.antt =====
-- Counting rows: the algebra of tests, and what selecting, ordering and cutting keep.
use Prim.Native.Nat.{ℕ, zero, suc, ◌+◌, ◌≤◌, ◌<◌}
use mathlib.Core.Path.{◌≡◌, refl}
use mathlib.Core.Logic.{◌⊎◌, inl, inr}
use mathlib.Core.Bool.{Bool, true, false, not, ◌&&◌, ◌||◌}
use mathlib.Core.List.{List, [], ◌∷◌}
use native.Mathlib.Omega.{arith}
use pg_task_scheduler.Prelude.Tests.{if◌then◌else◌, Bool-cases}
use pg_task_scheduler.Prelude.Lists.{
  length, count, select, any, all, take, insert_by, order_by, update_where, All, All-map,
}

module _ {ℓ} {A : Type ℓ} where
  pub count_mono :
      (p q : A → Bool) (xs : List A) → ((x : A) → p x ≡ true → q x ≡ true) → count p xs ≤ count q xs
  unfolding count
  count_mono p q [] sub = omega arith
  count_mono p q (x ∷ xs) sub = ground (arith, sub x, count_mono p q xs sub)

  pub count-congr : (p q : A → Bool) (xs : List A) → ((x : A) → p x ≡ q x) → count p xs ≡ count q xs
  unfolding count
  count-congr p q [] same = refl
  count-congr p q (x ∷ xs) same = ground (arith, same x, count-congr p q xs same)

  pub count-none : (p : A → Bool) (xs : List A) → ((x : A) → p x ≡ false) → count p xs ≡ 0
  unfolding count
  count-none p [] never = refl
  count-none p (x ∷ xs) never = ground (arith, never x, count-none p xs never)

  pub count-split :
      (p q : A → Bool) (xs : List A)
      → count p xs ≡ count (λ x. p x && q x) xs + count (λ x. p x && not (q x)) xs
  unfolding count
  count-split p q [] = omega arith
  count-split p q (x ∷ xs) = ground (arith, count-split p q xs)

  pub count-or-and :
      (p q : A → Bool) (xs : List A)
      → count p xs + count q xs ≡ count (λ x. p x || q x) xs + count (λ x. p x && q x) xs
  unfolding count
  count-or-and p q [] = omega arith
  count-or-and p q (x ∷ xs) = ground (arith, count-or-and p q xs)

  pub count-update_where_split :
      (h p : A → Bool) (f : A → A) (xs : List A)
      → count h (update_where p f xs)
        ≡ count (λ x. h x && not (p x)) xs + count (λ x. p x && h (f x)) xs
  unfolding count update_where
  count-update_where_split h p f [] = omega arith
  count-update_where_split h p f (x ∷ xs) = ground (arith, count-update_where_split h p f xs)

  pub count-any : (p : A → Bool) (xs : List A) → any p xs ≡ true → 0 < count p xs
  unfolding any count
  count-any p [] h = ground arith
  count-any p (x ∷ xs) h = ground (arith, count-any p xs)

  pub count-select :
      (p s : A → Bool) (xs : List A) → count p (select s xs) ≡ count (λ x. p x && s x) xs
  unfolding count select
  count-select p s [] = refl
  count-select p s (x ∷ xs) = ground (arith, count-select p s xs)

  count-insert_by :
      (p : A → Bool) (before : A → A → Bool) (x : A) (xs : List A)
      → count p (insert_by before x xs) ≡ (if p x then 1 else 0) + count p xs
  unfolding count insert_by
  count-insert_by p before x [] = refl
  count-insert_by p before x (y ∷ ys) = ground (arith, count-insert_by p before x ys)

  pub count-order_by :
      (p : A → Bool) (before : A → A → Bool) (xs : List A)
      → count p (order_by before xs) ≡ count p xs
  unfolding count order_by
  count-order_by p before [] = refl
  count-order_by p before (x ∷ xs) =
      omega (arith, count-insert_by p before x (order_by before xs), count-order_by p before xs)

  pub count-take-le : (p : A → Bool) (n : ℕ) (xs : List A) → count p (take n xs) ≤ count p xs
  unfolding count
  count-take-le p zero xs = omega arith
  count-take-le p (suc n) [] = omega arith
  count-take-le p (suc n) (x ∷ xs) = ground (arith, count-take-le p n xs)

  -- A row of a table that passes a test is counted.
  pub All-counted : (xs : List A) → All (λ x. (p : A → Bool) → p x ≡ true → 0 < count p xs) xs
  unfolding count
  All-counted [] = tt
  All-counted (x ∷ xs) =
      (λ p h. ground arith, All-map xs (λ y rest p h. omega (arith, rest p h)) (All-counted xs))

  pub select-nil_count : (p : A → Bool) (xs : List A) → select p xs ≡ [] → count p xs ≡ 0
  unfolding select count
  select-nil_count p [] h = refl
  select-nil_count p (x ∷ xs) h = ground (arith, select-nil_count p xs)

  pub select-cons_count :
      (p : A → Bool) (xs : List A) (y : A) (ys : List A) → select p xs ≡ y ∷ ys → 0 < count p xs
  unfolding select count
  select-cons_count p [] y ys h = ground arith
  select-cons_count p (x ∷ xs) y ys h = ground (arith, select-cons_count p xs y ys)

  -- An update that no row is due for.
  pub update_where-none :
      (p : A → Bool) (f : A → A) (xs : List A) → count p xs ≡ 0 → update_where p f xs ≡ xs
  unfolding count update_where
  update_where-none p f [] h = refl
  update_where-none p f (x ∷ xs) h = ground (arith, update_where-none p f xs)

  pub List-cases : (xs : List A) → (xs ≡ []) ⊎ ((y : A) × (ys : List A) × (xs ≡ y ∷ ys))
  List-cases [] = inl refl
  List-cases (x ∷ xs) = inr (x, xs, refl)

  pub any-of_count : (p : A → Bool) (xs : List A) → count p xs ≡ 0 → any p xs ≡ false
  unfolding any count
  any-of_count p [] h = refl
  any-of_count p (x ∷ xs) h = ground (arith, any-of_count p xs)

  pub any-of_pos : (p : A → Bool) (xs : List A) → 0 < count p xs → any p xs ≡ true
  unfolding any count
  any-of_pos p [] h = ground arith
  any-of_pos p (x ∷ xs) h = ground (arith, any-of_pos p xs)

  -- A selected row meets what every row of the table does, and passes the test.
  pub select-head :
      (c p : A → Bool) (xs : List A) (y : A) (ys : List A)
      → all c xs ≡ true
      → select p xs ≡ y ∷ ys
      → (c y ≡ true) × (p y ≡ true)
  unfolding select all
  select-head c p [] y ys h e = cc
  select-head c p (x ∷ xs) y ys h e = ground (arith, select-head c p xs y ys)

  -- Some row passes the test, and is counted under every test that it passes.
  pub count-witness :
      (p : A → Bool) (xs : List A)
      → 0 < count p xs
      → (x : A) × (p x ≡ true) × ((q : A → Bool) → q x ≡ true → 0 < count q xs)
  unfolding count
  count-witness p [] h = absurd (omega arith)
  count-witness p (x ∷ xs) h = elim (Bool-cases (p x)) [
    | inl hit ↦ (x, hit, λ q e. ground arith)
    | inr miss ↦
        let (y, e, counted) = count-witness p xs (ground arith) in
        (y, e, λ q e'. omega (arith, counted q e'))
  ]

  all-count : (c : A → Bool) (xs : List A) → all c xs ≡ true → count (λ x. not (c x)) xs ≡ 0
  unfolding all count
  all-count c [] h = refl
  all-count c (x ∷ xs) h = ground (arith, all-count c xs)

  pub count-and-const :
      (b : Bool) (p q : A → Bool) (xs : List A)
      → ((x : A) → p x ≡ true → q x ≡ b)
      → count (λ x. p x && q x) xs ≡ (if b then count p xs else 0)
  unfolding count
  count-and-const true p q [] same = refl
  count-and-const false p q [] same = refl
  count-and-const true p q (x ∷ xs) same = ground (arith, same x, count-and-const true p q xs same)
  count-and-const false p q (x ∷ xs) same =
      ground (arith, same x, count-and-const false p q xs same)

  -- The rows of a cut, ordered selection are rows of the table that pass its test.
  pub count-candidates :
      (q s : A → Bool) (before : A → A → Bool) (n : ℕ) (xs : List A)
      → count q (take n (order_by before (select s xs))) ≤ count (λ x. q x && s x) xs
  count-candidates q s before n xs = omega (
    arith,
    count-take-le q n (order_by before (select s xs)),
    count-order_by q before (select s xs),
    count-select q s xs,
  )

  -- A row that is counted under every test that it passes meets what every row does.
  pub all-counted :
      (c : A → Bool) (xs : List A) (x : A)
      → all c xs ≡ true
      → ((q : A → Bool) → q x ≡ true → 0 < count q xs)
      → c x ≡ true
  all-counted c xs x h counted = elim (Bool-cases (c x)) [
    | inl e ↦ e
    | inr e ↦ absurd (omega (arith, counted (λ y. not (c y)) (rw e), all-count c xs h))
  ]

  pub count-not_any : (p : A → Bool) (xs : List A) → any p xs ≡ false → count p xs ≡ 0
  unfolding any count
  count-not_any p [] h = refl
  count-not_any p (x ∷ xs) h = ground (arith, count-not_any p xs)

  pub select-pos :
      (p : A → Bool) (xs : List A)
      → 0 < count p xs
      → (y : A) × (ys : List A) × (select p xs ≡ y ∷ ys)
  select-pos p xs h = elim (List-cases (select p xs)) [
    | inl e ↦ absurd (omega (arith, select-nil_count p xs e))
    | inr found ↦ found
  ]

  pub select-none : (p : A → Bool) (xs : List A) → count p xs ≡ 0 → select p xs ≡ []
  unfolding select count
  select-none p [] h = refl
  select-none p (x ∷ xs) h = ground (arith, select-none p xs)

  pub all-of_count : (c : A → Bool) (xs : List A) → count (λ x. not (c x)) xs ≡ 0 → all c xs ≡ true
  unfolding all count
  all-of_count c [] h = refl
  all-of_count c (x ∷ xs) h = ground (arith, all-of_count c xs)

  pub all-order_by :
      (c : A → Bool) (before : A → A → Bool) (xs : List A)
      → all c xs ≡ true
      → all c (order_by before xs) ≡ true
  all-order_by c before xs h =
      all-of_count c (order_by before xs)
        (omega (arith, count-order_by (λ (x : A). not (c x)) before xs, all-count c xs h))

  pub select-all : (p : A → Bool) (xs : List A) → all p xs ≡ true → select p xs ≡ xs
  unfolding all select
  select-all p [] h = refl
  select-all p (x ∷ xs) h = ground (arith, select-all p xs)

  count-true : (xs : List A) → count (λ x. true) xs ≡ length xs
  unfolding count
  count-true [] = refl
  count-true (x ∷ xs) = omega (arith, count-true xs)

  pub length-order_by :
      (before : A → A → Bool) (xs : List A) → length (order_by before xs) ≡ length xs
  length-order_by before xs = omega (
    arith,
    count-true (order_by before xs),
    count-true xs,
    count-order_by (λ (x : A). true) before xs,
  )
