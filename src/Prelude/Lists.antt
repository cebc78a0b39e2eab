-- ===== src/Prelude/Lists.antt =====
-- Lists over the native numbers, and the functions that stand for SQL statements on a table:
-- `select` for SELECT … WHERE, `first` for LIMIT 1, `update_where` for UPDATE … WHERE.
use Prim.Native.Nat.{ℕ, suc, ◌+◌, ◌≤◌}
use mathlib.Core.Path.{◌≡◌, refl}
use mathlib.Core.Bool.{Bool, true, false, ◌||◌}
use mathlib.Core.Option.{Option, none, some}
use mathlib.Core.List.{List, [], ◌∷◌, ◌++◌, map}
use mathlib.Core.Logic.{inl, inr}
use native.Mathlib.Omega.{arith}
use devops_manager.Prelude.Tests.{◌==◌, if◌then◌else◌, Bool-cases}

abbrev pub elem : ℕ → List ℕ → Bool
elem k [] = false
elem k (j ∷ js) = j == k || elem k js

module _ {ℓ} {A : Type ℓ} where
  abbrev pub length : List A → ℕ
  length [] = 0
  length (x ∷ xs) = suc (length xs)

  -- A predicate by recursion, which the tactics read and build.
  abbrev pub All {κ} : (A → Type κ) → List A → Type κ
  All P [] = Unit
  All P (x ∷ xs) = P x × All P xs

  abbrev pub select : (A → Bool) → List A → List A
  select p [] = []
  select p (x ∷ xs) = if p x then x ∷ select p xs else select p xs

  abbrev pub first : (A → Bool) → List A → Option A
  first p [] = none
  first p (x ∷ xs) = if p x then some x else first p xs

  abbrev pub update_where : (A → Bool) → (A → A) → List A → List A
  update_where p f [] = []
  update_where p f (x ∷ xs) = (if p x then f x else x) ∷ update_where p f xs

  abbrev pub count_where : (A → Bool) → List A → ℕ
  count_where p [] = 0
  count_where p (x ∷ xs) = (if p x then 1 else 0) + count_where p xs

  pub length-append : (xs ys : List A) → length (xs ++ ys) ≡ length xs + length ys
  length-append [] ys = omega arith
  length-append (x ∷ xs) ys = omega (arith, length-append xs ys)

  pub count_where-append :
      (p : A → Bool) (xs ys : List A)
      → count_where p (xs ++ ys) ≡ count_where p xs + count_where p ys
  count_where-append p [] ys = omega arith
  count_where-append p (x ∷ xs) ys = omega (arith, count_where-append p xs ys)

  pub count_where-le-length : (p : A → Bool) (xs : List A) → count_where p xs ≤ length xs
  count_where-le-length p [] = omega arith
  count_where-le-length p (x ∷ xs) = ground (arith, count_where-le-length p xs)

  pub count_where-disjoint :
      (p q r : A → Bool) (xs : List A)
      → ((x : A) → (if p x then 1 else 0) + (if q x then 1 else 0) ≡ (if r x then ◌+◌ 1 0 else 0))
      → count_where p xs + count_where q xs ≡ count_where r xs
  count_where-disjoint p q r [] h = omega arith
  count_where-disjoint p q r (x ∷ xs) h = omega (arith, h x, count_where-disjoint p q r xs h)

  -- How the statements combine.
  pub count_where-zero :
      (p : A → Bool) (xs : List A) → All (λ x. p x ≡ false) xs → count_where p xs ≡ 0
  count_where-zero p [] h = refl
  count_where-zero p (x ∷ xs) h = ground (arith, count_where-zero p xs h.1, h.0)

  pub first-update_where :
      (q p : A → Bool) (f : A → A) (xs : List A)
      → ((x : A) → q (f x) ≡ q x)
      → first q (update_where p f xs)
        ≡ elim (first q xs) [ none ↦ none | some x ↦ some (if p x then f x else x) ]
  first-update_where q p f [] h = refl
  first-update_where q p f (x ∷ xs) h = ground (arith, first-update_where q p f xs h, h x)

  pub first-holds : (q : A → Bool) (x : A) (xs : List A) → first q xs ≡ some x → q x ≡ true
  first-holds q x [] h = cc
  first-holds q x (y ∷ ys) h = elim (Bool-cases (q y)) [
    | inl e ↦ ground (arith, e)
    | inr e ↦ first-holds q x ys (rw e at h)
  ]

  pub All-update_where {κ} :
      (P : A → Type κ) (p : A → Bool) (f : A → A) (xs : List A)
      → ((x : A) → P (if p x then f x else x))
      → All P (update_where p f xs)
  All-update_where P p f [] h = tt
  All-update_where P p f (x ∷ xs) h = (h x, All-update_where P p f xs h)

  -- Rows that an update leaves out are left as they are.
  pub select-update_where :
      (q p : A → Bool) (f : A → A) (xs : List A)
      → ((x : A) → q (f x) ≡ q x)
      → ((x : A) → p x ≡ true → q x ≡ false)
      → select q (update_where p f xs) ≡ select q xs
  select-update_where q p f [] keep apart = refl
  select-update_where q p f (x ∷ xs) keep apart =
      ground (arith, select-update_where q p f xs keep apart, keep x, apart x)

  pub count_where-update_where :
      (q p : A → Bool) (f : A → A) (xs : List A)
      → ((x : A) → q (if p x then f x else x) ≡ q x)
      → count_where q (update_where p f xs) ≡ count_where q xs
  count_where-update_where q p f [] h = refl
  count_where-update_where q p f (x ∷ xs) h = rw (h x, count_where-update_where q p f xs h)

  pub map-update_where {κ} :
      {B : Type κ} (g : A → B) (p : A → Bool) (f : A → A) (xs : List A)
      → ((x : A) → g (f x) ≡ g x)
      → map g (update_where p f xs) ≡ map g xs
  map-update_where g p f [] h = refl
  map-update_where g p f (x ∷ xs) h = ground (arith, map-update_where g p f xs h, h x)

  -- A condition that an update does not look into selects the updated rows.
  pub map-select-update_where {κ} :
      {B : Type κ} (g : A → B) (q p : A → Bool) (f : A → A) (xs : List A)
      → ((x : A) → g (f x) ≡ g x)
      → ((x : A) → q (f x) ≡ q x)
      → map g (select q (update_where p f xs)) ≡ map g (select q xs)
  map-select-update_where g q p f [] h k = refl
  map-select-update_where g q p f (x ∷ xs) h k =
      ground (arith, map-select-update_where g q p f xs h k, h x, k x)

  -- An update row by row.
  pub update_where-map :
      (p : A → Bool) (f : A → A) (xs : List A)
      → update_where p f xs ≡ map (λ x. if p x then f x else x) xs
  update_where-map p f [] = refl
  update_where-map p f (x ∷ xs) = rw (update_where-map p f xs)

  -- A condition that holds is not tested again.
  pub select_twice : (p : A → Bool) (xs : List A) → select p (select p xs) ≡ select p xs
  select_twice p [] = refl
  select_twice p (x ∷ xs) = ground (arith, select_twice p xs)
