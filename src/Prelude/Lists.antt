-- ===== src/Prelude/Lists.antt =====
-- Rows of a table as a list: the queries of the services, and their laws.
use Prim.Native.Nat.{ℕ, zero, suc, ◌+◌}
use mathlib.Core.Bool.{Bool, true, false}
use mathlib.Core.List.{List, [], ◌∷◌}
use mathlib.Core.Option.{Option, none, some}
use mathlib.Core.Path.{◌≡◌, refl, subst}
use mathlib.Core.Logic.{inl, inr}
use native.Mathlib.Omega.{arith}
use samy.Prelude.Tests.{if◌then◌else◌, Bool-cases}

module _ {ℓ} {A : Type ℓ} where
  abbrev pub length : List A → ℕ
  length [] = 0
  length (x ∷ xs) = suc (length xs)

  abbrev pub take : ℕ → List A → List A
  take zero xs = []
  take (suc n) [] = []
  take (suc n) (x ∷ xs) = x ∷ take n xs

  abbrev pub drop : ℕ → List A → List A
  drop zero xs = xs
  drop (suc n) [] = []
  drop (suc n) (x ∷ xs) = drop n xs

  -- `findFirst({ where })`, and `findUnique` where the test is on a unique column.
  abbrev pub find_first : (A → Bool) → List A → Option A
  find_first p [] = none
  find_first p (x ∷ xs) = if p x then some x else find_first p xs

  -- `findMany({ where })`.
  abbrev pub find_many : (A → Bool) → List A → List A
  find_many p [] = []
  find_many p (x ∷ xs) = let rest = find_many p xs in if p x then x ∷ rest else rest

  -- `updateMany({ where, data })`: the rows afterwards, and the number of rows that it changed.
  abbrev pub update_many : (A → Bool) → (A → A) → List A → List A
  update_many p f [] = []
  update_many p f (x ∷ xs) = (if p x then f x else x) ∷ update_many p f xs

  abbrev pub count : (A → Bool) → List A → ℕ
  count p [] = 0
  count p (x ∷ xs) = (if p x then 1 else 0) + count p xs

  -- `rows.some`, `rows.every`.
  abbrev pub any : (A → Bool) → List A → Bool
  any p [] = false
  any p (x ∷ xs) = if p x then true else any p xs

  abbrev pub all : (A → Bool) → List A → Bool
  all p [] = true
  all p (x ∷ xs) = if p x then all p xs else false

  -- `orderBy` and the stable `Array.sort`: rows that are not ordered keep their places.
  abbrev pub insert_by : (A → A → Bool) → A → List A → List A
  insert_by before x [] = x ∷ []
  insert_by before x (y ∷ ys) =
      let rest = insert_by before x ys in if before y x then y ∷ rest else x ∷ y ∷ ys

  abbrev pub sort_by : (A → A → Bool) → List A → List A
  sort_by before [] = []
  sort_by before (x ∷ xs) = insert_by before x (sort_by before xs)

  -- A predicate on every row.
  abbrev pub All {κ} : (A → Type κ) → List A → Type κ
  All P [] = Unit
  All P (x ∷ xs) = P x × All P xs

module _ {ℓ} {A : Type ℓ} (p : A → Bool) where
  pub find_first-any : (xs : List A) (a : A) → find_first p xs ≡ some a → any p xs ≡ true
  find_first-any [] a h = cc
  find_first-any (x ∷ xs) a h = ground (arith, find_first-any xs a)

  pub find_first-holds : (xs : List A) (a : A) → find_first p xs ≡ some a → p a ≡ true
  find_first-holds [] a h = cc
  find_first-holds (x ∷ xs) a h = ground (arith, find_first-holds xs a)

  pub All-find_first {κ} :
      (P : A → Type κ) (xs : List A) (a : A) → All P xs → find_first p xs ≡ some a → P a
  All-find_first P [] a h e = cc
  All-find_first P (x ∷ xs) a h e = elim (Bool-cases (p x)) [
    | inl hit ↦ subst P (same hit) h.0
    | inr miss ↦ All-find_first P xs a h.1 (ground arith)
  ]
    where
      same : p x ≡ true → x ≡ a
      same hit = ground arith

  pub All-find_many {κ} : (P : A → Type κ) (xs : List A) → All P xs → All P (find_many p xs)
  All-find_many P [] h = tt
  All-find_many P (x ∷ xs) h = elim (Bool-cases (p x)) [
    | inl hit ↦ rw hit (h.0, All-find_many P xs h.1)
    | inr miss ↦ rw miss (All-find_many P xs h.1)
  ]

  -- An update that keeps a predicate where it writes keeps it on every row.
  pub All-update_many {κ} :
      (P : A → Type κ) (f : A → A) (xs : List A)
      → ((a : A) → P a → P (f a))
      → All P xs
      → All P (update_many p f xs)
  All-update_many P f [] keep h = tt
  All-update_many P f (x ∷ xs) keep h = elim (Bool-cases (p x)) [
    | inl hit ↦ rw hit (keep x h.0, All-update_many P f xs keep h.1)
    | inr miss ↦ rw miss (h.0, All-update_many P f xs keep h.1)
  ]

  -- An update that finds no row changes nothing.
  pub update_many-none : (f : A → A) (xs : List A) → any p xs ≡ false → update_many p f xs ≡ xs
  update_many-none f [] h = refl
  update_many-none f (x ∷ xs) h = ground (arith, update_many-none f xs)
