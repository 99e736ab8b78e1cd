-- ===== src/Ranking/Top/Order.antt =====
-- Sorting the earners of src/ranking/ranking.service.ts and cutting the list.
use samy.Prelude.{
  All-insert_by, All-weaken, All-both, All-take, ℕ, zero, suc, length, ap, refl, ◌≡◌, Bool, true,
  false, List, [], ◌∷◌, ◌⊎◌, inl, inr, arith, any, All, take, insert_by, sort_by, Bool-cases,
}
use samy.Prelude.Int.{ℤ, ◌≤ℤ◌}
use samy.Ranking.Top.{Earner, earned_more}

abbrev pub Descending : List Earner → Type 0
Descending [] = Unit
Descending (x ∷ xs) = All (λ (y : Earner). y.earned ≤ℤ x.earned) xs × Descending xs

pub below : (a b c : ℤ) → a ≤ℤ b → b ≤ℤ c → a ≤ℤ c
below a b c h k = omega (arith, h, k)

insert-Descending :
    (x : Earner) (xs : List Earner) → Descending xs → Descending (insert_by earned_more x xs)
insert-Descending x [] d = (tt, tt)
insert-Descending x (y ∷ ys) d = elim (Bool-cases (earned_more y x)) [
  | inl later ↦ rw later (
    All-insert_by (λ z. z.earned ≤ℤ y.earned) earned_more x ys (after x y later) d.0,
    insert-Descending x ys d.1,
  )
  | inr here ↦ rw here (
    (
      not_after x y here,
      All-weaken (λ z. z.earned ≤ℤ y.earned) (λ z. z.earned ≤ℤ x.earned) ys
          (λ z h. below z.earned y.earned x.earned h (not_after x y here)) d.0,
    ),
    d,
  )
]
  where
    after : (x y : Earner) → earned_more y x ≡ true → x.earned ≤ℤ y.earned
    after x y h = ground arith

    not_after : (x y : Earner) → earned_more y x ≡ false → y.earned ≤ℤ x.earned
    not_after x y h = ground arith

pub sort-Descending : (xs : List Earner) → Descending (sort_by earned_more xs)
sort-Descending [] = tt
sort-Descending (x ∷ xs) = insert-Descending x (sort_by earned_more xs) (sort-Descending xs)

pub take-Descending : (n : ℕ) (xs : List Earner) → Descending xs → Descending (take n xs)
take-Descending zero xs d = tt
take-Descending (suc n) [] d = tt
take-Descending (suc n) (x ∷ xs) d =
    (All-take (λ y. y.earned ≤ℤ x.earned) n xs d.0, take-Descending n xs d.1)

-- An earner that the test finds, with what holds of all, below which none of a list is.
abbrev pub Found : (Earner → Bool) → (Earner → Type 0) → List Earner → Type 0
Found p P above = (y : Earner) × (p y ≡ true) × P y × All (λ x. y.earned ≤ℤ x.earned) above

found :
    (p : Earner → Bool) (P : Earner → Type 0) (xs : List Earner)
    → All P xs
    → any p xs ≡ true
    → Found p P []
found p P [] h e = cc
found p P (x ∷ xs) h e = elim (Bool-cases (p x)) [
  | inl hit ↦ (x, hit, h.0, tt)
  | inr miss ↦ found p P xs h.1 (ground arith)
]

-- What is in a descending list is in its first rows, or no row of these is below it.
pub cut :
    (p : Earner → Bool) (n : ℕ) (P : Earner → Type 0) (xs : List Earner)
    → All P xs
    → Descending xs
    → any p xs ≡ true
    → (any p (take n xs) ≡ true) ⊎ Found p P (take n xs)
cut p zero P xs h d e = inr (found p P xs h e)
cut p (suc n) P [] h d e = cc
cut p (suc n) P (x ∷ xs) h d e = elim (Bool-cases (p x)) [
  | inl hit ↦ inl (ground arith)
  | inr miss ↦
      elim (cut p n (λ y. P y × (y.earned ≤ℤ x.earned)) xs (All-both P _ xs h.1 d.0) d.1
        (ground arith)) [
          | inl kept ↦ inl (ground arith)
          | inr (y, py, (holds, le), above) ↦ inr (y, py, holds, (le, above))
        ]
]

-- Where the first rows leave something out, they are as many as were asked for.
pub filled :
    (p : Earner → Bool) (n : ℕ) (xs : List Earner)
    → any p xs ≡ true
    → (any p (take n xs) ≡ true) ⊎ (length (take n xs) ≡ n)
filled p zero xs e = inr refl
filled p (suc n) [] e = cc
filled p (suc n) (x ∷ xs) e = elim (Bool-cases (p x)) [
  | inl hit ↦ inl (ground arith)
  | inr miss ↦ elim (filled p n xs (ground arith)) [
    | inl kept ↦ inl (ground arith)
    | inr full ↦ inr (ap suc full)
  ]
]
