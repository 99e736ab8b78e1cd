-- ===== src/Prelude/Sorting.antt =====
-- Laws of sorted, cut and counted lists.
use Prim.Native.Nat.{ℕ, zero, suc, ◌+◌, ◌≤◌}
use mathlib.Core.Bool.{Bool, true}
use mathlib.Core.List.{List, [], ◌∷◌, ◌++◌}
use mathlib.Core.Path.{◌≡◌, refl, sym, ap, ◌∙◌}
use mathlib.Core.Logic.{inl, inr}
use native.Mathlib.Omega.{arith}
use samy.Prelude.Tests.{if◌then◌else◌, Bool-cases}
use samy.Prelude.Lists.{All, any, count, drop, insert_by, length, sort_by, take}

module _ {ℓ κ} {A : Type ℓ} (P : A → Type κ) where
  pub All-take : (n : ℕ) (xs : List A) → All P xs → All P (take n xs)
  All-take zero xs h = tt
  All-take (suc n) [] h = tt
  All-take (suc n) (x ∷ xs) h = (h.0, All-take n xs h.1)

  pub All-weaken : (Q : A → Type κ) (xs : List A) → ((y : A) → P y → Q y) → All P xs → All Q xs
  All-weaken Q [] w h = tt
  All-weaken Q (x ∷ xs) w h = (w x h.0, All-weaken Q xs w h.1)

  pub All-both : (Q : A → Type κ) (xs : List A) → All P xs → All Q xs → All (λ y. P y × Q y) xs
  All-both Q [] h k = tt
  All-both Q (x ∷ xs) h k = ((h.0, k.0), All-both Q xs h.1 k.1)

  pub All-insert_by :
      (before : A → A → Bool) (x : A) (xs : List A) → P x → All P xs → All P (insert_by before x xs)
  All-insert_by before x [] px h = (px, tt)
  All-insert_by before x (y ∷ ys) px h = elim (Bool-cases (before y x)) [
    | inl later ↦ rw later (h.0, All-insert_by before x ys px h.1)
    | inr here ↦ rw here (px, h)
  ]

  pub All-sort_by : (before : A → A → Bool) (xs : List A) → All P xs → All P (sort_by before xs)
  All-sort_by before [] h = tt
  All-sort_by before (x ∷ xs) h =
      All-insert_by before x (sort_by before xs) h.0 (All-sort_by before xs h.1)

left_zero : (m : ℕ) → m ≡ 0 + m
left_zero m = omega arith

left_suc : (n m : ℕ) → suc n + m ≡ suc (n + m)
left_suc n m = omega arith

module _ {ℓ} {A : Type ℓ} where
  pub length-take : (n : ℕ) (xs : List A) → length (take n xs) ≤ n
  length-take zero xs = omega arith
  length-take (suc n) [] = omega arith
  length-take (suc n) (x ∷ xs) = omega (arith, length-take n xs)

  pub take-all : (n : ℕ) (xs : List A) → length xs ≤ n → take n xs ≡ xs
  take-all zero [] h = refl
  take-all zero (x ∷ xs) h = absurd (omega arith)
  take-all (suc n) [] h = refl
  take-all (suc n) (x ∷ xs) h = ap (λ ys. x ∷ ys) (take-all n xs (omega arith))

  take-nil : (n : ℕ) → take {A = A} n [] ≡ []
  take-nil zero = refl
  take-nil (suc n) = refl

  drop-nil : (n : ℕ) → drop {A = A} n [] ≡ []
  drop-nil zero = refl
  drop-nil (suc n) = refl

  pub take-append : (n m : ℕ) (xs : List A) → take n xs ++ take m (drop n xs) ≡ take (n + m) xs
  take-append zero m xs = ap (λ k. take k xs) (left_zero m)
  take-append (suc n) m [] = take-nil m ∙ sym (take-nil (suc n + m))
  take-append (suc n) m (x ∷ xs) =
      ap (λ ys. x ∷ ys) (take-append n m xs) ∙ ap (λ k. take k (x ∷ xs)) (sym (left_suc n m))

  pub drop-drop : (n m : ℕ) (xs : List A) → drop (n + m) xs ≡ drop m (drop n xs)
  drop-drop zero m xs = ap (λ k. drop k xs) (sym (left_zero m))
  drop-drop (suc n) m [] = drop-nil (suc n + m) ∙ sym (drop-nil m)
  drop-drop (suc n) m (x ∷ xs) = ap (λ k. drop k (x ∷ xs)) (left_suc n m) ∙ drop-drop n m xs

  module _ (before : A → A → Bool) where
    any-insert_by :
        (p : A → Bool) (x : A) (xs : List A)
        → any p (x ∷ xs) ≡ true
        → any p (insert_by before x xs) ≡ true
    any-insert_by p x [] h = h
    any-insert_by p x (y ∷ ys) h = ground (arith, any-insert_by p x ys)

    pub any-sort_by :
        (p : A → Bool) (xs : List A) → any p xs ≡ true → any p (sort_by before xs) ≡ true
    any-sort_by p [] h = h
    any-sort_by p (x ∷ xs) h =
        any-insert_by p x (sort_by before xs) (ground (arith, any-sort_by p xs))

    count-insert_by :
        (f : A → Bool) (x : A) (xs : List A) → count f (insert_by before x xs) ≡ count f (x ∷ xs)
    count-insert_by f x [] = refl
    count-insert_by f x (y ∷ ys) = grind (arith, count-insert_by f x ys)

    pub count-sort_by : (f : A → Bool) (xs : List A) → count f (sort_by before xs) ≡ count f xs
    count-sort_by f [] = refl
    count-sort_by f (x ∷ xs) =
        count-insert_by f x (sort_by before xs)
        ∙ ap (λ k. (if f x then 1 else 0) + k) (count-sort_by f xs)

    length-insert_by : (x : A) (xs : List A) → length (insert_by before x xs) ≡ suc (length xs)
    length-insert_by x [] = refl
    length-insert_by x (y ∷ ys) = grind (arith, length-insert_by x ys)

    pub length-sort_by : (xs : List A) → length (sort_by before xs) ≡ length xs
    length-sort_by [] = refl
    length-sort_by (x ∷ xs) = length-insert_by x (sort_by before xs) ∙ ap suc (length-sort_by xs)
