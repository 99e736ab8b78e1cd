-- ===== src/Wallet/Amount.antt =====
-- The part of `Prisma.Decimal` that a requested amount goes through: a coefficient with a number
-- of decimal places, or NaN. Infinities are left out: no numeric(14, 2) column takes them.
use native.Mathlib.Nat.{pow-suc}
use samy.Prelude.{
  ℕ, ◌≡◌, ◌≤◌, refl, sym, ap, ◌∙◌, arith, Bool-cases, inl, inr, zero, suc, ◌*◌, ◌-◌, ◌/◌, ◌%◌, ◌^◌,
  Bool, true, false, ltb, leb, ◌==◌, ◌&&◌,
}
use samy.Prelude.Int.{ℤ, pos, negsuc, pos_part, neg, ◌≤ℤ◌, int_laws}

-- `dec negative m p` is m / 10^p, negated if `negative`.
pub data Decimal : Type 0 where
  nan : Decimal
  dec : Bool → ℕ → ℕ → Decimal

-- Trailing zeros of the fraction go, as in every normalised decimal.js value.
strip : ℕ → ℕ → ℕ × ℕ
strip m zero = (m, 0)
strip m (suc p) = elim (m % 10 == 0) [ true ↦ strip (m / 10) p | false ↦ (m, suc p) ]

-- `decimalPlaces() > k`; NaN has NaN places, which exceed nothing.
unfoldable pub decimal_places_above : ℕ → Decimal → Bool
unfolding strip
decimal_places_above k nan = false
decimal_places_above k (dec s m p) = ltb k (strip m p).1

-- `greaterThanOrEqualTo(min)`, for a minimum in cents of zero or more; false of NaN.
abbrev signed_at_least : Bool → ℕ → ℕ → ℕ → Bool
signed_at_least true m p min = m == 0 && min == 0
signed_at_least false m p min = leb (min * 10 ^ p) (m * 100)

abbrev pub at_least : Decimal → ℤ → Bool
at_least nan min = false
at_least (dec s m p) (pos min) = signed_at_least s m p min
at_least (dec true m p) (negsuc min) = leb (m * 100) (suc min * 10 ^ p)
at_least (dec false m p) (negsuc min) = true

-- The cents of a value with at most two decimal places, which the column `Decimal(14, 2)` takes as
-- it is.
abbrev scale_up : ℕ × ℕ → ℕ
scale_up (m, p) = m * 10 ^ (2 - p)

unfoldable pub to_cents : Decimal → ℤ
unfolding strip
to_cents nan = pos 0
to_cents (dec true m p) = neg (pos (scale_up (strip m p)))
to_cents (dec false m p) = pos (scale_up (strip m p))

regroup : (k x a z : ℕ) → k * x ≡ a * z → 10 * k * x ≡ a * (z * 10)
regroup k x a z h = omega arith

-- Stripping keeps the value: m / 10^p is m' / 10^p'.
strip-value : (m p : ℕ) → m * 10 ^ (strip m p).1 ≡ (strip m p).0 * 10 ^ p
unfolding strip
strip-value m zero = refl
strip-value m (suc p) = elim (Bool-cases (m % 10 == 0)) [
  | inl whole ↦
      rw (whole, strip)
        (ap (λ (t : ℕ). t * 10 ^ (strip (m / 10) p).1) (tenfold whole)
          ∙ regroup (m / 10) (10 ^ (strip (m / 10) p).1) (strip (m / 10) p).0 (10 ^ p)
              (strip-value (m / 10) p)
          ∙ ap (◌*◌ (strip (m / 10) p).0) (sym (pow-suc 10 p)))
  | inr part ↦ rw (part, strip)
]
  where
    tenfold : (m % 10 == 0) ≡ true → m ≡ 10 * (m / 10)
    tenfold whole = ground arith

scale_up-exact :
    (m p m' p' : ℕ) → m * 10 ^ p' ≡ m' * 10 ^ p → p' ≤ 2 → scale_up (m', p') * 10 ^ p ≡ m * 100
scale_up-exact m p m' zero e h = omega arith
scale_up-exact m p m' (suc zero) e h = omega arith
scale_up-exact m p m' (suc (suc zero)) e h = omega arith
scale_up-exact m p m' (suc (suc (suc p'))) e h = absurd (omega arith)

-- An amount with at most two decimal places is stored exactly: the cents over 100 are m / 10^p.
pub to_cents-exact :
    (m p : ℕ)
    → decimal_places_above 2 (dec false m p) ≡ false
    → pos_part (to_cents (dec false m p)) * 10 ^ p ≡ m * 100
unfolding decimal_places_above to_cents
to_cents-exact m p h =
    scale_up-exact m p (strip m p).0 (strip m p).1 (strip-value m p) (ground arith)

strip-zero : (p : ℕ) → (strip 0 p).0 ≡ 0
unfolding strip
strip-zero zero = refl
strip-zero (suc p) = strip-zero p

-- An amount that reaches a minimum of zero or more is stored as zero or more.
pub to_cents-nonneg :
    (d : Decimal) (min : ℤ) → pos 0 ≤ℤ min → at_least d min ≡ true → pos 0 ≤ℤ to_cents d
unfolding to_cents
to_cents-nonneg nan min h e = omega arith
to_cents-nonneg (dec false m p) min h e = omega arith
to_cents-nonneg (dec true m p) (pos min) h e =
    let e' : m ≡ 0 = ground arith in rw (e', strip-zero p) (omega int_laws)
to_cents-nonneg (dec true m p) (negsuc min) h e = absurd (omega arith)
