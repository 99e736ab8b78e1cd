-- ===== src/Billing/TakeRate.antt =====
-- src/billing/take-rate.ts: which take rate applies, and how a price is split by it. Prices are
-- cents, rates are ten-thousandths, so a product counts ten-thousandths of a cent.
use samy.Prelude.{ℕ, ◌+◌, ◌*◌, ◌/◌, ◌≤◌, ◌<◌, ◌≡◌, ap, Option, none, some, arith}
use samy.Prelude.Int.{ℤ, pos, negsuc, pos_part, neg_part, ◌+ℤ◌, ◌-ℤ◌, ◌*ℤ◌, ◌≤ℤ◌, int_laws}

-- `override ?? fallback`.
unfoldable pub resolve_take_rate : Option ℤ → ℤ → ℤ
resolve_take_rate none fallback = fallback
resolve_take_rate (some rate) fallback = rate

pub record Split : Type 0 where
  pub commission : ℤ
  pub model_share : ℤ

-- `toDecimalPlaces(2, ROUND_HALF_UP)`: to the nearest cent, a half away from zero.
abbrev pub round_half_up : ℤ → ℤ
round_half_up x = pos ((pos_part x + 5000) / 10000) -ℤ pos ((neg_part x + 5000) / 10000)

unfoldable pub compute_split : ℤ → ℤ → Split
compute_split price take_rate =
    let commission = round_half_up (price *ℤ take_rate) in
    record { commission = commission; model_share = price -ℤ commission }

-- Nothing is lost in a split, at any price and rate: the two parts are the price.
pub compute_split-sum :
    (price rate : ℤ)
    → (compute_split price rate).commission +ℤ (compute_split price rate).model_share ≡ price
unfolding compute_split
compute_split-sum price rate = omega int_laws

-- At a price and a rate of zero or more the commission is a plain quotient.
commission_ℕ : (p r : ℕ) → (compute_split (pos p) (pos r)).commission ≡ pos ((p * r + 5000) / 10000)
unfolding compute_split ◌*ℤ◌ ◌-ℤ◌
commission_ℕ p r = ground arith

share_ℕ :
    (p r : ℕ) → (compute_split (pos p) (pos r)).model_share ≡ pos p -ℤ pos ((p * r + 5000) / 10000)
unfolding compute_split
share_ℕ p r = ap (λ c. pos p -ℤ c) (commission_ℕ p r)

rounded_le : (p r : ℕ) → r ≤ 10000 → (p * r + 5000) / 10000 ≤ p
rounded_le p r h = omega (arith, mul_le p r h)
  where
    mul_le : (p r : ℕ) → r ≤ 10000 → p * r ≤ p * 10000
    mul_le p r h = grind arith

rounded_mono : (p r s : ℕ) → r ≤ s → (p * r + 5000) / 10000 ≤ (p * s + 5000) / 10000
rounded_mono p r s h = omega (arith, mul_le p r s h)
  where
    mul_le : (p r s : ℕ) → r ≤ s → p * r ≤ p * s
    mul_le p r s h = grind arith

-- At a price of zero or more and a rate between 0 and 1, neither part of a split is negative.
pub compute_split-nonneg :
    (price rate : ℤ)
    → pos 0 ≤ℤ price
    → pos 0 ≤ℤ rate
    → rate ≤ℤ pos 10000
    → (pos 0 ≤ℤ (compute_split price rate).commission)
      × (pos 0 ≤ℤ (compute_split price rate).model_share)
compute_split-nonneg (pos p) (pos r) hp hr h =
    rw (commission_ℕ p r, share_ℕ p r) (omega (int_laws, rounded_le p r (omega arith)))
compute_split-nonneg (pos p) (negsuc r) hp hr h = absurd (omega arith)
compute_split-nonneg (negsuc p) _ hp hr h = absurd (omega arith)

-- At a price and a rate of zero or more, the commission is at most half a cent above the exact
-- product of price and rate, and less than half a cent below it.
pub compute_split-nearest :
    (price rate : ℤ)
    → pos 0 ≤ℤ price
    → pos 0 ≤ℤ rate
    → let c = (compute_split price rate).commission in
      (pos_part c * 10000 ≤ pos_part price * pos_part rate + 5000)
      × (pos_part price * pos_part rate < pos_part c * 10000 + 5000)
compute_split-nearest (pos p) (pos r) hp hr = rw (commission_ℕ p r) (omega arith)
compute_split-nearest (pos p) (negsuc r) hp hr = absurd (omega arith)
compute_split-nearest (negsuc p) _ hp hr = absurd (omega arith)

-- At a price and rates of zero or more, a lower take rate never leaves the model a smaller share of the same price.
pub compute_split-antitone :
    (price rate higher : ℤ)
    → pos 0 ≤ℤ price
    → pos 0 ≤ℤ rate
    → rate ≤ℤ higher
    → (compute_split price higher).model_share ≤ℤ (compute_split price rate).model_share
compute_split-antitone (pos p) (pos r) (pos s) hp hr h =
    rw (share_ℕ p r, share_ℕ p s) (omega (int_laws, rounded_mono p r s (omega arith)))
compute_split-antitone (pos p) (pos r) (negsuc s) hp hr h = absurd (omega arith)
compute_split-antitone (pos p) (negsuc r) _ hp hr h = absurd (omega arith)
compute_split-antitone (negsuc p) _ _ hp hr h = absurd (omega arith)
