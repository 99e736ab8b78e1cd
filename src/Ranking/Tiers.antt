-- ===== src/Ranking/Tiers.antt =====
-- Properties of `loadTierTable` and `tierForEarnings` (src/ranking/ranking.ts): the tier brackets
-- the amount earned, and no tier costs more than the global rate.
use samy.Prelude.{
  ℕ, zero, suc, ◌+◌, ◌≡◌, refl, ap, ◌∙◌, Option, none, some, List, [], ◌∷◌, arith, All,
  Option-cases, if◌then◌else◌, inl, inr,
}
use samy.Prelude.Int.{ℤ, ◌≤ℤ◌, ◌<ℤ◌, leb_ℤ}
use samy.Database.Rows.{LedgerEntry}
use samy.Ranking.{
  Part, TierRow, TierInfo, load_tier_table, last_reached, get_elem?, info_of, info_at,
  tier_for_earnings, tier_rate_for, gross_earned,
}

-- The index of the last row that is reached, from the back.
top_index : ℤ → List TierRow → Option ℕ
top_index earned [] = none
top_index earned (row ∷ rows) = elim (top_index earned rows) [
  | some k ↦ some (suc k)
  | none ↦ if leb_ℤ row.min earned then some 0 else none
]

abbrev offset : ℕ → ℕ → Option ℕ → ℕ
offset i idx none = idx
offset i idx (some k) = i + k

last_reached-top_index :
    (earned : ℤ) (i idx : ℕ) (rows : List TierRow)
    → last_reached earned i idx rows ≡ offset i idx (top_index earned rows)
unfolding top_index
last_reached-top_index earned i idx [] = refl
last_reached-top_index earned i idx (row ∷ rows) = ground (
  arith,
  last_reached-top_index earned (suc i) i rows,
  last_reached-top_index earned (suc i) idx rows,
)

-- The next row, where there is one, is out of reach.
abbrev pub IsAbove : ℤ → Option TierRow → Type 0
IsAbove earned none = Unit
IsAbove earned (some row) = earned <ℤ row.min

top_index-none :
    (earned : ℤ) (rows : List TierRow)
    → top_index earned rows ≡ none
    → IsAbove earned (get_elem? rows 0)
unfolding top_index
top_index-none earned [] h = tt
top_index-none earned (row ∷ rows) h = ground arith

top_index-some :
    (earned : ℤ) (rows : List TierRow) (k : ℕ)
    → top_index earned rows ≡ some k
    → (row : TierRow) × (get_elem? rows k ≡ some row)
      × (row.min ≤ℤ earned)
      × IsAbove earned (get_elem? rows (suc k))
unfolding top_index
top_index-some earned [] k h = cc
top_index-some earned (row ∷ rows) zero h =
    (row, refl, ground arith, top_index-none earned rows (ground arith))
top_index-some earned (row ∷ rows) (suc k) h = top_index-some earned rows k (ground arith)

top_index-first :
    (earned : ℤ) (first : TierRow) (rest : List TierRow)
    → first.min ≤ℤ earned
    → (k : ℕ) × (top_index earned (first ∷ rest) ≡ some k)
unfolding top_index
top_index-first earned first rest h = elim (Option-cases (top_index earned rest)) [
  | inl e ↦ (0, ground arith)
  | inr (j, e) ↦ (suc j, ground arith)
]

-- Over a table whose first threshold is reached, the tier found is a row of the table that the
-- earnings reach; they do not reach the row after it, where there is one; and the info is made of
-- these two rows.
pub tier_for_earnings-brackets :
    (earned : ℤ) (first : TierRow) (rest : List TierRow)
    → first.min ≤ℤ earned
    → (i : ℕ) × (row : TierRow) × (get_elem? (first ∷ rest) i ≡ some row)
      × (tier_for_earnings earned (first ∷ rest)
          ≡ some (info_of earned row (get_elem? (first ∷ rest) (suc i))))
      × (row.min ≤ℤ earned)
      × IsAbove earned (get_elem? (first ∷ rest) (suc i))
unfolding tier_for_earnings
tier_for_earnings-brackets earned first rest h =
    let (k, e) = top_index-first earned first rest h in
    let (row, at, reached, above) = top_index-some earned (first ∷ rest) k e in
    (k, row, at, found k e row at, reached, above)
  where
    found :
        (k : ℕ)
        → top_index earned (first ∷ rest) ≡ some k
        → (row : TierRow) → get_elem? (first ∷ rest) k ≡ some row
        → tier_for_earnings earned (first ∷ rest)
          ≡ some (info_of earned row (get_elem? (first ∷ rest) (suc k)))
    found k e row at =
        ap (info_at earned (first ∷ rest)) {y = k}
          (last_reached-top_index earned 0 0 (first ∷ rest) ∙ rw e (omega arith))
        ∙ rw (at, info_at)

-- A table with a row gives a rate to every model.
pub tier_for_earnings-defined :
    (first : TierRow) (rest : List TierRow) (earned : ℤ)
    → (info : TierInfo) × (tier_for_earnings earned (first ∷ rest) ≡ some info)
unfolding tier_for_earnings
tier_for_earnings-defined first rest earned =
    elim (Option-cases (top_index earned (first ∷ rest))) [
      | inl e ↦ (
        info_of earned first (get_elem? rest 0),
        ground (arith, last_reached-top_index earned 0 0 (first ∷ rest)),
      )
      | inr (k, e) ↦
          let (row, at, _, _) = top_index-some earned (first ∷ rest) k e in
          (
            info_of earned row (get_elem? (first ∷ rest) (suc k)),
            ground (arith, last_reached-top_index earned 0 0 (first ∷ rest)),
          )
    ]

pub tier_rate_for-defined :
    (first : TierRow) (rest : List TierRow) (model_id : ℕ) (l : List LedgerEntry)
    → (rate : ℤ) × (tier_rate_for (first ∷ rest) model_id l ≡ some rate)
unfolding tier_rate_for
tier_rate_for-defined first rest model_id l =
    let (info, e) = tier_for_earnings-defined first rest (gross_earned model_id l) in
    (info.rate, ground (arith, e))

-- Whatever the environment says, no tier's rate exceeds the global rate.
pub load_tier_table-le-global :
    (global_rate : ℤ) (thresholds rates : Option (List Part))
    → All
        (λ (row : TierRow). row.rate ≤ℤ global_rate)
        (load_tier_table global_rate thresholds rates)
unfolding load_tier_table
load_tier_table-le-global g th rt = ground arith

-- With the default rates and thresholds, earning more never raises the rate.
pub tier_for_earnings-antitone :
    (global_rate less more : ℤ)
    → less ≤ℤ more
    → {i j : TierInfo} → tier_for_earnings less (load_tier_table global_rate none none) ≡ some i
    → tier_for_earnings more (load_tier_table global_rate none none) ≡ some j
    → j.rate ≤ℤ i.rate
unfolding tier_for_earnings load_tier_table
tier_for_earnings-antitone g less more h p q = ground arith
