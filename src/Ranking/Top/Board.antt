-- ===== src/Ranking/Top/Board.antt =====
-- What the leaderboard of src/ranking/ranking.service.ts shows.
use mathlib.Core.Path.{subst, sym}
use samy.Prelude.{
  All-sort_by, All-take, ==_iff, ℕ, suc, ◌≡◌, refl, String, Bool, true, false, List, [], ◌∷◌, inl,
  inr, arith, any, All, sort_by, Bool-cases, map, ◌==◌, Option, some, none, ◌&&◌,
}
use samy.Prelude.Int.{ℤ, pos, ◌≤ℤ◌, ltb_ℤ, int_laws}
use samy.Database.Accounts.{Account, account_eq}
use samy.Database.Rows.{LedgerEntry, ModelProfile}
use samy.Ranking.{gross_earned}
use samy.Database.{Db}
use samy.Database.Queries.{find_profile}
use samy.Ranking.{TierRow, TierInfo, tier_for_earnings}
use samy.Ranking.Top.Order.{Descending}
use samy.Ranking.Top.{
  TopRow, with_name, named, Earner, add_earner, add_once, has_model, earner, earner_ids,
  earned_more, grouped, model_of, ranked,
}

pub gross_earned-nonneg : (m : ℕ) (l : List LedgerEntry) → pos 0 ≤ℤ gross_earned m l
unfolding gross_earned
gross_earned-nonneg m [] = omega arith
gross_earned-nonneg m (e ∷ es) = grind (int_laws, gross_earned-nonneg m es)

add_once-keeps :
    (m k : ℕ) (ms : List ℕ)
    → has_model m (add_once k ms) ≡ false
    → ((k == m) ≡ false) × (has_model m ms ≡ false)
add_once-keeps m k ms h = elim (Bool-cases (has_model k ms)) [
  | inl old ↦ elim (Bool-cases (k == m)) [
    | inl same ↦
        let moved = subst (λ i. has_model i ms ≡ true) ((==_iff k m).0 same) old in
        absurd (ground arith)
    | inr other ↦ (other, ground arith)
  ]
  | inr new ↦ ground arith
]

-- A model without a group has received nothing.
add_earner-keeps :
    (m : ℕ) (a : Account) (x : ℤ) (ms : List ℕ)
    → has_model m (add_earner (model_of a) x ms) ≡ false
    → ((account_eq a (Account.model m) && ltb_ℤ (pos 0) x) ≡ false) × (has_model m ms ≡ false)
add_earner-keeps m (Account.model k) x ms h = elim (Bool-cases (ltb_ℤ (pos 0) x)) [
  | inl paid ↦ let (other, rest) = add_once-keeps m k ms (ground arith) in (ground arith, rest)
  | inr unpaid ↦ (ground arith, ground arith)
]
add_earner-keeps m (Account.client k) x ms h = (refl, h)
add_earner-keeps m (Account.admin k) x ms h = (refl, h)
add_earner-keeps m Account.platform x ms h = (refl, h)
add_earner-keeps m Account.external x ms h = (refl, h)

pub earner_ids-none :
    (m : ℕ) (l : List LedgerEntry) → has_model m (earner_ids l) ≡ false → gross_earned m l ≡ pos 0
unfolding earner_ids gross_earned
earner_ids-none m [] h = refl
earner_ids-none m (e ∷ es) h =
    let (other, rest) = add_earner-keeps m e.account e.amount (earner_ids es) h in
    rw other (earner_ids-none m es rest)

abbrev pub is_model_row : ℕ → Earner → Bool
is_model_row m r = r.model_id == m

-- The amounts of the groups are what `grossEarned` answers for their models.
abbrev pub IsGross : List LedgerEntry → Earner → Type 0
IsGross l r = r.earned ≡ gross_earned r.model_id l

pub All-map : (l : List LedgerEntry) (ms : List ℕ) → All (IsGross l) (map (earner l) ms)
All-map l [] = tt
All-map l (m ∷ ms) = (refl, All-map l ms)

pub any-map :
    (m : ℕ) (l : List LedgerEntry) (ms : List ℕ)
    → any (is_model_row m) (map (earner l) ms) ≡ has_model m ms
any-map m l [] = refl
any-map m l (k ∷ ms) = ground (arith, any-map m l ms)

pub ranked-All : (limit : ℕ) (l : List LedgerEntry) → All (IsGross l) (ranked limit l)
ranked-All limit l =
    All-take (IsGross l) limit (sort_by earned_more (grouped l))
      (All-sort_by (IsGross l) earned_more (grouped l) (All-map l (earner_ids l)))

abbrev pub is_row_of : ℕ → TopRow → Bool
is_row_of m row = row.model_id == m

-- Ranks count from `i`, each tier is the tier of what the model has earned, and nobody further down
-- has earned more.
abbrev pub IsBoard : List TierRow → List LedgerEntry → ℕ → List TopRow → Type 0
IsBoard table l i [] = Unit
IsBoard table l i (row ∷ rows) =
    (row.rank ≡ suc i)
    × ((info : TierInfo) × (tier_for_earnings (gross_earned row.model_id l) table ≡ some info)
        × (row.tier ≡ info.tier))
    × All (λ (q : TopRow). gross_earned q.model_id l ≤ℤ gross_earned row.model_id l) rows
    × IsBoard table l (suc i) rows

All-with_name :
    (P : Earner → Type 0) (r : Earner) (o : Option ModelProfile) (rest : List (Earner × String))
    → P r
    → All (λ (q : Earner × String). P q.0) rest
    → All (λ (q : Earner × String). P q.0) (with_name r o rest)
All-with_name P r none rest pr h = h
All-with_name P r (some p) rest pr h = (pr, h)

pub All-named :
    (P : Earner → Type 0) (db : Db) (rs : List Earner)
    → All P rs
    → All (λ (r : Earner × String). P r.0) (named db rs)
All-named P db [] h = tt
All-named P db (r ∷ rs) h =
    All-with_name P r (find_profile r.model_id db) (named db rs) h.0 (All-named P db rs h.1)

-- A list of named earners in descending order.
abbrev pub NamedDescending : List (Earner × String) → Type 0
NamedDescending [] = Unit
NamedDescending (r ∷ rs) =
    All (λ (q : Earner × String). q.0.earned ≤ℤ r.0.earned) rs × NamedDescending rs

with_name-Descending :
    (r : Earner) (o : Option ModelProfile) (rest : List (Earner × String))
    → All (λ (q : Earner × String). q.0.earned ≤ℤ r.earned) rest
    → NamedDescending rest
    → NamedDescending (with_name r o rest)
with_name-Descending r none rest h d = d
with_name-Descending r (some p) rest h d = (h, d)

pub named-Descending : (db : Db) (rs : List Earner) → Descending rs → NamedDescending (named db rs)
named-Descending db [] d = tt
named-Descending db (r ∷ rs) d =
    with_name-Descending r (find_profile r.model_id db) (named db rs)
      (All-named (λ q. q.earned ≤ℤ r.earned) db rs d.0) (named-Descending db rs d.1)

abbrev pub is_named : ℕ → Earner × String → Bool
is_named m r = r.0.model_id == m

any-with_name :
    (m : ℕ) (r : Earner) (o : Option ModelProfile) (rest : List (Earner × String))
    → any (is_named m) rest ≡ true
    → any (is_named m) (with_name r o rest) ≡ true
any-with_name m r none rest h = h
any-with_name m r (some p) rest h = ground (arith, h)

pub any-named :
    (m : ℕ) (db : Db) (rs : List Earner) (p : ModelProfile)
    → find_profile m db ≡ some p
    → any (is_model_row m) rs ≡ true
    → any (is_named m) (named db rs) ≡ true
any-named m db [] p has h = cc
any-named m db (r ∷ rs) p has h = elim (Bool-cases (r.model_id == m)) [
  | inl same ↦
      rw (subst (λ i. find_profile i db ≡ some p) (sym ((==_iff r.model_id m).0 same)) has)
        (ground (arith, same))
  | inr other ↦
      any-with_name m r (find_profile r.model_id db) (named db rs)
        (any-named m db rs p has (ground arith))
]
