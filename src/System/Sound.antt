-- ===== src/System/Sound.antt =====
-- The invariant of the whole database: the ledger is booked and solvent, the ids of calls are unique,
-- and the amounts that the services will move are not negative.
use mathlib.Core.Path.{subst}
use samy.Prelude.{
  ◌==◌, ℕ, ◌≡◌, ◌≢◌, Option, none, some, List, [], ◌∷◌, All, All-find_first, suc, zero, inl, inr,
  Option-cases, arith,
}
use samy.Prelude.Int.{ℤ, pos, ◌≤ℤ◌}
use samy.Database.Accounts.{Account}
use samy.Database.Rows.{Call, GiftType, LedgerEntry, ModelProfile, Payout, Recharge}
use samy.Database.{Db}
use samy.Database.Queries.{find_profile}
use samy.Ledger.Posting.{IsBooked}
use samy.Ledger.Solvency.{IsSolvent}
use samy.Ranking.{
  TierRow, get_elem?, tier_for_earnings, tier_rate_for, gross_earned, info_at, last_reached,
}
use samy.Billing.TakeRate.{resolve_take_rate}
use samy.Billing.{override_of}
use samy.Calls.Lifecycle.{Evolves, UniqueIds}

-- A rate between 0 and 1.
abbrev pub IsRate : ℤ → Type 0
IsRate r = (pos 0 ≤ℤ r) × (r ≤ℤ pos 10000)

abbrev pub IsOverride : Option ℤ → Type 0
IsOverride none = Unit
IsOverride (some r) = IsRate r

abbrev pub HasPrice : Call → Type 0
HasPrice c = pos 0 ≤ℤ c.price_per_minute_snapshot

abbrev pub IsProfile : ModelProfile → Type 0
IsProfile p = (pos 0 ≤ℤ p.price_per_minute) × IsOverride p.take_rate

abbrev pub IsPayable : Payout → Type 0
IsPayable p = (pos 0 ≤ℤ p.amount) × (p.account ≢ Account.external)

pub record IsSound (db : Db) : Type 0 where
  pub booked : IsBooked db.ledger
  pub solvent : IsSolvent db.ledger
  pub unique : UniqueIds db.calls
  pub call_prices : All HasPrice db.calls
  pub profiles : All IsProfile db.profiles
  pub gift_prices : All (λ (t : GiftType). pos 0 ≤ℤ t.price_credits) db.gift_types
  pub recharges : All (λ (r : Recharge). pos 0 ≤ℤ r.amount) db.recharges
  pub payouts : All IsPayable db.payouts

pub HasPrice-Evolves : (cs ds : List Call) → Evolves cs ds → All HasPrice cs → All HasPrice ds
HasPrice-Evolves [] [] e h = tt
HasPrice-Evolves [] (d ∷ ds) e h = absurd e
HasPrice-Evolves (c ∷ cs) [] e h = absurd e
HasPrice-Evolves (c ∷ cs) (d ∷ ds) e h = (rw e.0.same_price h.0, HasPrice-Evolves cs ds e.1 h.1)

abbrev pub IsTable : List TierRow → Type 0
IsTable = All (λ (row : TierRow). IsRate row.rate)

get_elem?-IsRate :
    (table : List TierRow) (i : ℕ) (row : TierRow)
    → IsTable table
    → get_elem? table i ≡ some row
    → IsRate row.rate
get_elem?-IsRate [] i row h e = cc
get_elem?-IsRate (r ∷ rows) zero row h e = ground arith
get_elem?-IsRate (r ∷ rows) (suc i) row h e = get_elem?-IsRate rows i row h.1 e

info_at-IsRate :
    (earned : ℤ) (table : List TierRow) (i : ℕ)
    → IsTable table
    → (rate : ℤ)
    → elim (info_at earned table i) [ none ↦ none | some info ↦ some info.rate ] ≡ some rate
    → IsRate rate
info_at-IsRate earned table i h rate e = elim (Option-cases (get_elem? table i)) [
  | inl e' ↦ absurd (ground arith)
  | inr (row, at) ↦ subst IsRate (same row at) (get_elem?-IsRate table i row h at)
]
  where
    same : (row : TierRow) → get_elem? table i ≡ some row → row.rate ≡ rate
    same row at = ground arith

pub tier_rate_for-IsRate :
    (table : List TierRow) (model_id : ℕ) (l : List LedgerEntry) (rate : ℤ)
    → IsTable table
    → tier_rate_for table model_id l ≡ some rate
    → IsRate rate
unfolding tier_rate_for tier_for_earnings
tier_rate_for-IsRate table model_id l rate h e =
    info_at-IsRate (gross_earned model_id l) table
      (last_reached (gross_earned model_id l) 0 0 table) h rate e

resolve_take_rate-IsRate :
    (o : Option ℤ) (tier_rate : ℤ)
    → IsOverride o
    → IsRate tier_rate
    → IsRate (resolve_take_rate o tier_rate)
unfolding resolve_take_rate
resolve_take_rate-IsRate none tier_rate h t = t
resolve_take_rate-IsRate (some r) tier_rate h t = h

-- The rate that a sale uses is a rate between 0 and 1.
pub override_of-IsRate :
    (db : Db) (model_id : ℕ) (tier_rate : ℤ)
    → All IsProfile db.profiles
    → IsRate tier_rate
    → IsRate (resolve_take_rate (override_of (find_profile model_id db)) tier_rate)
override_of-IsRate db model_id tier_rate h t = elim (Option-cases (find_profile model_id db)) [
  | inl e ↦ rw e (resolve_take_rate-IsRate none tier_rate tt t)
  | inr (p, e) ↦ rw e (
      resolve_take_rate-IsRate p.take_rate tier_rate
        (All-find_first (λ q. q.user_id == model_id) IsProfile db.profiles p h e).1 t)
]
