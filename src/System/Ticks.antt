-- ===== src/System/Ticks.antt =====
-- The tick of src/scheduler/taximeter.service.ts over the whole database: it keeps the invariant
-- and makes sales and no other movements.
use samy.Prelude.{
  ℕ, zero, suc, ◌-◌, Bool-cases, true, false, Option, none, some, List, [], ◌∷◌, inl, inr,
  find_many,
}
use samy.Prelude.Int.{ℤ}
use samy.Database.{Db, Action, Result, ok, err}
use samy.Database.Rows.{Call, is_active}
use samy.Ranking.{TierRow}
use samy.Billing.{ChargeResult, charge_minute}
use samy.Taximeter.{
  has_ended, due_minute, charge_minutes, charge_call, charge_each, run_due_charges,
}
use samy.System.Sound.{IsSound, IsTable}
use samy.System.Sales.{charge_minute-IsSound}
use samy.System.Money.{>>-IsSound}
use samy.System.Bank.{BankRun-append, IsSale, IsSomeSale, Moved-BankRun, Moved-weaken, Movement}
use samy.System.Bank.Refines.{Refines, idle_at, charge_minute-Refines}
use samy.System.Bank.Payouts.{>>-Refines}

-- The invariant is kept, and the balances follow a run of sales.
abbrev pub Keeps : Db → Db → Type 0
Keeps db after = IsSound after × Refines IsSomeSale db after

sold : (c m : ℕ) (price : ℤ) (k : Movement) → IsSale c m price k → IsSomeSale k
sold c m price (Movement.sale c' m' price' share) kind = tt
sold c m price (Movement.deposit to amount) kind = absurd kind
sold c m price (Movement.withdraw source amount) kind = absurd kind

-- What the loop does after one minute, with the rest of the loop.
abbrev pub after_charge : Action (Unit {0}) → Result ChargeResult → Action (Unit {0})
after_charge rest r db = elim r [
  | err e ↦ (ok tt, db)
  | ok result ↦ elim (has_ended result) [ true ↦ (ok tt, db) | false ↦ rest db ]
]

charge_minutes-Keeps :
    (table : List TierRow) (call_id n left now : ℕ) (db : Db)
    → IsTable table
    → IsSound db
    → Keeps db (charge_minutes table call_id n left now db).1
unfolding charge_minutes
charge_minutes-Keeps table call_id n zero now db t s = (s, idle_at db)
charge_minutes-Keeps table call_id n (suc left) now db t s =
    go (charge_minute table call_id n now db) (charge_minute-IsSound table call_id n now db t s)
      (Moved-BankRun (
        Moved-weaken (λ m kind. sold _ _ _ m kind.2)
          (charge_minute-Refines table call_id n now db t s)))
      (λ d. charge_minutes-Keeps table call_id (suc n) left now d t)
  where
    go :
        (r : Result ChargeResult × Db)
        → IsSound r.1
        → Refines IsSomeSale db r.1
        → ((d : Db) → IsSound d → Keeps d (charge_minutes table call_id (suc n) left now d).1)
        → Keeps db (after_charge (charge_minutes table call_id (suc n) left now) r.0 r.1).1
    go (err e, d) sd first next = (sd, first)
    go (ok result, d) sd first next = elim (Bool-cases (has_ended result)) [
      | inl over ↦ rw (after_charge, over) (sd, first)
      | inr on ↦
          let (after, rest) = next d sd in rw (after_charge, on) (after, BankRun-append first rest)
    ]

-- The round at a call that was accepted at the given time, if it was.
abbrev pub round_from : List TierRow → ℕ → Call → Option ℕ → Action (Unit {0})
round_from table now c none db = (ok tt, db)
round_from table now c (some at) db =
    charge_minutes table c.id (suc c.billed_minutes) (due_minute now at - c.billed_minutes) now db

pub charge_call-Keeps :
    (table : List TierRow) (now : ℕ) (c : Call) (db : Db)
    → IsTable table
    → IsSound db
    → Keeps db (charge_call table now c db).1
unfolding charge_call
charge_call-Keeps table now c db t s = go c.started_at
  where
    go : (at : Option ℕ) → Keeps db (round_from table now c at db).1
    go none = (s, idle_at db)
    go (some at) =
        charge_minutes-Keeps table c.id (suc c.billed_minutes)
          (due_minute now at - c.billed_minutes) now db t s

charge_each-Keeps :
    (table : List TierRow) (now : ℕ) (cs : List Call) (db : Db)
    → IsTable table
    → IsSound db
    → Keeps db (charge_each table now cs db).1
unfolding charge_each
charge_each-Keeps table now [] db t s = (s, idle_at db)
charge_each-Keeps table now (c ∷ cs) db t s =
    let (after, first) = charge_call-Keeps table now c db t s in
    (
      >>-IsSound (charge_call table now c) (charge_each table now cs) db after
          (λ d sd. (charge_each-Keeps table now cs d t sd).0),
      >>-Refines (charge_call table now c) (charge_each table now cs) db after first
          (λ d sd. (charge_each-Keeps table now cs d t sd).1),
    )

pub run_due_charges-Keeps :
    (table : List TierRow) (now : ℕ) (db : Db)
    → IsTable table
    → IsSound db
    → Keeps db (run_due_charges table now db).1
unfolding run_due_charges
run_due_charges-Keeps table now db t s =
    charge_each-Keeps table now (find_many (λ c. is_active c.status) db.calls) db t s
