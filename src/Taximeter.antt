-- ===== src/Taximeter.antt =====
-- src/scheduler/taximeter.service.ts: the tick that charges every active call for the minutes that
-- are due. The environment switch is read by `handle_tick`; log lines are left out.
pub mod CatchUp
pub mod Ends
use samy.Prelude.{
  ℕ, zero, suc, ◌+◌, ◌-◌, ◌/◌, Bool, true, false, Option, none, some, List, [], ◌∷◌, ltb,
  if◌then◌else◌, find_many,
}
use samy.Database.Rows.{Call, is_active}
use samy.Database.{Db, Action, ok, err, pure, query, ◌>>=◌, ◌>>◌}
use samy.Ranking.{TierRow}
use samy.Billing.{
  ChargeResult, charged, already_charged, ended, not_active, call_not_found, charge_minute,
}

-- `r.ended`: set by one of the results only.
abbrev pub has_ended : ChargeResult → Bool
has_ended ended = true
has_ended _ = false

-- `Math.floor((now - startedAt) / 60_000) + 1`; before `startedAt` it is 0 or less, and the loop
-- from a positive minute does not run, as with 0.
abbrev pub due_minute : ℕ → ℕ → ℕ
due_minute now started_at = if ltb now started_at then 0 else suc ((now - started_at) / 60000)

-- The loop over the minutes from `n`, with the number of minutes left: it stops at the end of the
-- call and at an exception, and raises none.
unfoldable pub charge_minutes : List TierRow → ℕ → ℕ → ℕ → ℕ → Action (Unit {0})
charge_minutes table call_id n zero now db = (ok tt, db)
charge_minutes table call_id n (suc left) now db =
    let (r, db') = charge_minute table call_id n now db in
    elim r [
      | err _ ↦ (ok tt, db')
      | ok result ↦ elim (has_ended result) [
        | true ↦ (ok tt, db')
        | false ↦ charge_minutes table call_id (suc n) left now db'
      ]
    ]

-- One round of the loop over the calls, at the call as it was read.
unfoldable pub charge_call : List TierRow → ℕ → Call → Action (Unit {0})
charge_call table now c = elim c.started_at [
  | none ↦ pure tt
  | some t ↦
      charge_minutes table c.id (suc c.billed_minutes) (due_minute now t - c.billed_minutes) now
]

unfoldable pub charge_each : List TierRow → ℕ → List Call → Action (Unit {0})
charge_each table now [] = pure tt
charge_each table now (c ∷ cs) = charge_call table now c >> charge_each table now cs

unfoldable pub run_due_charges : List TierRow → ℕ → Action (Unit {0})
run_due_charges table now = do
  calls ← query λ db. find_many (λ c. is_active c.status) db.calls
  charge_each table now calls

-- `handleTick`, with whether `SCHEDULERS_ENABLED` is 'true'.
unfoldable pub handle_tick : Bool → List TierRow → ℕ → Action (Unit {0})
handle_tick enabled table now = if enabled then run_due_charges table now else pure tt
