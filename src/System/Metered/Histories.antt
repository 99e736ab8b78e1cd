-- ===== src/System/Metered/Histories.antt =====
-- The taximeter (src/scheduler/taximeter.service.ts), the calls (src/calls) and whole histories
-- keep the bills paid.
use mathlib.Core.Path.{subst, sym}
use samy.Prelude.{
  ℕ, zero, suc, ◌≡◌, refl, ◌-◌, false, Option, none, some, List, [], ◌∷◌, any, arith, find_many,
  Bool-cases, inl, inr,
}
use samy.Prelude.Int.{ℤ, int_laws}
use samy.Database.Accounts.{Account}
use samy.Database.Rows.{Call, is_active}
use samy.Marketplace.Profile.{upsert}
use samy.Database.{Db, Result, ok, err, ◌>>◌}
use samy.Database.Queries.{call_has_id}
use samy.Ranking.{TierRow}
use samy.Billing.{ChargeResult, charge_minute}
use samy.Calls.{initiate, new_call, end_call}
use samy.Calls.Bills.{
  bills, accept_settle-bills, accept_write-bills, end_call-bills, get_for_participant-bills,
  hangup-bills, panic-bills, reject-bills,
}
use samy.Calls.Frame.{
  accept_settle-with_calls, accept_write-with_calls, reject-with_calls, hangup-with_calls,
  panic-with_calls, get_for_participant-with_calls,
}
use samy.Calls.Open.{InitiateOutcome, is_refused, is_created, initiate-outcome}
use samy.Taximeter.{
  has_ended, due_minute, charge_minutes, charge_call, charge_each, run_due_charges,
}
use samy.Wallet.{create_recharge, expire_stale_recharges}
use samy.Wallet.Amount.{Decimal}
use samy.Wallet.Create
use samy.Wallet.Create.{CreateOutcome, create_recharge-outcome}
use samy.System.Sound.{IsSound, IsTable}
use samy.System.Sales.{charge_minute-IsSound}
use samy.System.Ticks.{after_charge, charge_call-Keeps, round_from}
use samy.System.Run.{Config, IsConfig, Op, run, step, step-IsSound}
use samy.System.Profiles.{upsert-same_ledger, upsert-same_calls}
use samy.System.Metered.{IsMetered, has_bill}
use samy.System.Metered.Steps.{Metered}
use samy.System.Metered.Services.{
  charge_minute-Metered, confirm_recharge-Metered, process_pending-Metered, recover_stuck-Metered,
  request_payout-Metered, settle-Metered, send_gift-Metered,
}

-- The table of calls alone has changed, and bills nothing more.
calls-Metered :
    (db : Db) (cs : List Call)
    → bills cs ≡ bills db.calls
    → Metered db
    → Metered (record db { calls = cs })
calls-Metered db cs e k = subst (λ bs. IsMetered db.ledger bs) (sym e) k

charge_minutes-Metered :
    (table : List TierRow) (call_id n left now : ℕ) (db : Db)
    → IsTable table
    → IsSound db
    → Metered db
    → Metered (charge_minutes table call_id n left now db).1
unfolding charge_minutes
charge_minutes-Metered table call_id n zero now db t s k = k
charge_minutes-Metered table call_id n (suc left) now db t s k =
    go (charge_minute table call_id n now db) (charge_minute-IsSound table call_id n now db t s)
      (charge_minute-Metered table call_id n now db s.unique k)
      (λ d. charge_minutes-Metered table call_id (suc n) left now d t)
  where
    go :
        (r : Result ChargeResult × Db)
        → IsSound r.1
        → Metered r.1
        → ((d : Db)
            → IsSound d
            → Metered d
            → Metered (charge_minutes table call_id (suc n) left now d).1)
        → Metered (after_charge (charge_minutes table call_id (suc n) left now) r.0 r.1).1
    go (err e, d) sd kd next = kd
    go (ok result, d) sd kd next = elim (Bool-cases (has_ended result)) [
      | inl over ↦ rw (after_charge, over) kd
      | inr on ↦ rw (after_charge, on) (next d sd kd)
    ]

charge_call-Metered :
    (table : List TierRow) (now : ℕ) (c : Call) (db : Db)
    → IsTable table
    → IsSound db
    → Metered db
    → Metered (charge_call table now c db).1
unfolding charge_call
charge_call-Metered table now c db t s k = go c.started_at
  where
    go : (at : Option ℕ) → Metered (round_from table now c at db).1
    go none = k
    go (some at) =
        charge_minutes-Metered table c.id (suc c.billed_minutes)
          (due_minute now at - c.billed_minutes) now db t s k

charge_each-Metered :
    (table : List TierRow) (now : ℕ) (cs : List Call) (db : Db)
    → IsTable table
    → IsSound db
    → Metered db
    → Metered (charge_each table now cs db).1
unfolding charge_each
charge_each-Metered table now [] db t s k = k
charge_each-Metered table now (c ∷ cs) db t s k =
    ended (charge_call table now c db) (charge_call-Keeps table now c db t s).0
      (charge_call-Metered table now c db t s k) (λ d. charge_each-Metered table now cs d t)
  where
    ended :
        (r : Result (Unit {0}) × Db)
        → IsSound r.1
        → Metered r.1
        → ((d : Db) → IsSound d → Metered d → Metered (charge_each table now cs d).1)
        → Metered (((λ _. r) >> charge_each table now cs) db).1
    ended (ok a, d) sd kd next = next d sd kd
    ended (err e, d) sd kd next = kd

run_due_charges-Metered :
    (table : List TierRow) (now : ℕ) (db : Db)
    → IsTable table
    → IsSound db
    → Metered db
    → Metered (run_due_charges table now db).1
unfolding run_due_charges
run_due_charges-Metered table now db t s k =
    charge_each-Metered table now (find_many (λ c. is_active c.status) db.calls) db t s k

create_recharge-Metered :
    (cfg : Config) (id user_id : ℕ) (amount : Decimal) (now : ℕ) (db : Db)
    → Metered db
    → Metered (create_recharge cfg.create_charge cfg.min_recharge id user_id amount now db).1
create_recharge-Metered cfg id user_id amount now db k =
    go (create_recharge-outcome cfg.create_charge cfg.min_recharge id user_id amount now db)
  where
    go :
        {r : Result (Unit {0}) × Db}
        → CreateOutcome cfg.create_charge cfg.min_recharge id user_id amount now db r
        → Metered r.1
    go (Create.is_refused bad) = k
    go (Create.is_taken used) = k
    go (Create.is_open c places enough free up) = k
    go (Create.is_failed places enough free down) = k

no_bill :
    (id : ℕ) (cs : List Call)
    → any (call_has_id id) cs ≡ false
    → any (has_bill id) (bills cs) ≡ false
no_bill id [] h = refl
no_bill id (c ∷ cs) h = ground (arith, no_bill id cs)

-- A new call has no minutes, and nothing has been taken for it.
new_call-Metered :
    (id client_id model_id : ℕ) (price : ℤ) (now : ℕ) (db : Db)
    → any (call_has_id id) db.calls ≡ false
    → Metered db
    → Metered (record db { calls = new_call id client_id model_id price now ∷ db.calls })
new_call-Metered id client_id model_id price now db fresh k = record {
  paid = (rw (k.others id (no_bill id db.calls fresh)) (omega int_laws), k.paid);
  others = λ i h. k.others i (ground (arith, h));
}

initiate-Metered :
    (id client_id model_id now : ℕ) (db : Db)
    → Metered db
    → Metered (initiate id client_id model_id now db).1
initiate-Metered id client_id model_id now db k = go (initiate-outcome id client_id model_id now db)
  where
    go : {r : Result Call × Db} → InitiateOutcome id client_id model_id now db r → Metered r.1
    go (is_refused e) = k
    go (is_created p unbusy callable free on rich fresh) =
        new_call-Metered id client_id model_id p.price_per_minute now db fresh k

step-Metered :
    (cfg : Config) (db : Db) (op : Op)
    → IsConfig cfg
    → IsSound db
    → Metered db
    → Metered (step cfg db op)
unfolding expire_stale_recharges end_call
step-Metered cfg db (Op.charge c m now) h s k =
    charge_minute-Metered cfg.table c m now db s.unique k
step-Metered cfg db (Op.gift id c m t) h s k = send_gift-Metered cfg.table id c m t db k
step-Metered cfg db (Op.confirm psp amount now) h s k = confirm_recharge-Metered psp amount now db k
step-Metered cfg db (Op.recharge id u amount now) h s k =
    create_recharge-Metered cfg id u amount now db k
step-Metered cfg db (Op.expire now) h s k = k
step-Metered cfg db (Op.request id m amount key now) h s k =
    request_payout-Metered cfg.min_payout id (Account.model m) amount key now db k
step-Metered cfg db (Op.process send_pix now) h s k = process_pending-Metered send_pix now db k
step-Metered cfg db (Op.recover send_pix now) h s k =
    recover_stuck-Metered send_pix cfg.stuck_ms now db k
step-Metered cfg db (Op.claims id now) h s k = k
step-Metered cfg db (Op.reclaims cutoff id now) h s k = k
step-Metered cfg db (Op.settles p payable sent now) h s k = settle-Metered p sent now db k
step-Metered cfg db (Op.initiates id c m now) h s k = initiate-Metered id c m now db k
step-Metered cfg db (Op.writes_accept c now outcome) h s k =
    rw (accept_write-with_calls c now outcome db)
      (calls-Metered db _ (accept_write-bills c now outcome db) k)
step-Metered cfg db (Op.settles_accept c now outcome) h s k =
    rw (accept_settle-with_calls c now outcome db)
      (calls-Metered db _ (accept_settle-bills c now outcome db) k)
step-Metered cfg db (Op.rejects c m now) h s k =
    rw (reject-with_calls c m now db) (calls-Metered db _ (reject-bills c m now db) k)
step-Metered cfg db (Op.hangs_up c u now) h s k =
    rw (hangup-with_calls c u now db) (calls-Metered db _ (hangup-bills c u now db) k)
step-Metered cfg db (Op.panics c m now) h s k =
    rw (panic-with_calls c m now db) (calls-Metered db _ (panic-bills c m now db) k)
step-Metered cfg db (Op.ends c reason now) h s k =
    calls-Metered db _ (end_call-bills c reason now db) k
step-Metered cfg db (Op.views c u role now) h s k =
    rw (get_for_participant-with_calls c u role now db)
      (calls-Metered db _ (get_for_participant-bills c u role now db) k)
step-Metered cfg db (Op.tick now) h s k = run_due_charges-Metered cfg.table now db h.rates s k
step-Metered cfg db (Op.saves_profile u dto now) h s k =
    subst (λ l. IsMetered l (bills (upsert cfg.is_http_url u dto now db).1.calls))
      (sym (upsert-same_ledger cfg.is_http_url u dto now db))
      (subst (λ cs. IsMetered db.ledger (bills cs))
        (sym (upsert-same_calls cfg.is_http_url u dto now db)) k)

-- In a database where the ledger has taken, for every call, its price for every minute that it
-- counts, and nothing for a call that is not there, this stays so along every history of calls of
-- the services, if the database is sound, tier rates are between 0 and 1 and minimums are zero or
-- more.
pub run-IsMetered :
    (cfg : Config) (db : Db) (ops : List Op)
    → IsConfig cfg
    → IsSound db
    → IsMetered db.ledger (bills db.calls)
    → IsMetered (run cfg db ops).ledger (bills (run cfg db ops).calls)
unfolding run
run-IsMetered cfg db [] h s k = k
run-IsMetered cfg db (op ∷ ops) h s k =
    run-IsMetered cfg (step cfg db op) ops h (step-IsSound cfg db op h s)
      (step-Metered cfg db op h s k)
