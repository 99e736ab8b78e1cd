-- ===== src/System/Bank/Histories.antt =====
-- Histories of service calls (src/billing, src/wallet, src/payout, src/calls) as runs of the bank.
use samy.Prelude.{ℕ, ◌≡◌, List, [], ◌∷◌}
use samy.Database.Accounts.{Account}
use samy.Database.{Db, Result}
use samy.Database.Rows.{Call}
use samy.Calls.{initiate, end_call}
use samy.Calls.Open.{InitiateOutcome, is_refused, is_created, initiate-outcome}
use samy.Calls.Frame.{
  accept_settle-with_calls, accept_write-with_calls, reject-with_calls, hangup-with_calls,
  panic-with_calls, get_for_participant-with_calls,
}
use samy.Wallet.{create_recharge, expire_stale_recharges}
use samy.Wallet.Amount.{Decimal}
use samy.Wallet.Create
use samy.Wallet.Create.{CreateOutcome, create_recharge-outcome}
use samy.System.Bank.{IsDeposit, IsRefund, IsSomeSale, IsWithdrawal, Movement}
use samy.System.Bank.Refines.{
  IsGiftOf, IsMinuteOf, IsRechargeOf, Moves, Refines, still, charge_minute-Refines,
  send_gift-Refines, confirm_recharge-Refines, request_payout-Refines,
}
use samy.System.Bank.Payouts.{process_pending-Refines, recover_stuck-Refines, settle-Refines}
use samy.Marketplace.Profile.{upsert}
use samy.System.Ticks.{run_due_charges-Keeps}
use samy.System.Profiles.{upsert-same_ledger}
use samy.System.Run.{Config, IsConfig, Op, step}
use samy.System.Sound.{IsSound}

abbrev pub IsNothing : Movement → Type 0
IsNothing m = ⊥

-- What a call of a service does to the balances.
abbrev pub Follows : Config → Op → Db → Db → Type 0
Follows cfg (Op.charge c minute now) db after = Moves (IsMinuteOf c db) db after
Follows cfg (Op.gift id c m t) db after = Moves (IsGiftOf c m t db) db after
Follows cfg (Op.confirm psp amount now) db after = Moves (IsRechargeOf psp db) db after
Follows cfg (Op.request id m amount key now) db after =
    Moves (IsWithdrawal (Account.model m) amount) db after
Follows cfg (Op.process send_pix now) db after = Refines (IsRefund db.payouts) db after
Follows cfg (Op.recover send_pix now) db after = Refines (IsRefund db.payouts) db after
Follows cfg (Op.settles p payable sent now) db after = Moves (IsDeposit p.account p.amount) db after
Follows cfg (Op.tick now) db after = Refines IsSomeSale db after
Follows cfg _ db after = Moves IsNothing db after

-- Along a history every call does to the balances what it should.
abbrev pub Story : Config → Db → List Op → Type 0
Story cfg db [] = Unit
Story cfg db (op ∷ ops) = Follows cfg op db (step cfg db op) × Story cfg (step cfg db op) ops

-- A call that leaves the ledger as it was.
idle-Refines : (db after : Db) → after.ledger ≡ db.ledger → Moves IsNothing db after
idle-Refines db after e = rw e (still db)

create_recharge-Refines :
    (cfg : Config) (id user_id : ℕ) (amount : Decimal) (now : ℕ) (db : Db)
    → Moves IsNothing db
        (create_recharge cfg.create_charge cfg.min_recharge id user_id amount now db).1
create_recharge-Refines cfg id user_id amount now db =
    go (create_recharge-outcome cfg.create_charge cfg.min_recharge id user_id amount now db)
  where
    go :
        {r : Result (Unit {0}) × Db}
        → CreateOutcome cfg.create_charge cfg.min_recharge id user_id amount now db r
        → Moves IsNothing db r.1
    go (Create.is_refused bad) = still db
    go (Create.is_taken used) = still db
    go (Create.is_open c places enough free up) = still db
    go (Create.is_failed places enough free down) = still db

initiate-Refines :
    (id client_id model_id now : ℕ) (db : Db)
    → Moves IsNothing db (initiate id client_id model_id now db).1
initiate-Refines id client_id model_id now db = go (initiate-outcome id client_id model_id now db)
  where
    go :
        {r : Result Call × Db}
        → InitiateOutcome id client_id model_id now db r
        → Moves IsNothing db r.1
    go (is_refused e) = still db
    go (is_created p unbusy callable free on rich fresh) = still db

pub step-Refines :
    (cfg : Config) (db : Db) (op : Op)
    → IsConfig cfg
    → IsSound db
    → Follows cfg op db (step cfg db op)
unfolding expire_stale_recharges end_call
step-Refines cfg db (Op.charge c m now) k s = charge_minute-Refines cfg.table c m now db k.rates s
step-Refines cfg db (Op.gift id c m t) k s = send_gift-Refines cfg.table id c m t db k.rates s
step-Refines cfg db (Op.confirm psp amount now) k s = confirm_recharge-Refines psp amount now db s
step-Refines cfg db (Op.recharge id u amount now) k s =
    create_recharge-Refines cfg id u amount now db
step-Refines cfg db (Op.expire now) k s = still db
step-Refines cfg db (Op.request id m amount key now) k s =
    request_payout-Refines cfg.min_payout id (Account.model m) amount key now db k.payout_min
      (λ e. cc)
step-Refines cfg db (Op.process send_pix now) k s = process_pending-Refines send_pix now db s
step-Refines cfg db (Op.recover send_pix now) k s =
    recover_stuck-Refines send_pix cfg.stuck_ms now db s
step-Refines cfg db (Op.claims id now) k s = still db
step-Refines cfg db (Op.reclaims cutoff id now) k s = still db
step-Refines cfg db (Op.settles p payable sent now) k s = settle-Refines p sent now db payable
step-Refines cfg db (Op.initiates id c m now) k s = initiate-Refines id c m now db
step-Refines cfg db (Op.writes_accept c now outcome) k s =
    rw (accept_write-with_calls c now outcome db) (still db)
step-Refines cfg db (Op.settles_accept c now outcome) k s =
    rw (accept_settle-with_calls c now outcome db) (still db)
step-Refines cfg db (Op.rejects c m now) k s = rw (reject-with_calls c m now db) (still db)
step-Refines cfg db (Op.hangs_up c u now) k s = rw (hangup-with_calls c u now db) (still db)
step-Refines cfg db (Op.panics c m now) k s = rw (panic-with_calls c m now db) (still db)
step-Refines cfg db (Op.ends c reason now) k s = still db
step-Refines cfg db (Op.views c u role now) k s =
    rw (get_for_participant-with_calls c u role now db) (still db)
step-Refines cfg db (Op.tick now) k s = (run_due_charges-Keeps cfg.table now db k.rates s).1
step-Refines cfg db (Op.saves_profile u dto now) k s =
    idle-Refines db (upsert cfg.is_http_url u dto now db).1
      (upsert-same_ledger cfg.is_http_url u dto now db)
