-- ===== src/System/Run.antt =====
-- Histories: any sequence of calls of the services of src/billing, src/wallet, src/payout,
-- src/calls, src/scheduler and of the profile form, over the shared database.
use samy.Prelude.{
  Bool, ℕ, ◌≡◌, refl, List, [], ◌∷◌, Option, some, none, ◌==◌, All-find_first, String, arith,
  update_many, All-update_many,
}
use samy.Prelude.Int.{ℤ, pos, ◌≤ℤ◌}
use samy.Database.Accounts.{Account}
use samy.Database.Rows.{Call, EndReason, Role, User, ModelProfile, Payout}
use samy.Database.{Db, Result}
use samy.Ranking.{TierRow}
use samy.Billing.{charge_minute, send_gift}
use samy.Wallet.Amount.{Decimal, to_cents-nonneg}
use samy.Wallet.{PspCharge, confirm_recharge, create_recharge, expire_stale_recharges}
use samy.Wallet.Create
use samy.Wallet.Create.{CreateOutcome, create_recharge-outcome}
use samy.Payout.{
  claims_pending, claims_stuck, mark_processing, renew_stamp, settle, SendPix, request_payout,
  process_pending, recover_stuck,
}
use samy.Database.Queries.{find_user, find_profile}
use samy.Calls.{
  TxResult, accept_settle, accept_write, callable_profile, initiate, reject, hangup, panic,
  end_call, get_for_participant, not_ended,
}
use samy.Calls.Lifecycle.{
  reject-Evolves, hangup-Evolves, panic-Evolves, get_for_participant-Evolves, Evolves-end_if,
}
use samy.Calls.Open.{InitiateOutcome, is_refused, is_created, initiate-outcome}
use samy.Calls.Frame.{
  reject-with_calls, hangup-with_calls, panic-with_calls, get_for_participant-with_calls,
}
use samy.Taximeter.{run_due_charges}
use samy.Marketplace.Profile.{UpsertProfileDto, upsert}
use samy.System.Ticks.{run_due_charges-Keeps}
use samy.System.Profiles.{upsert-IsSound}
use samy.System.Accepts.{accept_settle-IsSound, accept_write-IsSound}
use samy.System.Sound.{IsPayable, IsSound, IsTable, IsProfile}
use samy.System.Sales.{charge_minute-IsSound, send_gift-IsSound, evolved-IsSound}
use samy.System.Money.{
  confirm_recharge-IsSound, expire_stale_recharges-IsSound, request_payout-IsSound,
  process_pending-IsSound, recover_stuck-IsSound, recharges-IsSound, payouts-IsSound,
  settle-IsSound,
}

-- What the services read from the environment, and the charge provider.
pub record Config : Type 0 where
  pub table : List TierRow
  pub min_recharge : ℤ
  pub min_payout : ℤ
  pub stuck_ms : ℕ
  -- whether a text is an http(s) address
  pub is_http_url : String → Bool
  pub create_charge : ℕ → ℤ → ℕ → Option PspCharge

pub record IsConfig (cfg : Config) : Type 0 where
  pub rates : IsTable cfg.table
  pub recharge_min : pos 0 ≤ℤ cfg.min_recharge
  pub payout_min : pos 0 ≤ℤ cfg.min_payout

-- A call of a service, with the ids and times that it is given.
pub data Op : Type 0 where
  charge : ℕ → ℕ → ℕ → Op
  gift : ℕ → ℕ → ℕ → ℕ → Op
  confirm : String → ℤ → ℕ → Op
  recharge : ℕ → ℕ → Decimal → ℕ → Op
  expire : ℕ → Op
  request : ℕ → ℕ → ℤ → String → ℕ → Op
  process : SendPix → ℕ → Op
  recover : SendPix → ℕ → Op
  -- a worker's claims, and its settlement of a payout as it has read it
  claims : ℕ → ℕ → Op
  reclaims : ℕ → ℕ → ℕ → Op
  settles : (p : Payout) → IsPayable p → Bool → ℕ → Op
  initiates : ℕ → ℕ → ℕ → ℕ → Op
  -- the two writes of `accept`, with the outcome that its reads gave, whenever they ran
  writes_accept : ℕ → ℕ → TxResult → Op
  settles_accept : ℕ → ℕ → TxResult → Op
  rejects : ℕ → ℕ → ℕ → Op
  hangs_up : ℕ → ℕ → ℕ → Op
  panics : ℕ → ℕ → ℕ → Op
  ends : ℕ → EndReason → ℕ → Op
  views : ℕ → ℕ → Role → ℕ → Op
  tick : ℕ → Op
  saves_profile : ℕ → UpsertProfileDto → ℕ → Op

abbrev pub step : Config → Db → Op → Db
step cfg db (Op.charge c m now) = (charge_minute cfg.table c m now db).1
step cfg db (Op.gift id c m t) = (send_gift cfg.table id c m t db).1
step cfg db (Op.confirm psp amount now) = (confirm_recharge psp amount now db).1
step cfg db (Op.recharge id u amount now) =
    (create_recharge cfg.create_charge cfg.min_recharge id u amount now db).1
step cfg db (Op.expire now) = (expire_stale_recharges now db).1
step cfg db (Op.request id m amount key now) =
    (request_payout cfg.min_payout id (Account.model m) amount key now db).1
step cfg db (Op.process send_pix now) = (process_pending send_pix now db).1
step cfg db (Op.recover send_pix now) = (recover_stuck send_pix cfg.stuck_ms now db).1
step cfg db (Op.claims id now) = record db {
  payouts = update_many (claims_pending id) (mark_processing now) db.payouts;
}
step cfg db (Op.reclaims cutoff id now) = record db {
  payouts = update_many (claims_stuck cutoff id) (renew_stamp now) db.payouts;
}
step cfg db (Op.settles p payable sent now) = (settle p sent now db).1
step cfg db (Op.initiates id c m now) = (initiate id c m now db).1
step cfg db (Op.writes_accept c now outcome) = (accept_write c now outcome db).1
step cfg db (Op.settles_accept c now outcome) = (accept_settle c now outcome db).1
step cfg db (Op.rejects c m now) = (reject c m now db).1
step cfg db (Op.hangs_up c u now) = (hangup c u now db).1
step cfg db (Op.panics c m now) = (panic c m now db).1
step cfg db (Op.ends c reason now) = (end_call c reason now db).1
step cfg db (Op.views c u role now) = (get_for_participant c u role now db).1
step cfg db (Op.tick now) = (run_due_charges cfg.table now db).1
step cfg db (Op.saves_profile u dto now) = (upsert cfg.is_http_url u dto now db).1

unfoldable pub run : Config → Db → List Op → Db
run cfg db [] = db
run cfg db (op ∷ ops) = run cfg (step cfg db op) ops

create_recharge-IsSound :
    (cfg : Config) (id user_id : ℕ) (amount : Decimal) (now : ℕ) (db : Db)
    → pos 0 ≤ℤ cfg.min_recharge
    → IsSound db
    → IsSound (create_recharge cfg.create_charge cfg.min_recharge id user_id amount now db).1
create_recharge-IsSound cfg id user_id amount now db min s =
    go (create_recharge-outcome cfg.create_charge cfg.min_recharge id user_id amount now db)
  where
    go :
        {r : Result (Unit {0}) × Db}
        → CreateOutcome cfg.create_charge cfg.min_recharge id user_id amount now db r
        → IsSound r.1
    go (Create.is_refused bad) = s
    go (Create.is_taken used) = s
    go (Create.is_open c places enough free up) =
        recharges-IsSound _ (to_cents-nonneg amount cfg.min_recharge min enough, s.recharges) s
    go (Create.is_failed places enough free down) =
        recharges-IsSound _ (to_cents-nonneg amount cfg.min_recharge min enough, s.recharges) s

callable-found :
    (u : Option User) (o : Option ModelProfile) (p : ModelProfile)
    → callable_profile u o ≡ some p
    → o ≡ some p
callable-found none o p e = cc
callable-found (some u) o p e = ground arith

end_call-IsSound :
    (call_id : ℕ) (reason : EndReason) (now : ℕ) (db : Db)
    → IsSound db
    → IsSound (end_call call_id reason now db).1
unfolding end_call
end_call-IsSound call_id reason now db s =
    evolved-IsSound _ (Evolves-end_if not_ended reason call_id now db.calls refl) s

initiate-IsSound :
    (id client_id model_id now : ℕ) (db : Db)
    → IsSound db
    → IsSound (initiate id client_id model_id now db).1
initiate-IsSound id client_id model_id now db s = go (initiate-outcome id client_id model_id now db)
  where
    price :
        (p : ModelProfile)
        → callable_profile (find_user model_id db) (find_profile model_id db) ≡ some p
        → pos 0 ≤ℤ p.price_per_minute
    price p callable =
        (All-find_first (λ q. q.user_id == model_id) IsProfile db.profiles p s.profiles
          (callable-found (find_user model_id db) (find_profile model_id db) p callable)).0

    go : {r : Result Call × Db} → InitiateOutcome id client_id model_id now db r → IsSound r.1
    go (is_refused e) = s
    go (is_created p idle callable free on rich fresh) = record {
      booked = s.booked;
      solvent = s.solvent;
      unique = (fresh, s.unique);
      call_prices = (price p callable, s.call_prices);
      profiles = s.profiles;
      gift_prices = s.gift_prices;
      recharges = s.recharges;
      payouts = s.payouts;
    }

pub step-IsSound :
    (cfg : Config) (db : Db) (op : Op) → IsConfig cfg → IsSound db → IsSound (step cfg db op)
step-IsSound cfg db (Op.charge c m now) k s = charge_minute-IsSound cfg.table c m now db k.rates s
step-IsSound cfg db (Op.gift id c m t) k s = send_gift-IsSound cfg.table id c m t db k.rates s
step-IsSound cfg db (Op.confirm psp amount now) k s = confirm_recharge-IsSound psp amount now db s
step-IsSound cfg db (Op.recharge id u amount now) k s =
    create_recharge-IsSound cfg id u amount now db k.recharge_min s
step-IsSound cfg db (Op.expire now) k s = expire_stale_recharges-IsSound now db s
step-IsSound cfg db (Op.request id m amount key now) k s =
    request_payout-IsSound cfg.min_payout id (Account.model m) amount key now db k.payout_min
      (λ e. cc) s
step-IsSound cfg db (Op.process send_pix now) k s = process_pending-IsSound send_pix now db s
step-IsSound cfg db (Op.recover send_pix now) k s =
    recover_stuck-IsSound send_pix cfg.stuck_ms now db s
step-IsSound cfg db (Op.claims id now) k s =
    payouts-IsSound _
      (All-update_many (claims_pending id) IsPayable (mark_processing now) db.payouts (λ a h. h)
        s.payouts)
      s
step-IsSound cfg db (Op.reclaims cutoff id now) k s =
    payouts-IsSound _
      (All-update_many (claims_stuck cutoff id) IsPayable (renew_stamp now) db.payouts (λ a h. h)
        s.payouts)
      s
step-IsSound cfg db (Op.settles p payable sent now) k s = settle-IsSound p sent now db payable s
step-IsSound cfg db (Op.initiates id c m now) k s = initiate-IsSound id c m now db s
step-IsSound cfg db (Op.writes_accept c now outcome) k s = accept_write-IsSound c now outcome db s
step-IsSound cfg db (Op.settles_accept c now outcome) k s = accept_settle-IsSound c now outcome db s
step-IsSound cfg db (Op.rejects c m now) k s =
    rw (reject-with_calls c m now db) (evolved-IsSound _ (reject-Evolves c m now db) s)
step-IsSound cfg db (Op.hangs_up c u now) k s =
    rw (hangup-with_calls c u now db) (evolved-IsSound _ (hangup-Evolves c u now db) s)
step-IsSound cfg db (Op.panics c m now) k s =
    rw (panic-with_calls c m now db) (evolved-IsSound _ (panic-Evolves c m now db) s)
step-IsSound cfg db (Op.ends c reason now) k s = end_call-IsSound c reason now db s
step-IsSound cfg db (Op.views c u role now) k s =
    rw (get_for_participant-with_calls c u role now db)
      (evolved-IsSound _ (get_for_participant-Evolves c u role now db) s)
step-IsSound cfg db (Op.tick now) k s = (run_due_charges-Keeps cfg.table now db k.rates s).0
step-IsSound cfg db (Op.saves_profile u dto now) k s = upsert-IsSound cfg.is_http_url u dto now db s

-- From a sound database, with tier rates between 0 and 1 and minimums of zero or more, every
-- history of calls of the services ends in a sound database: the ledger sums to zero and uses no
-- reference twice, no account but the external one is below zero, call ids are unique, and no
-- price or amount that will be moved is negative. The writes of `accept` may come at any time after
-- its reads, and a payout worker's settlement at any time after its claim, with other calls between;
-- each other call of a service is one step.
pub run-IsSound :
    (cfg : Config) (db : Db) (ops : List Op) → IsConfig cfg → IsSound db → IsSound (run cfg db ops)
unfolding run
run-IsSound cfg db [] k s = s
run-IsSound cfg db (op ∷ ops) k s =
    run-IsSound cfg (step cfg db op) ops k (step-IsSound cfg db op k s)
