-- ===== src/Examples/Histories.antt =====
-- Witnesses for the calls and for the histories of the whole platform.
use samy.Prelude.{true, ℕ, ◌≡◌, refl, false, none, some, List, [], ◌∷◌, arith, Option}
use samy.Prelude.Int.{ℤ, pos, negsuc, ◌+ℤ◌}
use samy.Database.Accounts.{Account, Group}
use samy.Database.Rows.{Call, CallStatus, EndReason, EntryType}
use samy.Database.{ok}
use samy.Database.Queries.{find_call}
use samy.Ledger.{balance, rows_from, get_balance}
use samy.Ledger.Solvency.{IsSolvent, outside-IsSolvent}
use samy.Wallet.{PspCharge}
use samy.Wallet.Amount.{dec}
use samy.Calls.{TxResult, accept_check, accept_write, hangup, initiate}
use samy.Calls.Open.{InitiateOutcome, initiate-outcome}
use samy.Calls.Race.{accept_write-reopens}
use samy.System.Sound.{IsSound}
use samy.Marketplace.Profile.{bare_form}
use samy.Calls.Bills.{bills}
use samy.System.Metered.{IsMetered, debits}
use samy.System.Metered.Histories.{run-IsMetered}
use samy.System.Run.{IsConfig, Config, Op, run, run-IsSound}
use samy.Examples.{base_db, client_credit, funded, ringing, ringing_db, two_tiers}

initiate-outcome_example : InitiateOutcome 8 1 2 1000 base_db (initiate 8 1 2 1000 base_db)
initiate-outcome_example = initiate-outcome 8 1 2 1000 base_db

check_passes : (accept_check 7 2 5000 ringing_db).0 ≡ ok TxResult.active
unfolding accept_check get_balance balance ◌+ℤ◌
check_passes = refl

accept_write-reopens_example :
    let between = (hangup 7 1 6000 ringing_db).1 in
    let after = (accept_write 7 6000 TxResult.active between).1 in
    (c : Call) × (d : Call) × (find_call 7 between ≡ some c)
    × (c.status ≡ CallStatus.ended)
    × (find_call 7 after ≡ some d)
    × (d.status ≡ CallStatus.active)
    × (d.end_reason ≡ some EndReason.hangup_client)
    × (d.ended_at ≡ some 6000)
accept_write-reopens_example =
    accept_write-reopens 7 2 5000 6000 ringing_db ringing refl check_passes

abbrev provider : ℕ → ℤ → ℕ → Option PspCharge
provider id amount user_id = none

abbrev config : Config
config = record {
  table = two_tiers;
  min_recharge = pos 500;
  min_payout = pos 5000;
  stuck_ms = 120000;
  is_http_url = (λ u. true);
  create_charge = provider;
}

funded-IsSolvent : IsSolvent funded
unfolding balance ◌+ℤ◌
funded-IsSolvent =
    outside-IsSolvent (Account.model 2) EntryType.ganho_min EntryType.seed (pos 8000) (negsuc 7999)
      (Group.dev_earn (Account.model 2) 0) (rows_from 0 (Group.recharge 1) client_credit) (λ e. cc)
      (omega arith)
      (outside-IsSolvent (Account.client 1) EntryType.recarga EntryType.recarga_offset (pos 1200)
        (negsuc 1199) (Group.recharge 1) [] (λ e. cc) (omega arith) (λ a ne. omega arith))

ringing-IsSound : IsSound ringing_db
unfolding ◌+ℤ◌
ringing-IsSound = record {
  booked = record { zero_sum = refl; unique_refs = (refl, (refl, (refl, (refl, tt)))) };
  solvent = funded-IsSolvent;
  unique = (refl, tt);
  call_prices = (omega arith, tt);
  profiles = ((omega arith, tt), tt);
  gift_prices = (omega arith, tt);
  recharges = (omega arith, tt);
  payouts = tt;
}

-- The call is accepted, charged and hung up, a recharge is paid, a gift is sent, a payout is
-- asked for and its PIX fails, the model sets a new price, the client calls again and the
-- taximeter ticks.
abbrev evening : List Op
evening =
    Op.writes_accept 7 5000 TxResult.active
    ∷ Op.settles_accept 7 5000 TxResult.active
    ∷ Op.charge 7 1 6000
    ∷ Op.hangs_up 7 1 30000
    ∷ Op.confirm "charge-3" (pos 2500) 40000
    ∷ Op.gift 11 1 2 4
    ∷ Op.recharge 12 1 (dec false 1000 2) 45000
    ∷ Op.request 5 2 (pos 6000) "bia@pix" 50000
    ∷ Op.process (λ key amount id. false) 60000
    ∷ Op.saves_profile 2 (bare_form "Bia" (dec false 650 2)) 70000
    ∷ Op.initiates 8 1 2 71000
    ∷ Op.tick 72000
    ∷ []

sound_config : IsConfig config
sound_config = record {
  rates = ((omega arith, omega arith), ((omega arith, omega arith), tt));
  recharge_min = omega arith;
  payout_min = omega arith;
}

run-IsSound_example : IsSound (run config ringing_db evening)
run-IsSound_example = run-IsSound config ringing_db evening sound_config ringing-IsSound

ringing-IsMetered : IsMetered ringing_db.ledger (bills ringing_db.calls)
unfolding debits ◌+ℤ◌
ringing-IsMetered = record { paid = (refl, tt); others = λ id h. refl }

run-IsMetered_example :
    IsMetered (run config ringing_db evening).ledger (bills (run config ringing_db evening).calls)
run-IsMetered_example =
    run-IsMetered config ringing_db evening sound_config ringing-IsSound ringing-IsMetered
