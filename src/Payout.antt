-- ===== src/Payout.antt =====
-- src/payout/payout.service.ts and payout.processor.ts: requests of a payout, their settlement by
-- PIX, and the recovery of stuck ones. The provider (psp-payout.port.ts) is a parameter that says
-- whether `sendPix` returns for a key, an amount and a payout id, or throws.
pub mod Request
pub mod Settle
pub mod Refund
pub mod Claims
use samy.Prelude.{
  ℕ, Bool, true, false, not, ◌&&◌, ◌||◌, ◌==◌, ◌-◌, Option, none, some, List, [], ◌∷◌, String, ltb,
  if◌then◌else◌, any, find_first, find_many, update_many, count,
}
use samy.Prelude.Int.{ℤ, pos, negsuc, neg, ltb_ℤ}
use samy.Database.Accounts.{Account, Group, account_eq}
use samy.Database.Rows.{
  EntryType, KycStatus, Payout, PayoutStatus, is_pending_payout, is_processing,
}
use samy.Database.{
  Db, Action, Result, ok, err, bad_request, forbidden, service_unavailable, unique_violation,
  attempt, pure, raise, raise_if, query, modify, transaction, ◌>>=◌, ◌>>◌,
}
use samy.Database.Queries.{payout_has_id, update_payout}
use samy.Ledger.{LedgerEntryInput, get_balance, post_transaction, post_own_transaction}

-- `sendPix(pixKey, amount, idempotencyKey)`: whether it returns.
abbrev pub SendPix : Type 0
SendPix = String → ℤ → ℕ → Bool

-- `TableKycAdapter.isApproved` (src/kyc/table-kyc.adapter.ts).
abbrev pub is_approved : Account → List KycStatus → Bool
is_approved account rows = elim (find_first (λ k. account_eq k.account account) rows) [
  | none ↦ false
  | some k ↦ k.approved
]

abbrev pub new_payout : ℕ → Account → ℤ → String → ℕ → Payout
new_payout id account amount pix_key now = record {
  id = id;
  account = account;
  amount = amount;
  status = PayoutStatus.pending;
  pix_key = pix_key;
  created_at = now;
  processed_at = none;
  processing_at = none;
}

abbrev pub payout_entries : Payout → List LedgerEntryInput
payout_entries p =
    record { account = p.account; entry_type = EntryType.saque; amount = neg p.amount }
    ∷ record { account = Account.external; entry_type = EntryType.saque_offset; amount = p.amount }
    ∷ []

-- The transaction of `requestPayout`, under the account's advisory lock.
request_locked : ℕ → Account → ℤ → String → ℕ → Action Payout
unfolding get_balance
request_locked id account amount pix_key now = do
  balance ← get_balance account
  raise_if (ltb_ℤ balance amount) (bad_request "Insufficient balance")
  raise_if (← query λ db. any (payout_has_id id) db.payouts) unique_violation
  modify λ db. record db { payouts = new_payout id account amount pix_key now ∷ db.payouts }
  post_transaction (Group.payout id) (payout_entries (new_payout id account amount pix_key now))
  pure (new_payout id account amount pix_key now)

unfoldable pub request_payout : ℤ → ℕ → Account → ℤ → String → ℕ → Action Payout
unfolding request_locked
request_payout min_payout id account amount pix_key now = do
  raise_if (← query λ db. not (is_approved account db.kyc_status)) (forbidden "KYC not approved")
  raise_if (ltb_ℤ amount min_payout) (bad_request "Amount below minimum payout")
  transaction (request_locked id account amount pix_key now)

abbrev pub mark_paid_out : ℕ → Payout → Payout
mark_paid_out now p = record p { status = PayoutStatus.paid; processed_at = some now }

abbrev pub mark_payout_failed : ℕ → Payout → Payout
mark_payout_failed now p = record p { status = PayoutStatus.failed; processed_at = some now }

abbrev pub reversal_entries : Payout → List LedgerEntryInput
reversal_entries p =
    record { account = p.account; entry_type = EntryType.saque_estorno; amount = p.amount }
    ∷ record {
      account = Account.external;
      entry_type = EntryType.saque_estorno_offset;
      amount = neg p.amount;
    }
    ∷ []

-- The `catch` of `settle`: the refund and the final status, in one transaction.
unfoldable pub reverse : Payout → ℕ → Action (Unit {0})
reverse p now = transaction (do
  post_transaction (Group.payout_reversal p.id) (reversal_entries p)
  update_payout p.id (mark_payout_failed now))

-- `settle` of a payout as the worker read it; `sent` says that `sendPix` returned.
unfoldable pub settle : Payout → Bool → ℕ → Action (Unit {0})
unfolding reverse
settle p sent now =
    attempt
      (do
        raise_if (not sent) (service_unavailable "sendPix failed")
        update_payout p.id (mark_paid_out now))
      (λ _. reverse p now)

abbrev pub claims_pending : ℕ → Payout → Bool
claims_pending id p = payout_has_id id p && is_pending_payout p.status

abbrev pub mark_processing : ℕ → Payout → Payout
mark_processing now p = record p { status = PayoutStatus.processing; processing_at = some now }

-- One round of a worker's loop: claim by a guarded update, and settle if exactly one row changed.
unfoldable pub claim_and_settle :
    (Payout → Bool) → (Payout → Payout) → SendPix → ℕ → Payout → Action (Unit {0})
unfolding settle
claim_and_settle guard write send_pix now p = do
  claimed ← query λ db. count guard db.payouts
  modify λ db. record db { payouts = update_many guard write db.payouts }
  if claimed == 1 then settle p (send_pix p.pix_key p.amount p.id) now else pure tt

unfoldable pub process_each : SendPix → ℕ → List Payout → Action (Unit {0})
unfolding claim_and_settle
process_each send_pix now [] = pure tt
process_each send_pix now (p ∷ ps) =
    claim_and_settle (claims_pending p.id) (mark_processing now) send_pix now p
    >> process_each send_pix now ps

unfoldable pub process_pending : SendPix → ℕ → Action (Unit {0})
unfolding process_each
process_pending send_pix now = do
  pending ← query λ db. find_many (λ p. is_pending_payout p.status) db.payouts
  process_each send_pix now pending

-- `OR: [{ processingAt: { lt: cutoff } }, { processingAt: null }]`.
abbrev pub is_stuck : ℕ → Payout → Bool
is_stuck cutoff p =
    is_processing p.status && elim p.processing_at [ none ↦ true | some t ↦ ltb t cutoff ]

abbrev pub claims_stuck : ℕ → ℕ → Payout → Bool
claims_stuck cutoff id p = payout_has_id id p && is_stuck cutoff p

abbrev pub renew_stamp : ℕ → Payout → Payout
renew_stamp now p = record p { processing_at = some now }

unfoldable pub recover_each : SendPix → ℕ → ℕ → List Payout → Action (Unit {0})
unfolding claim_and_settle
recover_each send_pix cutoff now [] = pure tt
recover_each send_pix cutoff now (p ∷ ps) =
    claim_and_settle (claims_stuck cutoff p.id) (renew_stamp now) send_pix now p
    >> recover_each send_pix cutoff now ps

-- `recoverStuck`; a clock below `stuck_ms` does not occur, so `-` does not stop at 0.
unfoldable pub recover_stuck : SendPix → ℕ → ℕ → Action (Unit {0})
unfolding recover_each
recover_stuck send_pix stuck_ms now = do
  stuck ← query λ db. find_many (is_stuck (now - stuck_ms)) db.payouts
  recover_each send_pix (now - stuck_ms) now stuck

-- `stuckMsFromEnv`: the variable as a number of milliseconds, `none` where it is not finite.
abbrev pub stuck_ms_from_env : Option ℤ → ℕ
stuck_ms_from_env (some (pos n)) = if ltb 0 n then n else 120000
stuck_ms_from_env _ = 120000

-- `grantDevEarnings`.
abbrev pub grant_entries : Account → List LedgerEntryInput
grant_entries account =
    record { account = account; entry_type = EntryType.ganho_min; amount = pos 30000 }
    ∷ record { account = Account.external; entry_type = EntryType.seed; amount = neg (pos 30000) }
    ∷ []

abbrev pub approve_kyc : Account → List KycStatus → List KycStatus
approve_kyc account rows =
    if any (λ k. account_eq k.account account) rows
    then update_many (λ k. account_eq k.account account) (λ k. record k { approved = true }) rows
    else record { account = account; approved = true } ∷ rows

unfoldable pub grant_dev_earnings : Account → ℕ → Action (Unit {0})
grant_dev_earnings account now = do
  posted ← post_own_transaction (Group.dev_earn account now) (grant_entries account)
  modify λ db. record db { kyc_status = approve_kyc account db.kyc_status }
