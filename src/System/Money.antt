-- ===== src/System/Money.antt =====
-- Recharges (src/wallet/wallet.service.ts) and payouts (src/payout) keep the invariant.
use samy.Prelude.{
  ℕ, ◌≡◌, ◌≢◌, refl, ◌==◌, Bool, false, List, [], ◌∷◌, String, arith, All, All-find_first,
  All-find_many, All-update_many, Bool-cases, inl, inr, count, ◌-◌, update_many,
}
use samy.Prelude.Int.{ℤ, pos, neg, ltb_ℤ, ◌≤ℤ◌, int_laws}
use samy.Database.Accounts.{Account, Group}
use samy.Database.Rows.{is_pending_payout, EntryType, Payout, Recharge}
use samy.Database.{Db, Action, Result, ok, err, ◌>>◌}
use samy.Ledger.{balance}
use samy.Ledger.Posting.{posted, Posts-IsBooked}
use samy.Ledger.Solvency.{outside-IsSolvent}
use samy.Wallet.{
  ConfirmResult, confirm_recharge, expire_stale_recharges, has_charge_id, is_claimable, mark_paid,
  mark_expired, is_stale, recharge_entries,
}
use samy.Wallet.Confirm.{
  ConfirmOutcome, is_unknown, was_paid, is_mismatch, is_unclaimed, is_clash, is_credited,
  confirm_recharge-outcome, recharge_entries-balanced,
}
use samy.Payout.{
  SendPix, settle, request_payout, payout_entries, new_payout, reversal_entries, mark_paid_out,
  mark_payout_failed, process_each, process_pending, recover_each, recover_stuck, claims_pending,
  claims_stuck, mark_processing, renew_stamp, is_stuck, claim_and_settle,
}
use samy.Payout.Request
use samy.Payout.Request.{RequestOutcome, request_payout-outcome, payout_entries-balanced}
use samy.Payout.Settle
use samy.Payout.Settle.{SettleOutcome, settle-outcome, reversal_entries-balanced}
use samy.Database.Queries.{payout_has_id}
use samy.System.Sound.{IsSound, IsPayable}
use samy.System.Sales.{posted-IsSound}

abbrev pub HasAmount : Recharge → Type 0
HasAmount r = pos 0 ≤ℤ r.amount

pub recharges-IsSound :
    {db : Db} (rs : List Recharge)
    → All HasAmount rs
    → IsSound db
    → IsSound (record db { recharges = rs })
recharges-IsSound rs h s = record {
  booked = s.booked;
  solvent = s.solvent;
  unique = s.unique;
  call_prices = s.call_prices;
  profiles = s.profiles;
  gift_prices = s.gift_prices;
  recharges = h;
  payouts = s.payouts;
}

pub payouts-IsSound :
    {db : Db} (ps : List Payout)
    → All IsPayable ps
    → IsSound db
    → IsSound (record db { payouts = ps })
payouts-IsSound ps h s = record {
  booked = s.booked;
  solvent = s.solvent;
  unique = s.unique;
  call_prices = s.call_prices;
  profiles = s.profiles;
  gift_prices = s.gift_prices;
  recharges = s.recharges;
  payouts = h;
}

pub confirm_recharge-IsSound :
    (psp_charge_id : String) (event_amount : ℤ) (now : ℕ) (db : Db)
    → IsSound db
    → IsSound (confirm_recharge psp_charge_id event_amount now db).1
confirm_recharge-IsSound psp_charge_id event_amount now db s =
    go (confirm_recharge-outcome psp_charge_id event_amount now db)
  where
    claimed :
        (r : Recharge)
        → IsSound
            (record db { recharges = update_many (is_claimable r.id) (mark_paid now) db.recharges })
    claimed r =
        recharges-IsSound _
          (All-update_many (is_claimable r.id) HasAmount (mark_paid now) db.recharges (λ a h. h)
            s.recharges)
          s

    go :
        {r : Result ConfirmResult × Db}
        → ConfirmOutcome psp_charge_id event_amount now db r
        → IsSound r.1
    go (is_unknown e) = s
    go (was_paid r e p) = s
    go (is_mismatch r e d) = s
    go (is_unclaimed r e p c) = claimed r
    go (is_clash r c) = s
    go (is_credited r e p same c fresh) =
        let amount =
          All-find_first (has_charge_id psp_charge_id) HasAmount db.recharges r s.recharges e in
        let client_balance = s.solvent (Account.client r.user_id) (λ x. cc) in
        posted-IsSound _
          (Posts-IsBooked
            (posted (Group.recharge r.id) (recharge_entries r) (recharge_entries-balanced r) fresh
              refl)
            s.booked)
          (outside-IsSolvent (Account.client r.user_id) EntryType.recarga EntryType.recarga_offset
            r.amount (neg r.amount) (Group.recharge r.id) db.ledger (λ x. cc)
            (omega (int_laws, amount, client_balance)) s.solvent)
          (claimed r)

pub expire_stale_recharges-IsSound :
    (now : ℕ) (db : Db) → IsSound db → IsSound (expire_stale_recharges now db).1
unfolding expire_stale_recharges
expire_stale_recharges-IsSound now db s =
    recharges-IsSound _
      (All-update_many (is_stale now) HasAmount mark_expired db.recharges (λ a h. h) s.recharges) s

pub not_below : (a b : ℤ) → ltb_ℤ a b ≡ false → b ≤ℤ a
not_below a b h = ground arith

pub request_payout-IsSound :
    (min_payout : ℤ) (id : ℕ) (account : Account) (amount : ℤ) (pix_key : String) (now : ℕ)
    (db : Db)
    → pos 0 ≤ℤ min_payout
    → account ≢ Account.external
    → IsSound db
    → IsSound (request_payout min_payout id account amount pix_key now db).1
request_payout-IsSound min_payout id account amount pix_key now db min inside s =
    go (request_payout-outcome min_payout id account amount pix_key now db)
  where
    go :
        {r : Result Payout × Db}
        → RequestOutcome min_payout id account amount pix_key now db r
        → IsSound r.1
    go (Request.is_unapproved e) = s
    go (Request.is_below e) = s
    go (Request.is_short e) = s
    go (Request.is_taken e) = s
    go (Request.is_clash e) = s
    go (Request.is_accepted approved above enough free fresh) =
        let p = new_payout id account amount pix_key now in
        let least = not_below amount min_payout above in
        let most = not_below (balance account db.ledger) amount enough in
        posted-IsSound _
          (Posts-IsBooked
            (posted (Group.payout id) (payout_entries p) (payout_entries-balanced p) fresh refl)
            s.booked)
          (outside-IsSolvent account EntryType.saque EntryType.saque_offset (neg amount) amount
            (Group.payout id) db.ledger inside (omega (int_laws, most)) s.solvent)
          (payouts-IsSound _ ((omega (arith, least, min), inside), s.payouts) s)

pub settle-IsSound :
    (p : Payout) (sent : Bool) (now : ℕ) (db : Db)
    → IsPayable p
    → IsSound db
    → IsSound (settle p sent now db).1
settle-IsSound p sent now db (amount, inside) s = go (settle-outcome p sent now db)
  where
    go : {r : Result (Unit {0}) × Db} → SettleOutcome p sent now db r → IsSound r.1
    go (Settle.is_paid_out e k) =
        payouts-IsSound _
          (All-update_many (payout_has_id p.id) IsPayable (mark_paid_out now) db.payouts (λ a h. h)
            s.payouts)
          s
    go (Settle.is_clash e) = s
    go (Settle.is_gone e) = s
    go (Settle.is_reversed e k fresh) =
        let account_balance = s.solvent p.account inside in
        posted-IsSound _
          (Posts-IsBooked
            (posted (Group.payout_reversal p.id) (reversal_entries p) (reversal_entries-balanced p)
              fresh refl)
            s.booked)
          (outside-IsSolvent p.account EntryType.saque_estorno EntryType.saque_estorno_offset
            p.amount (neg p.amount) (Group.payout_reversal p.id) db.ledger inside
            (omega (int_laws, amount, account_balance)) s.solvent)
          (payouts-IsSound _
            (All-update_many (payout_has_id p.id) IsPayable (mark_payout_failed now) db.payouts
              (λ a h. h) s.payouts)
            s)

pub claim_and_settle-IsSound :
    (guard : Payout → Bool) (write : Payout → Payout) (send_pix : SendPix) (now : ℕ) (p : Payout)
    (db : Db)
    → ((q : Payout) → IsPayable q → IsPayable (write q))
    → IsPayable p
    → IsSound db
    → IsSound (claim_and_settle guard write send_pix now p db).1
unfolding claim_and_settle
claim_and_settle-IsSound guard write send_pix now p db keep h s =
    elim (Bool-cases (count guard db.payouts == 1)) [
      | inl won ↦ rw won (settle-IsSound p (send_pix p.pix_key p.amount p.id) now _ h claimed)
      | inr lost ↦ rw lost claimed
    ]
  where
    claimed : IsSound (record db { payouts = update_many guard write db.payouts })
    claimed = payouts-IsSound _ (All-update_many guard IsPayable write db.payouts keep s.payouts) s

-- A failing round ends the loop; what it has done so far stays.
pub >>-IsSound :
    (m k : Action (Unit {0})) (db : Db)
    → IsSound (m db).1
    → ((d : Db) → IsSound d → IsSound (k d).1)
    → IsSound ((m >> k) db).1
>>-IsSound m k db h next = ended (m db) h
  where
    ended : (r : Result (Unit {0}) × Db) → IsSound r.1 → IsSound (((λ _. r) >> k) db).1
    ended (ok a, d) h = next d h
    ended (err e, d) h = h

process_each-IsSound :
    (send_pix : SendPix) (now : ℕ) (ps : List Payout) (db : Db)
    → All IsPayable ps
    → IsSound db
    → IsSound (process_each send_pix now ps db).1
unfolding process_each
process_each-IsSound send_pix now [] db h s = s
process_each-IsSound send_pix now (p ∷ ps) db h s =
    >>-IsSound (claim_and_settle (claims_pending p.id) (mark_processing now) send_pix now p)
      (process_each send_pix now ps) db
      (claim_and_settle-IsSound _ _ send_pix now p db (λ q hq. hq) h.0 s)
      (λ d sd. process_each-IsSound send_pix now ps d h.1 sd)

pub process_pending-IsSound :
    (send_pix : SendPix) (now : ℕ) (db : Db)
    → IsSound db
    → IsSound (process_pending send_pix now db).1
unfolding process_pending
process_pending-IsSound send_pix now db s =
    process_each-IsSound send_pix now _ db
      (All-find_many (λ p. is_pending_payout p.status) IsPayable db.payouts s.payouts) s

recover_each-IsSound :
    (send_pix : SendPix) (cutoff now : ℕ) (ps : List Payout) (db : Db)
    → All IsPayable ps
    → IsSound db
    → IsSound (recover_each send_pix cutoff now ps db).1
unfolding recover_each
recover_each-IsSound send_pix cutoff now [] db h s = s
recover_each-IsSound send_pix cutoff now (p ∷ ps) db h s =
    >>-IsSound (claim_and_settle (claims_stuck cutoff p.id) (renew_stamp now) send_pix now p)
      (recover_each send_pix cutoff now ps) db
      (claim_and_settle-IsSound _ _ send_pix now p db (λ q hq. hq) h.0 s)
      (λ d sd. recover_each-IsSound send_pix cutoff now ps d h.1 sd)

pub recover_stuck-IsSound :
    (send_pix : SendPix) (stuck_ms now : ℕ) (db : Db)
    → IsSound db
    → IsSound (recover_stuck send_pix stuck_ms now db).1
unfolding recover_stuck
recover_stuck-IsSound send_pix stuck_ms now db s =
    recover_each-IsSound send_pix (now - stuck_ms) now _ db
      (All-find_many (is_stuck (now - stuck_ms)) IsPayable db.payouts s.payouts) s
