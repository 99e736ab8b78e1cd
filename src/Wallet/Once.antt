-- ===== src/Wallet/Once.antt =====
-- That a recharge is credited at most once, and what becomes of a payment for a recharge that is
-- no longer pending (src/wallet/wallet.service.ts, `confirmRecharge`).
use samy.Prelude.{
  ℕ, ◌≡◌, refl, Bool-cases, if◌then◌else◌, true, false, some, List, [], ◌∷◌, ◌++◌, ◌∙◌, String,
  arith, any, count, inl, inr, find_first, update_many, ==_refl, update_many-none,
}
use samy.Prelude.Int.{ℤ, eqb_ℤ, ◌+ℤ◌, ◌-ℤ◌, int_laws, eqb_ℤ_sound}
use samy.Database.Accounts.{Account, Group}
use samy.Database.Rows.{Recharge}
use samy.Database.{Db, Result, ok}
use samy.Ledger.{balance}
use samy.Ledger.Balance.{balance-rows_from, moved}
use samy.Wallet.{
  ConfirmResult, credited, already, has_charge_id, is_claimable, mark_paid, recharge_entries,
  confirm_recharge,
}
use samy.Wallet.Confirm.{
  ConfirmOutcome, is_unknown, was_paid, is_mismatch, is_unclaimed, is_clash, is_credited,
  confirm_recharge-outcome, credited_db, recharge_rows,
}

-- What a credit does: the recharge that the event named, with its amount, and who gains it.
pub record Credit (psp_charge_id : String) (event_amount : ℤ) (before after : Db) : Type 0 where
  pub recharge : Recharge
  pub is_named : find_first (has_charge_id psp_charge_id) before.recharges ≡ some recharge
  pub same_amount : event_amount ≡ recharge.amount
  pub client_gains :
      balance (Account.client recharge.user_id) after.ledger
      ≡ balance (Account.client recharge.user_id) before.ledger +ℤ event_amount
  pub offset :
      balance Account.external after.ledger ≡ balance Account.external before.ledger -ℤ event_amount
  pub none_claimable : any (is_claimable recharge.id) after.recharges ≡ false

none-claimable :
    (id now : ℕ) (rs : List Recharge)
    → any (is_claimable id) (update_many (is_claimable id) (mark_paid now) rs) ≡ false
none-claimable id now [] = refl
none-claimable id now (r ∷ rs) = ground (arith, none-claimable id now rs)

credited_db-Credit :
    (psp_charge_id : String) (now : ℕ) (db : Db) (r : Recharge) (event_amount : ℤ)
    → find_first (has_charge_id psp_charge_id) db.recharges ≡ some r
    → eqb_ℤ event_amount r.amount ≡ true
    → Credit psp_charge_id event_amount db (credited_db db r now)
credited_db-Credit psp_charge_id now db r event_amount e same = record {
  recharge = r;
  is_named = e;
  same_amount = eqb_ℤ_sound event_amount r.amount same;
  client_gains =
      paid (Account.client r.user_id)
      ∙ grind (int_laws, ==_refl r.user_id, eqb_ℤ_sound event_amount r.amount same);
  offset = paid Account.external ∙ grind (int_laws, eqb_ℤ_sound event_amount r.amount same);
  none_claimable = none-claimable r.id now db.recharges;
}
  where
    paid :
        (a : Account)
        → balance a (recharge_rows r ++ db.ledger)
          ≡ moved a (recharge_entries r) +ℤ balance a db.ledger
    paid a = balance-rows_from a 0 (Group.recharge r.id) (recharge_entries r) db.ledger

-- Where `confirmRecharge` credits, the event named a recharge by its charge id and with its
-- amount; the client's balance rises by that amount, the external account's falls by it, and no
-- recharge with that id is left to claim.
pub confirm_recharge-effect :
    (psp_charge_id : String) (event_amount : ℤ) (now : ℕ) (db : Db)
    → (confirm_recharge psp_charge_id event_amount now db).0 ≡ ok credited
    → Credit psp_charge_id event_amount db (confirm_recharge psp_charge_id event_amount now db).1
confirm_recharge-effect psp_charge_id event_amount now db =
    go (confirm_recharge-outcome psp_charge_id event_amount now db)
  where
    go :
        {r : Result ConfirmResult × Db}
        → ConfirmOutcome psp_charge_id event_amount now db r
        → r.0 ≡ ok credited
        → Credit psp_charge_id event_amount db r.1
    go (is_unknown _) h = absurd (ground arith)
    go (was_paid _ _ _) h = absurd (ground arith)
    go (is_mismatch _ _ _) h = absurd (ground arith)
    go (is_unclaimed _ _ _ _) h = absurd (ground arith)
    go (is_clash _ _) h = absurd (ground arith)
    go (is_credited r e unpaid same won fresh) h =
        credited_db-Credit psp_charge_id now db r event_amount e same

abbrev claimed : ℕ → ℕ → Recharge → Recharge
claimed id now r = if is_claimable id r then mark_paid now r else r

find-claimed :
    (psp_charge_id : String) (id now : ℕ) (rs : List Recharge) (r : Recharge)
    → find_first (has_charge_id psp_charge_id) rs ≡ some r
    → find_first (has_charge_id psp_charge_id) (update_many (is_claimable id) (mark_paid now) rs)
      ≡ some (claimed id now r)
find-claimed psp_charge_id id now [] r h = cc
find-claimed psp_charge_id id now (x ∷ rs) r h =
    ground (arith, find-claimed psp_charge_id id now rs r)

count-none :
    (id : ℕ) (rs : List Recharge)
    → any (is_claimable id) rs ≡ false
    → count (is_claimable id) rs ≡ 0
count-none id [] h = refl
count-none id (r ∷ rs) h = ground (arith, count-none id rs)

-- A matching event for an unpaid recharge that cannot be claimed is answered `already`.
unclaimable :
    (psp_charge_id : String) (now : ℕ) (db : Db) (r : Recharge)
    → find_first (has_charge_id psp_charge_id) db.recharges ≡ some r
    → any (is_claimable r.id) db.recharges ≡ false
    → confirm_recharge psp_charge_id r.amount now db ≡ (ok already, db)
unfolding confirm_recharge
unclaimable psp_charge_id now db r e idle = ground (
  arith,
  count-none r.id db.recharges idle,
  update_many-none (is_claimable r.id) (mark_paid now) db.recharges idle,
)

-- A payment that matches a recharge by its charge id and amount, where no PENDING recharge with
-- that id is left (it has expired, failed or been paid), is answered `already` and changes
-- nothing: the client is not credited.
pub confirm_recharge-lost :
    (psp_charge_id : String) (event_amount : ℤ) (now : ℕ) (db : Db) (r : Recharge)
    → find_first (has_charge_id psp_charge_id) db.recharges ≡ some r
    → event_amount ≡ r.amount
    → any (is_claimable r.id) db.recharges ≡ false
    → confirm_recharge psp_charge_id event_amount now db ≡ (ok already, db)
confirm_recharge-lost psp_charge_id event_amount now db r e same idle =
    rw same (unclaimable psp_charge_id now db r e idle)

-- After an event has credited a recharge, the same event delivered again, at any time, is answered
-- `already` and changes nothing.
pub confirm_recharge-once :
    (psp_charge_id : String) (event_amount : ℤ) (now later : ℕ) (db : Db)
    → (confirm_recharge psp_charge_id event_amount now db).0 ≡ ok credited
    → confirm_recharge psp_charge_id event_amount later
        (confirm_recharge psp_charge_id event_amount now db).1
      ≡ (ok already, (confirm_recharge psp_charge_id event_amount now db).1)
confirm_recharge-once psp_charge_id event_amount now later db =
    go (confirm_recharge-outcome psp_charge_id event_amount now db)
  where
    go :
        {r : Result ConfirmResult × Db}
        → ConfirmOutcome psp_charge_id event_amount now db r
        → r.0 ≡ ok credited
        → confirm_recharge psp_charge_id event_amount later r.1 ≡ (ok already, r.1)
    go (is_unknown _) h = absurd (ground arith)
    go (was_paid _ _ _) h = absurd (ground arith)
    go (is_mismatch _ _ _) h = absurd (ground arith)
    go (is_unclaimed _ _ _ _) h = absurd (ground arith)
    go (is_clash _ _) h = absurd (ground arith)
    go (is_credited r e unpaid same won fresh) h = elim (Bool-cases (is_claimable r.id r)) [
      | inl hit ↦
          confirm_recharge-lost psp_charge_id event_amount later (credited_db db r now)
            (claimed r.id now r) (find-claimed psp_charge_id r.id now db.recharges r e)
            (eqb_ℤ_sound event_amount r.amount same ∙ ground arith)
            (rw hit (none-claimable r.id now db.recharges))
      | inr miss ↦
          confirm_recharge-lost psp_charge_id event_amount later (credited_db db r now)
            (claimed r.id now r) (find-claimed psp_charge_id r.id now db.recharges r e)
            (eqb_ℤ_sound event_amount r.amount same ∙ ground arith)
            (rw miss (none-claimable r.id now db.recharges))
    ]
