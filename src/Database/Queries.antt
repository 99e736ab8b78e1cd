-- ===== src/Database/Queries.antt =====
-- The queries on single tables that several services make: `findUnique` by a key, and `update` by
-- the primary key, which raises P2025 where no row has it.
use samy.Prelude.{ℕ, Bool, ◌==◌, Option, not, any, find_first, update_many}
use samy.Database.Rows.{Call, User, ModelProfile, Recharge, Payout}
use samy.Database.{Db, Action, record_not_found, raise_if, modify, query, ◌>>=◌, ◌>>◌}

abbrev pub call_has_id : ℕ → Call → Bool
call_has_id id c = c.id == id

abbrev pub find_call : ℕ → Db → Option Call
find_call id db = find_first (call_has_id id) db.calls

abbrev pub find_user : ℕ → Db → Option User
find_user id db = find_first (λ u. u.id == id) db.users

abbrev pub find_profile : ℕ → Db → Option ModelProfile
find_profile user_id db = find_first (λ p. p.user_id == user_id) db.profiles

-- `call.update({ where: { id }, data })`.
abbrev pub update_call : ℕ → (Call → Call) → Action (Unit {0})
update_call id f = do
  raise_if (← query λ db. not (any (call_has_id id) db.calls)) record_not_found
  modify λ db. record db { calls = update_many (call_has_id id) f db.calls }

abbrev pub payout_has_id : ℕ → Payout → Bool
payout_has_id id p = p.id == id

-- `payout.update({ where: { id }, data })`.
abbrev pub update_payout : ℕ → (Payout → Payout) → Action (Unit {0})
update_payout id f = do
  raise_if (← query λ db. not (any (payout_has_id id) db.payouts)) record_not_found
  modify λ db. record db { payouts = update_many (payout_has_id id) f db.payouts }

abbrev pub recharge_has_id : ℕ → Recharge → Bool
recharge_has_id id r = r.id == id

-- `recharge.update({ where: { id }, data })`.
abbrev pub update_recharge : ℕ → (Recharge → Recharge) → Action (Unit {0})
update_recharge id f = do
  raise_if (← query λ db. not (any (recharge_has_id id) db.recharges)) record_not_found
  modify λ db. record db { recharges = update_many (recharge_has_id id) f db.recharges }
