-- ===== src/Calls/Frame.antt =====
-- The methods of src/calls/call.service.ts write the table of calls and nothing else.
use samy.Prelude.{ℕ, ◌≡◌, arith}
use samy.Database.Rows.{Role}
use samy.Database.{Db}
use samy.Calls.{TxResult, accept_settle, accept_write, reject, hangup, panic, get_for_participant}

-- The database with another table of calls.
abbrev pub with_calls : Db → Db → Db
with_calls db after = record db { calls = after.calls }

pub accept_write-with_calls :
    (call_id now : ℕ) (outcome : TxResult) (db : Db)
    → (accept_write call_id now outcome db).1
      ≡ with_calls db (accept_write call_id now outcome db).1
unfolding accept_write
accept_write-with_calls call_id now outcome db = ground arith

pub accept_settle-with_calls :
    (call_id now : ℕ) (outcome : TxResult) (db : Db)
    → (accept_settle call_id now outcome db).1
      ≡ with_calls db (accept_settle call_id now outcome db).1
unfolding accept_settle
accept_settle-with_calls call_id now outcome db = ground arith

pub reject-with_calls :
    (call_id model_id now : ℕ) (db : Db)
    → (reject call_id model_id now db).1 ≡ with_calls db (reject call_id model_id now db).1
unfolding reject
reject-with_calls call_id model_id now db = ground arith

pub hangup-with_calls :
    (call_id user_id now : ℕ) (db : Db)
    → (hangup call_id user_id now db).1 ≡ with_calls db (hangup call_id user_id now db).1
unfolding hangup
hangup-with_calls call_id user_id now db = ground arith

pub panic-with_calls :
    (call_id model_id now : ℕ) (db : Db)
    → (panic call_id model_id now db).1 ≡ with_calls db (panic call_id model_id now db).1
unfolding panic
panic-with_calls call_id model_id now db = ground arith

pub get_for_participant-with_calls :
    (call_id user_id : ℕ) (role : Role) (now : ℕ) (db : Db)
    → (get_for_participant call_id user_id role now db).1
      ≡ with_calls db (get_for_participant call_id user_id role now db).1
unfolding get_for_participant
get_for_participant-with_calls call_id user_id role now db = ground arith
