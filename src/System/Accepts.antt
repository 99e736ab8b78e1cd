-- ===== src/System/Accepts.antt =====
-- The two writes of `accept` (src/calls/call.service.ts) keep the invariant, whenever they run.
use samy.Prelude.{ℕ, refl, List, [], ◌∷◌, arith, All, update_many}
use samy.Database.Rows.{Call, EndReason, is_requested}
use samy.Database.{Db}
use samy.Database.Queries.{call_has_id}
use samy.Calls.{TxResult, accept_settle, accept_write, activate}
use samy.Calls.Lifecycle.{Evolves-end_if}
use samy.Calls.Ids.{UniqueIds-activate}
use samy.System.Sound.{HasPrice, IsSound}
use samy.System.Sales.{evolved-IsSound}

HasPrice-activate :
    (id now : ℕ) (cs : List Call)
    → All HasPrice cs
    → All HasPrice (update_many (call_has_id id) (activate now) cs)
HasPrice-activate id now [] h = tt
HasPrice-activate id now (c ∷ cs) h = (ground (arith, h.0), HasPrice-activate id now cs h.1)

activated-IsSound :
    (id now : ℕ) {db : Db}
    → IsSound db
    → IsSound (record db { calls = update_many (call_has_id id) (activate now) db.calls })
activated-IsSound id now {db} s = record {
  booked = s.booked;
  solvent = s.solvent;
  unique = UniqueIds-activate id now db.calls s.unique;
  call_prices = HasPrice-activate id now db.calls s.call_prices;
  profiles = s.profiles;
  gift_prices = s.gift_prices;
  recharges = s.recharges;
  payouts = s.payouts;
}

pub accept_write-IsSound :
    (call_id now : ℕ) (outcome : TxResult) (db : Db)
    → IsSound db
    → IsSound (accept_write call_id now outcome db).1
unfolding accept_write
accept_write-IsSound call_id now outcome db s = ground (arith, s, activated-IsSound call_id now s)

pub accept_settle-IsSound :
    (call_id now : ℕ) (outcome : TxResult) (db : Db)
    → IsSound db
    → IsSound (accept_settle call_id now outcome db).1
unfolding accept_settle
accept_settle-IsSound call_id now outcome db s = ground (
  arith,
  s,
  evolved-IsSound _ (Evolves-end_if is_requested EndReason.timeout call_id now db.calls refl) s,
  evolved-IsSound _ (Evolves-end_if is_requested EndReason.no_credits call_id now db.calls refl) s,
)
