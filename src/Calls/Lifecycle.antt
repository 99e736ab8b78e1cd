-- ===== src/Calls/Lifecycle.antt =====
-- The state machine of a call (src/calls/call.service.ts): which changes of a row the methods make.
use mathlib.Core.Path.{subst}
use samy.Prelude.{
  update_many-none, ℕ, ◌≡◌, Bool, true, false, ◌==◌, some, List, [], ◌∷◌, map, arith, any,
  find_first, update_many, Bool-cases, inl, inr,
}
use samy.Database.Rows.{Call, CallStatus, EndReason, Role, is_ended, is_requested}
use samy.Database.{Db}
use samy.Database.Queries.{call_has_id}
use samy.Calls.{end_if, not_ended, reject, hangup, panic, get_for_participant}

-- REQUESTED may become ACTIVE, and either may become ENDED; nothing leaves ENDED.
abbrev pub may_become : CallStatus → CallStatus → Bool
may_become CallStatus.requested s = true
may_become CallStatus.active CallStatus.requested = false
may_become CallStatus.active s = true
may_become CallStatus.ended s = is_ended s

-- A row and what it may be later: the parties and the price stay, the status moves forward, and
-- a row that has ended stays as it is.
pub record IsSuccessor (c d : Call) : Type 0 where
  pub same_id : d.id ≡ c.id
  pub same_client : d.client_user_id ≡ c.client_user_id
  pub same_model : d.model_user_id ≡ c.model_user_id
  pub same_price : d.price_per_minute_snapshot ≡ c.price_per_minute_snapshot
  pub forward : may_become c.status d.status ≡ true
  pub frozen : is_ended c.status ≡ true → d ≡ c

abbrev pub Evolves : List Call → List Call → Type 0
Evolves [] [] = Unit
Evolves (c ∷ cs) (d ∷ ds) = IsSuccessor c d × Evolves cs ds
Evolves _ _ = ⊥

IsSuccessor-refl : (c : Call) → IsSuccessor c c
IsSuccessor-refl c = ground arith

pub Evolves-refl : (cs : List Call) → Evolves cs cs
Evolves-refl [] = tt
Evolves-refl (c ∷ cs) = (IsSuccessor-refl c, Evolves-refl cs)

end_if-IsSuccessor :
    (guard : CallStatus → Bool) (reason : EndReason) (id now : ℕ) (c : Call)
    → guard CallStatus.ended ≡ false
    → IsSuccessor c (end_if guard reason id now c)
end_if-IsSuccessor guard reason id now c h = ground arith

pub Evolves-end_if :
    (guard : CallStatus → Bool) (reason : EndReason) (id now : ℕ) (cs : List Call)
    → guard CallStatus.ended ≡ false
    → Evolves cs (map (end_if guard reason id now) cs)
Evolves-end_if guard reason id now [] h = tt
Evolves-end_if guard reason id now (c ∷ cs) h =
    (end_if-IsSuccessor guard reason id now c h, Evolves-end_if guard reason id now cs h)

pub reject-Evolves :
    (call_id model_id now : ℕ) (db : Db) → Evolves db.calls (reject call_id model_id now db).1.calls
unfolding reject
reject-Evolves call_id model_id now db = ground (
  arith,
  Evolves-refl db.calls,
  Evolves-end_if is_requested EndReason.rejected call_id now db.calls,
)

pub hangup-Evolves :
    (call_id user_id now : ℕ) (db : Db) → Evolves db.calls (hangup call_id user_id now db).1.calls
unfolding hangup
hangup-Evolves call_id user_id now db = ground (
  arith,
  Evolves-refl db.calls,
  Evolves-end_if not_ended EndReason.hangup_client call_id now db.calls,
  Evolves-end_if not_ended EndReason.hangup_model call_id now db.calls,
)

pub panic-Evolves :
    (call_id model_id now : ℕ) (db : Db) → Evolves db.calls (panic call_id model_id now db).1.calls
unfolding panic
panic-Evolves call_id model_id now db =
    ground
      (arith, Evolves-refl db.calls, Evolves-end_if not_ended EndReason.panic call_id now db.calls)

pub get_for_participant-Evolves :
    (call_id user_id : ℕ) (role : Role) (now : ℕ) (db : Db)
    → Evolves db.calls (get_for_participant call_id user_id role now db).1.calls
unfolding get_for_participant
get_for_participant-Evolves call_id user_id role now db = ground (
  arith,
  Evolves-refl db.calls,
  Evolves-end_if is_requested EndReason.timeout call_id now db.calls,
)

abbrev pub UniqueIds : List Call → Type 0
UniqueIds [] = Unit
UniqueIds (c ∷ cs) = (any (call_has_id c.id) cs ≡ false) × UniqueIds cs

-- An update by id of the row that is found.
pub Evolves-update :
    (id : ℕ) (f : Call → Call) (cs : List Call) (c : Call)
    → UniqueIds cs
    → find_first (call_has_id id) cs ≡ some c
    → IsSuccessor c (f c)
    → Evolves cs (update_many (call_has_id id) f cs)
Evolves-update id f [] c u e r = tt
Evolves-update id f (x ∷ cs) c u e r = elim (Bool-cases (x.id == id)) [
  | inl hit ↦
      rw (hit, update_many-none (call_has_id id) f cs (ground arith))
        (subst (λ y. IsSuccessor y (f y)) (same hit) r, Evolves-refl cs)
  | inr miss ↦ rw miss (IsSuccessor-refl x, Evolves-update id f cs c u.1 (ground arith) r)
]
  where
    same : (x.id == id) ≡ true → c ≡ x
    same hit = ground arith
