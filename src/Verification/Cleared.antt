-- ===== src/Verification/Cleared.antt =====
-- Who is verified may withdraw: verifications (src/kyc-verification/kyc-verification.service.ts)
-- against the approvals that payouts read (src/kyc/table-kyc.adapter.ts).
use mathlib.Core.Path.{subst}
use text.Mathlib.TextEquality.{eq_iff}
use samy.Prelude.{
  update_many-none, ℕ, ◌≡◌, refl, Bool, true, false, not, ◌||◌, Option, some, List, [], ◌∷◌, String,
  arith, All, any, find_first, update_many, sort_by, Bool-cases, Option-cases, inl, inr,
  if◌then◌else◌,
}
use samy.Database.Accounts.{Account, account_eq}
use samy.Database.Rows.{KycStatus, KycVerification, VerificationStatus}
use samy.Database.{Db}
use samy.Payout.{approve_kyc, is_approved}
use samy.Verification.{
  Outcome, Session, apply_result, approve_verification, has_ref, is_pending_verification,
  new_verification, newest_first, reject_verification, resolve, is_open_session, start,
}
use samy.Verification.Results.{is_approved-approve_kyc}

abbrev pub is_approved_status : VerificationStatus → Bool
is_approved_status VerificationStatus.approved = true
is_approved_status _ = false

-- An approved verification is one of an approved account.
abbrev pub is_clear : List KycStatus → KycVerification → Bool
is_clear rows v = not (is_approved_status v.status) || is_approved v.account rows

abbrev pub UniqueRefs : List KycVerification → Type 0
UniqueRefs [] = Unit
UniqueRefs (v ∷ vs) = (any (has_ref v.provider_ref) vs ≡ false) × UniqueRefs vs

pub record IsCleared (db : Db) : Type 0 where
  pub refs : UniqueRefs db.kyc_verifications
  pub clear : All (λ v. is_clear db.kyc_status v ≡ true) db.kyc_verifications

-- An approval takes no other back.
is_approved-more :
    (a b : Account) (rows : List KycStatus)
    → is_approved a rows ≡ true
    → is_approved a (approve_kyc b rows) ≡ true
is_approved-more a b rows h = elim (Bool-cases (any (λ k. account_eq k.account b) rows)) [
  | inl there ↦ rw there (updated rows h)
  | inr new ↦ rw new (ground (arith, h))
]
  where
    updated :
        (rows : List KycStatus)
        → is_approved a rows ≡ true
        → is_approved a
            (update_many (λ k. account_eq k.account b) (λ k. record k { approved = true }) rows)
          ≡ true
    updated [] h = h
    updated (k ∷ rows) h = ground (arith, updated rows)

clear-more :
    (b : Account) (rows : List KycStatus) (v : KycVerification)
    → is_clear rows v ≡ true
    → is_clear (approve_kyc b rows) v ≡ true
clear-more b rows v h = ground (arith, is_approved-more v.account b rows)

All-clear-more :
    (b : Account) (rows : List KycStatus) (vs : List KycVerification)
    → All (λ v. is_clear rows v ≡ true) vs
    → All (λ v. is_clear (approve_kyc b rows) v ≡ true) vs
All-clear-more b rows [] h = tt
All-clear-more b rows (v ∷ vs) h = (clear-more b rows v h.0, All-clear-more b rows vs h.1)

-- A decision on the verification that is found: the rows stay clear if the decided one is.
All-decided :
    (ref : String) (f : KycVerification → KycVerification) (rows : List KycStatus)
    (vs : List KycVerification) (v : KycVerification)
    → UniqueRefs vs
    → find_first (has_ref ref) vs ≡ some v
    → is_clear rows (f v) ≡ true
    → All (λ w. is_clear rows w ≡ true) vs
    → All (λ w. is_clear rows w ≡ true) (update_many (has_ref ref) f vs)
All-decided ref f rows [] v u found decided h = tt
All-decided ref f rows (x ∷ vs) v u found decided h = elim (Bool-cases (has_ref ref x)) [
  | inl hit ↦
      rw (hit, update_many-none (has_ref ref) f vs (none_left hit))
        (subst (λ w. is_clear rows (f w) ≡ true) (same hit) decided, h.1)
  | inr miss ↦ rw miss (h.0, All-decided ref f rows vs v u.1 (ground arith) decided h.1)
]
  where
    same : has_ref ref x ≡ true → v ≡ x
    same hit = ground arith

    none_left : has_ref ref x ≡ true → any (has_ref ref) vs ≡ false
    none_left hit = subst (λ r. any (has_ref r) vs ≡ false) ((eq_iff x.provider_ref ref).0 hit) u.0

-- A decision keeps the references.
any-decided :
    (r ref : String) (f : KycVerification → KycVerification) (vs : List KycVerification)
    → ((v : KycVerification) → (f v).provider_ref ≡ v.provider_ref)
    → any (has_ref r) (update_many (has_ref ref) f vs) ≡ any (has_ref r) vs
any-decided r ref f [] same = refl
any-decided r ref f (v ∷ vs) same = ground (arith, any-decided r ref f vs same, same v)

UniqueRefs-decided :
    (ref : String) (f : KycVerification → KycVerification) (vs : List KycVerification)
    → ((v : KycVerification) → (f v).provider_ref ≡ v.provider_ref)
    → UniqueRefs vs
    → UniqueRefs (update_many (has_ref ref) f vs)
UniqueRefs-decided ref f [] same u = tt
UniqueRefs-decided ref f (v ∷ vs) same u = (kept, UniqueRefs-decided ref f vs same u.1)
  where
    kept :
        any
          (has_ref (if has_ref ref v then f v else v).provider_ref)
          (update_many (has_ref ref) f vs)
        ≡ false
    kept = ground (arith, any-decided v.provider_ref ref f vs same, same v, u.0)

decided-IsCleared :
    (ref : String) (outcome : Outcome) (reason : Option String) (now : ℕ) (db : Db)
    (v : KycVerification)
    → find_first (has_ref ref) db.kyc_verifications ≡ some v
    → IsCleared db
    → IsCleared (resolve ref outcome reason v now db)
decided-IsCleared ref Outcome.rejected reason now db v e k = record {
  refs =
      UniqueRefs-decided ref (reject_verification reason now) db.kyc_verifications (λ w. refl)
        k.refs;
  clear =
      All-decided ref (reject_verification reason now) db.kyc_status db.kyc_verifications v k.refs e
        refl k.clear;
}
decided-IsCleared ref Outcome.approved reason now db v e k = record {
  refs = UniqueRefs-decided ref (approve_verification now) db.kyc_verifications (λ w. refl) k.refs;
  clear =
      All-decided ref (approve_verification now) (approve_kyc v.account db.kyc_status)
        db.kyc_verifications v k.refs e (is_approved-approve_kyc v.account db.kyc_status)
        (All-clear-more v.account db.kyc_status db.kyc_verifications k.clear);
}

pub apply_result-IsCleared :
    (ref : String) (outcome : Outcome) (reason : Option String) (now : ℕ) (db : Db)
    → IsCleared db
    → IsCleared (apply_result ref outcome reason now db).1
unfolding apply_result
apply_result-IsCleared ref outcome reason now db k =
    elim (Option-cases (find_first (has_ref ref) db.kyc_verifications)) [
      | inl e ↦ subst IsCleared (ground arith) k
      | inr (v, e) ↦ elim (Bool-cases (is_pending_verification v.status)) [
        | inr closed ↦ subst IsCleared (ground arith) k
        | inl open_ ↦
            subst IsCleared (ground arith) (decided-IsCleared ref outcome reason now db v e k)
      ]
    ]

started-IsCleared :
    (id : ℕ) (account : Account) (user_id : ℕ) (session : Session) (now : ℕ) (db : Db)
    → any (has_ref session.provider_ref) db.kyc_verifications ≡ false
    → IsCleared db
    → IsCleared (record db {
      kyc_verifications = new_verification id account user_id session now ∷ db.kyc_verifications;
    })
started-IsCleared id account user_id session now db fresh k = record {
  refs = (fresh, k.refs);
  clear = (refl, k.clear);
}

pub start-IsCleared :
    (create_session : Account → Session) (id : ℕ) (account : Account) (user_id now : ℕ) (db : Db)
    → IsCleared db
    → IsCleared (start create_session id account user_id now db).1
unfolding start
start-IsCleared create_session id account user_id now db k =
    elim (Bool-cases (is_approved account db.kyc_status)) [
      | inl approved ↦ subst IsCleared (ground arith) k
      | inr waiting ↦
          elim (Option-cases (
            find_first (is_open_session account now) (sort_by newest_first db.kyc_verifications))) [
              | inr (v, e) ↦ subst IsCleared (ground arith) k
              | inl e ↦
                  elim (Bool-cases
                    (any (has_ref (create_session account).provider_ref) db.kyc_verifications)) [
                      | inl taken ↦ subst IsCleared (ground arith) k
                      | inr fresh ↦ subst IsCleared (ground arith) (
                          started-IsCleared id account user_id (create_session account) now db fresh
                            k)
                    ]
            ]
    ]
