-- ===== src/Endpoints/Lists.antt =====
-- src/marketplace/discovery.controller.ts, the controllers of src/reports and src/ranking, and
-- src/health/health.controller.ts. A query parameter that is a number is given as it is read:
-- absent, no number of zero or more, or a whole number.
use samy.Prelude.{ℕ, Bool, false, ◌&&◌, not, Option, none, some, String, List, [], ◌∷◌}
use samy.Prelude.Int.{ℤ}
use samy.Database.Accounts.{Account}
use samy.Database.Rows.{KycVerification, Report, Role}
use samy.Database.{
  Action, bad_request, or_raise, raise_if, not_found, service_unavailable, pure, ◌>>=◌, ◌>>◌,
}
use samy.Wallet.Amount.{Decimal}
use samy.Ranking.{TierInfo, TierRow, my_ranking}
use samy.Ranking.Top.{TopRow, limit_of, top}
use samy.Marketplace.{ModelCard, get_one, list}
use samy.Reports.{CreateReportDto, create, list_open, resolve}
use samy.Verification.{Session, dev_approve, get_latest, start}
use samy.Access.{authenticate, guarded}

-- `params.limit ?? DEFAULT_LIMIT` and the like, `none` where the service refuses the number.
abbrev pub given : ℕ → Option (Option ℕ) → Option ℕ
given default none = some default
given default (some n) = n

abbrev pub wanted_tags : Option (List String) → List String
wanted_tags none = []
wanted_tags (some tags) = tags

unfoldable pub discover :
    Option (Option ℕ)
    → Option (List String)
    → Option (Option ℕ)
    → Option (Option ℕ)
    → ℕ
    → Action (List ModelCard)
discover bearer tags limit offset now = do
  who ← authenticate bearer
  page_limit ← or_raise (given 50 limit) (bad_request "invalid limit/offset")
  page_offset ← or_raise (given 0 offset) (bad_request "invalid limit/offset")
  list (wanted_tags tags) page_limit page_offset who.id who.role now

unfoldable pub show_one : Option (Option ℕ) → ℕ → ℕ → Action ModelCard
show_one bearer id now = do who ← authenticate bearer; get_one id who.id who.role now

unfoldable pub report : Option (Option ℕ) → ℕ → CreateReportDto → ℕ → Action Report
report bearer id dto now = do who ← authenticate bearer; create id who.id dto now

abbrev pub or_open : Option String → String
or_open none = "OPEN"
or_open (some s) = s

unfoldable pub reports_with :
    Option (Option ℕ) → Option String → Action (List (Report × Option String))
reports_with bearer status = guarded (Role.admin ∷ []) bearer >> list_open (or_open status)

unfoldable pub resolve_report : Option (Option ℕ) → ℕ → String → ℕ → Action (Unit {0})
resolve_report bearer id status now = guarded (Role.admin ∷ []) bearer >> resolve id status now

unfoldable pub own_ranking : List TierRow → Option (Option ℕ) → Action (Option (ℤ × TierInfo))
own_ranking table bearer = do who ← guarded (Role.model ∷ []) bearer; my_ranking table who.id

unfoldable pub leaders : List TierRow → Option (Option ℕ) → Decimal → Action (Option (List TopRow))
leaders table bearer limit = guarded [] bearer >> top table (limit_of limit)

-- `check`: whether the query returned, and the answer of the ping where it returned one.
abbrev pub is_up : Option Bool → Bool
is_up none = false
is_up (some pong) = pong

unfoldable pub check : Bool → Option Bool → Action (Unit {0})
check postgres redis = do
  raise_if (not (postgres && is_up redis)) (service_unavailable "error")
  pure tt

-- The controller of src/kyc-verification/kyc-verification.controller.ts, for which every caller is
-- a model; `dev` is DEV_LOGIN === 'true' and NODE_ENV !== 'production'.
unfoldable pub start_kyc : (Account → Session) → Option (Option ℕ) → ℕ → ℕ → Action (ℕ × String)
start_kyc create_session bearer id now = do
  who ← guarded (Role.model ∷ []) bearer
  start create_session id (Account.model who.id) who.id now

unfoldable pub kyc_me : Option (Option ℕ) → Action (Option KycVerification)
kyc_me bearer = do who ← guarded (Role.model ∷ []) bearer; get_latest (Account.model who.id)

unfoldable pub approve_own : Bool → Option (Option ℕ) → ℕ → (ℕ → String) → ℕ → Action (Unit {0})
approve_own dev bearer id dev_ref now = do
  who ← guarded (Role.model ∷ []) bearer
  raise_if (not dev) (not_found "Not Found")
  dev_approve id (Account.model who.id) who.id (dev_ref who.id) now
