-- ===== src/System/Bank.antt =====
-- What the money of the services (src/billing, src/wallet, src/payout over src/ledger) promises,
-- without rows, references or tables: a balance for each account, and the movements that are
-- permitted.
pub mod Postings
pub mod Refines
pub mod Payouts
pub mod Histories
use mathlib.Core.Path.{subst}
use samy.Database.Rows.{Payout}
use samy.Prelude.{List, [], ◌∷◌, ◌⊎◌, ℕ, ◌≡◌, ◌≢◌, ◌==◌, refl, ◌∙◌, if◌then◌else◌}
use samy.Prelude.Int.{ℤ, pos, neg, ◌+ℤ◌, ◌-ℤ◌, ◌≤ℤ◌}
use samy.Database.Accounts.{Account, account_eq}

abbrev pub Bank : Type 0
Bank = Account → ℤ

pub data Movement : Type 0 where
  -- from the outside into an account, and back
  deposit : Account → ℤ → Movement
  withdraw : Account → ℤ → Movement
  -- the client, the model, the price and the model's share of it
  sale : ℕ → ℕ → ℤ → ℤ → Movement

-- What a movement adds to an account.
abbrev pub credit : Movement → Account → ℤ
credit (Movement.deposit to amount) a =
    if account_eq to a then amount else if account_eq Account.external a then neg amount else pos 0
credit (Movement.withdraw source amount) a =
    if account_eq source a
    then neg amount
    else if account_eq Account.external a
    then amount
    else pos 0
credit (Movement.sale c m price share) (Account.client k) = if c == k then neg price else pos 0
credit (Movement.sale c m price share) (Account.model k) = if m == k then share else pos 0
credit (Movement.sale c m price share) (Account.admin k) = pos 0
credit (Movement.sale c m price share) Account.platform = price -ℤ share
credit (Movement.sale c m price share) Account.external = pos 0

-- No account but the outside pays what it has not got, and a share is a part of the price.
abbrev pub IsPermitted : Movement → Bank → Type 0
IsPermitted (Movement.deposit to amount) bank = (to ≢ Account.external) × (pos 0 ≤ℤ amount)
IsPermitted (Movement.withdraw source amount) bank =
    (source ≢ Account.external) × (pos 0 ≤ℤ amount) × (amount ≤ℤ bank source)
IsPermitted (Movement.sale c m price share) bank =
    (pos 0 ≤ℤ share) × (share ≤ℤ price) × (price ≤ℤ bank (Account.client c))

-- The kinds of movements that the services make.
abbrev pub IsSale : ℕ → ℕ → ℤ → Movement → Type 0
IsSale c m price (Movement.sale c' m' price' share) = (c' ≡ c) × (m' ≡ m) × (price' ≡ price)
IsSale c m price _ = ⊥

abbrev pub IsSomeSale : Movement → Type 0
IsSomeSale (Movement.sale c m price share) = Unit
IsSomeSale _ = ⊥

abbrev pub IsDeposit : Account → ℤ → Movement → Type 0
IsDeposit to amount (Movement.deposit to' amount') = (to' ≡ to) × (amount' ≡ amount)
IsDeposit to amount _ = ⊥

abbrev pub IsWithdrawal : Account → ℤ → Movement → Type 0
IsWithdrawal source amount (Movement.withdraw source' amount') =
    (source' ≡ source) × (amount' ≡ amount)
IsWithdrawal source amount _ = ⊥

-- The amount of one of the payouts goes back to its account.
abbrev pub IsRefund : List Payout → Movement → Type 0
IsRefund [] m = ⊥
IsRefund (p ∷ ps) m = IsDeposit p.account p.amount m ⊎ IsRefund ps m

-- At most one movement, permitted and of a kind.
pub data Moved (P : Movement → Type 0) : Bank → Bank → Type 0 where
  unmoved : {bank after : Bank} → ((a : Account) → after a ≡ bank a) → Moved P bank after
  moved_by :
      {bank after : Bank} (m : Movement)
      → P m
      → IsPermitted m bank
      → ((a : Account) → after a ≡ credit m a +ℤ bank a)
      → Moved P bank after

pub Moved-weaken :
    {P Q : Movement → Type 0} {a b : Bank}
    → ((m : Movement) → P m → Q m)
    → Moved P a b
    → Moved Q a b
Moved-weaken f (unmoved same) = unmoved same
Moved-weaken f (moved_by m kind ok after) = moved_by m (f m kind) ok after

-- A sequence of permitted movements of a kind.
pub data BankRun (P : Movement → Type 0) : Bank → Bank → Type 0 where
  idle : {bank after : Bank} → ((a : Account) → after a ≡ bank a) → BankRun P bank after
  move :
      {bank after : Bank} (m : Movement) (next : Bank)
      → P m
      → IsPermitted m bank
      → ((a : Account) → next a ≡ credit m a +ℤ bank a)
      → BankRun P next after
      → BankRun P bank after

pub Moved-BankRun : {P : Movement → Type 0} {a b : Bank} → Moved P a b → BankRun P a b
Moved-BankRun (unmoved same) = idle same
Moved-BankRun {b} (moved_by m kind ok after) = move m b kind ok after (idle λ a. refl)

IsPermitted-same :
    (m : Movement) (a b : Bank) → ((x : Account) → b x ≡ a x) → IsPermitted m b → IsPermitted m a
IsPermitted-same (Movement.deposit to amount) a b e h = h
IsPermitted-same (Movement.withdraw source amount) a b e h =
    (h.0, h.1, subst (λ x. amount ≤ℤ x) (e source) h.2)
IsPermitted-same (Movement.sale c m price share) a b e h =
    (h.0, h.1, subst (λ x. price ≤ℤ x) (e (Account.client c)) h.2)

BankRun-from :
    {P : Movement → Type 0} {a b c : Bank}
    → ((x : Account) → b x ≡ a x)
    → BankRun P b c
    → BankRun P a c
BankRun-from e (idle same) = idle (λ x. same x ∙ e x)
BankRun-from {P} {a} {b} e (move m next kind ok after rest) =
    move m next kind (IsPermitted-same m a b e ok) (λ x. rw (after x, e x)) rest

pub BankRun-append :
    {P : Movement → Type 0} {a b c : Bank} → BankRun P a b → BankRun P b c → BankRun P a c
BankRun-append (idle same) r = BankRun-from same r
BankRun-append (move m next kind ok after rest) r =
    move m next kind ok after (BankRun-append rest r)
