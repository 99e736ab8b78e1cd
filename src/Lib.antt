-- ===== src/Lib.antt =====
-- Samy: paid voice calls. A client recharges a wallet by PIX, calls a model and pays by the
-- minute or sends gifts; the model earns a share and withdraws it by PIX. This library models the
-- server of src/ (NestJS over PostgreSQL and Redis) and the logic of the web client of web/src,
-- and proves what they keep.
--
-- Which file models which part:
--   Prelude     shared names, lists as tables, and signed numbers over the native ones
--   Database    the tables of prisma/schema.prisma, the errors, and actions: `Db → Result × Db`
--   Ledger      src/ledger/ledger.service.ts (`postTransaction`, `getBalance`)
--   Ranking     src/ranking/ranking.ts, ranking.service.ts and the limit of its controller
--   Billing     src/billing/billing.service.ts (`chargeMinute`, `sendGift`) and take-rate.ts
--   Wallet      src/wallet/wallet.service.ts (`confirmRecharge`, `createRecharge`, the expiry)
--   Payout      src/payout/payout.service.ts and payout.processor.ts
--   Calls       src/calls/call.service.ts
--   Taximeter   src/scheduler/taximeter.service.ts
--   Auth        src/auth/token.service.ts (refresh tokens)
--   Verification  src/kyc-verification/kyc-verification.service.ts
--   Users       src/users/users.service.ts
--   Marketplace src/marketplace: favourites, presence, discovery, profiles
--   Access      src/auth/auth.service.ts and the two guards
--   Reports     src/reports/reports.service.ts
--   Endpoints   the controllers behind their guards, the webhooks and the ticks of src/scheduler
--   Client      web/src: the session and its refresh, the call screen, presence, hues, messages
--   System      histories of calls of all these services over the one database, and the bank of
--               balances that they implement (System/Bank), and what was billed against what was
--               paid (System/Metered)
--   Examples    concrete databases and the theorems applied to them
--
-- How the code is read. A method is an action over the database record; `$transaction` takes
-- every write back on an exception, and a method behind advisory locks is one step. Where a
-- method reads and writes without a lock that the others take, it is split into its statements
-- (`accept_check`, `accept_write` and `accept_settle`; a worker's claim and its `settle`;
-- `rotate_read` and `rotate_row`). In a history (System/Run) the writes of `accept` are steps of
-- their own, with any outcome of its reads, so a hangup may come between; so are the claim of a
-- payout worker and its settlement. Every other call of a service is one step there. An operation reads the
-- clock once. Ids are numbers, as the code only compares them; the id of a new row is an argument
-- and must be unused. Account names and transaction groups are constructors over the ids that
-- their templates take. Money is an integer number of cents, a rate of ten-thousandths; requested
-- amounts of a recharge are decimals of any length. Payment providers are parameters: a function
-- that answers a charge or fails, and one that says whether `sendPix` returns.
--
-- Fuel: no definition runs on fuel. The taximeter's loop recurses on the number of minutes left.
--
-- The web client. Storage is a session or nothing, the network a parameter; a screen is a record
-- and each effect of React a function on it, run where its dependencies have changed.
--
-- Not modelled: the markup and routes of the web client and the hooks that only call an endpoint,
-- dependency injection, log lines, the metadata column, the media server (a token is the room and
-- the identity that it is issued for), access tokens and the hash (packages), infinite amounts,
-- payout amounts and environment rates with more decimal places than their columns hold, page
-- numbers that are not whole, bodies of replies that are not JSON.
pub mod Prelude
pub mod Database
pub mod Ledger
pub mod Ranking
pub mod Billing
pub mod Wallet
pub mod Payout
pub mod Calls
pub mod Taximeter
pub mod Auth
pub mod Verification
pub mod Users
pub mod Marketplace
pub mod Access
pub mod Reports
pub mod Endpoints
pub mod Client
pub mod System
mod Examples
