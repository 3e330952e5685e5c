-- ===== src/Lib.antt =====
-- Verification of walnut-billing, a billing service in Go: the credit wallet, the orders and
-- policies of payments, login challenges, entitlements, software plans and cloud storage.
--
-- The wallet (internal/service/credit.go and credit_bucket.go) keeps an account for each user, with a
-- balance and a reserved amount; a ledger of transactions; reservations, which hold credits until they
-- are committed or released; and buckets, which split the balance by source and expire. Each operation
-- reads and writes the four tables through the repositories (internal/repository/gorm_repo/credit.go),
-- inside a unit of work (internal/repository/gorm_repo/transaction.go).
--
-- Files:
--   Prelude       shared names, Boolean tests, integers, 64-bit arithmetic (Prelude/Word) and the
--                 texts of the strings package (Prelude/Text)
--   Domain        User; Domain/Credit has the tables of the wallet (internal/domain/models.go)
--   Repository    what operations run on. Error: the error values. Table: the interface of GORM on one
--                 table, and its laws. World: the tables and the environment. Monad: Go's calls with
--                 early returns as actions. Transaction: the unit of work. Credit: the repositories.
--                 Ensures, Outcome, Keeps, Atomic, Succeeds and Credit/Rules: rules to reason on
--                 actions. Reliable: a database that is up
--   Credit        the service. Allocation: the split of an amount over buckets (Total, Order and Spent:
--                 what it takes, the sort, which buckets it spends). Bucket, Holding: their changes. Ledger: the rows and inputs. Service: the unit of work.
--                 Grant, Reserve, Finalize (Commit, Release), Queries (ExpireBuckets and the lists),
--                 Usage (usage records). Replay: what a repeated request reads
--   Credit/Books  what consistent books are, and the proof for each operation, by the rows it writes
--   Credit/Requests, Reads  the interface CreditService as requests, and its reading methods
--   Credit/Atomic, Once     failed requests, and requests that are sent again
--   Credit/Settlement, Settles  when a commit and a release succeed, and what they write
--   Payment       orders and provider events. OrderEvents: the state machine of orders
--                 (internal/service/payment_order_processor.go). AdjustmentPolicy and RenewalPolicy:
--                 the decisions of internal/service/payment_adjustment_policy.go and
--                 internal/service/subscription_renewal_policy.go. Clawback: the clawback of credits of
--                 internal/service/payment_adjustment.go, on the tables of the wallet
--   Access/Login  login by a challenge that is sent by mail: internal/service/access_login_challenge.go
--                 over internal/repository/gorm_repo/access_login_challenge.go. Policy, Metadata (hashes
--                 and fingerprints), Challenges (the repository, state and environment), Create, Verify,
--                 Requests (the interface). Outcomes and Ends below Create and Verify: how they can end.
--                 Laws: what is asked of the database. Guarded, Spent, Once, Proven, Limited, Again,
--                 Lockout: what holds of them
--   Cloud         cloud storage: internal/service/cloud_storage.go over
--                 internal/repository/gorm_repo/cloud_storage.go and the tables of Domain/Cloud
--                 (internal/domain/cloud_storage.go). QuotaPolicy: plans and quotas by the grants (Best, Ranked: by which).
--                 Paths: segments and keys of objects. Resources: descriptors, sums, fingerprint.
--                 World: state, environment and repositories. Entry: the checks before an operation.
--                 Authorize (AuthorizeSync), Commit and Manifest (CommitManifest, Usage), Summaries and
--                 Reads (ListProjects, LatestManifest, BuildDownloadTarget), Requests (the interface).
--                 Laws: what is asked of the database. Entry/Passed and Entitled, Commit/Writes, Valid, Stored,
--                 and Manifest/Outcome: what a step has shown and written when it returns. Used: the
--                 steps keep a used session used. Once: what follows for a session
--   Entitlement   registrations, grants and snapshots: internal/service/entitlement.go over
--                 internal/repository/gorm_repo/entitlement.go. World: state, environment, repositories.
--                 Grants, Registrations, Snapshot: the operations. Grants/Steps, Ends and Twice: how
--                 CreateGrant ends. Snapshot/Earned: where the entitlements of a snapshot come from
--   Subscription  the software plan of a user. Projection:
--                 internal/service/software_subscription_projection.go, with its selection of grants in
--                 Projection/Latest. CheckoutPlan: the policy on plans of
--                 internal/service/checkout_policy.go; Exclusive: that plans exclude each other
--   Tests         an engine in memory, runs of the wallet, and the theorems at these runs
--
-- An operation is an action: a function from the world (tables, and how often the clock and the random
-- source have been read) to a result and a world. A Go pointer that a function mutates is a value that
-- is returned changed. What was written before an error stays, until the unit of work rolls back.
-- GORM, the database, the clock, the random source and encoding/json are parameters (Repository/World),
-- and every call of GORM may fail. The laws asked of GORM are in Repository/Table and
-- Repository/Credit/Rules; Tests/Engine is an engine for them. Units of work run one after
-- another: concurrent units are not modelled, nor are unique indexes other than the primary key.
-- int64 arithmetic wraps, with the wrap written out. Loops over rows are by recursion on the list, so
-- there is no fuel. Times are nanoseconds after Go's zero time.
--
-- Repository/Flow has the same actions over a state of a component's own, which login challenges,
-- entitlements and cloud storage use (Holds, Success and Invariant below it are rules for them). The
-- session service that login challenges call is a parameter with a state of its own, and the object
-- store that cloud storage asks for targets is a parameter.
--
-- An event's effect on an order is a function of the event, the time and the order; strings.EqualFold,
-- which compares currencies, is a parameter of it. The policies take the time of their clock.
--
-- Not modelled: the HTTP handlers, the payment providers, access sessions and snapshots, the
-- administration's lists, fulfillment, the services that apply the policies but for the clawback,
-- configuration and the SDK, which are input and output, or left for later.
pub mod Prelude
pub mod Domain
pub mod Repository
pub mod Credit
pub mod Payment
pub mod Access
pub mod Cloud
pub mod Entitlement
pub mod Subscription
pub mod Tests
