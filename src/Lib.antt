-- ===== src/Lib.antt =====
-- A model of the loan platform's backend, apps/api, and of what makes its money handling correct.
--
-- The program is a NestJS application over a PostgreSQL database (apps/api/prisma/schema.prisma).
-- A loan application moves through statuses under a transition map and a role matrix; what moves
-- money posts balanced double entries to the tenant's ledger; a repayment is spread over the
-- schedule of a disbursed loan, posted to the ledger, and its principal returned to the capital
-- behind the loan; a disbursement takes that capital from a pool; the schedule and the delinquency of
-- a loan are computed from its rows; the calls that move money run behind an idempotency key;
-- products compute the offers that loans start from; payments are reconciled with the ledger; and
-- background work goes through a queue of jobs.
--
-- The files, and the code that they model:
--   Common (Tests, Lists, Throws, Ints, Texts): tests, lists, the exceptions thrown as the values
--     of `Error`, calls that may throw as `Result`, and strings as lists of code units.
--   Loan (Status, Roles): apps/api/src/modules/loan-applications/
--     loan-application-status-transition.ts and loan-application-transition-rbac.ts. Permissions and
--     Lifecycle prove what the two tables grant together, along a history of a loan.
--   Ledger (Accounts, Entries, Reversal): apps/api/src/common/ledger/ledger.accounts.ts,
--     tenant-ledger-accounts.service.ts and tenant-ledger.service.ts: `postEntry` is post_entry,
--     `reverseEntry` reverse_entry, `createJournal` create_journal. Outcome, Acceptance, Balance,
--     Refinement, Idempotent, Cancellation, Journals and Chart hold the proofs.
--   Treasury (Allocations, Pools): apps/api/src/treasury/treasury.service.ts and
--     treasury/exposure/treasury-exposure.guard.ts: `applyPrincipalRepayment` is
--     apply_principal_repayment, `applyWriteOff` apply_write_off, `deployToLoan` deploy_to_loan.
--     Funds, Deployments and Exposure hold the proofs.
--   Risk (Gate): enforceRiskGate of apps/api/src/risk/risk.service.ts, and
--     assertBorrowerNotRestricted of apps/api/src/modules/fraud/hold-enforcement.service.ts.
--   Disbursement (Records, Readiness, Transaction, Requests): markReadyForDisbursement,
--     disburseNow, retryDisbursement and reverseDisbursement of
--     apps/api/src/modules/admin-loan-applications/admin-loan-applications.service.ts, in
--     Readiness.mark_ready, Requests.disburse_now, retry_disbursement and reverse_disbursement.
--     Stages, Payment, Money, Actors, Effects, Flow and Retries hold the proofs.
--   Repayment (Allocation, Posting, Transaction): apps/api/src/loan/repayment/
--     repayment.service.ts: `allocateRepaymentToSchedule` is allocate, the transaction of
--     `postRepayment` is post_in_transaction. Conservation, Order, Rows, Settlement, Overpayment,
--     Closing and Actors hold the proofs.
--   Schedule (Amortization, Handler): apps/api/src/loan/repayment/amortization.ts and
--     generateScheduleV2 of the admin service above. Sums, Totals and Regeneration hold the proofs.
--   Accrual (Balances, Interest): apps/api/src/common/ledger/loan-balance.service.ts and
--     accrueInterest of the admin service. Repeats holds the proofs.
--   Reconciliation (Records): resolveRecord of
--     apps/api/src/modules/reconciliation/reconciliation.service.ts. Resolution, Sequences and
--     Once hold the proofs.
--   Delinquency (Engine): apps/api/src/modules/loans/delinquency/delinquency-engine.service.ts:
--     `recalcLoanDelinquencyTx` is recalc_delinquency. Overdue, Recalculation, Figures and Repeats
--     hold the proofs.
--   Offers (Engine, Endpoint): apps/api/src/modules/loan-products/offer-engine.ts, and
--     computeOffer of loan-products.service.ts. Parts, Totals and Interest hold the proofs.
--   Idempotency (Keys): apps/api/src/common/idempotency/tenant-idempotency.service.ts. Replays
--     holds the proofs.
--   Jobs (Queue, Operations, Runner): apps/api/src/common/jobs/job-queue.service.ts; the other writers
--     of the table in apps/api/src/common/jobs/jobs.service.ts and
--     apps/api/src/jobs/job-outbox.service.ts; and the runner of
--     apps/api/src/common/jobs/jobs-runner.service.ts. Validity, Lifecycle, Interventions, Reachable,
--     Failures, Claims, Order, Holders, Draining, Rounds and Termination hold the proofs.
-- Each Scenarios file applies the theorems to small concrete data.
--
-- How they interact: Repayment.Transaction calls post_entry of Ledger.Entries, and
-- apply_principal_repayment of Treasury.Allocations, which calls post_entry again under another
-- type of entry; when it closes the loan it calls assert_transition of Loan.Roles. A disbursement
-- passes the risk gate, posts its entry, deploys capital from a pool by deploy_to_loan, which posts
-- an entry of its own, and moves the loan by assert_transition; it runs behind with_idempotency of
-- Idempotency.Keys, which takes the call that it protects as a parameter. The delinquency engine
-- moves loans by assert_transition too, and a reconciliation posts by create_journal and post_entry.
-- An accrual reads the loan's balance from the ledger's lines and posts an entry. Jobs.Runner
-- drives the queue of Jobs.Queue.
--
-- Representation. A handler is a function of the rows that it reads and writes, which returns the
-- rows as it leaves them, or what it threw; a database transaction is one such call, rolled back by
-- a throw. Amounts of the ledger count ten-thousandths of a cent: the parameter `column` is what a
-- stored Decimal(18, 2) keeps of an amount, and the theorems that need it assume that it keeps whole
-- cents. Schedules, repayments, capital and disbursements are in cents, the scale of their columns,
-- on which the rounding of the code is the identity. Offers are in minor units, with
-- exact quotients where the code divides floating-point numbers: the two agree below 2^53. Times
-- are milliseconds, the days of an offer are numbered. New identifiers and the clock are arguments,
-- and so is the chance in the backoff of the jobs. A schedule is made for any rounding of
-- decimal.js's quotients and products and for any calendar; its interest is an integer of
-- Common.Ints. All recursion is structural; no fuel is used.
--
-- Not modelled: controllers, authentication and the parsing of requests; logging, metrics, tracing
-- and the texts of messages; the audience of notifications; the admin and borrower applications;
-- the other modules of the API. Audit, notification, fraud and outbox calls of a repayment and of a
-- disbursement are recorded as effects, in order.
-- Some writes of a loan's status make neither guard or only the first: they appear in a history of
-- Loan.Lifecycle as unguarded moves. The rules of a pool stay the same in Treasury.Exposure:
-- updatePool is left out. So is upsertRecord of the reconciliation, which can write a resolved record
-- anew.
pub mod Common
pub mod Accrual
pub mod Delinquency
pub mod Disbursement
pub mod Idempotency
pub mod Jobs
pub mod Ledger
pub mod Loan
pub mod Offers
pub mod Reconciliation
pub mod Repayment
pub mod Risk
pub mod Schedule
pub mod Treasury
