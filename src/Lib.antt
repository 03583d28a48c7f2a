-- ===== src/Lib.antt =====
-- The money of MyTurn, a platform for rotating savings groups: members pay contributions into their
-- group's pool, each cycle pays one member out, and the ledger under services/backend-api keeps every
-- amount as balanced journals between accounts.
--
-- The parts, and the files that model them:
--   * Shared: the rules of packages/shared/src without state. Margin (margin-tiers.ts), Cycle
--     (calculations.ts), ReserveRules (contribution-reserve.ts, missedContributionMinor), Queue
--     (payout-recipient.ts). Functions keep their names in snake_case; those that throw return a
--     Result, with one constructor of Error for each kind of exception.
--   * Ledger: services/backend-api/src/ledger-accounts, the accounts (ledger-account.service.ts,
--     ledger-account.keys.ts) and the posting of journals (ledger-posting.service.ts). An account is
--     its key, a balance is a signed number of minor units, and the state is the list of balances and
--     the transactions that were posted. Moves and Balances are about how the services transfer.
--   * Store: the tables of prisma/schema.prisma that the services below share, as one state, Db.
--   * Reserve: contribution-guarantee-reserve.service.ts, which holds back a part of each payout,
--     releases it with later contributions (Release), takes it for missed ones (Cover) and returns it
--     when the group is completed (Completion). Backing has the invariant that ties rows and ledger.
--   * Allocation: financial-allocation.service.ts, the settlement of a contribution and the division
--     of a cycle's pool; Wallet: the available balance of its wallet summary.
--   * CycleRisk: services/backend-api/src/cycle-risk. Deposits is cycle-deposits.service.ts, the
--     security deposits of CYCLE groups in escrow; Protection is default-protection.service.ts, what a
--     default brings; Compliance is cycle-compliance.service.ts, the sync that marks members LATE and
--     DEFAULTED by the days that have passed. Deposits/Escrow has the invariant of the deposits.
--   * Payouts: services/backend-api/src/payouts. Readiness is payout-contribution-readiness.ts,
--     Recipient, Advance and Finalize are finalizeCycle, which pays a cycle out and starts the next
--     or completes the group; Params holds its arguments.
--   * Groups: services/backend-api/src/groups and group-members. Membership has the ways into a group,
--     with the deposit that comes with them, and the replacement of a member; Activation the start.
--   * Withdrawals: services/backend-api/src/withdrawals, a withdrawal from its hold to the payment or
--     the return of the money. Held has its invariant, Steps the life of the requests as a relation
--     between databases, Steps/Service the methods as sequences of these steps.
--   * Prelude, Dict: integers, lists, association lists and results. Txn is the body of a
--     prisma.$transaction, rolled back on a throw; Act is a method outside one, which keeps what it
--     has written.
--
-- The services call each other as the source does: a settlement posts a journal and then asks the
-- reserve for a release; an allocation computes the summary and the split, posts one journal and
-- creates the reserve; the sync of a group marks a default, forfeits the deposit and takes the reserve
-- or moves the member to the end of the queue; a finalization syncs the group, selects the recipient,
-- allocates, and opens the next cycle's contributions or returns deposits and reserves; a withdrawal
-- reads the wallet summary, then posts.
--
-- Amounts are whole minor units. The columns are Decimal(18, 2), and BigInt and Decimal do not
-- overflow here, so no machine width is modelled; an amount with more than two decimals, which
-- parse-withdrawal-amount.ts lets through, is outside the model. Ids and texts that are only compared
-- are natural numbers; an idempotency key is a constructor for its template with the ids in it. All
-- loops are over lists; nothing needs fuel but the walk of the payout queue, which has as many steps
-- as members, as in the source.
--
-- Parameters: the disbursement provider, the outcome of storing a notice, the clock, the parsed
-- settings, what Prisma.Decimal makes of a text, and the verdicts of the participation and default
-- protection services on a member. Each service call is one transaction after another: calls of two
-- requests that interleave between a transaction's statements are not modelled, since the database
-- isolates them. Time stamps, metadata, notices and logs are written and not read, and are left out.
--
-- Days are counted from 1970-01-01 and times in milliseconds, as Date does.
--
-- Not modelled: payment requests, the making and the views of groups, authentication, the reports for HQ,
-- the preview in finance.ts, the user interfaces and the clients.
pub mod Prelude
pub mod Dict
pub mod Txn
pub mod Act
pub mod Shared
pub mod Ledger
pub mod Store
pub mod Reserve
pub mod Allocation
pub mod Wallet
pub mod CycleRisk
pub mod Payouts
pub mod Groups
pub mod Withdrawals
