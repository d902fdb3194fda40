-- ===== src/Lib.antt =====
-- A model of six parts of the VPN platform, with their correctness theorems: the billing service,
-- which sells orders and collects their payments, the subscription service, which decides who has
-- access, the node agent, which gives it on one node, the roles of the administrators, who may
-- revoke it, the store of notifications, which users are told of all that by, and the retention run
-- that deletes old rows.
--
-- The billing service keeps orders, one payment for each, the provider's webhooks and an outbox in
-- PostgreSQL. Users place orders and start payments, both under idempotency keys; the provider is asked
-- to create a payment, and a background worker settles it when a webhook or a lookup at the provider
-- says so, which marks the order as paid and writes the event that the subscription service takes.
--
-- The subscription service turns paid and refunded orders into periods of access. It takes payment
-- and refund events from Kafka, keeps subscriptions and their periods in PostgreSQL, and sends its
-- own events through an outbox table. Three kinds of caller act on the one database: the consumer
-- (one event each), the HTTP interface (an administrative revocation), and a background worker that
-- applies refunds that came before their payment, moves subscriptions from one status to the next
-- when it is time, and publishes the outbox.
--
-- The node agent holds the desired state of one node's credentials, in memory and in two files, and
-- brings Xray to it: each request names an operation, a credential and a revision.
--
-- Files, with the code that they model (Subscription under services/subscription/internal, NodeAgent
-- under services/node-agent/internal, Billing under services/billing/internal):
--   Store                     a transaction as a function on a database that may fail; Keeps and Ends
--                             reason about what transactions preserve and establish
--   Subscription/Types        domain/types.go: values and errors
--   Subscription/Schema       the tables (services/subscription/migrations) as lists of rows
--   Subscription/Transaction  the writes to the tables
--   Subscription/Entitlement  postgres/store.go: statusAt, calculateEntitlement
--   Subscription/Inbox        insertInbox, markInboxProcessed, deadLetterInbox, ClaimRefund,
--                             RecordDeadLetter
--   Subscription/Outbox       insertOutbox, buildEventPayload, ClaimOutbox, CompleteOutbox,
--                             RetryOutbox
--   Subscription/Plan         applyPayment: the dates of a new period
--   Subscription/Payment      recordPaymentReplay, applyPayment, getOrCreateSubscription,
--                             updateSubscription
--   Subscription/Reads        GetSubscription, GetPlacement
--   Subscription/Refund       applyRefund, storeRefund, applyClaimedRefund
--   Subscription/Due          claimDue, completeDue
--   Subscription/Admin        AdminRevoke
--   Subscription/Validation   application/service.go: the contract checks
--   Subscription/Backoff      RetryBackoff, in wrapping int64 arithmetic
--   Subscription/Service      HandlePayment, HandleRefund
--   Subscription/Worker       application/worker.go: one round, workOnce
--   Subscription/System       histories of calls on the whole service
--   Subscription/Delivery     the proofs on the order of delivery, operation by operation
--   Subscription/Tests        a concrete history
--   NodeAgent/Types           domain/types.go
--   NodeAgent/Checks          application/service.go: validateDesired, validateSnapshot
--   NodeAgent/Service         NewService, Apply, Status, CredentialState, recordJournal
--   NodeAgent/Journal         state/store.go: the trimming of the journal in SaveJournal
--   NodeAgent/Changes, Invariant, Revisions, Effect
--                             the proofs on Apply and on histories of calls of it
--   NodeAgent/Tests           a concrete node
--   Admin/Roles               services/admin/internal/rbac/rbac.go; Grants has its proofs and
--                             Admin/Tests a concrete list of roles
--   Billing/Types             domain/types.go
--   Billing/Status, Schema    the tables, transitions and CHECKs (services/billing/migrations)
--   Billing/Transaction       the writes to the tables, under the triggers on orders and payments
--   Billing/Orders            postgres/store.go: CreateOrder, FindOrderReplay, GetOrder and the
--                             idempotency keys; Replay has the proof on repeated requests
--   Billing/Payments          CreatePayment, FindPaymentReplay, GetPayment
--   Billing/Creation          PrepareProviderCreate, ApplyProviderCreate, the marks of a failed or
--                             ambiguous creation, ClaimPaymentForReconcile, ReschedulePayment
--   Billing/Verified          ApplyVerifiedPayment, buildPaymentEvent; Again and Late have its proofs
--   Billing/Queues            the webhook inbox and the outbox
--   Billing/Money             yookassa/client.go: formatMinor, parseMinor
--   Billing/Backoff           application/worker.go: retryBackoff
--   Billing/Service           application/service.go: CreateOrder, CreatePayment, GetPaymentStatus,
--                             createAtProvider
--   Billing/Worker            application/worker.go: one round, workOnce
--   Billing/System            histories of calls on the whole service
--   Billing/Ledger            the proofs that the tables agree, operation by operation
--   Billing/Contract          the event between billing and the subscription service; Identifiers has
--                             the form of RandomUUID in internal/platform/cryptoutil/random.go
--   Billing/Tests             a concrete history
--   Billing/Retention         postgres/retention.go; Kept has the proof on what a run leaves alone
--   Notification/Schema       services/notification: domain/types.go and the tables
--   Notification/Jobs         postgres/store.go: RecordEvent
--   Notification/Leases       ClaimJob, finishClaim
--   Notification/Replay       the proof on events that come again
--   Notification/Claims       the proof on claims that have ended
--   Notification/Requests     RequestRetry, GetJob; Again has the proof on requests that come again
--   Notification/Tests        a concrete run
--   Retention                 internal/platform/retention/retention.go: Run; Bounds, Dry and Keeps
--                             have its proofs, Retention/Tests a concrete table
--   Prelude                   tests, lists as tables, results, Go's integers and texts
--
-- Conventions. An operation of the store is a function `Tx A = Database → Result Error A × Database`;
-- `transact` rolls back on an error, as BEGIN and COMMIT do, and a single statement outside a
-- transaction stays. The locks of the source let one transaction at a time work on a user, so a
-- history is a sequence of calls; calls that run at the same time are one of its orders. Instants
-- are nanoseconds since Go's zero time, as natural numbers, and are not rounded to PostgreSQL's
-- microseconds. Each call takes its clock (the start of the transaction, and `clock_timestamp()`)
-- and its random UUIDs as arguments, and a random source that fails is `none`. The interface
-- `Runtime` stands for what the database and Go's library do with texts: the canonical text of a
-- `uuid` column, and the text of an instant. Tables' unique keys and the CHECKs on dates are written
-- out where a statement can violate them; CHECKs that the validation in front of the store implies
-- are not. Every loop of the subscription service that is modelled runs over a list.
--
-- In the billing service the identifiers that callers give are taken in the form in which a `uuid`
-- column gives them back. The triggers of services/billing/migrations refuse an update as they do in
-- the database: the statement fails, and its transaction is rolled back. A call of a user and a round
-- of the worker are several transactions; each of them keeps the books on its own, so the theorem
-- on histories does not depend on which of them follow one another. Texts for the provider are lists of
-- characters. The recursion that prints a number takes the number as its fuel, which is more than its
-- digits.
--
-- The node agent is a record of its memory, its files and the Xray manager's state; a mutex of the
-- source makes its calls run one after another. A file is replaced as a whole or stays, as the rename
-- in state/store.go has it. Maps are lists of keys and values; where Go's iteration takes any of several
-- oldest entries, the model takes the first. The loop of SaveJournal runs on fuel, one round for each
-- entry of the journal, which is enough. The counter of configurations wraps as an int64 does. Load reads
-- at most 16 MiB of a file; the JSON encoding is a parameter, by the length of its texts (`Encoding`),
-- and a text within the bound decodes to what was encoded. A file that is not there yet stands for the
-- empty state, which Load takes instead.
--
-- The store of notifications queues one job for each event, in streams whose order the sequence numbers
-- of the jobs give; an advisory lock makes the changes of one stream run one after another. A
-- sequence number that is missing or not positive is 0. Identifiers are taken in the form in which a
-- `uuid` column gives them back, but for the one that a caller of RequestRetry or GetJob writes; the CHECKs and foreign keys of these tables are not written out.
--
-- A retention run takes its data sets as functions on a world outside. Its loop of batches runs on fuel,
-- the configured bound on deletions: each full batch deletes at least one row.
--
-- Parameters: the billing service's answer (`Billing`) and the broker's (`Publisher`), the Xray
-- manager (`Manager`), the JSON encoding of its files (`Encoding`) and the hash of a request; for
-- billing what the identity and catalog services, the payment provider, `crypto/sha256` and
-- `net/url` answer (`Outside`).
--
-- Not modelled: JSON and the decoding of Kafka records, HTTP, metrics and logs, the polling loops,
-- the isolation of transactions, the dead letters and the worker of the notification service, and the
-- other services of the platform.
mod Prelude
mod Store
pub mod Subscription
pub mod NodeAgent
pub mod Admin
pub mod Billing
pub mod Retention
pub mod Notification
