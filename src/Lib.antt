-- ===== src/Lib.antt =====
-- The transactions, the money and the usage reports of the Exchange, and the Broker's choice of
-- offers, modelled from the Go sources under src/.
--
-- Common holds what the parts share: Boolean tests, signed integers with the wrap-around of an int64
-- (wrap64), texts as lists of bytes, maps as functions and association lists.
--
-- Billing models src/exchange/internal/billing, the adapters that the Exchange charges through.
-- Billing/Types has the amounts, requests, results and errors of adapter.go. An exact rational is an
-- integer multiple of a common denominator, since the adapters only add, compare and multiply by
-- whole quantities.
-- Billing/Money is src/exchange/internal/money/money.go.
--
-- Billing/InMemory is inmemory_adapter.go. State is the struct and its keys; Holds is Authorize,
-- Record and Release; Funds is Refund, Credit and the reads; Step is a sequence of calls, which is
-- any concurrent use, since each method holds the mutex. The adapter is passed from call to call.
-- SHA-256 is a parameter. Covered, SolventHolds, Solvent, Capped, CappedRuns, Marks,
-- Keyed, KeyedRuns, Replays and LiveHolds hold the proofs.
--
-- Billing/Settlement is tigerbeetle_adapter.go, tigerbeetle_settle.go and tigerbeetle/. Wire has the
-- transfers and the reading of the statuses; Client the calls of the ledger service, which is a
-- parameter that may fail; Ids the ledger ids; Split the fee split; Lifecycle Authorize's probe of
-- hold generations, Record, Release and Refund, as steps on the ledger's state. The probe runs on
-- fuel, which is the bound of 256 generations of the code itself. Fees, Batch and
-- Generations hold the proofs. The sum of prior refunds is a query of the ledger, and so a parameter.
--
-- Exchange models ExecuteTransaction of src/exchange/internal/service. A call of executeBatch
-- (exchange_batch.go) validates its envelope, resolves the agent, is admitted, runs its items in
-- order, and stores the response. Kinds has the errors of src/exchange/internal/exchange/error.go,
-- of which only the kind is kept; Messages the wire and row records; Validate
-- exchange_batch_validate.go; Offers the presented offer, its price and the obligation it carries;
-- Agents the acceptances and the transport chain (agent_acceptance.go, authz_multisig.go); Rows the
-- statements of repo/transaction.go and repo/evidence.go; Charges and Items the steps of
-- exchange_helpers.go and persist_intent.go; Pipeline executeBatchItem; Responses batchDenialResult
-- and the totals of src/internal/rampcost; Replay and Admission exchange_batch_replay.go and
-- exchange_batch_finalized.go; Batch executeBatch itself.
--
-- Deps has what the code calls. World is the database and the billing adapter, passed from call to
-- call. Env holds the SDK's signatures and canonical forms, the URL signer and the reads that one
-- request takes as constant. Schedule is everything beside the request: what other requests write
-- before each database call, and which calls fail. BillingAdapter is the interface of adapter.go, and
-- Ledger the laws that the accounting proofs ask of it; PrepaidHolds, Prepaid and PrepaidLedger fill
-- them with Billing/InMemory. A decimal is an integer multiple of a common denominator. The wait for
-- another request's response runs on fuel 61, its 60 polls and the first read, and a request whose
-- context ends stops waiting after `patience` polls. Envelope, Waiting, Durable, Retries, ItemCases,
-- Runs, Answers, Reads, UnderHold, Charged, Bills, Debits, Logged, Billed and Accounting
-- hold the proofs.
--
-- Reporting models the usage reports: Report is src/exchange/internal/service/report_validator.go,
-- Store the statements of src/exchange/internal/repo/obligation.go on the obligation rows, Usage
-- ReportUsage of src/exchange/internal/service/report_usage.go, Overdue the gate of
-- reporting_overdue.go. A transaction that fails is rolled back. The caller that a request resolves
-- to, the clock and the new report id are inputs of a call. Settled, Consistent, Filing, Updates, Replayed,
-- Retried and Verdicts hold the proofs.
--
-- Broker models src/broker/internal: Offers and Selection are selection/selection.go, with the money
-- parser as a parameter; Budget is the in-process counters of budget/budget.go with the gate that
-- resolve/resolve.go puts before them, and Interleaved the resolves of one agent
-- that overlap, as a sequence of their gates and records. Order, Winners, Identities and Uniques
-- hold the proofs.
--
-- Security models src/internal: Replay is the in-process store of replay/store.go, which
-- httpsig/replay.go repeats. Windows and Origins hold the proofs.
--
-- Sor models src/exchange/internal/sor/cache.go: Cache has the entries and the sweep, Calls the calls
-- of IsActive that overlap, as a sequence of the four moments of each (its reading of the clock, its
-- lookup, the answer of the system of record and its store), over that system as a function of time. Fresh holds the proofs.
--
-- Catalog models the end of a push: Uris is the check of
-- src/exchange/internal/service/catalog_uri_ownership.go, Push the transaction of catalog.go with the
-- guarded upsert of src/exchange/internal/repo/catalog.go, for one push at a time. The rejections of
-- the gates before are an input. Unique, Complete, Keys and Stored hold the proofs.
--
-- Not modelled: the servers, their configuration and their handlers, the generated database code
-- beyond the statements named above, discovery, the gates on one catalog entry and the rebuild of the
-- snapshot, the registration of agents, the signing of delivery URLs, logging, the identity service,
-- and the wire format.
pub mod Common
pub mod Billing
pub mod Reporting
pub mod Broker
pub mod Exchange
pub mod Security
pub mod Sor
pub mod Catalog
