-- ===== src/Lib.antt =====
-- Verification library of metri-engine, a multi-tenant entity engine in Rust.
--
-- A request passes a pipeline of steps (authorisation, quota, write); the quota step debits a counter,
-- and what a step did outside the process is undone when a later one fails. Counters, objects and
-- sequences live in partitions and objects that several instances share through S3. Entities are
-- stored as datoms under binary sort keys, and formulas over their attributes are evaluated by an
-- engine of its own.
--
-- Files and the code they are about:
--   Errors             src/domain/errors.rs, the codes that occur
--   Quota/Counter      src/mbf/storage.rs (quota_try_debit, quota_settle, quota_settle_once) and
--                      src/quota/ledger.rs
--   Quota/Counter/Sync the same file: the merge with the partition's object in S3 (sync_from_s3,
--                      apply_wire_snapshot) and its writing (flush_to_s3)
--   Quota/Ledger       the ledger as an object, with what its calls meet in S3
--   Quota/Reservations src/quota/reservations.rs: MemoryReservationStore, wire ids, shards
--   Quota/Resolver     src/quota/resolver.rs: the row that governs a domain, renewals, the cache
--   Quota/Sweeper      src/quota/sweeper.rs, over interfaces of the store and of the counter
--   Iop/Pipeline       src/iop/pipeline.rs
--   Iop/Orchestrator   src/iop/core.rs (run_steps), over any context and steps
--   Iop/QuotaStep      src/iop/quota_step.rs
--   Cedar/Rules        src/cedar/rules.rs
--   Cedar/Perimeter    src/cedar/principal_graph.rs (intersect_or_inherit)
--   Janus/Abac         src/janus/abac_clauses.rs (build_abac_node)
--   Mbf/Store          src/mbf/mod.rs (InMemoryChaosS3Store), src/domain/protocols.rs
--   Mbf/Store/Shared   the same store while other instances write to it, by a schedule
--   Mbf/Signature      src/mbf/tx/mod.rs (TxConflictSignature)
--   Mbf/Coordinator    src/mbf/tx/mod.rs (MbfWriteCoordinator), over an interface of the objects' codec
--   Mbf/HotHead        src/mbf/tx/mod.rs (CommittedDeltaFrame): that codec, and commits that use it
--   Mbf/Format         src/mbf/format/mod.rs: the header and the footer of a file
--   Mbf/Seal           src/mbf/format/mod.rs (MbfTenantCryptoSeal), and its keys, src/domain/config.rs
--   Mbf/Wire           src/mbf/storage.rs: the binary form of attributes, item maps and the snapshots of
--                      partitions and entities; pad_to_64 of src/mbf/format/mod.rs
--   Mbf/Ledger         src/mbf/zones/financial_ledger.rs (div_bankers_raw, allocate_hamilton)
--   Mbf/Ledger/Zone    the same file: FinancialLedgerZone, its journal, rates and checkpoints; Chain
--                      and Tamper are about the digests that seal the journal
--   Mbf/Ledger/Inventory  the same file: receive_batch, issue_inventory, amortisation
--   Mbf/Ledger/Fenwick    the same file: FenwickPrefixSum128
--   Mbf/Ledger/Codec      the same file: encode_zone_binary and decode_zone_binary
--   Formula            src/aegis/formula: token, lexer, functions_registry, parser, evaluator,
--                      functions (Standard), resolver
--   Formula/Measure    src/aegis/oltp/caster.rs: a measure's formula read, parsed and evaluated
--   Eav                src/eav/types: value_type, datom, encoding
--   Codice/Sequence    src/codice/sequence.rs, and sequence_increment of src/mbf/storage.rs
--   Base               shared helpers: tests, lists, results, maps, sorting, strings, integers, bits,
--                      bytes, decimals
--   Examples           the theorems at concrete inputs
--
-- How the code is read. A function that may fail returns a Result with the error's code;
-- messages, logs and spans are left out. A method that holds a lock from start to end is one
-- step of the state, and any number of tasks is a list of such steps, in the order of the lock.
-- A HashMap is an association list. A String is the bytes of its UTF-8 form, a formula the list
-- of its code points. A cursor into bytes is the bytes that are left. A decoder's outcome is a
-- panic or what it returns. Hashes, masks, sort keys, epochs and the u64 counters of the store
-- are words, with their wrap-around; the i64 sums of quota, of sequences and of leases and the
-- ledger's i64 and i128 sums and products wrap, as in a build without overflow checks. What S3
-- answers to a sync or to a flush is an argument of the call; the parts of a quota call (its
-- sync, its work under the lock, its flush) may have other calls between them. Of the registry
-- of sequences the counters that a sync leaves are part of that answer. A poisoned lock needs a
-- panic and is left out.
--
-- Bounds. The commit loop has eight rounds, the loop's own bound, by recursion on the rounds left;
-- the lexer's loop has a fuel of one unit for each character, which is proved to suffice; the loops
-- of the Fenwick tree have the length of its array (an update) or the index (a sum) as fuel, and
-- the theorem on sums over ranges shows that this is enough; all other loops are recursion on a
-- list or on a count. Words are read and written in 2, 4, 8 or 16 bytes: lengths of slices are
-- below 2^32, those of items below 2^16, and a vector has at most 2^63 - 1 bytes. Decimals have at
-- most 20 digits, which is enough for 64 bits.
--
-- Parameters, for code that is not of the repository: SHA-256, HMAC, CRC32C, hex, xxh64, f64
-- arithmetic and its test `< 0.0`, its functions and its parsing, to_uppercase,
-- char::is_whitespace, LZ4, the validity of UTF-8, the calendar of chrono (for years from 0 on) and
-- the clock. The configured master tenant is a parameter too. The cell of an entity type, the query
-- of quota rows, in the parser any registry of functions and, for the quota step, the resolver of
-- quotas are code of the repository that stands here as an interface or an argument.
--
-- Not modelled: the rest of Cedar's principal graph, the Janus query compiler, the readers and
-- writers of datoms, the operations of the MBF storage, its other zones, the directory of its
-- files, of the financial ledger the search for the last checkpoint and the conversions to other
-- units, the registry of the Codice, the panic of CLAMP for bounds out of order, the injection
-- checks of formulas, gRPC, events, telemetry and adapters.
mod Base
pub mod Errors
pub mod Quota
pub mod Cedar
pub mod Iop
pub mod Janus
pub mod Mbf
pub mod Formula
pub mod Eav
pub mod Codice
mod Examples
