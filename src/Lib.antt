-- ===== src/Lib.antt =====
-- The core of bindizr, a DNS server whose zones live in a database.
--
-- The program: clients write records through an HTTP API, a CLI or RFC 2136 updates; the service
-- layer (crates/bindizr-service) decides authorization, checks the records of a zone against one
-- another, writes them with a change journal in one transaction and advances the zone's serial, so
-- that secondaries see the change. crates/bindizr-core has the names, record types and values that
-- the layers share, crates/bindizr-db the statements on the tables.
--
-- The files:
--   Base       helpers: Boolean tests, lists, integers, `Result`
--   Text       Rust's `str` and `char` as lists of code points: Utf8, Trim, Split, Words, Number
--   Name       crates/bindizr-core/src/dns/name: Label (limits and escapes), Decode
--              (`decode_name_labels`, as a machine over the characters), Zone (`ZoneName`), Owner
--              (`OwnerName`)
--   Record     crates/bindizr-core/src/model/record and dns/record: Kind (`RecordType`), Value, Mx,
--              Srv, Soa, Mailbox (`SoaMailbox`), Txt (`TxtRecordValue`), Encode (`encoded_value`),
--              Model (`Record`, `Zone`, the value rules)
--   Service    crates/bindizr-service/src: Error (error.rs), Serial (serial.rs), Validation
--              (record/validation), Policy (policy_pattern), Authorization (authorization), Store
--              (the tables, with record/bulk.rs and the sqlite repositories of crates/bindizr-db),
--              DynamicUpdate (dynamic_update, with zone/snapshot.rs and repository.rs), Writes
--              (record/create.rs and delete.rs; its children Update and Bulk are record/update.rs
--              and bulk.rs, the others proofs), History (zone/history.rs: the records at a past
--              serial; its children are proofs about the journal)
--   Dns        crates/bindizr-dns/src: Wire (wire/mod.rs: the messages and their frames),
--              Encode (the octets of one answer, also wire/mod.rs), Ixfr (server/ixfr.rs and
--              delta.rs; its children are proofs)
--   Examples   runs on small inputs
--
-- The model: a text is the list of its code points, a byte string the list of its octets. A
-- `Result<T, E>` is `Result E T` or `Option T`; messages of errors are not kept. An `i32` is an
-- integer, and the serial counter stops at `i32::MAX` as the source does. A transaction is a function
-- from the tables to a result and the tables behind it; `finish_tx` keeps the new tables on a commit
-- and the old ones otherwise. A failing database is modelled at the commit alone: any other failure
-- ends the transaction with the error of the database and takes the same path as a rejected update.
-- Locks and concurrent transactions are not modelled, but a write that reads before its transaction
-- takes the tables of that read as an argument of its own, `seen`. In Apply/Steps the operations
-- of an update are a step relation on the tables, and its invariants go by induction on the runs.
--
-- Loops are structural, but for two of `Record.Txt` on the octets of an rdata, whose fuel is the
-- length of the rdata: each round takes at least the length octet.
--
-- Parameters: `IpText` (the address parsers and printers of std::net), `Uppercase`
-- (`str::to_uppercase`, known to leave the mnemonics alone) and `Base64` (the base64 crate, whose
-- decoding undoes its encoding).
--
-- An answer of a transfer is composed by the domain crate, a parameter (`DomainCrate`) that may refuse
-- a name or an rdata, and written to a socket that may fail at any frame (both in `Wire`). The answers
-- of a body are looked up before they are written: the lookups that the source does between two writes
-- are those that `answer_from` has checked.
--
-- The interplay: every write changes the rows and appends to the change journal under the next serial;
-- History undoes the journal to rebuild an earlier serial, and Ixfr sends it to secondaries. In History
-- two lists of rows are compared by match key (`SameRows`), since a reconstruction sorts its rows.
-- A hash map from keys to vectors is one list, a key's vector being the part of it with that key.
--
-- Not modelled: the front ends (HTTP, CLI, socket, DNS listeners), NOTIFY, full zone transfers,
-- catalog zones and the parsing of DNS messages, the ExternalDNS adapter, diffs and rollbacks of zone
-- history, imports, tokens and key secrets, metrics and logs.
pub mod Dns
pub mod Base
pub mod Text
pub mod Name
pub mod Record
pub mod Service
pub mod Examples
