-- ===== src/Lib.antt =====
-- Verification library of anvil-events, a store and a reconciler for fleet events.
--
-- The program keeps one SQLite database on each node. Events are made and validated
-- (anvil_events/domain.py, anvil_events/domain_v2.py), stored and acknowledged
-- (anvil_events/storage/), delivered to a broker and received from it
-- (anvil_events/runtime/, anvil_events/transport/), and a received event of the kind
-- state.desired is reconciled with the node's resources by adapters that the host
-- configures (anvil_events/reconciliation/).
--
-- How the parts interact: the subscriber puts a received event in the journal and hands it to
-- the processor; the processor runs the engine, and records the engine's outcome in the
-- operation ledger, which emits an event; the delivery pump sends pending events to the broker
-- and records the acknowledgements. All of them work on the one database.
--
-- The modules, and the code that each models:
-- - Base, Result, Exec, Table: lists, texts and numbers; Python's exceptions as a result type
--   with SQLite's transactions; methods that act on a world and may raise; SELECT, INSERT,
--   UPDATE and DELETE over a list of rows, with their laws.
-- - Json: JSON values, and the calls of json and hashlib as a parameter (Codec).
-- - Domain.Patterns, Domain.Decimal, Domain.V1, Domain.V2: the validators and the makers of
--   envelopes in anvil_events/domain.py (make_event, validate_event; its validate_payload is
--   validate_payload_v1 here) and
--   anvil_events/domain_v2.py (make_event_v2, validate_event_v2, validate_payload).
-- - Transport.Wire: the publish frame of anvil_events/transport/protocol.py with its limits.
-- - Transport.Socket, Transport.Reader: NATSWire of the same file. A Wire has the arrivals that
--   recv will bring, the verdicts that the calls of sendall will get, the buffer, what was sent,
--   the subscriptions and the pending messages; readline, read_body, subscribe and receive act
--   on it.
-- - Transport.Client: publish_js, ack and the JSON requests of anvil_events/transport/client.py
--   over a Wire. Payloads are texts of ASCII, as json.dumps writes them.
-- - Storage.Schema: the tables of anvil_events/storage/database.py as the record Db, one list
--   of rows for each table.
-- - Storage.Events: EventRepository of anvil_events/storage/events.py. put, append,
--   append_journal, record_puback and the emit methods are functions of the same names from a
--   database to a result and a database; a name that ends in _in is the body of a transaction.
-- - Storage.Queries, Storage.Operations, Storage.Delivery, Storage.Retention: EventQueries,
--   OperationLedger (prepare, record_v2, resolve, mark_indeterminate), PendingDelivery (repair,
--   select_batch) and Retention (collect) of the files of these names in anvil_events/storage/.
-- - Reconcile.Desired, Reconcile.Contracts: what reconciliation reads of an event; the policies
--   and the registry of anvil_events/reconciliation/contracts.py.
-- - Reconcile.State: ReconcileState of anvil_events/reconciliation/state.py on the tables
--   resources, attempts and applications.
-- - Reconcile.Engine: ReconcileEngine of anvil_events/reconciliation/engine.py. process and
--   _process_locked act on a World: the database, the state outside it, and a log of the calls
--   of adapters. Each try of the source is an attempt, and what follows it a function of what
--   the attempt returned or raised.
-- - Reconcile.ManagedFile: ManagedFileAdapter of anvil_events/reconciliation/file_adapter.py,
--   as an adapter over a Managed: the destination, the temporary file, the two fields, and the
--   verdicts that the calls of the operating system will get.
-- - Runtime.Processor, Runtime.Subscriber, Runtime.Delivery: DesiredStateProcessor of
--   anvil_events/reconciliation/processor.py, Subscriber.handle of
--   anvil_events/runtime/subscriber.py, and DeliveryPump.deliver of
--   anvil_events/runtime/delivery.py.
-- - Facts: the redaction and the projection of anvil_events/ingest.py (Facts.Keys, Facts.Redact,
--   event_to_fact), FactRepository of anvil_events/storage/facts.py (Facts.Store) and the loop of
--   cmd_ingest (Facts.Ingest).
-- - Tests: the theorems at concrete inputs.
--
-- What a component does in sequence is a list of calls (Storage.Events.Calls,
-- Storage.Operations.Lifecycle, Reconcile.State.Calls), and after_all is the database that the
-- calls leave, whether they return or raise. Each component has an induction principle, IsKept,
-- for what its writes keep (Storage.Events.Calls, Reconcile.Engine.Kept).
--
-- Parameters, each a record of functions: Codec (json.dumps, json.loads, hashlib; that a text
-- which dumps wrote is read back is the hypothesis IsStable), Screen (the search for
-- credential-shaped keys and the date parser), Host (adapters, artifact resolver, lock), Client
-- (publish_js and the stop event), Texts (UTF-8 and isspace), Loaded (what json.loads makes of
-- bytes), and the clocks, whose readings are arguments.
--
-- Bounds: every loop is structural recursion over its list, so that there is no fuel; the loop of
-- receive is bounded by the number of its tests that find the deadline ahead. Numbers are
-- unbounded, as in Python; a time is a number of seconds. Rows are kept in the order of their
-- insertion, which is the order of row_id.
--
-- Not modelled: the connection of the NATS client, the health server and its threads, artifact
-- resolvers and the other adapters, configuration, the command line, the import of the legacy
-- store, the size of the database file, and the numbers of JSON that have a fraction.
-- Transactions of several processes are taken as serial, as BEGIN IMMEDIATE makes them.
pub mod Base
pub mod Result
pub mod Exec
pub mod Table
pub mod Json
pub mod Domain
pub mod Transport
pub mod Storage
pub mod Reconcile
pub mod Runtime
pub mod Facts
mod Tests
