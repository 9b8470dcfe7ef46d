-- ===== src/Lib.antt =====
-- taskflow-meter reports what taskflow runs are doing. A source shows snapshots of the runs; the
-- difference of two snapshots is a list of numbered events; a store folds the events back into
-- snapshots and keeps the last of them, and a client resumes from the last number that it saw.
--
-- The parts, in the order in which they stand on each other:
-- - Prelude: lists, dictionaries, sorting, text and integers, and the names that all files share.
-- - States: taskflow_meter/states.py. Values: the Python values in details and meta.
-- - Models: taskflow_meter/models.py, AtomSnapshot and FlowSnapshot and their properties.
--   Models/Rollup: the figures that sum a flow up.
-- - Events: taskflow_meter/events.py, Event and SequenceAllocator. Events/Sequence: its numbers.
-- - Fold: taskflow_meter/fold.py, with one function for each branch of `fold` and `fold_atom`.
--   Fold/Replay, Fold/Identity and Fold/Contiguous reason about them.
-- - Diff: taskflow_meter/diff.py. Diff/Every, Stamp, Atoms, Roundtrip, Replay, First,
--   BookName and Quiet reason about the events of one difference: their numbers, and what a store
--   that folds them knows.
-- - DataSource: taskflow_meter/datasource/base.py, and the listing that the stores share.
-- - Memory: taskflow_meter/datasource/memory.py. Memory/History has what is kept of a run, Reads,
--   Resume and Gap what a client is served, Invariant and Calls what holds after every call, and Listing the
--   walk over the pages.
-- - Poller: taskflow_meter/poller.py, over any source and any sink.
--   Its children: Passes (one pass, step by step), Stream (numbers in the store), Sync and InStep (the
--   store follows the source), Failure (passes that raise) and Paging (the walk over the pages).
-- - Stream: taskflow_meter/api/sse.py, the cursor of one client and the loop that drives it, over any
--   reader. Stream/Resumes has one poll, Stream/Once the whole loop.
-- - Persistence: taskflow_meter/datasource/persistence.py, over taskflow's connection, clock and
--   conversions as parameters.
-- - Pipeline: taskflow_meter/collect/pipeline.py, over any publishers. Pipeline/Delivery has single
--   steps, Pipeline/Traces every sequence of them.
-- - Collect: taskflow_meter/collect/listener.py and progress.py, the events that are built of what an
--   engine reports, and the steps of its threads. Collect/Tap has the binding of the tap, Attachment
--   `attach` and Graph `describe_graph` of collect/attachment.py. Sorted, Arrivals and Watching say
--   what arrives whatever the order, Overtaken what a client misses, TornDown what is left bound.
-- - Transport: taskflow_meter/transports/memory.py. Transport/Posting has the retries of http.py.
-- - Wire: the dictionary form of events.py and the envelope of taskflow_meter/transports/base.py.
-- - Sql: taskflow_meter/datasource/sqlalchemy/models.py (Sql/Rows) and source.py, over the statements
--   that it executes, which are a parameter with laws (Sql/Statements). Sql/Keys, Reads, Writes, Batches
--   and Applied say what the tables hold, Histories and Refines compare the store with the one in
--   memory, Following and Paging walk its listing, Replay delivers an event twice, and Survivors and
--   Retention remove runs.
-- - Router: taskflow_meter/api/router.py and the table of routes.py. Router/Segments and
--   Links match what a template writes, Router/Table says what any table answers.
-- - Http: taskflow_meter/api/http.py, requests, responses and errors. Http/Mounts has the prefixes.
-- - Dispatch: taskflow_meter/api/dispatch.py, over the handlers as a function. Dispatch/Allowed has
--   the methods of a path, Dispatch/Advertised what a client is answered.
-- - Service: taskflow_meter/api/service.py. Service/Limits has the limits that it reads.
-- - Serializers: taskflow_meter/api/serializers.py, with the links of http.py. Serializers/Links follows
--   them back into the table of routes.
-- - Meter: taskflow_meter/meter.py, its lifecycle.
-- - Tests: concrete runs of the code, at which the theorems apply.
--
-- State is a record, and each method of a class is a function from the state to the state and its
-- result. Every method of the stores and of the allocator holds its lock throughout, so it is one
-- step. The collectors' callbacks do not: there a step builds an event or hands one on, and the
-- steps of the threads come in any order. taskflow's notifiers and its connection are parameters,
-- with what it documents of them as laws, and so is what a client and a server make of a link.
-- Exceptions are results: `none` for the ValueError of `diff_flow`, `Outcome` for what a read
-- returns or raises. A float is a whole number of ticks, `one` of which make 1.0; a time is a
-- number of ticks since the epoch. A Python value that is no str, bool or None is kept as its text,
-- and a dict is an association list in insertion order.
--
-- The one loop that Python does not bound by a list is `_read_all` of the poller, which runs on
-- fuel, one unit for each page: the number of runs and one more is enough. The loops that run until
-- someone leaves (the poller's, the sender's, a stream's) run on the list of what they meet.
--
-- The SQL store walks its pages in the same way. The laws of the statements are those of the two
-- tables with their primary keys: a statement changes the rows that it names, an insertion of a key
-- that is there changes none, and a selection gives the rows that pass, in order. They say nothing of
-- writers at the same time, and nothing of the widths of the columns.
--
-- Not modelled: logging; the starting, joining and waiting of threads; the making of the SQL engine and
-- the migrations; the transports over a message queue; the adapters and the JSON of the HTTP API; the
-- framework bridges, the configuration and the command line. They call other packages, or write what
-- the parts above compute.
pub mod Prelude
pub mod States
pub mod Values
pub mod Models
pub mod Events
pub mod Fold
pub mod Diff
pub mod DataSource
pub mod Memory
pub mod Poller
pub mod Pipeline
pub mod Transport
pub mod Stream
pub mod Meter
pub mod Persistence
pub mod Wire
pub mod Sql
pub mod Router
pub mod Http
pub mod Service
pub mod Serializers
pub mod Dispatch
pub mod Collect
pub mod Tests
