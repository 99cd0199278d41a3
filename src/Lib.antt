-- ===== src/Lib.antt =====
-- A Valkey module moves values over RDMA: a client advertises a buffer with each DMA.SET or
-- DMA.GET, and a fabric worker of the module writes to it or reads from it with libfabric. This
-- library models the parts of the program that decide which memory a transfer is posted against,
-- how long it stays registered, which peer it goes to and what its client is answered, the worker's
-- loop, and the wire form of the commands.
--
-- The parts, and the files that model them:
--
-- Regions: crates/dma-libfabric/src/region_cache.rs, the process-wide cache of registrations.
--   `track`, `covering`, `invalidate` and `clear_domain` are functions of the same names on a
--   `Cache`: the registry, with a sorted association list for each `BTreeMap` (BTree), and the
--   store of the `Arc`s (Arc), where a registration is a number with a count of clones. The mutex
--   is held while each of these functions works on the registry, so Regions/Threads models the
--   threads as any sequence of them, with the clones that threads hold between two of them. The
--   clones that a function lets go of, which the program drops right after it has unlocked, go in
--   the same step.
-- Regions/Operand: crates/dma-libfabric/src/local_regions.rs and operands.rs, how an endpoint
--   takes a lease for an operand or pins a span, through the cache. `fi_mr_reg` is a parameter.
-- Peers: crates/dma-libfabric/src/peer_addresses.rs, the address-vector entries of an endpoint:
--   `handle`, `release`, `clear` and `sweep` on a `PeerAddresses`. `fi_av_insert` is a parameter,
--   which in a run of calls may differ from call to call. A hash map is an association list
--   (HashMap), which the index by slot and the map by client each are. Peers/Calls is the worker's
--   calls one after the other.
-- Protocol: crates/dma-libfabric-protocol/src/advertisement.rs, with the hexadecimal text (Hex),
--   the decimal numbers (Decimal), and the arguments of DMA.SET and DMA.GET, which
--   crates/module/src/entry.rs reads (Advertisement). Texts are lists of bytes.
-- Transfer: the types of a transfer in crates/dma-libfabric/src/server.rs, and `prepare` and
--   `into_completion` of crates/dma-libfabric/src/server_dma_worker.rs. The caller's `Operands` and
--   the checksum are parameters.
-- Worker: the accounts of crates/dma-libfabric/src/server_dma_worker.rs: how many operations each
--   client has outstanding, which removals of peers wait for them (Worker/Accounts, Worker/Intake),
--   the worker's steps over these (Worker/Steps), and its limits (Worker/Limits). The peers are
--   those of Peers.
-- Connection, Endpoint: crates/dma-libfabric/src/connection.rs and endpoint.rs: an endpoint's
--   operands and peers, what it refuses and posts, and how it reaps its completion queue. What
--   `fi_cq_read` answers is a parameter. `reap_from` has as its fuel what is left up to `max`,
--   which every read that goes on takes from; it would give none if the loop went on after that
--   (Endpoint/Reap/Turns, Endpoint/Reap/Bounds).
-- Posting: `post` and `post_quiesce` of server_dma_worker.rs, a single attempt each. What libfabric
--   answers to its calls, and the clock, are parameters. An operation's pointer is a number.
-- Pipeline: the worker's loop: what it takes in and posts (Pipeline), the rest of a pass and the
--   shutdown (Pipeline/Passes), and its steps (Pipeline/Steps): a pass, a batch that the pool runs,
--   a range of memory that is reclaimed. A pass is one step: what the pool and the allocator do
--   while it runs is taken to be before it or after it, and the endpoint's registrations are the
--   only ones that the steps count leases of. A pass attempts each queued post at most once, which bounds
--   its loops. libfabric's answers are a stream, of which `asked` counts those used up. The accounts
--   are Worker's. It is assumed that a context that libfabric reports is that of an operation in
--   flight, as its manual has it.
-- Pool: crates/dma-libfabric/src/pool.rs, the threads that checksum: the channel that a job is sent
--   to and the thread that runs it, in any order. In Pipeline a batch is run as a whole.
-- Hooks: crates/module/src/memory/extent_hooks.rs, the hooks that the allocator calls before it
--   reclaims memory. They call `invalidate` of Regions. jemalloc's own hooks are parameters, and so is
--   what other threads do to the cache between the two calls, when no lock is held.
-- Service: crates/dma-libfabric/src/server.rs, the handle by which callers send to a worker.
-- Commands: crates/module/src/transfer.rs, how DMA.SET and DMA.GET are started over a Service, and
--   what the client is answered when the transfer ends (Commands/Served). The Valkey API is
--   parameters. The count of commands is added to a place with no bound, where `usize` would
--   overflow within a few commands of 2 ^ 64.
-- Reply: crates/dma-libfabric/src/reply.rs, the one-shot slot by which the worker answers a caller
--   that waits: each critical section and each notification is a step, in any order.
-- Asynchronous: crates/dma-libfabric/src/asynchronous.rs, the future of a transfer: the cell that
--   the worker's completion fills and that the task polls, each critical section, the drop of a
--   clone and the call of the waker a step, in any order.
-- Errors: crates/dma-libfabric-protocol/src/error.rs and crates/dma-libfabric/src/error.rs.
-- Prelude, Arc, BTree, HashMap: the shared helpers, and the standard library's types as the
--   program uses them.
--
-- An `Arc` is an index into the store of all that were ever made, so a weak reference is the
-- index alone, and upgrades while the count is above 0. Dropping the last clone puts the index on
-- the list `dropped`, which stands for the `fi_close` or the `fi_av_remove` of the Rust `Drop`.
-- Addresses and sizes are natural numbers; where the source checks an addition it is checked
-- against 2 ^ 64. But for the bounds named above, every loop is over a list.
--
-- What is not modelled: how an endpoint is opened and a domain chosen; the start of threads and
-- services; memory_region.rs, whose calls are libfabric's; the
-- allocator's control; the asynchronous calls over a service; the configuration and the logs; and
-- libfabric, jemalloc and the Valkey API, which are not part of the repository.
pub mod Prelude
pub mod Errors
pub mod Arc
pub mod BTree
pub mod HashMap
pub mod Peers
pub mod Regions
pub mod Protocol
pub mod Reply
pub mod Asynchronous
pub mod Transfer
pub mod Worker
pub mod Connection
pub mod Endpoint
pub mod Posting
pub mod Pipeline
pub mod Pool
pub mod Hooks
pub mod Service
pub mod Commands
