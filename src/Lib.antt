-- ===== src/Lib.antt =====
-- Mini-Dynamo serves generation requests with prefill and decode on separate nodes. A client asks
-- the router; the router has a prefill node compute the KV cache of the prompt, chooses a decode
-- node that is sticky for the session, and streams the tokens of that node to the client, with a
-- fallback to another one. Nodes keep their caches in a pool that evicts, and generate for a batch
-- of sequences at a time. Nodes, pins and metadata of caches are kept in Redis.
--
-- Memory.antt models common/memory_sim.py: the pool as a record, `allocate` with the loop
-- `make_room` on fuel, `touch`, `free`, `_pick_victim`. The loop drops a block in every round, so
-- that one unit more than there are blocks is enough, which is proved. Megabytes are integers (ℤ of
-- Prelude/Int) in a fixed unit, so that the sum of the sizes in use is exact, which a sum of floats
-- need not be; instants are natural numbers. The lock makes each operation one
-- step. Memory/Queue.antt is what a pool promises, without its dictionary: a queue of blocks in the
-- order of their ages, from whose front it evicts; Memory/View.antt relates a pool to its queue.
--
-- Scheduler.antt models common/batching.py: `submit`, `_admit`, the forward pass and the rounds of
-- `_run`. An asyncio queue is the list of what has been put on it, found under a number. What other
-- tasks do while the loop sleeps, submissions and allocations in the same pool, are the arrivals of
-- a round. The clock and the model's `next_token` are parameters, as a function of the session and
-- the index.
--
-- Models.antt models common/models.py. Redis.antt models common/redis_client.py over a record
-- `Redis` of the server's operations with their documented laws, and a record `Json` for the
-- encoding; Redis/Demo.antt has concrete functions for both, on which the tests run.
--
-- Routing.antt models services/router/routing.py. A score is of a type with an order, which leaves
-- NaN out. `sort` is a stable insertion sort. What other clients write to Redis between two
-- commands of a selection is not modelled.
--
-- Sse.antt models common/sse.py and the router's reading of a stream, and Router.antt the two
-- request paths of services/router/main.py. A stream is the list of its effects: frames, and steps
-- of the counters. The replies of the nodes are arguments. The loop of the fallback runs on fuel;
-- one unit more than the deployment has names of decode nodes is enough, since no node is attempted
-- twice.
--
-- Worker.antt models the handlers of services/prefill/main.py and services/decode/main.py, the
-- parts of common/mock_model.py that they use, and common/kv_transfer.py. Worker/Streams.antt has
-- the streams of the two handlers that generate, each with its own loop, as lists of effects, and Worker/Vocabulary.antt
-- the model's tokens over an MD5 sum that is a parameter, Worker/Latency.antt its latencies.
--
-- Node.antt models common/node.py, the heartbeat, as a list of beats between the writes of others,
-- and what a node tells of itself. Scheduler/Lifecycle.antt has `start` and `stop` of the
-- scheduler's task. Client.antt models scripts/load_client.py: the reading of a stream and the
-- report, whose values stand undivided. Benchmark.antt models the reading of totals from metrics in
-- benchmark/run_benchmark.py. Delivery.antt composes the scheduler, the decode handler, the router
-- and the client. Lines of a response are given as httpx yields them.
--
-- Settings.antt models common/config.py over an environment as a function; what int() and float()
-- make of a text is a parameter.
--
-- Prelude has numbers, texts (lists of code points), lists, least elements and sorting; Dict is
-- Python's dict, with Dict/Aging.antt for its entries in the order of their ages. The components
-- have their tests and examples in modules Tests.
--
-- Not modelled: metrics other than the counters and observations named, spans, logs, sleeping, the
-- router's own endpoints for its health and its nodes, rounding and the Markdown report of the
-- benchmark. Writes of other processes to the same keys of Redis are not modelled, except between
-- the beats of a node.
pub mod Benchmark
pub mod Client
pub mod Delivery
pub mod Dict
pub mod Memory
pub mod Models
pub mod Node
pub mod Prelude
pub mod Redis
pub mod Router
pub mod Routing
pub mod Scheduler
pub mod Settings
pub mod Sse
pub mod Worker
