-- ===== src/Lib.antt =====
-- Verification of the PyWatt SDK for Python: the parts of python_sdk with logic of their own.
--
-- A module of a PyWatt system talks to its orchestrator and to other modules over several channels. A
-- message is framed by communication/message.py, and communication/failover.py sends it: for each channel a
-- circuit breaker admits or refuses the call, a retry loop makes the attempts, a batcher gathers small
-- messages, a pool keeps connections and a compressor shrinks payloads. The port that a module listens on
-- comes from communication/port_negotiation.py, and communication/routing.py chooses the channel for a
-- message. communication/streaming.py has queues and windows for larger transfers. A module keeps results
-- in data/cache.py, and describes its tables with services/model_manager, which writes them as SQL and
-- sends that to a database. security/secrets.py and secret_client.py hold its secrets, communication/tcp_channel.py
-- is a channel over a socket, communication/http_ipc.py routes requests to handlers,
-- and communication/metrics.py measures the channels.
--
-- Files and source (paths from python_sdk):
--   Prelude          shared names, lists and numbers; Prelude/Dict is Python's `dict` as a list in
--                    insertion order, Prelude/Float an interface of floating-point operations
--   Channel          ChannelType of communication/message_channel.py
--   Message          EncodedMessage of communication/message.py: write_to, read_from and the asynchronous
--                    pair; Message/Framing and Message/Async hold the proofs
--   Failover/Breaker CircuitBreaker; /Transitions, /Histories and /Probing hold the proofs
--   Failover/Retry   RetryConfig and RetryMechanism.execute
--   Failover/Batch   MessageBatch and MessageBatcher; /Delivery and /Bounds hold the proofs
--   Failover/Pool    ConnectionPool and PooledConnection, split where the methods await; /Calls interleaves
--                    them, and /Permits holds the proofs
--   Failover/Compressor  MessageCompressor
--   Failover/Manager FailoverManager, which composes breaker, retry loop and batcher
--   Routing          routing.py: Routing/Health is ChannelHealth, /Selection the preference and the cache's
--                    key, /Balance the loads, /DecisionCache the cache, /Router ChannelRouter; Router/Viable,
--                    Router/Decisions, Router/Limit, Health/Counters and Balance/Least hold the proofs
--   Streaming        streaming.py: Streaming/Window is FlowControlWindow, /Queue PriorityMessageQueue and
--                    /Multiplexer RequestMultiplexer; Queue/Order, Queue/Waiting, Window/Bounds and
--                    Multiplexer/Responses hold the proofs
--   Tcp              TcpChannel of communication/tcp_channel.py: connecting; Tcp/Calls sending and receiving;
--                    Tcp/Connecting, /Policies, /Framed, /Delivery, /Timeouts and /Loss hold the proofs
--   Http             HttpIpcRouter of communication/http_ipc.py; Http/Exchange its queue and pending
--                    responses; Http/Handling, /Responses and /Own hold the proofs
--   Security         Security/Client is SecretClient of security/secret_client.py, as tasks that take turns;
--                    Security/Values, /Memory, /Environment, /Cache and /Manager are the secrets, providers,
--                    cache and manager of security/secrets.py; Client/Effects, /Locking and /Waiting,
--                    Cache/Eviction, /Keys, /Runs and /Recency, Manager/Aliasing and /Reading hold the proofs
--   Metrics          ChannelPerformanceTracker of communication/metrics.py: its samples and alerts; Metrics/Status
--                    its agreement; Metrics/Alerts and /Throughput hold the proofs
--   Discovery        deduplicate_endpoints of services/router_discovery.py; Discovery/Merging holds the proofs
--   Ports            PortNegotiationManager and its breaker, CircuitBreakerState
--   Cache            InMemoryCache of data/cache.py; Cache/Service the methods that it inherits from
--                    CacheService; Cache/Contents, /Eviction, /Counters and Service/Locks hold the proofs
--   Models           the descriptors of services/model_manager/definitions.py; Models/Types the class
--                    methods of DataType, Models/Builder is builder.py, Models/Validation is validate_model
--                    of api.py; Models/Sql the adapters for each database, generator.py and the rest of
--                    api.py, Models/Sql/Manager ModelManager of manager.py; Validation/Rules states the
--                    rules; Validation/Accepted, Builder/Valid, Sql/Quoting and Manager/Runs,
--                    /Plan and /Partial hold the proofs
-- A file named Tests evaluates definitions at concrete inputs.
--
-- How the code is rendered: an object is a record, and a method takes it and returns the new one with the
-- result. An exception is a value of a sum or `none`. Each reading of the clock, UUID, random draw and
-- answer from outside is an argument, in the order in which the code takes it. Times are whole numbers of
-- microseconds. Operations that await nothing under their lock are single steps; histories are lists of
-- calls in any order. Numbers of bytes are natural numbers, and the length field of a frame is checked
-- against 2^32 as `struct.pack` does.
--
-- Loops and fuel: the retry loop is given max(1, max_attempts) rounds, the search for a fallback port its
-- 10 tries and the port negotiation its 3 attempts; the loops of the code make no more.
--
-- Parameters, for code outside the repository: floating-point arithmetic, gzip, UTF-8 and the decimal
-- notation, Python's operations on texts, pydantic's acceptance of a field, `str.isspace`, what a database
-- takes, the order in which a set is iterated, sockets and random draws.
--
-- Not modelled: JSON and MessagePack payloads, sockets and standard streams, database and cache drivers,
-- logging, and the parts of the SDK that no file above names: the chunks of streaming.py, which need the
-- missing hashlib.crc32, the other percentiles of metrics.py and its PerformanceMonitoringSystem,
-- the channel manager, the orchestrator's secret provider, registration, the scanning of web frameworks, the
-- command line.
mod Prelude
pub mod Channel
pub mod Cache
pub mod Models
pub mod Ports
pub mod Routing
pub mod Security
pub mod Tcp
pub mod Metrics
pub mod Http
pub mod Streaming
pub mod Discovery
pub mod Message
pub mod Failover
