-- ===== src/Lib.antt =====
-- ProxyStore: objects are stored through a connector, and passed around as proxies that fetch
-- them when they are used.
--
-- The parts, and the files that model them:
-- - Prelude: exceptions as values (`Result`, `Exec`), dictionaries, lists and tests. A method that
--   mutates an object and may raise is `Exec S A`: the object comes back beside the exception, as
--   it was left.
-- - Lru: `LRUCache` of proxystore/store/cache.py, method by method. Lru/Spec has the ideal cache,
--   the list of entries by recency; Lru/Refinement and Lru/Insertion relate the two.
-- - Connector: the protocol of proxystore/connectors/protocols.py, as operations and as the
--   promises of its documentation (`Laws`). Connector/Local is `LocalConnector` of
--   proxystore/connectors/local.py, with its `Laws`; `uuid.uuid4` is a parameter.
-- - Multi: `Policy` and `MultiConnector` of proxystore/connectors/multi.py; `re.fullmatch` and the
--   host's name are parameters. Multi/Routing is about the loop of `put`, Multi/Choice about the
--   connector as it is constructed.
-- - Store: `Store` of proxystore/store/base.py and `StoreFactory.resolve` of
--   proxystore/store/factory.py, over any connector and any serializer. `Store._set` is `set`.
--   Store/Proxying has `proxy`, `proxy_batch`, `proxy_from_key` and `owned_proxy`. The store calls
--   Lru and Connector: Store/Coherence says what its cache may hold, Store/Writes follows the
--   operations that write, Store/Batch the order of a batch. Store/Existence
--   is about `exists`, which asks the cache first. Store/Polling is
--   `PollingStoreFactory.resolve`, over any store and `time.sleep`; its rounds are counted by fuel,
--   and the arithmetic of its times, which are floats, is a parameter.
-- - Ref: proxystore/store/ref.py and `mark_refs_out_of_scope` of proxystore/store/scopes.py. The
--   proxies stand in a heap and are named by their index, since a reference writes the counts of
--   its owner. `__del__` is `del`, `__reduce__` is `reduce`, `_proxy_trampoline` is `trampoline`. The
--   finaliser of an owned proxy finds its store, whose `evict` does not fail.
--   Ref/Invariant says that the counts are the true ones; Ref/Attach, Ref/Endings, Ref/Rules and
--   Ref/Lending follow the operations, and Ref/Runs puts them into a step relation.
-- - Chunks and Utf8: proxystore/p2p/chunks.py, with the `struct` formats and UTF-8 written out.
--   `__bytes__` is `to_bytes`. A byte and a character are numbers.
-- - Relay: proxystore/p2p/relay/manager.py, messages.py and server.py. The authenticator is a
--   parameter; what the server does on websockets is a log. A message in the log stands with the
--   websocket whose message was being processed when it was sent.
-- - Storage: `DictStorage` of proxystore/endpoint/storage.py.
-- - Counter: `AtomicCounter` of proxystore/utils/counter.py.
-- - Stream: proxystore/stream/_producer.py, _consumer.py and events.py. The stores, the publisher and
--   the registry are parameters over a world `W`, and a call changes the producer (or consumer) and
--   the world together. Stream/Laws says what the producer relies on. Stream/Flush and
--   Stream/Flushing are about one flush, Stream/Delivery about what becomes of the items of a topic,
--   Stream/Calls, Holding, Sending and Runs about sequences of calls, Stream/Completion about a topic
--   from its start to its end; Stream/Popping, Reading and Iteration about the consumer;
--   Stream/EndToEnd joins the two. The aggregator and the filters are pure functions that do not
--   raise.
-- - Lifetime: `ContextLifetime` of proxystore/store/lifetimes.py, Lifetime/Lease and Lifetime/Static
--   the other two; a decorated method has its test of `done` first. Stores are parameters over a
--   world. Lifetime/Eviction is about the loop of `close`, Lifetime/Closing about a context
--   lifetime, Registering and Ending about the static one, Acts, Leasing, Timer and Timing about leases.
--   Time passes in `waiting`, at the end of which a timer that is due fires, once: it is gone, and
--   the callback runs.
-- - Endpoint: proxystore/endpoint/endpoint.py and messages.py. `evict`, `exists`, `get` and `set` are
--   the calls of `start`, which goes up to `await request_future`; `await` is what comes after.
--   `handle` is a round of `_handle_peer_requests`. Endpoint/Exchange is about a request and its
--   response, Endpoint/Waiting about the time between them, Endpoint/Remote about the whole call.
-- - Serialize: proxystore/serialize.py, with `readline` and `strip` written out; each serializer is a
--   parameter, with its `supported`. Serialize/Lines is about the line of an identifier.
-- The Tests module of each part runs it on small inputs.
--
-- Bounds: the loop of `chunkify` and UTF-8 decoding have the length of the data as fuel, which is
-- enough since each round takes at least one element; the theorems do not depend on it. The header
-- fields of a chunk are 16 and 32 bits wide, and larger numbers raise. Sizes and counts are natural
-- numbers; the priority of a policy and the size given to a new cache are integers. The number of
-- chunks is the exact rounded-up quotient, where the source divides floats.
-- The times of a lease are natural numbers, so they are exact and an extension is never negative.
-- The consumer's loops have fuel for every event that its batches and its subscriber still hold; the
-- subscriber is a finite list, which ends with `StopIteration`.
--
-- Not modelled: metrics, timers and logging; locks, since a method under a lock is one step; the
-- suspension of the relay's handlers while they send; the texts of exceptions; configurations, the
-- registry of stores, futures; peer connections, the HTTP server of an endpoint, and
-- the connectors that call databases, files or services.
pub mod Prelude
pub mod Lru
pub mod Utf8
pub mod Chunks
pub mod Ref
pub mod Connector
pub mod Store
pub mod Multi
pub mod Relay
pub mod Storage
pub mod Counter
pub mod Stream
pub mod Lifetime
pub mod Endpoint
pub mod Serialize
