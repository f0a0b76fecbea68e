-- ===== src/Lib.antt =====
-- Verification of the core of ScionCC.
--
-- The messaging and coordination core of the container, bottom up:
--
--   Prelude   Python's dict, list and set operations on lists, Boolean tests, equality as an
--             interface, results of calls that may raise.
--   Fsm       src/pyon/util/fsm.py, class FSM: the transition tables, `process`, `process_list`.
--   Topic     src/pyon/net/transport.py, class TopicTrie: `add_topic_tree`, `remove_topic_tree`,
--             `get_all_matches` (with `Node.get_all_matches` as `node_matches`). Topic/Matches.antt
--             defines matching of a binding and a key on tokens, without a trie.
--   IdPool    src/pyon/util/pool.py, class IDPool: `get_id`, `release_id`.
--   Router    src/pyon/net/transport.py, class LocalRouter: each method, and one round of each of its
--             greenlets. It holds a trie for each exchange and takes consumer tags from a pool.
--             Router/Consuming.antt has publishing, routing, consumers and deliveries.
--   Lock      src/pyon/ion/directory.py, class Directory: `acquire_lock`, `is_locked`, `release_lock`,
--             and `release_expired_locks` (Lock/Expired.antt), over the statements `create_doc`,
--             `_update_doc` and `_delete_doc` of
--             src/pyon/datastore/postgresql/base_store.py.
--   Leader    src/ion/core/process/leader.py, class LeaderManager: `is_leader`, `release_leader`,
--             `_check_lock`, over the locks.
--   InstrumentFsm  src/ion/agent/instrument_fsm.py, class InstrumentFSM: `add_handler`, `start`,
--             `on_event`, `_on_transition`, `get_events`.
--   LifeCycle  src/pyon/ion/resource.py, class ResourceLifeCycleSM: workflow definitions, their
--             restriction, successors and predecessors.
--   Negotiation  src/pyon/core/governance/negotiation.py, class Negotiation: `create_negotiation`,
--             `update_negotiation`, `create_counter_proposal`, on the objects that
--             defs/objects/data/core/org.yml declares.
--   Channel   src/pyon/net/channel.py: the channels over which a container sends and receives, on a
--             transport, with a state machine of Fsm. Channel/Base.antt has BaseChannel and SendChannel,
--             Channel/Recv.antt RecvChannel and BidirClientChannel, Channel/Notify.antt its queue,
--             Channel/Listen.antt ListenChannel with the channels it accepts, Channel/ReplyTo.antt
--             ServerChannel.
--   LocalTransport  src/pyon/net/transport.py, class LocalTransport: Channel's transport over Router.
--   Governance  src/pyon/core/governance/__init__.py: roles and commitments; Governance/Queries.antt has
--             what asks the resource registry, Governance/Headers.antt class GovernanceHeaderValues.
--   Procs     src/pyon/container/procs.py, class ProcManager: the registry of running processes, their
--             registration (Procs/Registering.antt) and termination (Procs/Terminating.antt).
--   Exceptions  src/pyon/core/exception.py: the application exceptions and ExceptionFactory.
--   Rpc       src/pyon/net/endpoint.py: remote procedure calls. Rpc/Client.antt has RPCClient.request with
--             RPCRequestEndpointUnit, Rpc/Server.antt RPCResponseEndpointUnit and one message of
--             ListeningBaseEndpoint.listen, Rpc/Replies.antt what the server reads and writes;
--             src/pyon/core/interceptor/interceptor.py, `process_interceptors`.
--   IonProcess  src/pyon/ion/process.py, class IonProcessThread: the queue of calls and the loop that
--             makes them (IonProcess/Control.antt), the account of busy time (IonProcess/Times.antt), the
--             heartbeat that finds a stuck call (IonProcess/Heartbeat.antt).
--   Event     src/pyon/ion/event.py: the topics of EventPublisher and of event subscribers, over Topic.
--   Memoize   src/pyon/util/memoize.py, `memoize_lru`.
--
-- State is passed explicitly, a method that raises returns an error with the state that it leaves,
-- and the parts that run concurrently are relations of steps: calls on the router and rounds of its
-- greenlets in any order (Router/Reach.antt), rounds and polls of leader instances in any order
-- (Leader/Exclusive.antt), calls that other greenlets queue and cancel around the rounds of a process
-- (IonProcess/Ordering.antt), and the writes of other processes between two statements of one lock
-- call (the argument `env` in Lock.antt). A gevent queue is a reference into a store of contents,
-- because a consumer keeps its queue when the name is deleted. Nothing runs on fuel: the loops are
-- over the tokens, bindings, symbols and matches given. The names that `declare_queue` proposes are
-- given as a list, since uuid4 may repeat. Times are natural numbers in milliseconds, read from
-- arguments.
--
-- A channel's method runs under the lock of `_ensure_transport`. What other greenlets do while
-- `accept` waits is an argument of it, and a method that would wait for ever raises `blocked`.
--
-- Parameters: which element `set.pop` takes (with the law that its documentation gives), the
-- `new_id` function of a pool (which must grow), the actions and handlers of a state machine, how a
-- process's calls end, the operations behind a server, interceptors, traces, Python's int and str, the
-- function that is memoized, a negotiation's preconditions, clock readings, new document ids, the
-- names that uuid4 gives, the transport below a channel, the resource registry, directory and event
-- publisher that governance and the process manager ask, a process's quit and the callbacks on
-- its state.
--
-- Not modelled: a SubscriberChannel's deletion of an anonymous AMQP queue, greenlets' start, join
-- and kill, AMQP over pika, SQL text, the callbacks of leaders and consumers, other parts of
-- Directory, and the rest of the container (publishers and subscribers, attaching the listeners
-- of a process, the spawning of processes, the rest of governance, services).
pub mod Prelude
pub mod Fsm
pub mod Topic
pub mod IdPool
pub mod Router
pub mod Lock
pub mod Leader
pub mod InstrumentFsm
pub mod LifeCycle
pub mod Negotiation
pub mod Memoize
pub mod Channel
pub mod Governance
pub mod LocalTransport
pub mod Procs
pub mod Exceptions
pub mod Rpc
pub mod IonProcess
pub mod Event
