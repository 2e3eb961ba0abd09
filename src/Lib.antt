-- ===== src/Lib.antt =====
-- rf-trans: a library for processes that exchange messages and services over ZeroMQ and shared
-- memory, and find each other by multicast. These modules model the parts of it that keep state,
-- and prove what makes each of them correct.
--
-- A process holds, for messages and for services each, a discovery object
-- (include/trans/details/discovery.hpp). It stores the publishers that it knows, its own and
-- those of its peers, in a topic storage (include/trans/details/topic_storage.hpp), and tells the
-- peers of its own by messages (msgs/discovery.proto) that publisher objects fill in and are read
-- off (src/publisher_info.cc). A message for subscribers on the same host may go through a ring
-- of slots in shared memory (src/shm_ring.cc). The subscribers and the service handlers of the
-- process stand in handler storages (include/trans/details/handler_storage.hpp).
--
-- Base: shared names, Boolean tests, lists. Base/Order: the order of std::string.
-- Map: std::map with string keys, as a list sorted by key; Map/Laws, Map/Order, Map/Holds.
-- Options: include/trans/advertise_options.hpp.
-- Wire: msgs/discovery.proto, by fields; an enumeration of proto3 is open, hence `other`.
-- Info: include/trans/details/publisher_info.hpp and src/publisher_info.cc. `fill_info`,
--   `fill_message_info`, `fill_service_info` are fillDiscovery, and the `read_` functions
--   setFromDiscovery. Info/Class is the interface of the template parameter `Pub`.
-- TopicStorage: one function for each method; `stored` (TopicStorage/Stored) is the view as
--   lists by topic and process, and TopicStorage/Spec the contract over any calls.
-- Discovery: the calls of include/trans/details/discovery.hpp; in Discovery/Handlers the handlers
--   of messages, in Discovery/Loop the thread's timers and its loop, in Discovery/Frame the
--   datagrams, in Discovery/Settings the constructor's values and the setters.
--   Discovery/System runs any sequence of calls, datagrams and clock ticks. Callbacks are a
--   parameter type; the clock is an argument; what is sent and called is a list of
--   events. What protobuf makes of a message, and parses of bytes, is an argument as well.
-- Publisher: src/publisher.cc, with its limit on the rate of messages; the runtime is a
--   parameter, by what it answers. The comparison of times in floating point is written in
--   natural numbers, both sides multiplied by the rate.
-- ShmRing: src/shm_ring.cc. ShmRing/Sequential and ShmRing/Laps are about one thread;
--   ShmRing/Threads has the atomic steps of writers (the fetch of the cursor, the odd number,
--   each byte, the commit) and a reader that copies bytes out among them, and ShmRing/Guard,
--   Steps, Runs and Torn show what such a read returns, ShmRing/Fresh and Delivery when it
--   succeeds. Memory is sequentially consistent.
-- MessageRuntime: src/message_runtime.cc and src/handler_wrapper.cc: the callbacks of discovery;
--   MessageRuntime/Socket has the commands of the subscriber socket, MessageRuntime/Shm the
--   rings in the memory of the host, MessageRuntime/Publish and Receive how a message goes out
--   and comes in, MessageRuntime/Handler include/trans/details/subscription_handler.hpp, and
--   MessageRuntime/Process the calls of the runtime together with discovery.
--   MessageRuntime/Run and Reached are about any sequence of steps, Registering,
--   Connected and Joining about two processes, Inline about a message by the
--   socket, Shared, FirstRing and Stale about a publisher and a subscriber of one host;
--   MessageRuntime/Addresses has the addresses that the publishers and the commands name.
-- ServiceRuntime: src/service_runtime.cc; ServiceRuntime/Calls has what nodes call, Handler is
--   include/trans/details/req_handler.hpp and rep_handler.hpp, ServiceRuntime/Answer what comes in.
--   ServiceRuntime/Once runs any sequence of steps, ServiceRuntime/Process has the calls of the
--   runtime together with discovery.
-- Node: src/node.cc and include/trans/node.hpp, over the answers of the process that nodes share.
--   Node/Wait has fuel for as many rounds as the timeout has sleeps, and two more, which is enough.
-- NodeShared: src/node_shared.cc, what the nodes of a process share: both runtimes with their
--   discoveries. NodeShared/Lifetime has the constructor and the destructor, NodeShared/Calls,
--   Drops and Withdrawn run the calls of a node that ends, NodeShared/Loops is about such loops,
--   and NodeShared/Farewell about what another process makes of the end of the process.
-- Cli: tools/rf_trans.cc, src/cli/discovery_observer.cc and src/cli/topic_sniffer.cc: options
--   (Cli/Arguments), endpoints and filters (Cli/Endpoints), the rounds of the watch and the rate,
--   what is printed (Cli/Json, Print, Table, Decode, Output), the commands (Cli/Command) and the
--   sniffer (Cli/Sniffer). Cli/Reader reads the JSON again, for Cli/Printed; Cli/Decoded, Exit and
--   Sniffed have the theorems on decoding, on the exit status and on the sniffer. Decoding has one
--   round for each byte, which is enough.
-- HandlerStorage: one function for each method; `handler_at` (HandlerStorage/Contents) is the
--   view by topic, node and handler.
--
-- Strings are compared by code point, which is the order of their bytes in UTF-8. A method that
-- holds its object's lock from start to end is one function from state to state; so is a handler
-- of the discovery thread, which takes the lock more than once: no other call comes between.
-- Logging is left out, and so are what objects print of themselves, sockets and threads: what a
-- socket takes and what the operating system answers are arguments. Not modelled are
-- include/trans/details/net_utils.hpp, which calls the operating system, the usage of
-- tools/rf_trans.cc, and deps/elog, another project's library. No loop but that of Node/Wait, the
-- digits and the decoding of Cli and the readers of JSON uses fuel: the others are over a list.
-- Numbers of w bits are natural numbers with their wrap written out; the theorems on the ring ask
-- that its 64-bit sequence numbers do not wrap, which takes 2 ^ 63 writes.
pub mod Base
pub mod Cli
pub mod Discovery
pub mod HandlerStorage
pub mod Info
pub mod Map
pub mod MessageRuntime
pub mod Node
pub mod NodeShared
pub mod Options
pub mod Publisher
pub mod ServiceRuntime
pub mod ShmRing
pub mod TopicStorage
pub mod Wire
