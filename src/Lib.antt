-- ===== src/Lib.antt =====
-- DDS Proxy forwards the data of DDS topics and the calls of services between DDS networks. This
-- library models the core of it, the DDS Pipe, as executable definitions, and proves what they do.
--
-- The participants (ddspipe/ddspipe_participants) find endpoints in their networks and queue them in
-- the discovery database; its thread stores them and calls the callbacks of the pipe. The pipe keeps
-- a bridge for every topic that it has found and that the list of allowed topics lets through, and
-- one for every service. A bridge takes payloads from its readers to its writers along the routes of
-- the configuration; the payload pool holds the data meanwhile, and a service registry remembers who
-- must get the reply to a request. The thread pool runs the tasks that the readers emit. A second proxy
-- may stand by as a slave: it becomes the master when the heartbeats of the first one stay away.
--
-- Files, with the sources below ddspipe/ddspipe_core/src/cpp unless another path is given:
--   Common           the library's names, Boolean tests, maps and sets, results
--   Types            types/topic, types/dds, and Fuzzy of dev-utils/cpp_utils
--     Types.Search     the searches of std::string, with npos
--     Types.Rpc        RpcTopic: which topics are services, and the two topics of one
--     Types.TopicQos   TopicQoS::set_qos and its constructor
--     Types.Filter     WildcardDdsFilterTopic and IFilterTopic
--   Configuration    configuration: routes, their validity, manual topics
--   Dynamic          dynamic: AllowedTopicList, ParticipantsDatabase, DiscoveryDatabase
--   Payload          efficiency/payload: PayloadPool and FastPayloadPool over an explicit heap;
--                    Payload.Fast.Clients has the users of a pool, in threads
--   Rpc              communication/rpc: ServiceRegistry, and RpcBridge with its proxy clients and servers;
--                    Rpc.RpcBridge.Transmit has what one request or reply is forwarded to,
--                    Rpc.RpcBridge.Tasks the threads of one reader
--   Pipe             core/DdsPipe.cpp, over the interfaces of Pipe.Interfaces
--   Communication    communication/dds: DdsBridge and Track
--     Communication.DdsBridge  the tracks of a topic and their writers; Interface fills the interface
--                      of the pipe
--     Communication.Track      one reader and its writers; Transmit has the threads
--   Workers          dev-utils/cpp_utils: the wait handlers that a queue of tasks needs, and SlotThreadPool
--                    with its threads in Workers.SlotThreadPool.Steps
--   KeepAlive        main.cpp and keep_alived of ddsproxy/ddsproxy_main: the roles of master and slave
--   Participants     ddspipe/ddspipe_participants: addresses, TLS and the configuration of an initial peers
--                    participant, and the transports that it asks for (Participants.InitialPeers)
--   Readers          BaseReader of ddspipe/ddspipe_participants: which samples come through
--
-- The definitions keep the names of the source, without a trailing underscore. What a call does to
-- its object is a function from the old state to the new one; a call that may throw gives a Result,
-- an Option or an Outcome. A locked region is one step, so that mutexes do not appear. A std::map is
-- an association list; keyed by topics it is keyed by their unique names, as the operators of the
-- source compare them. Callbacks are numbers, and a call of one is a Notification. Readers and writers
-- are numbers too, and the bridge keeps which of them are enabled. The transmission of a track
-- and of a service, where threads interleave, is a relation: a step is one access to what they share.
-- A release of a payload is two steps, since FastPayloadPool takes its reference and reads the counter
-- again without a lock. The thread of the discovery database has the items that others push meanwhile.
--
-- Bounds: the counters of a pool wrap at 2 ^ 64 and the counter of a block at 2 ^ 32, as in the code;
-- sizes of strings wrap at 2 ^ 64. The loop over the queue of the discovery database has fuel, the
-- number of items that the queue holds; every round takes one item off. The status of a track wraps at
-- 2 ^ 32; a step of a listener that would be the 2 ^ 31st between two stores of it is left out. The
-- counters of the thread pool wrap at 2 ^ 32; an emission to a queue of 2 ^ 32 - 1 ids is left out.
-- The search for a WAN address has any fuel, since the loop of the code may not end.
--
-- Parameters: the wildcard match of the operating system, the DBQueue of Fast DDS with its
-- documented behaviour, and the type of the identities of samples. The pipe takes its bridges as the
-- operations and laws of Pipe.Interfaces, which the DDS bridge fills. The bridges take whether a
-- participant creates its endpoint or throws, and the first value of the master flag of a track,
-- which the code does not initialise. A reader takes the period that the code computes from its
-- rate in floating point. An address takes the checks of IPLocator of Fast DDS.
--
-- Not modelled: the other pools; the other participants, writers, and readers past BaseReader, which
-- call Fast DDS; the reading of YAML files; the options of the command line; the other wait handlers, clocks,
-- signals and logging of dev-utils/cpp_utils; printing and error messages.
pub mod Common
pub mod Pipe
pub mod Readers
pub mod Payload
pub mod Configuration
pub mod Dynamic
pub mod Workers
pub mod KeepAlive
pub mod Participants
pub mod Types
pub mod Rpc
pub mod Communication
