-- ===== src/Lib.antt =====
-- Verification library of zRPC, an RPC library over unreliable datagram transports (src/).
--
-- The program's parts, and the file of each:
-- - Packet headers and their layout (src/pkthdr.h): Packet.antt; the number of packets of a message
--   (`data_size_to_num_pkts`, `wire_pkts` of src/rpc.h): Packet/Sizes.antt; the headers that
--   `enqueue_request` makes: Packet/Headers.antt.
-- - The client's data path: Datapath.antt holds the state of src/sslot.h, src/session.h and src/rpc.h.
--   Datapath/Batch is the TX batch, Ctrl the ring of control headers, Kick `kick_req_st` and
--   `kick_rfr_st`, Credit `process_expl_cr_st`, Resp and Complete the two parts of
--   `process_resp_one_st`, Request `enqueue_request`, Loss `pkt_loss_retransmit_st` and the
--   scan of active requests. A handler works on a `Flow` (one slot, the session's credits, the sending
--   side); Client places a flow in the endpoint. Slots states how a session's slots are in order. Server is `process_rfr_st` and
--   `enqueue_cr_st`, the server's answers to single packets. Serve is the server's side of a request,
--   `process_small_req_st`, `process_large_req_one_st` and `enqueue_response`: Serve/Gather is about the
--   pieces of a message in memory, Packets about one packet, Requests about all of them, Respond about the response. Exchange puts
--   both sides of a large request together, over a network that delivers in order. Rx is the receive
--   loop `process_comps_st`, over a record of the handlers: Rx/Ring is about its ring, Rx/Slot about the
--   way from the ring to a server slot. Queues is src/rpc_impl/rpc_queues.cc over all client sessions:
--   Queues/Places is about the slots that its entries point at, Step about one of them that is kicked, Sweep
--   states what a pass does with each, and Stall and Background are about the two queues.
-- - Session management: Sm.antt holds the packets and states of src/sm_types.h; Sm/Api, Connect,
--   Disconnect, Reset and Rx are the files of src/rpc_impl with these names, Init the constructor of
--   a session, Helpers the ring entries and the sending of packets. Sm/Handshake follows a session's
--   beginning through both sides, Leaving and Farewell its end; Pending is the scan for
--   lost management packets (src/rpc_impl/rpc_pkt_loss.cc). Sm/Rings states the life of a session as a
--   state machine and the balance of ring entries.
-- - The event loop (src/rpc_impl/rpc_ev_loop.cc): EventLoop.antt, over a record of the steps that it calls.
-- - The hugepage allocator (src/util/huge_alloc.h and .cc): Alloc.antt; Alloc/Lists says when freelists
--   are in order, Serve and Request follow a request, Growth the first one, Classes its size class.
-- - The timing wheel (src/cc/timing_wheel.h): Wheel.antt; Wheel/Chain is about the buckets of a slot, Order
--   states the wheel as an agenda of what is to be sent when, Reap (with Turn, one
--   round of it) and Insert are the two operations, Pacing follows an entry through both, and Fresh is
--   the constructor.
-- - The Nexus (src/nexus.h, src/nexus_impl): Nexus.antt; Nexus/Routing is about session management
--   packets, Frozen about the table of handlers, Ports about data path ports (src/rpc_constants.h).
-- - Containers (src/util): Util/MemPool, Util/FixedQueue and Util/FixedVector.
-- - Heartbeats (src/heartbeat_mgr.h): Heartbeat.antt; Heartbeat/Due bounds the loop by the events that
--   are due before the call ends, so that its rounds are enough, and Failure follows a tracked host.
-- - Common.antt: numeric tests, lists as C arrays, and results of calls that may abort.
--
-- A call returns `ok` with the new state, or `err` where an assertion fails, an exception is thrown, or
-- memory is accessed out of bounds. `size_t` sums and differences wrap at 2^64 where the source has
-- them; a bound on the operands is a hypothesis of the theorem that needs it. Loops are structural
-- recursion on the rounds that the source computes before the loop. Two loops have a bound of
-- their own, which is proved to be enough: the heartbeat loop runs at most once more than there are
-- events in the queue, where the call takes less time than the shorter delay, and the wheel's at most
-- once more for each tick of the clock up to the time that it reaps for; beyond it they would give
-- `none` and `err no_return`. The event loop with a timeout is modelled with a round for each tick and one more,
-- and nothing is proved of it.
-- Pointers to user buffers, continuations and tags are numbers; hostnames are lists of characters.
-- Transport constants, the transport's resolution of routing info, shared memory and the bit scan
-- instruction are parameters, and so are the handlers of the receive loop, with an interface (`SlotView`)
-- for a slot on which the handler for large requests works, and the steps of the event loop.
--
-- Not modelled: the transports' calls of verbs and DPDK, floating-point congestion control, logging,
-- locks and the launch of threads (a step runs under its lock), the reset of client sessions, which no
-- code reaches, `process_wheel_st`, to which nothing gives a packet, the responses of background threads,
-- and the callbacks' own calls into the library: a continuation, a request handler or an event
-- handler is recorded when it is invoked.
pub mod Alloc
pub mod Common
pub mod Datapath
pub mod EventLoop
pub mod Heartbeat
pub mod Nexus
pub mod Packet
pub mod Sm
pub mod Util
pub mod Wheel
