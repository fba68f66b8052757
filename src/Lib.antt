-- ===== src/Lib.antt =====
-- USN-HFT-SIM: a user-space network stack for simulated trading (C++ headers under include/usn/), with
-- its packet queues, its TCP and UDP parts, and the applications built on them.
--
-- A packet travels as `Packet`, a pointer with its length (include/usn/core/packet.hpp), through a
-- `PacketRing` between one producer and one consumer, or values through an `MpscQueue` from many
-- producers to one consumer. Outgoing frames are made by `TcpProtocol` and `UdpProtocol`, which
-- share the checksum; incoming ones are parsed by them. A parsed TCP header goes to
-- `TcpStateMachine`, which owns the connection; its payload goes to the reassembly buffer;
-- segments sent wait in the retransmission queue, timed by the estimator and limited by the
-- congestion window. `BusyPoller` is the loop that a receiver may run. A UDP receiver counts what
-- arrives in `UdpDeliveryFeedback`. Below, `BatchRecv` fills the ring from a socket, and the results of
-- the waiting loops become one `UnifiedIOResult`, which tells an application's loop what to do.
-- On top stand the applications: the order gateway reads frames of its clients into a ring, takes them
-- out one by one, lets the state machine or the reassembly buffer have them, and answers orders; the
-- order client sends them within its windows and repeats them until they are acknowledged; the feed
-- publisher sends market data as datagrams, and the feed subscriber counts them and writes a report.
-- Two drivers start the applications with their options, stop them, and add up the reports. Apart from
-- the data path, `NumaTopology` and `CpuAffinity` bind a thread to a processor.
--
-- Files and the code they are about:
--   Base            numbers, lists, Boolean tests, fixed widths and bits that the others share, and in
--                   Base/Text the decimal numbers that the programs print and read
--   Core/Capacity   `round_up_power_of_two` of include/usn/core/packet_ring.hpp
--   Core/Packet     include/usn/core/packet.hpp
--   Core/Queue      the bounded queue that the ring implements
--   Core/Ring       `PacketRing` of include/usn/core/packet_ring.hpp; Index, Inv, Refine, Batch,
--                   Trace, Positions
--   Core/Mpsc       `MpscQueue` of include/usn/core/mpsc_queue.hpp, as a step relation; Steps
--   Core/Pool       `MemoryPool` of include/usn/core/memory_pool.hpp; Chain, Blocks
--   Core/ZeroCopy   the buffer and the pool of include/usn/optimization/zero_copy.hpp; Same
--   Core/Numa       include/usn/optimization/numa_utils.hpp; Binding
--   Core/Tracing    `Tracer` of include/usn/core/tracing.hpp
--   Io/BusyPoll     include/usn/io/busy_poll.hpp, with clock, flags and callback as inputs; Timeouts
--   Io/Batch        include/usn/io/batch_io.hpp, with the system's answers as inputs; Policy, Receive
--   Io/Epoll        include/usn/io/epoll_wrapper.hpp; the waiting itself, with Wait; in Service the set
--                   of descriptors and the event loop
--   Io/Uring        include/usn/io/io_uring_wrapper.hpp; Seen
--   Io/Status       include/usn/io/io_status.hpp and io_status_types.hpp; Unified
--   Apps/Messages   include/usn/apps/messages.hpp; Layout
--   Apps/Gateway    apps/order_tcp/order_gateway.cpp; Frames, Rounds, Service, and the theorems in
--                   Orders, Acceptance, Closing, Sound, Inv, Drain, Steady
--   Apps/Client     apps/order_tcp/order_client.cpp; the steps here and in Answers and Lifecycle, the
--                   loops in Loop, and the theorems in Window, Settled, Reconnect, Waiting, Ledger
--                   with Answered and Counted, Accounts
--   Apps/Publisher  apps/market_udp/feed_publisher.cpp; Delivery
--   Apps/Subscriber apps/market_udp/feed_subscriber.cpp; Watch, Join, Report, and the theorems in
--                   Feed, Flag, Percentiles
--   Apps/Feed       the publisher and the subscriber together, with a network between them
--   Apps/CommandLine    the command lines of the four applications
--   Apps/Drivers    apps/run_sim_order.cpp (Order) and apps/run_sim_market.cpp (Market, Summary), and
--                   the theorems in Arrive, Children, Summary/ReadBack, Summary/Sums
--   Wire            byte order and the checksum of include/usn/protocol/tcp_protocol.hpp and
--                   udp_protocol.hpp
--   Tcp/Types       `TcpState`, `TcpHeader`, `TcpConnection` of include/usn/protocol/tcp_protocol.hpp
--   Tcp/Wire        `TcpProtocol` of the same file; Frame, ReadBack, Validity
--   Tcp/StateMachine    include/usn/protocol/tcp_state_machine.hpp; Incoming, Routes
--   Tcp/Retransmission  `TcpRetransmissionQueue` of include/usn/protocol/tcp_retransmission.hpp
--   Tcp/Rto         `TcpRtoEstimator` of the same file
--   Tcp/Congestion  include/usn/protocol/tcp_congestion.hpp
--   Tcp/Reassembly  include/usn/protocol/tcp_reassembly.hpp; Inv, Pop, Stream, Holes
--   Tcp/Socket      include/usn/protocol/tcp_socket.hpp; Descriptors
--   Udp/Wire        `UdpProtocol` of include/usn/protocol/udp_protocol.hpp; Frame, Valid
--   Udp/Socket      include/usn/protocol/udp_socket.hpp
--   Udp/Feedback    include/usn/protocol/udp_feedback.hpp
--
-- How the code is read: an object is a record of its fields, and a member function a function from the
-- record to its result and the new record; a `false` with no result is `none`, or `false` beside the
-- unchanged record. Unsigned integers are natural numbers, with the remainder by 2 ^ 8, 16, 32 or 64
-- written where the C++ wraps. Buffers are lists of bytes; the layout is that of GCC on a little-endian
-- host, where the packed TCP header takes 21 bytes. A `std::map` is a list in the order of its keys, a
-- `std::deque` a list with its front first.
--
-- What the operating system and the clock answer is an input: a loop that calls them is a recursion on
-- the list of the answers that it gets, with no result where the list ends before the loop does.
--
-- Fuel: the loop of `pop_contiguous` has one round for each buffered segment, since each round erases
-- one; the `while` of `on_ack` one for each byte of the accumulator and one more, since each round takes
-- off a window of at least one byte; the folding loop of the checksum three rounds, which is enough for
-- 32 bits. Where fuel can run out the model returns `none`, and the theorems say that it does not. The
-- loops of the gateway and the subscriber over the ring have one round for each packet in it.
--
-- The calls of the operating system, of libnuma and of liburing are parameters or inputs everywhere. A
-- `double` with its functions is a parameter of the publisher's and the market driver's options; of the
-- percentiles the index, which is computed in floating point, is a parameter.
--
-- Not modelled: the interleavings of the ring's producer and consumer (each call is one step); the
-- memory orders of the multi-producer queue, whose accesses are taken in some order of all; the bytes
-- in the blocks of the memory pool; the text that tracing and the applications print, and the
-- percentiles in the client's, which are of the same form as the subscriber's; sleeps; signals but for
-- the flag that they clear; tests and benchmarks.
pub mod Base
pub mod Core
pub mod Wire
pub mod Tcp
pub mod Udp
pub mod Io
pub mod Apps
