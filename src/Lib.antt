-- ===== src/Lib.antt =====
-- Verification of pion/transport, the transport library of the Pion WebRTC stack.
--
-- The program is a set of packages with little in common. `replaydetector` rejects packets whose
-- sequence number was accepted before. `deadline` is a deadline that can be moved, on which the
-- read deadlines of the other packages rest. `packetio` buffers packets between a writer and readers.
-- `vnet` is a virtual network: hosts find the socket of an inbound chunk in their connection maps
-- and push what their sockets write to their router. A router queues chunks, hands those that are due
-- to the host or the router of their destination, and passes the others on to its parent by an
-- address translator, which also lets the replies in. Filters on a host's interface drop some chunks.
--
-- The parts and their files:
--   * ReplayDetector.FixedBig: replaydetector/fixedbig.go, the bit mask; `lsh`, `bit`, `set_bit` are
--     Lsh, Bit, SetBit. Its words are numbers below 2 ^ 64; Words has shifts and masks on them.
--   * ReplayDetector.Token, .Sliding, .Wrapped: replaydetector/replaydetector.go; `check_seq` and
--     `accept_seq` (`accept_diff`) are the methods of these names, `check`, `check_token` and
--     `accept` the public ones. int64 conversions and wrap-around are written out.
--   * Deadline: deadline/deadline.go; `set`, `timeout`, `fire`, `context` are the methods of these
--     names. Deadline.Steps adds Go's timer, its waiting callbacks and the clock, and
--     Deadline.Reach lets them and the client step in any order.
--   * Packetio.Ring, .Buffer: packetio/buffer.go; Ring has the copying of writeBytes, readBytes and
--     grow, Buffer the methods. Buffer.Queue says which queue of packets a buffer stands for, and
--     .Room, .Write, .WriteLaws and .Read what the methods do to that queue. .Pipe is the queue as a
--     client sees it, and .Holds and .Runs compare the two under any sequence of calls.
--   * Vnet.PortList, .UdpConnMap: vnet/conn_map.go; Vnet.TcpListenerMap, .TcpConnMap:
--     vnet/tcp_map.go. A Go map is an association list with distinct keys (Vnet.PortMap), and a
--     connection is its pointer, as a number, with its addresses (Vnet.Addr).
--   * Vnet.Chunk: the data of vnet/chunk.go; Vnet.ChunkQueue: vnet/chunk_queue.go.
--   * Interface: the type Interface of net.go, which hosts and routers hold.
--   * Vnet.NatState, .Nat: vnet/nat.go; NatState has the types, with a key for each text that keys a
--     map, and Nat the methods: `translate_outbound`, `translate_inbound` and what they call. .Keys,
--     .Valid, .Changes, .Find and .Sends say which states occur and what a call changes;
--     .RoundTrip, .Permission, .Ports and .Paired hold the theorems.
--   * Vnet.Resolver: vnet/resolver.go; resolvers are objects in a store, with pointers to parents.
--   * Vnet.NetState, .Net, .Resolve: vnet/net.go; Net has the addresses and ports of a host
--     (hasIPAddr, determineSourceIP, allocateLocalAddr, assignPort), Resolve its ResolveIPAddr,
--     ResolveUDPAddr, ResolveTCPAddr, ListenPacket and Dial.
--   * Vnet.Sockets, .SocketRead: vnet/conn.go and the methods of vnet/net.go on sockets: `dial_udp`
--     is _dialUDP, `deliver` its use of a connection map, `write_to`, `close`, `read_from` the methods
--     of UDPConn. Sockets are objects in a store of the host. Sockets.Conns, .Deleted and .Valid carry
--     the invariant; .Runs, .Delivery, .Dial, .Close and .Loopback hold the theorems.
--   * Vnet.RouterState, .Router, .RouterLife, .Dispatch: vnet/router.go; Router puts a network
--     together (addNIC, AddRouter, setRouter, push, and AddAddress and RemoveAddress of a host),
--     RouterLife has NewRouter, Start and Stop, and Dispatch processChunks and onInboundChunk.
--   * Vnet.DelayFilter: vnet/delay_filter.go; `run_case` is one turn of the goroutine, and .Order lets
--     its turns, the pushes and changes of the delay come in any order.
--   * Vnet.LossFilter: vnet/loss_filter.go, with NewLossFilter and its options in .Options and what
--     they build in .Build.
-- Prelude has the shared names and lemmas, Prelude.Lists those on lists and Prelude.Int signed
-- integers over the native numbers. In each part, Laws and the other child modules hold the proofs,
-- and Tests the runs on concrete data.
--
-- Bounds and fuel: the loop that grows a packet buffer runs on fuel, two more than the largest size
-- that a slice can reach, and each turn adds a byte at least. A look-up of a host name runs on fuel,
-- one for each resolver up to the last parent, and processChunks on more fuel than its queue has
-- chunks; that this is enough is proved. Start and Stop take fuel for the depth of the tree. The other
-- loops run along a list or count down.
-- A panic of the source (an index out of range, a division by zero, the second close of a channel)
-- is `none` where the theorems speak of it. The theorems on the sliding windows assume a window of at
-- least 1 and at most the limit, or half of it where the numbers wrap, and there a limit below 2 ^ 62, so
-- that no difference leaves int64. The uint8 counter of a deadline is kept modulo 256; a
-- valid system has fewer than 255 waiting callbacks, which the steps assume.
--
-- A mutex makes each method one atomic step. The clock is read once in a call, and a run of
-- processChunks is at one time, with no chunk pushed meanwhile. Numbers of ports are not below 0.
-- Go's library functions on texts (ParseIP, ToLower, SplitHostPort, Atoi, Split) are parameters, and
-- so is rand.Intn. Parameters are also what math/rand gives to the loss filter:
-- that a shuffle permutes a block is a hypothesis. A read of the packet buffer goes up to its first
-- wait; from there, to receive from `notify` and to run the critical section again is one step.
--
-- Not modelled: virtual TCP connections beside their maps, the UDP listener, the
-- pipe, the token bucket, the duplication filter and the bridge of the test package, as yet;
-- sockets of the operating system (stdnet, reuseport, netchange), context wrappers (netctx),
-- assembly (utils/xor), examples and test helpers, as they have little logic of their own. Printing,
-- logging, tags of chunks, jitter, MAC addresses, names of routers and the lookup in packet
-- attributes are left out. Chunk filters of a router are functions of the chunk alone.
pub mod Prelude
pub mod Words
pub mod Deadline
pub mod Packetio
pub mod ReplayDetector
pub mod Interface
pub mod Vnet
