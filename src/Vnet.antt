-- ===== src/Vnet.antt =====
-- Package vnet, the virtual network.
pub mod Addr
pub mod Chunk
pub mod ChunkQueue
pub mod LossFilter
pub mod DelayFilter
pub mod NatState
pub mod Nat
pub mod PortMap
pub mod PortList
pub mod UdpConnMap
pub mod TcpListenerMap
pub mod TcpConnMap
pub mod NetState
pub mod Net
pub mod Sockets
pub mod SocketRead
pub mod Resolver
pub mod Resolve
pub mod RouterState
pub mod Router
pub mod RouterLife
pub mod Dispatch
