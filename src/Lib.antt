-- ===== src/Lib.antt =====
-- A model of libgscale: groups of nodes in one or more processes, which exchange packets through
-- back ends. Paths are from the repository's root.
--
-- The parts and their files:
--
-- * Core.antt models src/core.cpp, the singleton with the host's uuid; Node.antt models
--   src/inode.cpp, with the archived form of a node in Node/Wire.antt (saveUUID, loadUUID) and
--   Node/Archive.antt (save, load); Packet.antt models src/packet.cpp, Exception.antt
--   src/exception.cpp, with exceptions on the heap in Exception/Copies.antt, and LocalNode.antt
--   src/localnode.cpp.
-- * GroupCore.antt models src/groupcore.cpp. GroupCore/Rows.antt has the rows of its containers
--   from src/util/groupcore.hpp, MultiIndex.antt what the code uses of multi_index_container, and
--   GroupCore/Nodes.antt the class GroupNodesDAO. GroupCore/History.antt says which states a group
--   can reach: calls of the API, changes of reference counts and rounds of runWorker;
--   GroupCore/Order.antt has the same with what back ends are told.
--   GroupCore/Directory.antt is the abstract view that the tables implement. Group.antt models
--   src/group.cpp and src/group.hpp, the interface of a client.
-- * Loopback.antt models src/backend/loopback.cpp, the back end for one process.
-- * Protocol/Sender.antt and Protocol/Receiver.antt model src/backend/tcp/protocol.hpp, the frames
--   of packets on a socket, Session.antt src/backend/tcp/session.cpp and Tcp.antt
--   src/backend/tcp.cpp, the back end that connects hosts by them.
--   Protocol/Memory.antt has the buffers of the protocol's constructor on the heap. Tcp/Steps.antt
--   says which states the back end can reach, Session/Life.antt what a session and its socket go
--   through, Session/Marked.antt what a session's mark goes through, Tcp/Network.antt what several hosts do to one another, by the packets that they send
--   to multicast groups and the uuids that they write to sessions, and Tcp/Roles.antt which roles a
--   process can take.
-- * SharedMemory.antt models src/backend/shm.cpp, and NetInterface.antt the Linux half of
--   src/util/netinterface.cpp, with NetInterface::all as a whole in NetInterface/Posix.antt; of the
--   Windows half NetInterface/Adapters.antt has the loop that sizes the buffer, and
--   NetInterface/Listing.antt the rest.
-- * Service.antt models src/backend/ibackend.hpp and puts the parts of one process together: the
--   handlers that runWorker runs are the calls that the group bound and the callbacks that its back
--   ends posted.
-- * Chat.antt models the callbacks of example/loopback/main.cpp, a client, and Chat/Program.antt its
--   main; NetworkChat.antt models the main of example/tcp/main.cpp and ShmChat.antt that of
--   example/shm/main.cpp.
--
-- A client calls the group; the group posts calls to its back ends on its io_service, which is the
-- field `queue` of GroupCore; the back ends read the table of nodes through GroupNodesDAO and post
-- calls to the nodes' callbacks. A stateful operation takes the state and returns the next one, with
-- an error value where the code throws. Undefined behaviour has a value of its own (`none` for
-- write and the exceptions, `faulted` for the protocol, `undefined` elsewhere), also where the code
-- makes an exception without a file, whose constructor reads a null pointer.
--
-- Integers: uint16_t, uint32_t, uint64_t and size_t wrap as written. The ids of nodes
-- (`connectcount`, an int) and the clock are unbounded. Loops run on fuel: for processReadBuffer,
-- from its free and header states, three rounds are enough, for syncNodeList one more than the
-- group has nodes, and for NetInterface::all nine, on Windows seven; for runWorker one more than
-- handlers wait and back ends are enabled, where the calls return and post nothing. For the loops
-- of the loopback back end, and so for the example's main, no amount is enough, and for
-- bind_or_connect in a handler it depends on the attempts.
--
-- Parameters: the name and random generators of Boost.Uuid, the clock, io_service::run (for
-- Service.antt a function with the laws of the record IsService), the callbacks of a client,
-- whether a back end's initialisation returns, the text of errno, the bytes that an archive makes
-- of a packet or of a heartbeat, or reads from bytes, whether a socket is open, the order of
-- endpoints, and the outcome of bind and connect; how io_service::poll ends, which runs handlers that
-- can hang, throw or be undefined (the type Poll of Tcp/Worker.antt); the named segments of
-- Boost.Interprocess, as a record of operations with laws (SharedMemory/Interprocess.antt); what
-- ioctl leaves in an ifreq, and which items SIOCGIFCONF gives; what GetAdaptersAddresses gives, and
-- the names that the Windows half takes from Qt; which of several elements std::multimap::find
-- gives.
--
-- Not modelled: of src/util/netinterface.cpp the branches for other Unix systems, which read
-- structures of their headers, and of its Windows half what is printed; the code of
-- src/backend/shm.cpp and shm.hpp that is commented out or stands behind an early return; output to
-- the console; the public headers and the copy of Boost under external.
pub mod Prelude
pub mod Words
pub mod Core
pub mod Node
pub mod Packet
pub mod Exception
pub mod MultiIndex
pub mod LocalNode
pub mod GroupCore
pub mod Group
pub mod Loopback
pub mod Protocol
pub mod Session
pub mod Tcp
pub mod NetInterface
pub mod SharedMemory
pub mod Service
pub mod Chat
pub mod NetworkChat
pub mod ShmChat
pub mod Examples
