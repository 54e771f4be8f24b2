-- ===== src/Lib.antt =====
-- Verification of linuxgameserver, an epoll game-server architecture on Linux: a network library
-- (NetWork) and the server processes that stand on it.
--
-- Parts and files
--   Common                the library's names, Boolean tests, lists as blocks of memory
--                         (Common/Lists, Common/Elems), 32-bit and 64-bit words (Common/Words), std::map
--                         (Common/Maps).
--   CircleBuf             NetWork/LFixLenCircleBuf.cpp and .h: the circular buffer of items. The
--                         specification is the queue of CircleBuf/Queue.
--   PacketPool            NetWork/LPacketPoolManager.h: pools of packets by buffer length, one
--                         circular buffer for each length.
--   Session               NetWork/LSession.cpp and .h: RecvData with the content buffer of a
--                         connection, against the packets of a byte stream (Session/Frames), and
--                         AppendDataToSend with SendDataInFixCircleSendBuf (Session/Send) on a
--                         circular buffer of bytes. Modelled as built with
--                         __USE_SESSION_BUF_TO_SEND_DATA__.
--   SessionManager        NetWork/LSessionManager.cpp and .h: the sessions by id in several managers,
--                         the pool of free sessions (SessionManager/Pool makes it) and the sessions
--                         that wait for their reuse.
--   Threads               NetWork/LNetWorkServices.cpp, LCloseSocketThread.cpp and the thread managers
--                         LRecvThreadManager.cpp, LSendThreadManager.cpp, LEpollThreadManager.cpp: the
--                         threads of a session. Threads has the state and the binding of a session to
--                         its threads (Threads/Binding, Threads/Recount, Threads/Counts),
--                         Threads/Connecting a new connection, Threads/Closing the close thread and the
--                         four threads that stop a session. Threads/Sound is who owes what;
--                         Threads/Workers, Movers, Freeing, Closer, Tellers, Connect and Joins keep it;
--                         Threads/Reach has the steps in any order, Threads/Drain and Drained the end
--                         of the work, Threads/Losing, Lost and Refused what goes wrong.
--   Epoll                 NetWork/LEpollThread.cpp: the arrays of events for the receive and the send
--                         threads, and a turn of ThreadDoing behind epoll_wait. Epoll/Events is about
--                         the events for the receive threads, Epoll/Overflow about those for the send
--                         threads, Epoll/Turn about a turn.
--   Packet                NetWork/LPacketBase.cpp and .h: the buffer of a packet with its length word,
--                         AddData and GetData (Packet/Region, Packet/Flow), the typed values
--                         (Packet/Typed, Packet/Net, Packet/RoundTrip), DirectSetData and the id
--                         (Packet/Fresh), and the checksum (Packet/Checksum) with crc32 as a parameter.
--   Gate                  GateServer: LClientManager.cpp, the clients by session and by user, their
--                         pool (Gate/Pool) and the users that are expected (Gate/Expected), and
--                         Gate/Tick for the end of their time; the packet handlers of
--                         LGateServerPacketProcess_*.cpp in
--                         Gate/Handlers (login), Gate/Lobby and Gate/Master. Gate/Sound, Gate/Keeps,
--                         Gate/Handled and Gate/Reach show what the indices keep; Gate/Reads,
--                         Gate/Login and Gate/Enter follow a login through its two packets, and
--                         Gate/Keyless the answer without room for the key.
--   Master                MasterServer/LServerManager.cpp, LServer.cpp and include/Server_Define.h: the
--                         servers that connect and register, by id and by session (Master/Accounted,
--                         Master/Moves, Master/Keeps, Master/Reach), and the unique ids
--                         (Master/UniqueId). Master/Users and Master/Handlers: LUserManager.cpp and the
--                         handlers of the packets about users from login and gate servers; Master/Known,
--                         Master/Online and Master/Report are about these. Master/Neighbours: who
--                         is told of a server that registers.
--
-- How the parts interact: a packet pool is an array of circular buffers; a session sends from a
-- circular buffer of bytes and asks its receive thread for packets of a pool; the managers hand out
-- sessions and take them back when their threads are done with them: the close thread frees a session,
-- tells its threads, and the last of them to set its flag hands it back. The handlers of the servers
-- read packets with the getters of Packet, and return what they send as values.
--
-- State and steps: an operation takes the object's fields as a record and returns them behind its
-- result. An int is its 32-bit pattern, a size_t a number below 2 ^ 64 (Common/Words). A pointer that
-- the code tests is an Option or a Boolean, an object in a pool its address. What the system or a
-- part that is not modelled returns is an argument: new, Recv, Send, epoll_ctl, the queues of a
-- thread.
--
-- Bounds and fuel: the loop of RecvData runs on the number of the bytes held, and each packet takes
-- two of them at least; the loop of the same name in Session/Frames likewise. The other loops are by
-- recursion on a list or on a count; Threads/Drain runs a number of steps of a thread, of which four for
-- each entry of its queue and three more are enough, and Threads/Drained runs each thread so.
--
-- Threads and steps: in Threads a step is what one thread does with one shared object, and the steps of
-- the threads stand in any order; a turn of a thread is several steps. GetStopProcessInfos with its
-- four reads is one step, and so is a new connection. Elsewhere an operation is one step.
--
-- Not modelled: locks and the memory order below these steps, the system calls, the loops of the threads
-- around their turns, the turns of the receive and send threads, the connections between the servers,
-- and the server processes but for the parts of the gate server and the master server above. The
-- servers send with SetPacketID and then the typed values; the model of a handler names the id and the
-- values, and Packet says what becomes of them in the buffer. The values that a handler adds have room
-- in the packet it asks for, but for the answer to an announced user, whose packet has a length as an
-- argument.
pub mod Common
pub mod CircleBuf
pub mod PacketPool
pub mod Session
pub mod SessionManager
pub mod Threads
pub mod Epoll
pub mod Packet
pub mod Gate
pub mod Master
