-- ===== src/Lib.antt =====
-- hex1: a game of hexagons for several players. A server and its clients exchange messages over
-- stream sockets, and share a map and lists.
--
-- The parts and their files, with paths from the root of the repository:
--
-- core/hexmap.h, core/hexmap.cpp: Hexmap. A coordinate is a pair of integers, kept to 16 bits
--   (`int16`) where the source computes in mIndex; a Coordl is the 32-bit number that the union
--   gives, on a little-endian machine. `make_map` is the constructor, `in_range`, `get_hex`,
--   `get_vect`, `get_coordl`, `get_neighbour` and `hex_dist` the operations. Hexmap/Distance has
--   the distance in closed form, Hexmap/Range the coordinates of a map, Hexmap/Walks the walks
--   along neighbours, Hexmap/Neighbour and Hexmap/Construct the look-ups, Hexmap/Destroy the
--   destructor.
-- util/circList.h: CircList. A store gives each address its `next`, `prev` and `payload`; NULL is
--   0. Each operation is one function on the store, its writes in the order of the source; it
--   returns `none` where an assertion fails. CircList/Ring says what a ring of elements is,
--   CircList/Basic, Cut and Places what the writes do to rings, CircList/Lists, Queues, Transfers
--   and Halves what the operations do to the list that a head stands for, CircList/Iterators has
--   the iterators and swap, CircList/Iterate what their loops meet, CircList/Swaps what swap
--   does. The loops of the iterators run on fuel: more than the number of elements is enough.
--   CircList/ForEach has the loops list_for_each and its variants, with a body that may change the
--   links, and ForEach/Emptying what they do where the body takes each element out.
-- ClientServerPrtcl.h, main_version.h: Protocol. A message body is a list of bytes, the memory of
--   the union ClientServerMsgBody; `int` has 4 bytes, the lowest first. Protocol/Strings is about
--   the strings in it.
-- ClientServerRequest.h and .cpp, ClientServerFileTransferRequest.h and .cpp: Request, the transfer
--   of a buffer in several messages; Request/Any has the requests that a socket queues.
--   `build_next_l2_msg` is buildNextL2Msg of ClientServerMsgTransferRequest, with htonl and htons as
--   parameters; `segments` is how MsgSocket::_sendLoop calls it, on fuel: more than the number of
--   bytes is enough. Request/Bodies reads the bodies back, Request/Segments puts the payloads
--   together. Request/File is the transfer of a file, with the files of the system as parameters:
--   `file_transfer_request` the constructor, `build_next_file_msg` its buildNextL2Msg. File/Slices
--   is about the parts of a body, File/Messages about each message, File/Reads and File/Whole about a file
--   that stays as it is, File/Misplaced about a descriptor that fseek does not bring back to the
--   start, File/Broken about a file that does not stay as it is and one that is too large. IsFile tells
--   the position of the FILE from that of its descriptor.
-- ServerClientConnection.h, ServerClientConnection.cpp: Server, the class ServerClientConnection.
--   The state of a connection is a record, each handler a function on it, `none` where an
--   assertion fails, and an `Outcome` where std::out_of_range may end it; messages to the client are queued in `tx_fifo`. The look-ups of users are a
--   record of functions, with what they return so far in `accounts`. Server/Messages has the end
--   of a connection and the dispatch of messages, Server/Session the answers, Server/Admission
--   what leads to a registration.
-- ClientConnection.h, ClientConnection.cpp: Client, in the same way. Client/Poll has the events
--   and the poll, Client/Transitions the moves of its state, Client/Credentials what the user
--   interface enters.
-- Handshake: the two of them together. The client starts, and the messages each queued last are
--   handed to the other. Handshake/Sockets takes the client's first message through the queue of its
--   socket, the wire and the server's socket.
--
-- MsgSocket.h, MsgSocket.cpp: MsgSocket. The calls send and recv, the byte order and errno are the
--   record `System`, whose states are a parameter; an `Action` takes the socket with the state of
--   the system, and ends with a value or with a `Fault` (an assertion, an exception or an access
--   outside a buffer). MsgSocket/Send has `send_next_data` (sendNextData) and its loop,
--   MsgSocket/Receive has `recv_next_data` (recvNextData) and its loop, both on fuel: three rounds
--   are enough to send a message, and more than twice the unread bytes and one to receive.
--   MsgSocket/Stream says what a stream socket does, and how messages lie on the wire (`frames`).
--   Send/Message follows one message, Send/Requests the messages of a request, Send/Queue the queue
--   of single messages and transfers, Send/Refusals a system that takes less than it is given,
--   Send/Oversized a transfer of more than 7912 bytes. Receive/Portions, Rounds and Delivery follow
--   the bytes as they arrive.
--   MsgSocket/Exchange joins both ends. MsgSocket/Sample has the system of the tests.
-- ServerClientConnection.h and .cpp, class ServerSocketsRouter: Router. An fd_set is its 1024 bits;
--   the connections are the record `Handlers`, pselect is a function. `create_client_connection`,
--   `release_client_connection` and `outgoing_data_for_client` are the operations,
--   Router/Serve has ServeClientSockets. Router/Sets is about _fdsExtractList, Router/Coherent
--   and Release about the tables, with the descriptors whose connection could not be made, Router/Releases about a list of sockets to release,
--   Serve/Stores, Receptions, Readable and Incoming about a turn with incoming data,
--   Serve/Invariant and Turns about any turn.
-- gameServer.cpp: GameServer, `server_main` with SetupListenSocket, on socket, bind, listen and fcntl
--   as parameters, and its loop over a list of turns, each with the result of accept and pselect;
--   GameServer/Tables follows the router's tables through the loop, GameServer/Startup is about
--   `server_main`.
-- gameClient.cpp: GameClient, `client_background_main` with the display of the interfaces and
--   the search for one, the connection object, and the loop that polls, over a list of rounds. Client/Poll/States has the
--   steps of the client as a relation, GameClient/States what the loop can reach.
-- util/signalUtilities.cpp, util/ipUtilities.cpp: Utilities, waitUsec with nanosleep as a parameter,
--   on fuel: one more than the interruptions is enough; get_ipv4_address with the list of
--   getifaddrs; `display_network_addresses`. Utilities/Waiting and Utilities/Interfaces are about the two.
-- ClientSocket.h, ClientSocket.cpp: ClientSocket, on MsgSocket, with connect, fcntl and poll as
--   parameters.
--   ClientSocket/Poll joins `poll` with the loops of MsgSocket.
-- ServerSocket.h, ServerSocket.cpp: ServerSocket.
--
-- The queues of Server and Client stand for those of their sockets: a connection queues its
-- messages there, and MsgSocket sends a queue. The router knows a connection by what its functions
-- end with.
--
-- A body that a handler allocates is not initialised: its content is the argument `raw`.
--
-- Not modelled: the threads and their locks (each call is one step); main, client_main and the
-- thread of the user interface; output, with the functions that only print; the destructors of the
-- connections and sockets; the configuration of SIGIO. util/dbleList.h is disabled, MessageDescr is
-- empty, and MsgSocket::transferFile has no body.

mod Base
pub mod CircList
pub mod Client
pub mod ClientSocket
pub mod GameServer
pub mod Handshake
pub mod Hexmap
pub mod MsgSocket
pub mod Protocol
pub mod Request
pub mod Router
pub mod Server
pub mod ServerSocket
pub mod Utilities
pub mod GameClient
