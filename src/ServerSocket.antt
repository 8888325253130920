-- ===== src/ServerSocket.antt =====
-- ServerSocket.h and .cpp: the socket of the server for one client.
use hex.Base.{ℤ, Option}
use hex.Protocol.{from_server, L1MsgHeader}
use hex.Server.{ErrorType}
use hex.MsgSocket.{Errno, Out, msg_socket, rx_error_type}
use hex.ClientSocket.{Calls, socket_configuration}

-- the constructor, on a header that the memory held
unfoldable pub server_socket :
    {N : Type 0} → Calls N → (header : L1MsgHeader) (descr : ℤ) → N → Out N (Unit {0})
unfolding socket_configuration
server_socket calls header descr net =
    socket_configuration calls
      (record { sock = msg_socket header descr from_server; net = net; errno = Errno.other })

-- ServerSocket::_getRxErrorType
unfoldable pub server_rx_error_type : Errno → Option ErrorType
unfolding rx_error_type
server_rx_error_type e = rx_error_type e
