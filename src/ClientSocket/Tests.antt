-- ===== src/ClientSocket/Tests.antt =====
-- The witnesses of the theorems about the client's socket.
use hex.Base.{◌≡◌, refl, Bool, true, false, not, inl, none, some, List, [], ◌∷◌, ◌++◌, map, arith}
use hex.MsgSocket.{MsgSocket, Errno, Io, ok, msg_socket}
use hex.MsgSocket.Stream.{Packet, delivered, frames}
use hex.MsgSocket.Send.Message.{resting}
use hex.MsgSocket.Receive.{is_empty}
use hex.MsgSocket.Receive.Portions.{Pending}
use hex.MsgSocket.Send.Requests.{packets}
use hex.MsgSocket.Sample.{
  Net, big_endian, big_endian-IsByteOrder, system, inbox_of, outbox_of, write_out,
  system-SendsWhole, system-IsStream, client_end, poll_msg, io_of, two_msgs, two_requests,
  two_requests-AllSendable, three_bytes, two_msgs-AllFit, server_end, two_frames,
}
use hex.MsgSocket.{sock_connecting, sock_connected}
use hex.ClientSocket.{Calls, einprogress, PollStat, reported, asks_write, poll}
use hex.ClientSocket.Poll.{only_incoming, only_outgoing, poll-delivered, poll-Sent}
use hex.Request.Any.{single, transfer}

abbrev calls : Calls Net
calls = record {
  configure = λ n. (true, n);
  connect = λ n. (some einprogress, n);
  peek_error = λ n. (none, n);
}

-- the direction that was not asked for is not reported
abbrev sys_poll : Bool → Net → PollStat × Net
sys_poll true n = (reported only_outgoing, n)
sys_poll false n = (reported only_incoming, n)

poll-delivered_example :
    (io' : Io Net) × (done more : List Packet) × (poll calls system 60 sys_poll
        (io_of two_frames server_end)
      ≡ some (ok (not (is_empty io'.sock.rx_fifo)) io'))
    × (packets system client_end two_msgs ≡ done ++ more)
    × (io'.sock.rx_fifo ≡ map delivered done)
    × Pending system inbox_of io' more
    × (true ≡ true → more ≡ [])
unfolding msg_socket asks_write
poll-delivered_example =
    poll-delivered calls system inbox_of true sys_poll 60 (io_of two_frames server_end)
      (packets system client_end two_msgs) (record { inbox = two_frames; outbox = [] })
      big_endian-IsByteOrder system-IsStream two_msgs-AllFit (inl (refl, refl)) (omega arith) refl

abbrev connecting_end : MsgSocket
connecting_end = record client_end { sock_state = sock_connecting }

poll-Sent_example :
    (s' : MsgSocket) × (n : Net) × (errno : Errno) × (poll calls system 3 sys_poll
        (io_of [] (resting none two_requests connecting_end))
      ≡ some (
          ok false (record {
            sock = resting (some (single poll_msg 2)) (transfer three_bytes ∷ []) s';
            net = n;
            errno = errno;
          })))
    × (n.outbox ≡ frames big_endian (packets system client_end (single poll_msg 0 ∷ [])))
    × (s'.sock_state ≡ sock_connected)
unfolding msg_socket
poll-Sent_example =
    poll-Sent calls system outbox_of write_out sys_poll 0 (io_of [] connecting_end) none
      (single poll_msg 0) (transfer three_bytes ∷ []) connecting_end
      (record { inbox = []; outbox = [] }) system-SendsWhole tt two_requests-AllSendable.0 refl
