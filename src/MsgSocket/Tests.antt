-- ===== src/MsgSocket/Tests.antt =====
-- Tests of the message sockets, and the witnesses of the theorems about them.
use hex.Base.{
  ℕ, ◌+◌, ◌*◌, ◌≡◌, refl, true, not, inl, none, some, List, [], ◌∷◌, ◌++◌, map, arith, length, take,
  ltb, if◌then◌else◌, replicate, length-replicate,
}
use hex.Protocol.{MsgRequest, poll_req}
use hex.MsgSocket.{System, sent, Io, ok, raised, assertion, overrun, header_bytes, msg_socket}
use hex.MsgSocket.Stream.{Packet, delivered, frames}
use hex.MsgSocket.Send.Message.{resting, header_of}
use hex.MsgSocket.Send.Requests.{packets}
use hex.MsgSocket.Send.Oversized.{send_next_data_overrun, first_of}
use hex.Request.{TransferRequest}
use hex.Request.Bodies.{Ready}
use hex.Request.Any.{single, transfer}
use hex.MsgSocket.Send.Queue.{send_all, send_all-frames}
use hex.MsgSocket.Send.{send_next_data}
use hex.MsgSocket.Send.Refusals.{send_next_data_partial}
use hex.MsgSocket.Receive.{recv_next_data, is_empty}
use hex.MsgSocket.Receive.Portions.{Pending}
use hex.MsgSocket.Receive.Delivery.{recv_next_data-delivered}
use hex.MsgSocket.Exchange.{send_all-recv_next_data}
use hex.MsgSocket.Sample.{
  Net, big_endian, big_endian-IsByteOrder, system_recv, errno_number, system, inbox_of, outbox_of,
  write_out, system-SendsWhole, system-IsStream, client_end, io_of, two_msgs, two_msgs-AllFit,
  two_requests, two_requests-AllSendable, two_requests-AllFit, server_end, two_frames, arrive,
}

send_all-frames_example :
    (io' : Io Net) × (send_all system 3 3 (io_of [] (resting none two_requests client_end))
      ≡ some (ok tt io'))
    × (io'.net.outbox ≡ frames big_endian (packets system client_end two_requests))
    × (io'.sock.tx_fifo ≡ [])
    × (io'.sock.tx_req_ptr ≡ none)
send_all-frames_example =
    send_all-frames system outbox_of write_out system-SendsWhole 0 (io_of [] client_end) none
      two_requests client_end tt two_requests-AllSendable

recv_next_data-delivered_example :
    (io' : Io Net) × (done more : List Packet) × (recv_next_data system 60
        (io_of two_frames server_end)
      ≡ some (ok (not (is_empty io'.sock.rx_fifo)) io'))
    × (packets system client_end two_msgs ≡ done ++ more)
    × (io'.sock.rx_fifo ≡ map delivered done)
    × Pending system inbox_of io' more
    × (true ≡ true → more ≡ [])
unfolding msg_socket
recv_next_data-delivered_example =
    recv_next_data-delivered system inbox_of true 60 (io_of two_frames server_end)
      (packets system client_end two_msgs) big_endian-IsByteOrder system-IsStream two_msgs-AllFit
      (inl (refl, refl)) (omega arith)

abbrev enough : ℕ
enough = 2 * length (frames big_endian (packets system client_end two_requests)) + 2

send_all-recv_next_data_example :
    (io' io2 : Io Net) × (send_all system 3 3 (io_of [] (resting none two_requests client_end))
      ≡ some (ok tt io'))
    × (recv_next_data system enough (io_of io'.net.outbox server_end)
        ≡ some (ok (not (is_empty io2.sock.rx_fifo)) io2))
    × (io2.sock.rx_fifo ≡ map delivered (packets system client_end two_requests))
unfolding msg_socket
send_all-recv_next_data_example =
    send_all-recv_next_data system outbox_of write_out system-SendsWhole system inbox_of
      big_endian-IsByteOrder system-IsStream arrive (λ bs. refl) 0 enough (io_of [] client_end) none
      two_requests client_end (io_of [] server_end) refl tt two_requests-AllSendable
      two_requests-AllFit refl refl (omega arith)

-- a system that takes eight bytes at most
abbrev eight_of : ℕ → ℕ
eight_of n = if ltb 8 n then 8 else n

abbrev slow_system : System Net
slow_system = record {
  send = λ n bs. (sent (eight_of (length bs)), record n { outbox = n.outbox ++ take 8 bs });
  recv = system_recv;
  errno_value = errno_number;
  order = big_endian;
}

abbrev long_msg : MsgRequest
long_msg = record { l1_msg_id = poll_req; nb_bytes = 10; msg = replicate 10 1 }

send_next_data_partial_example :
    (io' : Io Net) × (send_next_data slow_system 2
        (io_of [] (resting none (single long_msg 0 ∷ []) client_end))
      ≡ some (raised assertion io'))
send_next_data_partial_example =
    send_next_data_partial slow_system 0 (io_of [] client_end) (single long_msg 0) 8 [] client_end _
      _ (refl, omega arith, omega arith) (omega arith) (λ e. omega arith) refl refl

-- a transfer of 8000 bytes
abbrev large_transfer : TransferRequest
large_transfer = record {
  l2_payload_length = 8000;
  nb_payload_bytes_sent = 0;
  transfer_id = 1;
  l2_action = 2;
  source_buffer = replicate 8000 65;
  msg = replicate 8192 0;
}

large_transfer-Ready : Ready large_transfer
large_transfer-Ready = record {
  room = length-replicate {A = ℕ} 8192 0;
  whole = length-replicate {A = ℕ} 8000 65;
}

send_next_data_overrun_example :
    (io' : Io Net) × (send_next_data system 1
        (io_of [] (resting none (transfer large_transfer ∷ []) client_end))
      ≡ some (raised overrun io'))
    × (io'.net
        ≡ write_out
            (arrive [])
            (header_bytes (header_of system (first_of system large_transfer) client_end)))
send_next_data_overrun_example =
    send_next_data_overrun system 0 (io_of [] client_end) large_transfer [] client_end _
      large_transfer-Ready refl (omega arith) refl
