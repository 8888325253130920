-- ===== src/Request/Tests.antt =====
-- The theorems on transfers, on a buffer of 20000 bytes, which takes three messages.
use hex.Base.{
  ℕ, ◌+◌, ◌-◌, ◌%◌, ◌≡◌, refl, none, some, List, [], ◌∷◌, arith, replicate, length-replicate, ap,
  take, drop, false, ltb, if◌then◌else◌, ℤ, pos, negsuc,
}
use hex.Protocol.{Bytes}
use hex.Request.{ByteOrder, IsByteOrder, TransferRequest, Segment, segments}
use hex.Request.Bodies.{Ready, payloads, AllTold}
use hex.Request.File.{
  FileSystem, Whence, seek_set, seek_end, done, FileTransferRequest, file_transfer_request,
  file_segments, file_data_to_send,
}
use hex.Request.File.Reads.{IsFile}
use hex.Request.File.Whole.{file_segments-rebuilt}
use hex.Request.File.Misplaced.{file_segments-misplaced}
use hex.Request.File.Messages.{rebuilt, announced, padded}
use hex.Request.File.Broken.{AtEnd, file_segments_endless, file_segments_large}
use hex.Request.Segments.{segments-payloads}

-- a big-endian machine
abbrev same_order : ByteOrder
same_order = record { htonl = λ n. n; htons = λ n. n; ntohl = λ n. n; ntohs = λ n. n }

abbrev transfer : TransferRequest
transfer = record {
  l2_payload_length = 20000;
  nb_payload_bytes_sent = 0;
  transfer_id = 1;
  l2_action = 2;
  source_buffer = replicate 20000 65;
  msg = replicate 8192 0;
}

transfer-Ready : Ready transfer
transfer-Ready = record {
  room = length-replicate {A = ℕ} 8192 0;
  whole = length-replicate {A = ℕ} 20000 65;
}

segments-payloads_example :
    (ss : List Segment) × (segments same_order 20001 transfer ≡ some ss)
    × (payloads ss ≡ replicate 20000 65)
    × AllTold ss
segments-payloads_example =
    segments-payloads same_order 20001 transfer transfer-Ready refl (omega arith)

-- a machine whose htonl and htons keep the value's last bytes
abbrev wrapping_order : ByteOrder
wrapping_order = record {
  htonl = λ n. n % 4294967296;
  htons = λ n. n % 65536;
  ntohl = λ n. n;
  ntohs = λ n. n;
}

wrapping_order-IsByteOrder : IsByteOrder wrapping_order
wrapping_order-IsByteOrder = record {
  htonl_bound = λ v. omega arith;
  htons_bound = λ v. omega arith;
  ntohl-htonl = λ v l. omega arith;
  ntohs-htons = λ v l. omega arith;
}

-- a system with one file, of `size` bytes, whose state is the position; a read returns two bytes at
-- most
abbrev two_at_most : (size n w : ℕ) → ℕ
two_at_most size n w =
    let room = if ltb n 2 then n else 2 in if ltb (size - w) room then size - w else room

abbrev seek_to : (size : ℕ) → ℤ → Whence → ℕ
seek_to size (pos k) seek_set = k
seek_to size (negsuc k) seek_set = 0
seek_to size z seek_end = size

abbrev one_file : (size : ℕ) → Bytes → FileSystem ℕ ℕ
one_file size contents = record {
  fopen = λ w name. (some 7, 0);
  fclose = λ w f. (false, w);
  feof = λ w f. false;
  ftell = λ w f. pos w;
  fseek = λ w f z whence. seek_to size z whence;
  read = λ w f n. let k = two_at_most size n w in (some (take k (drop w contents)), w + k);
}

abbrev five_bytes : Bytes
five_bytes = 10 ∷ 20 ∷ 30 ∷ 40 ∷ 50 ∷ []

one_file-IsFile : IsFile (one_file 5 five_bytes) 7 five_bytes (λ w. w) (λ w. w)
one_file-IsFile = record {
  tell = λ w. refl;
  seek_start = λ w k. refl;
  seek_last = λ w. refl;
  reading = λ w n p l. record {
    amount = two_at_most 5 n w;
    state = w + two_at_most 5 n w;
    returned = refl;
    some_byte = λ q. ground arith;
    fits = ground arith;
    within = ground arith;
    advanced = refl;
  };
}

file_segments-rebuilt_example :
    (r : FileTransferRequest ℕ) × (w2 : ℕ) × (file_transfer_request
        (one_file 5 five_bytes)
        (97 ∷ [])
        1
        2
        (replicate 8192 0)
        9
      ≡ done r w2)
    × (r.l2_action ≡ 0)
    × (s : Segment) × (ss : List Segment) × (w' : ℕ) × (file_segments
          (one_file 5 five_bytes)
          wrapping_order
          6
          r
          w2
        ≡ some (done (s ∷ ss) w'))
    × (rebuilt wrapping_order [] (s ∷ ss) ≡ some five_bytes)
    × (announced wrapping_order s ≡ (5, padded (97 ∷ [])))
file_segments-rebuilt_example =
    file_segments-rebuilt (one_file 5 five_bytes) wrapping_order wrapping_order-IsByteOrder 7
      five_bytes (λ w. w) (λ w. w) one_file-IsFile (omega arith) 9 0 (97 ∷ []) 1 2 6
      (replicate 8192 0) refl refl refl (length-replicate {A = ℕ} 8192 0) (omega arith)
      (omega arith)

-- a system whose fseek reads the file into the buffer of the FILE, so that the descriptor is at the
-- end; the state is the position of the FILE and that of its descriptor
abbrev buffered_file : (size : ℕ) → Bytes → FileSystem (ℕ × ℕ) ℕ
buffered_file size contents = record {
  fopen = λ w name. (some 7, (0, 0));
  fclose = λ w f. (false, w);
  feof = λ w f. false;
  ftell = λ w f. pos w.0;
  fseek = λ w f z whence. (seek_to size z whence, size);
  read = λ w f n.
      let k = two_at_most size n w.1 in (some (take k (drop w.1 contents)), (w.0, w.1 + k));
}

buffered_file-IsFile :
    IsFile (buffered_file 5 five_bytes) 7 five_bytes (λ (w : ℕ × ℕ). w.0) (λ (w : ℕ × ℕ). w.1)
buffered_file-IsFile = record {
  tell = λ w. refl;
  seek_start = λ w k. refl;
  seek_last = λ w. refl;
  reading = λ w n p l. record {
    amount = two_at_most 5 n w.1;
    state = (w.0, w.1 + two_at_most 5 n w.1);
    returned = refl;
    some_byte = λ q. ground arith;
    fits = ground arith;
    within = ground arith;
    advanced = refl;
  };
}

file_segments-misplaced_example :
    (r : FileTransferRequest ℕ) × (w2 : ℕ × ℕ) × (file_transfer_request
        (buffered_file 5 five_bytes)
        (97 ∷ [])
        1
        2
        (replicate 8192 0)
        (0, 0)
      ≡ done r w2)
    × (file_segments (buffered_file 5 five_bytes) wrapping_order 1000 r w2 ≡ none)
file_segments-misplaced_example =
    file_segments-misplaced (buffered_file 5 five_bytes) wrapping_order wrapping_order-IsByteOrder 7
      five_bytes (λ w. w.0) (λ w. w.1) buffered_file-IsFile (omega arith) 5 (omega arith) (0, 0)
      (0, 0) (97 ∷ []) 1 2 1000 (replicate 8192 0) refl refl refl (omega arith)
      (length-replicate {A = ℕ} 8192 0)

-- a request that has sent four bytes of nine from a file that now holds four
abbrev cut_transfer : FileTransferRequest ℕ
cut_transfer = record {
  l2_payload_length = pos 9;
  nb_payload_bytes_sent = 4;
  transfer_id = 1;
  l2_action = 2;
  file = 7;
  file_name = 97 ∷ [];
  msg = replicate 8192 0;
}

one_file-AtEnd : AtEnd (one_file 0 []) wrapping_order 7 (λ w. w ≡ 4)
one_file-AtEnd = record {
  nothing = λ w n h.
      let none_left : two_at_most 0 n w ≡ 0 = ground arith in
      (
        w + two_at_most 0 n w,
        ap (λ k. (some (take k (drop w [])), w + two_at_most 0 n w)) none_left,
        rw (none_left) (omega arith),
      );
}

file_segments_endless_example :
    file_segments (one_file 0 []) wrapping_order 1000 cut_transfer 4 ≡ none
unfolding file_data_to_send
file_segments_endless_example =
    file_segments_endless (one_file 0 []) wrapping_order 7 (λ w. w ≡ 4) one_file-AtEnd 1000
      cut_transfer 4 refl refl refl

file_segments_large_example :
    (r : FileTransferRequest ℕ) × (w2 : ℕ) × (file_transfer_request
        (one_file 3000000000 [])
        (97 ∷ [])
        1
        2
        []
        9
      ≡ done r w2)
    × (file_segments (one_file 3000000000 []) wrapping_order 1 r w2 ≡ some (done [] w2))
file_segments_large_example =
    file_segments_large (one_file 3000000000 []) wrapping_order 7 9 0 (97 ∷ []) 1 2 0 3000000000 []
      (record { size_told = λ w. refl }) refl (omega arith) (omega arith)
