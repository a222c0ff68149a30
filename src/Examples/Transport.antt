-- ===== src/Examples/Transport.antt =====
-- Runs of the transport: buffers of cbcc-util/cbcc_buffer.c and the loops around them.
use chroot_cbccd.Base.{
  ℕ, ◌+◌, ◌^◌, ◌<◌, ◌≤◌, ◌≡◌, refl, true, Option, none, some, List, [], ◌∷◌, map, length, replicate,
  length-replicate, arith, Status, success, Text, codes, NoNul,
}
use chroot_cbccd.Buffer.{
  Buffer, BufferList, fits_in, is_first, is_later, parse_buffer, get_buffer_by_sock, find_sock,
}
use chroot_cbccd.Buffer.Parse.{Holds, Parsed, type_word, parse_buffer-total, parse_buffer-short}
use chroot_cbccd.Inbound.{receive, receive_all}
use chroot_cbccd.Inbound.Entry.{IsSound, held}
use chroot_cbccd.Inbound.Refine.{Received, receive-Received, arrive}
use chroot_cbccd.Outbound.{
  tlv_count, max_payload, cbcc_tlv_buffer_build, wire, Answer, sent, would_block, send_tlv_buffer,
}
use chroot_cbccd.Outbound.EndToEnd.{message_arrives}
use chroot_cbccd.Outbound.RoundTrip.{Delivered, receive_all-build}
use chroot_cbccd.Outbound.Sending.{TakesWhole}

abbrev no_buffers : BufferList
no_buffers = record { count = 0; buffers = [] }

no_buffers-IsSound : IsSound no_buffers
no_buffers-IsSound = record { valid = record { counted = refl; distinct = tt }; holds = tt }

no_buffers-held : (s : ℕ) → held no_buffers s ≡ []
unfolding held get_buffer_by_sock
no_buffers-held s = refl

-- Two clients: socket 5 has gathered two bytes, socket 7 none.
abbrev two_clients : BufferList
two_clients = record {
  count = 2;
  buffers =
      record {
        sock = 5;
        total_len = 2;
        type = 1;
        len = 2;
        buffer = some (record { size = 3; bytes = 104 ∷ 105 ∷ [] });
      }
      ∷ record { sock = 7; total_len = 0; type = 0; len = 0; buffer = none }
      ∷ [];
}

two_clients-IsSound : IsSound two_clients
unfolding find_sock
two_clients-IsSound = record {
  valid = record { counted = refl; distinct = (refl, (refl, tt)) };
  holds = (record { total = refl; content = refl }, (record { total = refl; content = refl }, tt));
}

two_clients-held : held two_clients 5 ≡ 104 ∷ 105 ∷ []
unfolding held get_buffer_by_sock find_sock
two_clients-held = refl

abbrev zeros : ℕ → List ℕ
zeros i = replicate 1016 0

zeros-full : (i : ℕ) → length (zeros i) ≡ max_payload
zeros-full i = length-replicate {A = ℕ} 1016 0

abbrev hello : Text
hello = codes "hello"

hello-length : length hello ≡ 5
hello-length = refl

hello-NoNul : NoNul hello
hello-NoNul = (omega arith, (omega arith, (omega arith, (omega arith, (omega arith, tt)))))

hello-count : tlv_count (length hello) ≡ 1
unfolding tlv_count
hello-count = refl

-- The socket first refuses to block, then takes the frame.
abbrev patient : List Answer
patient = would_block ∷ sent 1024 ∷ []

patient-TakesWhole : TakesWhole (tlv_count (length hello)) patient
patient-TakesWhole = rw hello-count (omega arith, tt)

two_clients-empty : held two_clients 7 ≡ []
unfolding held get_buffer_by_sock find_sock
two_clients-empty = refl

message_arrives_example :
    (chunks : List (List ℕ)) × (m : BufferList) × (send_tlv_buffer
        (cbcc_tlv_buffer_build true zeros hello).tlv_buffer_list
        patient
      ≡ some (success, chunks))
    × (receive_all two_clients 7 chunks ≡ some (m, hello ∷ []))
    × Delivered two_clients 7 m
message_arrives_example =
    message_arrives zeros patient two_clients 7 hello zeros-full patient-TakesWhole
      two_clients-IsSound two_clients-empty (omega (arith, hello-length))
      (omega (arith, hello-length)) hello-NoNul

-- The last frame of the message of socket 5.
abbrev last_frame : List ℕ
last_frame = 3 ∷ 0 ∷ 0 ∷ 0 ∷ 1 ∷ 0 ∷ 0 ∷ 0 ∷ 33 ∷ []

receive-Received_example :
    (r : BufferList × Option Text) × (receive two_clients 5 last_frame 9 ≡ some r)
    × Received two_clients 5 (arrive (held two_clients 5) last_frame 9) r
receive-Received_example =
    receive-Received two_clients 5 last_frame 9 two_clients-IsSound (omega arith) long enough
  where
    long : 9 ≤ length last_frame
    long = omega arith

    enough : length (held two_clients 5) + 9 < 2 ^ 31
    enough = rw two_clients-held (omega arith)

receive_all-build_example :
    (m : BufferList) × (receive_all no_buffers 5
        (map wire (cbcc_tlv_buffer_build true zeros hello).tlv_buffer_list)
      ≡ some (m, hello ∷ []))
    × Delivered no_buffers 5 m
receive_all-build_example =
    receive_all-build zeros no_buffers 5 hello zeros-full no_buffers-IsSound (no_buffers-held 5)
      (omega (arith, hello-length)) (omega (arith, hello-length)) hello-NoNul

abbrev fresh : Buffer
fresh = record { sock = 7; total_len = 0; type = 0; len = 0; buffer = none }

fresh-Holds : Holds fresh []
fresh-Holds = record { total = refl; content = refl }

-- A frame that is a whole message of two bytes.
abbrev whole_frame : List ℕ
whole_frame = 0 ∷ 0 ∷ 0 ∷ 0 ∷ 2 ∷ 0 ∷ 0 ∷ 0 ∷ 104 ∷ 105 ∷ []

parse_buffer-total_example :
    (r : Status × Buffer) × (parse_buffer whole_frame 10 fresh ≡ some r)
    × Parsed fresh [] whole_frame 10 r
parse_buffer-total_example =
    parse_buffer-total fresh [] whole_frame 10 fresh-Holds (omega arith) (omega arith) (omega arith)

-- Four bytes arrive in an array of nine whose other bytes say that 255 bytes follow.
abbrev cut_frame : List ℕ
cut_frame = 0 ∷ 0 ∷ 0 ∷ 0 ∷ 255 ∷ 0 ∷ 0 ∷ 0 ∷ 1 ∷ []

cut_frame-fits : fits_in (type_word cut_frame) 0 ≡ true
unfolding fits_in is_first is_later
cut_frame-fits = refl

parse_buffer-short_example : parse_buffer cut_frame 4 fresh ≡ none
parse_buffer-short_example =
    parse_buffer-short fresh [] cut_frame 4 fresh-Holds (omega arith) (omega arith) cut_frame-fits
      (omega arith) (omega arith)
