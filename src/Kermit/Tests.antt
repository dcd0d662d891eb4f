-- ===== src/Kermit/Tests.antt =====
-- The download of `loadb` on concrete packets, and the theorems at them.
use armboot.Prelude.{ℕ, ◌+◌, ◌<◌, ◌≤◌, ◌≡◌, ◌⊎◌, refl, List, [], ◌∷◌, ◌++◌, arith, length}
use armboot.Kermit.{Link, ktrans, start_char}
use armboot.Kermit.Answer.{ack_type, nack_type, maxl, handle_send_packet, total}
use armboot.Kermit.Receive.{
  data_type, Outcome, finished, waiting, main_loop, load_serial_bin, initial,
}
use armboot.Kermit.Frame.{AreBytes, frame}
use armboot.Kermit.Escape.{encode}
use armboot.Kermit.Reply.{reply, send, negotiated, answer, handle_send_packet-reply}
use armboot.Kermit.Stage.{Holds, Has}
use armboot.Kermit.Taken.{kept}
use armboot.Kermit.Round.Expected.{Expects}
use armboot.Kermit.Session.{parameters, piece, notice, Delivery, number_after, content, wire}
use armboot.Kermit.Complete.{whole_wire, whole_answer, load_serial_bin-whole_wire}
use armboot.Kermit.Region.Loop.{load_serial_bin_region}
use armboot.Kermit.Rollback.{main_loop-lost_piece}

escapes :
    (encode (0 ∷ 0x23 ∷ 65 ∷ 127 ∷ 255 ∷ [])
      ≡ 0x23 ∷ 64 ∷ 0x23 ∷ 0x23 ∷ 65 ∷ 0x23 ∷ 63 ∷ 0x23 ∷ 191 ∷ [])
    × (ktrans 64 ≡ 0)
    × (ktrans 63 ≡ 127)
    × (ktrans 0x23 ≡ 0x23)
unfolding encode ktrans
escapes = (refl, refl, refl, refl)

-- The parameters of a usual sender, a file header, two bytes of which the first attempt is damaged,
-- and the end of the file.
abbrev usual : List ℕ
usual = b'~' ∷ b'*' ∷ b' ' ∷ b'@' ∷ b'-' ∷ b'#' ∷ b'N' ∷ b'1' ∷ []

abbrev download : List Delivery
download =
    record { attempts = []; message = parameters usual }
    ∷ record { attempts = []; message = notice b'F' (b'a' ∷ []) }
    ∷ record {
      attempts = record { check = b'!'; kind = b'D'; payload = b'#' ∷ b'A' ∷ b'x' ∷ [] } ∷ [];
      message = piece (7 ∷ 200 ∷ []);
    }
    ∷ record { attempts = []; message = notice b'Z' [] }
    ∷ []

abbrev blank : ℕ → ℕ
blank a = 0

abbrev memory_of : Outcome → ℕ → ℕ
memory_of (finished l) a = l.sink.memory a
memory_of (waiting l) a = l.sink.memory a
memory_of Outcome.no_fuel a = 0

load_serial_bin-whole_wire_example :
    (l : Link) × (load_serial_bin 0x8000 (whole_wire download [] [] []) blank ≡ finished l)
    × Holds l.sink.memory 0x8000 (content download)
    × (l.sink.os_addr ≡ 0x8000 + length (content download))
    × (l.output ≡ whole_answer download [])
    × (l.input ≡ [])
unfolding content number_after total encode kept maxl
load_serial_bin-whole_wire_example =
    load_serial_bin-whole_wire 0x8000 download [] [] [] blank (omega arith) tt (tt, omega arith)
      (omega arith)

-- The bytes arrive, by evaluation.
arrived :
    (memory_of (load_serial_bin 0x8000 (whole_wire download [] [] []) blank) 0x8000 ≡ 7)
    × (memory_of (load_serial_bin 0x8000 (whole_wire download [] [] []) blank) 0x8001 ≡ 200)
    × (memory_of (load_serial_bin 0x8000 (whole_wire download [] [] []) blank) 0x8002 ≡ 0)
unfolding load_serial_bin wire encode number_after total
arrived = (refl, refl, refl)

abbrev half_packet : List ℕ
half_packet = 1 ∷ 0x80 ∷ []

load_serial_bin_region_example :
    (l : Link) × ((load_serial_bin 0x100 half_packet blank ≡ finished l)
      ⊎ ((load_serial_bin 0x100 half_packet blank ≡ waiting l) × (l.input ≡ [])))
    × (0x100 ≤ l.sink.os_addr)
    × (l.sink.os_addr ≤ 0x100 + length half_packet)
    × ((a : ℕ) → (a < 0x100) ⊎ (0x100 + length half_packet ≤ a) → l.sink.memory a ≡ blank a)
load_serial_bin_region_example = load_serial_bin_region 0x100 half_packet blank (omega arith)

abbrev begun : Link
begun = initial 0x8000 [] blank

begun-Expects : Expects begun 3 0x8000 []
unfolding initial
begun-Expects = record {
  quote = refl;
  has = record { state = refl; addr = omega arith; escape = refl; holds = tt };
}

main_loop-lost_piece_example :
    (l' : Link) × (main_loop (3 + 5) (record begun {
      input =
          frame 3 data_type
            (encode (10 ∷ 20 ∷ []))
            (start_char ∷ 7 ∷ frame 4 data_type (encode (30 ∷ [])) []);
    })
      ≡ main_loop 5 (record l' { input = [] }))
    × Has l'.sink 0x8000 ([] ++ 30 ∷ [])
    × (l'.output
        ≡ begun.output
          ++ (reply begun.peer 3 ack_type []
              ++ (reply begun.peer 3 nack_type [] ++ reply begun.peer 4 ack_type [])))
unfolding encode
main_loop-lost_piece_example =
    main_loop-lost_piece 3 0x8000 7 [] (10 ∷ 20 ∷ []) (30 ∷ []) [] 5 begun (omega arith)
      (omega arith) (omega arith) (omega arith) (omega arith) (omega arith) (omega arith)
      begun-Expects

handle_send_packet-reply_example :
    (handle_send_packet 0 begun
      ≡ send
          (reply (negotiated begun.parms) 0 ack_type (answer begun.parms))
          (record begun { peer = negotiated begun.parms }))
    × AreBytes (answer begun.parms)
    × (length (answer begun.parms) + 7 ≤ 24)
handle_send_packet-reply_example = handle_send_packet-reply 0 begun (omega arith)
