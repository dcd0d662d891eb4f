-- ===== src/Kermit/Complete.antt =====
-- common/cmd_boot.c: `load_serial_bin` from its first packet to the one that ends the transmission.
use armboot.Prelude.{
  ℕ, suc, ◌+◌, ◌-◌, ◌^◌, ◌<◌, ◌≤◌, ◌≡◌, ◌∙◌, refl, ap, List, [], ◌∷◌, ◌++◌, arith, append_assoc,
  length, length-append,
}
use armboot.Kermit.{Link, end_char}
use armboot.Kermit.Answer.{ack_type, default_peer}
use armboot.Kermit.Receive.{break_type, main_loop, finished, initial, load_serial_bin}
use armboot.Kermit.Frame.{frame, sealed, own_check}
use armboot.Kermit.Reply.{reply}
use armboot.Kermit.Stage.{Holds}
use armboot.Kermit.Session.{
  Attempt, Delivery, kind_of, payload_of, IsPayload, AreAttempts, next_number, AreDeliveries,
  number_after, attempts_wire, wire, content, nacks, replies, last_peer, packets,
}
use armboot.Kermit.Round.{round-break}
use armboot.Kermit.Round.Expected.{Expects}
use armboot.Kermit.Download.{attempts_refused, deliveries_taken, number_after-lt}

length-sealed :
    (check n kind : ℕ) (payload rest : List ℕ)
    → suc (length rest) ≤ length (sealed check n kind payload rest)
length-sealed check n kind payload rest =
    omega (arith, length-append payload (check ∷ end_char ∷ rest))

length-attempts_wire :
    (attempts : List Attempt) (n : ℕ) (tail : List ℕ)
    → length attempts + length tail ≤ length (attempts_wire n attempts tail)
unfolding attempts_wire
length-attempts_wire [] n tail = omega arith
length-attempts_wire (a ∷ rest) n tail = omega (
  arith,
  length-attempts_wire rest n tail,
  length-sealed a.check n a.kind a.payload (attempts_wire n rest tail),
)

length-wire :
    (ds : List Delivery) (n : ℕ) (tail : List ℕ)
    → packets ds + length tail ≤ length (wire n ds tail)
unfolding wire packets
length-wire [] n tail = omega arith
length-wire (d ∷ ds) n tail =
    let rest = wire (next_number n) ds tail in
    let kind = kind_of d.message in
    let payload = payload_of d.message in
    omega (
      arith,
      length-wire ds (next_number n) tail,
      length-sealed (own_check n kind payload) n kind payload rest,
      length-attempts_wire d.attempts n (frame n kind payload rest),
    )

-- What the sender puts on the line: the packets of the download, then the one that ends it, behind
-- damaged attempts of its own.
abbrev pub whole_wire : List Delivery → List Attempt → List ℕ → List ℕ → List ℕ
whole_wire ds attempts payload rest =
    let n = number_after 0 ds in
    wire 0 ds (attempts_wire n attempts (frame n break_type payload rest))

-- What the sender hears.
abbrev pub whole_answer : List Delivery → List Attempt → List ℕ
whole_answer ds attempts =
    let n = number_after 0 ds in
    let p = last_peer default_peer ds in
    replies default_peer 0 ds ++ (nacks p n attempts ++ reply p n ack_type [])

initial-Expects :
    (offset : ℕ) (input : List ℕ) (memory : ℕ → ℕ)
    → Expects (initial offset input memory) 0 offset []
unfolding initial
initial-Expects offset input memory = record {
  quote = refl;
  has = record { state = refl; addr = omega arith; escape = refl; holds = tt };
}

-- A sender puts a file on the line, in packets of the protocol that are numbered from 0 on: its
-- parameters with '#' as the quote, any notices, and pieces of the file with its control characters
-- escaped, then a break packet. Before each packet come any number of damaged attempts at it, with
-- its number, a wrong check byte and any type and payload. If the file, and the longest payload behind
-- it, end below 2 ^ 32, then the download comes to an end: the memory holds the file from the offset
-- on, the pointer stands behind it, what comes behind the break packet is not read, and the sender
-- hears a NAK for each damaged attempt and an ACK, or the negotiated parameters, for each packet.
pub load_serial_bin-whole_wire :
    (offset : ℕ) (ds : List Delivery) (attempts : List Attempt) (payload rest : List ℕ)
    (memory : ℕ → ℕ)
    → AreDeliveries 0 ds
    → AreAttempts (number_after 0 ds) attempts
    → IsPayload payload
    → offset + length (content ds) + 221 ≤ 2 ^ 32
    → (l : Link) × (load_serial_bin offset (whole_wire ds attempts payload rest) memory
        ≡ finished l)
      × Holds l.sink.memory offset (content ds)
      × (l.sink.os_addr ≡ offset + length (content ds))
      × (l.output ≡ whole_answer ds attempts)
      × (l.input ≡ rest)
unfolding load_serial_bin initial
load_serial_bin-whole_wire offset ds attempts payload rest memory hd ha hp lt =
    let n = number_after 0 ds in
    let last = frame n break_type payload rest in
    let tail = attempts_wire n attempts last in
    let input = whole_wire ds attempts payload rest in
    let spare = length input - (packets ds + length attempts) in
    let b0 = length-wire ds 0 tail in
    let b1 = length-attempts_wire attempts n last in
    let l0 = initial offset input memory in
    let enough : suc (length input) ≡ packets ds + (length attempts + suc spare) =
      omega (arith, b0, b1) in
    let hn : n < 64 = number_after-lt ds 0 (omega arith) in
    let (la, na, ea, ja, ra) =
      deliveries_taken ds [] tail 0 offset [] (length attempts + suc spare) l0 tt (omega arith)
        (omega arith) hd (initial-Expects offset input memory) in
    let (lb, nb, eb, jb, rb) =
      attempts_refused attempts na last n offset (content ds) (suc spare) la ja (omega arith) lt ha
        ra.expects in
    let (lc, ec, sc) =
      round-break nb n offset (content ds) rest spare lb jb (omega arith) rb.expects payload hp.0
        hp.1 in
    (
      record lc { input = rest },
      ap (λ f. main_loop f l0) enough ∙ (ea ∙ (eb ∙ ec)),
      sc.has.holds,
      sc.has.addr,
      sc.sent
          ∙ (rw (rb.sent, rb.agreed, ra.sent, ra.agreed)
              (append_assoc (replies default_peer 0 ds)
                (nacks (last_peer default_peer ds) n attempts)
                (reply (last_peer default_peer ds) n ack_type []))),
      refl,
    )
