-- ===== src/Kermit/Reply.antt =====
-- common/cmd_boot.c: the packets that `send_ack`, `send_nack` and `handle_send_packet` send.
use armboot.Prelude.{
  ℕ, ◌≢◌, ◌+◌, ◌<◌, ◌≤◌, ◌≡◌, refl, ap, false, List, [], ◌∷◌, ◌++◌, arith, append-nil, ◌==◌, ==_ne,
  if◌then◌else◌, length,
}
use armboot.CString.{IsText}
use armboot.Kermit.{Peer, Link, tochar, start_char}
use armboot.Kermit.Answer.{
  c_string, chk1, send_pad, s1_sendpacket, ack_type, nack_type, send_ack, send_nack, maxl,
  default_peer, processed, handle_send_packet,
}
use armboot.Kermit.Frame.{AreBytes, body, own_check}

-- The end of line, which is not sent if it is NUL.
abbrev pub ended : ℕ → List ℕ
ended eol = if eol == 0 then [] else eol ∷ []

-- A packet behind the padding that the peer wants.
abbrev pub reply : Peer → ℕ → ℕ → List ℕ → List ℕ
reply p n kind out =
    send_pad p.pad_count p.pad_char
    ++ start_char ∷ (body n kind out ++ own_check n kind out ∷ ended p.eol)

c_string-text : (xs rest : List ℕ) → IsText xs → c_string (xs ++ rest) ≡ xs ++ c_string rest
unfolding c_string
c_string-text [] rest h = refl
c_string-text (x ∷ xs) rest h = rw (==_ne x 0 h.0) (ap (◌∷◌ x) (c_string-text xs rest h.1))

AreBytes-IsText : (xs : List ℕ) → AreBytes xs → IsText xs
AreBytes-IsText [] h = tt
AreBytes-IsText (x ∷ xs) h = (λ e. absurd (omega (arith, e)), AreBytes-IsText xs h.1)

body-IsText :
    (n kind : ℕ) (out : List ℕ)
    → n < 224
    → kind ≢ 0
    → length out < 221
    → AreBytes out
    → IsText (body n kind out)
body-IsText n kind out hn hk hl ho =
    (λ e. absurd (omega (arith, e)), (λ e. absurd (omega (arith, e)), (hk, AreBytes-IsText out ho)))

chk1-body :
    (n kind : ℕ) (out : List ℕ)
    → n < 224
    → kind ≢ 0
    → length out < 221
    → AreBytes out
    → tochar (chk1 (body n kind out ++ 0 ∷ [])) ≡ own_check n kind out
unfolding chk1 c_string
chk1-body n kind out hn hk hl ho =
    rw (c_string-text (body n kind out) (0 ∷ []) (body-IsText n kind out hn hk hl ho), append-nil)

c_string-ended : (eol : ℕ) → c_string (eol ∷ 0 ∷ []) ≡ ended eol
unfolding c_string
c_string-ended eol = ground arith

-- The bytes of a packet that reach the line.
packet_sent :
    (n kind eol : ℕ) (out : List ℕ)
    → n < 224
    → kind ≢ 0
    → length out < 221
    → AreBytes out
    → c_string (start_char ∷ (body n kind out ++ own_check n kind out ∷ eol ∷ 0 ∷ []))
      ≡ start_char ∷ (body n kind out ++ own_check n kind out ∷ ended eol)
unfolding c_string
packet_sent n kind eol out hn hk hl ho =
    let c = own_check n kind out in
    let hc : (c == 0) ≡ false = ==_ne c 0 (λ e. absurd (omega (arith, e))) in
    rw (c_string-text (body n kind out) (c ∷ eol ∷ 0 ∷ []) (body-IsText n kind out hn hk hl ho))
      (rw hc (rw (c_string-ended eol) refl))

abbrev pub send : List ℕ → Link → Link
send bytes l = record l { output = l.output ++ bytes }

pub send_ack-reply :
    (n : ℕ) (l : Link) → n < 224 → send_ack n l ≡ send (reply l.peer n ack_type []) l
unfolding send_ack s1_sendpacket
send_ack-reply n l h =
    rw (chk1-body n ack_type [] h (λ e. absurd (omega (arith, e))) (omega arith) tt) (
      rw (packet_sent n ack_type l.peer.eol [] h (λ e. absurd (omega (arith, e))) (omega arith) tt)
        refl)

pub send_nack-reply :
    (n : ℕ) (l : Link) → n < 224 → send_nack n l ≡ send (reply l.peer n nack_type []) l
unfolding send_nack s1_sendpacket
send_nack-reply n l h =
    rw (chk1-body n nack_type [] h (λ e. absurd (omega (arith, e))) (omega arith) tt) (
      rw (packet_sent n nack_type l.peer.eol [] h (λ e. absurd (omega (arith, e))) (omega arith) tt)
        refl)

maxl-AreBytes :
    (parms : List ℕ) (p : Peer) → AreBytes (maxl parms p).1 × (length (maxl parms p).1 ≤ 13)
unfolding maxl
maxl-AreBytes [] p = omega arith
maxl-AreBytes (_ ∷ []) p = omega arith
maxl-AreBytes (_ ∷ _ ∷ []) p = omega arith
maxl-AreBytes (_ ∷ _ ∷ _ ∷ []) p = omega arith
maxl-AreBytes (_ ∷ _ ∷ _ ∷ _ ∷ []) p = omega arith
maxl-AreBytes (_ ∷ _ ∷ _ ∷ _ ∷ _ ∷ []) p = omega arith
maxl-AreBytes (_ ∷ _ ∷ _ ∷ _ ∷ _ ∷ _ ∷ []) p = omega arith
maxl-AreBytes (_ ∷ _ ∷ _ ∷ _ ∷ _ ∷ _ ∷ _ ∷ []) p = omega arith
maxl-AreBytes (_ ∷ _ ∷ _ ∷ _ ∷ _ ∷ _ ∷ _ ∷ _ ∷ []) p = omega arith
maxl-AreBytes (_ ∷ _ ∷ _ ∷ _ ∷ _ ∷ _ ∷ _ ∷ _ ∷ _ ∷ []) p = omega arith
maxl-AreBytes (_ ∷ _ ∷ _ ∷ _ ∷ _ ∷ _ ∷ _ ∷ _ ∷ _ ∷ _ ∷ _) p = omega arith

-- What the parameters of a send-init packet make of the peer, and what is answered to them.
abbrev pub negotiated : List ℕ → Peer
negotiated parms = (maxl (processed parms) default_peer).0

abbrev pub answer : List ℕ → List ℕ
answer parms = (maxl (processed parms) default_peer).1

-- A send-init packet with any number below 224 and any parameters is answered, behind the padding that
-- the peer wants, by an ACK packet whose length field, check byte and end are those of the protocol;
-- the peer's parameters are set; the bytes of the answer are printable and fit the 24 of `a_b`.
pub handle_send_packet-reply :
    (n : ℕ) (l : Link)
    → n < 224
    → (handle_send_packet n l
        ≡ send
            (reply (negotiated l.parms) n ack_type (answer l.parms))
            (record l { peer = negotiated l.parms }))
      × AreBytes (answer l.parms)
      × (length (answer l.parms) + 7 ≤ 24)
unfolding handle_send_packet s1_sendpacket
handle_send_packet-reply n l h =
    let parms = processed l.parms in
    let bytes = maxl-AreBytes parms default_peer in
    let small : length (answer l.parms) < 221 = omega (arith, bytes.1) in
    let letter : ack_type ≢ 0 = λ e. absurd (omega (arith, e)) in
    (
      rw (chk1-body n ack_type (answer l.parms) h letter small bytes.0) (
          rw
            (packet_sent n ack_type (negotiated l.parms).eol (answer l.parms) h letter small
              bytes.0)
            refl),
      bytes.0,
      omega (arith, bytes.1),
    )
