-- ===== src/Kermit/Answer.antt =====
-- common/cmd_boot.c: what `loadb` sends back. `a_b` is the list of its bytes up to the last one
-- written; nothing behind its NUL is read.
use armboot.Prelude.{
  ℕ, zero, suc, ◌+◌, ◌/◌, ◌%◌, List, [], ◌∷◌, ◌++◌, ◌==◌, if◌then◌else◌, length, take,
}
use armboot.Kermit.{Peer, Link, tochar, untochar, ktrans, start_char, end_char, k_escape}

-- A C string up to its NUL.
unfoldable pub c_string : List ℕ → List ℕ
c_string [] = []
c_string (c ∷ cs) = if c == 0 then [] else c ∷ c_string cs

unfoldable pub total : List ℕ → ℕ
total [] = 0
total (c ∷ cs) = c + total cs

-- The argument is the buffer from `buffer` on.
unfoldable pub chk1 : List ℕ → ℕ
unfolding c_string total
chk1 buffer = let t = total (c_string buffer) in (t + t / 64 % 4) % 64

-- while (count-- > 0) serial_putc(his_pad_char)
unfoldable pub send_pad : ℕ → ℕ → List ℕ
send_pad zero c = []
send_pad (suc k) c = c ∷ send_pad k c

unfoldable pub s1_sendpacket : List ℕ → Link → Link
unfolding send_pad c_string
s1_sendpacket packet l = record l {
  output = l.output ++ (send_pad l.peer.pad_count l.peer.pad_char ++ c_string packet);
}

-- ACK_TYPE and NACK_TYPE
abbrev pub ack_type : ℕ
ack_type = b'Y'

abbrev pub nack_type : ℕ
nack_type = b'N'

-- a_b[1], a_b[2], a_b[3] and the bytes from a_b[4] on
abbrev pub head : ℕ → ℕ → ℕ → List ℕ → List ℕ
head len n kind rest = tochar len ∷ tochar n ∷ kind ∷ rest

unfoldable pub send_ack : ℕ → Link → Link
unfolding s1_sendpacket chk1
send_ack n l =
    let check = tochar (chk1 (head 3 n ack_type (0 ∷ []))) in
    s1_sendpacket (start_char ∷ head 3 n ack_type (check ∷ l.peer.eol ∷ 0 ∷ [])) l

unfoldable pub send_nack : ℕ → Link → Link
unfolding s1_sendpacket chk1
send_nack n l =
    let check = tochar (chk1 (head 3 n nack_type (0 ∷ []))) in
    s1_sendpacket (start_char ∷ head 3 n nack_type (check ∷ l.peer.eol ∷ 0 ∷ [])) l

-- The loop `do … while (0)`, one function for each `if (bytes-- <= 0) break`. The list holds the
-- bytes left from the current place of `send_parms` on, and the result is a_b[4] and what follows.
abbrev Parms : Type 0
Parms = Peer × List ℕ

abbrev emit : ℕ → Parms → Parms
emit c (p, out) = (p, c ∷ out)

capas : List ℕ → Peer → Parms
capas [] p = (p, [])
capas (_ ∷ _) p = (p, tochar 2 ∷ tochar 0 ∷ tochar 94 ∷ tochar 94 ∷ [])

rept : List ℕ → Peer → Parms
rept [] p = (p, [])
rept (_ ∷ cs) p = emit b'N' (capas cs p)

chkt : List ℕ → Peer → Parms
chkt [] p = (p, [])
chkt (_ ∷ cs) p = emit b'1' (rept cs p)

qbin : List ℕ → Peer → Parms
qbin [] p = (p, [])
qbin (_ ∷ cs) p = emit b'N' (chkt cs p)

qctl : List ℕ → Peer → Parms
qctl [] p = (p, [])
qctl (c ∷ cs) p = emit b'#' (qbin cs (record p { quote = c }))

eol : List ℕ → Peer → Parms
eol [] p = (p, [])
eol (c ∷ cs) p = emit (tochar end_char) (qctl cs (record p { eol = untochar c }))

padc : List ℕ → Peer → Parms
padc [] p = (p, [])
padc (c ∷ cs) p = emit 0x40 (eol cs (record p { pad_char = ktrans c }))

npad : List ℕ → Peer → Parms
npad [] p = (p, [])
npad (c ∷ cs) p = emit (tochar 0) (padc cs (record p { pad_count = untochar c }))

time : List ℕ → Peer → Parms
time [] p = (p, [])
time (_ ∷ cs) p = emit (tochar 1) (npad cs p)

unfoldable pub maxl : List ℕ → Peer → Parms
unfolding capas rept chkt qbin qctl eol padc npad time ktrans
maxl [] p = (p, [])
maxl (_ ∷ cs) p = emit (tochar 94) (time cs p)

-- the protocol parameters that `k_recv` and `handle_send_packet` begin with
abbrev pub default_peer : Peer
default_peer = record { eol = end_char; pad_count = 0; pad_char = 0; quote = k_escape }

-- if (send_ptr == &send_parms[SEND_DATA_SIZE - 1]) --send_ptr
abbrev pub processed : List ℕ → List ℕ
processed parms = if length parms == 19 then take 18 parms else parms

unfoldable pub handle_send_packet : ℕ → Link → Link
unfolding maxl chk1 s1_sendpacket
handle_send_packet n l =
    let (p, out) = maxl (processed l.parms) default_peer in
    let len = length out + 3 in
    let check = tochar (chk1 (head len n ack_type (out ++ 0 ∷ []))) in
    s1_sendpacket (start_char ∷ head len n ack_type (out ++ check ∷ p.eol ∷ 0 ∷ []))
      (record l { peer = p })
