-- ===== src/Kermit/Frame.antt =====
-- common/cmd_boot.c: a packet of the Kermit protocol with the short length field, as `k_recv` takes
-- it in.
use armboot.Prelude.{
  ℕ, ◌≢◌, ◌+◌, ◌-◌, ◌<◌, ◌≤◌, ◌≡◌, ◌∙◌, refl, ap, List, [], ◌∷◌, ◌++◌, arith, le→ltb, ==_ne, length,
}
use armboot.Prelude.Int.{pos, sub_ℕ}
use armboot.Kermit.{
  Link, go, packet_error, M, ◌>>◌, tochar, untochar, start_char, end_char, serial_getc, get_checked,
  get_summed, block_check,
}
use armboot.Kermit.Answer.{total, head}
use armboot.Kermit.Receive.{
  wait_for_start, checkpoint, get_sequence, get_type, take_in, get_rest, get_check, get_end,
  begin_packet, get_body, get_packet,
}

-- Bytes that a packet may hold between its START_CHAR and its END_CHAR.
abbrev pub IsByte : ℕ → Type 0
IsByte c = (32 ≤ c) × (c < 256)

abbrev pub AreBytes : List ℕ → Type 0
AreBytes [] = Unit {0}
AreBytes (c ∷ cs) = IsByte c × AreBytes cs

-- What stands between two packets.
abbrev pub IsNoise : List ℕ → Type 0
IsNoise [] = Unit {0}
IsNoise (c ∷ cs) = (c ≢ start_char) × IsNoise cs

abbrev pub body : ℕ → ℕ → List ℕ → List ℕ
body n kind payload = head (length payload + 3) n kind payload

-- A packet with a given check byte, and with its own.
abbrev pub sealed : ℕ → ℕ → ℕ → List ℕ → List ℕ → List ℕ
sealed check n kind payload rest =
    start_char
    ∷ tochar (length payload + 3)
    ∷ tochar n
    ∷ kind
    ∷ (payload ++ check ∷ end_char ∷ rest)

abbrev pub own_check : ℕ → ℕ → List ℕ → ℕ
own_check n kind payload = block_check (total (body n kind payload))

abbrev pub frame : ℕ → ℕ → List ℕ → List ℕ → List ℕ
frame n kind payload rest = sealed (own_check n kind payload) n kind payload rest

abbrev pub at : List ℕ → ℕ → Link → Link
at i s l = record l { input = i; sum = s }

unfoldable pub taken : List ℕ → Link → Link
taken [] l = l
taken (c ∷ cs) l = taken cs (take_in c l)

-- The state behind the header of a packet.
abbrev pub opened : ℕ → ℕ → Link → Link
opened n kind l = record (checkpoint n (record l { parms = []; n = n })) { k_state = kind }

pub get_summed-at :
    (c : ℕ) (i : List ℕ) (s : ℕ) (l : Link)
    → 32 ≤ c
    → get_summed (at (c ∷ i) s l) ≡ go c (at i (s + c) l)
unfolding get_summed get_checked serial_getc
get_summed-at c i s l h = rw (le→ltb c 32 h)

take_in-at : (c : ℕ) (i : List ℕ) (s : ℕ) (l : Link) → take_in c (at i s l) ≡ at i s (take_in c l)
unfolding take_in
take_in-at c i s l = ground arith

checkpoint-at :
    (n : ℕ) (i : List ℕ) (s : ℕ) (l : Link) → checkpoint n (at i s l) ≡ at i s (checkpoint n l)
unfolding checkpoint
checkpoint-at n i s l = ground arith

pub get_rest-taken :
    (xs rest : List ℕ) (s : ℕ) (l : Link)
    → AreBytes xs
    → get_rest (length xs) (at (xs ++ rest) s l) ≡ go tt (at rest (s + total xs) (taken xs l))
unfolding get_rest taken total
get_rest-taken [] rest s l h = ap (λ k. go tt (at rest k l)) (omega arith)
get_rest-taken (c ∷ cs) rest s l h = rw (get_summed-at c (cs ++ rest) s l h.0.0) (
    rw (take_in-at c (cs ++ rest) (s + c) l) (
      get_rest-taken cs rest (s + c) (take_in c l) h.1
      ∙ ap (λ k. go tt (at rest k (taken cs (take_in c l)))) (omega arith)))

get_sequence-at :
    (n : ℕ) (i : List ℕ) (s : ℕ) (l : Link)
    → n < 224
    → get_sequence (at (tochar n ∷ i) s l)
      ≡ go tt (at i (s + tochar n) (checkpoint n (record l { n = n })))
unfolding get_sequence
get_sequence-at n i s l hn =
    let e : untochar (tochar n) ≡ n = omega arith in
    rw (get_summed-at (tochar n) i s l (omega arith))
      (rw e (ap (go tt) (checkpoint-at n i (s + tochar n) (record l { n = n }))))

get_type-at :
    (kind : ℕ) (i : List ℕ) (s : ℕ) (l : Link)
    → 32 ≤ kind
    → get_type (at (kind ∷ i) s l) ≡ go tt (at i (s + kind) (record l { k_state = kind }))
unfolding get_type
get_type-at kind i s l h = rw (get_summed-at kind i s l h)

-- The end of a packet, from its check byte on.
abbrev pub get_trailer : M (Unit {0})
get_trailer = do get_check; get_end

-- Up to the check byte: the sum is that of the body.
pub get_body-taken :
    (n kind : ℕ) (payload rest : List ℕ) (l : Link)
    → n < 224
    → 32 ≤ kind
    → length payload < 221
    → AreBytes payload
    → get_body (
        at
          (tochar (length payload + 3) ∷ tochar n ∷ kind ∷ (payload ++ rest))
          0
          (record l { parms = [] }))
      ≡ get_trailer (at rest (total (body n kind payload)) (taken payload (opened n kind l)))
unfolding get_body total
get_body-taken n kind payload rest l hn hk hl hp =
    let k : ℕ = length payload + 3 in
    let l0 : Link = record l { parms = [] } in
    let l1 : Link = record l { parms = []; n = n } in
    let e : sub_ℕ (untochar (tochar k)) 2 ≡ pos (length payload + 1) = ground arith in
    let e2 : length payload + 1 - 1 ≡ length payload = omega arith in
    let e3 : 0 + tochar k + tochar n + kind + total payload
        ≡ tochar k + (tochar n + (kind + total payload)) =
      omega arith in
    rw (get_summed-at (tochar k) (tochar n ∷ kind ∷ (payload ++ rest)) 0 l0 (omega arith)) (
      rw (get_sequence-at n (kind ∷ (payload ++ rest)) (0 + tochar k) l0 hn) (
        rw (get_type-at kind (payload ++ rest) (0 + tochar k + tochar n) (checkpoint n l1) hk) (
          rw e (
            rw e2 (
              rw (get_rest-taken payload rest (0 + tochar k + tochar n + kind) (opened n kind l) hp)
                (rw e3 refl))))))

get_trailer-own :
    (check : ℕ) (rest : List ℕ) (s : ℕ) (l : Link)
    → check ≡ block_check s
    → get_trailer (at (check ∷ end_char ∷ rest) s l) ≡ go tt (at rest s l)
unfolding get_check get_end get_checked serial_getc
get_trailer-own check rest s l e = ground (arith, e)

-- Any other check byte is an error.
get_trailer-other :
    (check : ℕ) (rest : List ℕ) (s : ℕ) (l : Link)
    → check ≢ block_check s
    → get_trailer (at (check ∷ end_char ∷ rest) s l) ≡ packet_error (at (end_char ∷ rest) s l)
unfolding get_check get_end get_checked serial_getc
get_trailer-other check rest s l e = ground (arith, e)

wait_for_start-noise :
    (noise i : List ℕ) (l : Link)
    → IsNoise noise
    → wait_for_start (noise ++ start_char ∷ i) l ≡ go tt (record l { input = i })
unfolding wait_for_start
wait_for_start-noise [] i l h = refl
wait_for_start-noise (c ∷ cs) i l h = rw (==_ne c start_char h.0) (wait_for_start-noise cs i l h.1)

-- A packet behind noise, up to its check byte.
get_packet-sealed :
    (noise : List ℕ) (check n kind : ℕ) (payload rest : List ℕ) (l : Link)
    → IsNoise noise
    → n < 224
    → 32 ≤ kind
    → length payload < 221
    → AreBytes payload
    → get_packet (record l { input = noise ++ sealed check n kind payload rest })
      ≡ get_trailer (
          at
            (check ∷ end_char ∷ rest)
            (total (body n kind payload))
            (taken payload (opened n kind l)))
unfolding get_packet
get_packet-sealed noise check n kind payload rest l hj hn hk hl hp =
    rw
      (wait_for_start-noise noise
        (tochar (length payload + 3) ∷ tochar n ∷ kind ∷ (payload ++ check ∷ end_char ∷ rest))
        (begin_packet (record l { input = noise ++ sealed check n kind payload rest })) hj)
      (get_body-taken n kind payload (check ∷ end_char ∷ rest) l hn hk hl hp)

pub get_packet-frame :
    (noise : List ℕ) (n kind : ℕ) (payload rest : List ℕ) (l : Link)
    → IsNoise noise
    → n < 224
    → 32 ≤ kind
    → length payload < 221
    → AreBytes payload
    → get_packet (record l { input = noise ++ frame n kind payload rest })
      ≡ go tt (at rest (total (body n kind payload)) (taken payload (opened n kind l)))
get_packet-frame noise n kind payload rest l hj hn hk hl hp =
    get_packet-sealed noise (own_check n kind payload) n kind payload rest l hj hn hk hl hp
    ∙ get_trailer-own (own_check n kind payload) rest (total (body n kind payload))
        (taken payload (opened n kind l)) refl

pub get_packet-damaged :
    (noise : List ℕ) (check n kind : ℕ) (payload rest : List ℕ) (l : Link)
    → check ≢ own_check n kind payload
    → IsNoise noise
    → n < 224
    → 32 ≤ kind
    → length payload < 221
    → AreBytes payload
    → get_packet (record l { input = noise ++ sealed check n kind payload rest })
      ≡ packet_error
          (at (end_char ∷ rest) (total (body n kind payload)) (taken payload (opened n kind l)))
get_packet-damaged noise check n kind payload rest l hc hj hn hk hl hp =
    get_packet-sealed noise check n kind payload rest l hj hn hk hl hp
    ∙ get_trailer-other check rest (total (body n kind payload)) (taken payload (opened n kind l))
        hc
