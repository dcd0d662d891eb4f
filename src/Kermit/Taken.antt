-- ===== src/Kermit/Taken.antt =====
-- common/cmd_boot.c: what the payload of a packet does to the state of `k_recv`, by its type.
use armboot.Prelude.{
  ℕ, ◌≢◌, ◌+◌, ◌^◌, ◌<◌, ◌≤◌, ◌≡◌, ◌∙◌, refl, ap, List, [], ◌∷◌, arith, ==_ne, length,
}
use armboot.Kermit.{Link, k_escape, ktrans, bin_data_char, k_data_char}
use armboot.Kermit.Receive.{data_type, send_type, keep_parm, take_in}
use armboot.Kermit.Frame.{taken}
use armboot.Kermit.Stage.{Holds, Holds-write}
use armboot.Kermit.Escape.{feed}

pub taken-data :
    (xs : List ℕ) (l : Link)
    → l.k_state ≡ data_type
    → l.peer.quote ≡ k_escape
    → taken xs l ≡ record l { sink = feed xs l.sink }
unfolding taken take_in feed
taken-data [] l h q = refl
taken-data (c ∷ cs) l h q =
    let l' : Link = record l { sink = k_data_char k_escape c l.sink } in
    let e : take_in c l ≡ l' = ground (arith, h, q) in ap (taken cs) e ∙ taken-data cs l' h q

-- What a send-init packet leaves in `send_parms`.
unfoldable pub kept : List ℕ → List ℕ → List ℕ
kept [] ps = ps
kept (c ∷ cs) ps = kept cs (keep_parm c ps)

pub taken-parms :
    (xs : List ℕ) (l : Link)
    → l.k_state ≡ send_type
    → taken xs l ≡ record l { parms = kept xs l.parms }
unfolding taken take_in kept
taken-parms [] l h = refl
taken-parms (c ∷ cs) l h =
    let l' : Link = record l { parms = keep_parm c l.parms } in
    let e : take_in c l ≡ l' = ground (arith, h) in ap (taken cs) e ∙ taken-parms cs l' h

pub taken-other :
    (xs : List ℕ) (l : Link) → l.k_state ≢ send_type → l.k_state ≢ data_type → taken xs l ≡ l
unfolding taken take_in
taken-other [] l hs hd = refl
taken-other (c ∷ cs) l hs hd =
    rw (==_ne l.k_state data_type hd, ==_ne l.k_state send_type hs) (taken-other cs l hs hd)

-- A run of characters of any kind leaves all alone but the sink and the parameters.
pub taken_shape :
    (xs : List ℕ) (l : Link)
    → taken xs l ≡ record l { sink = (taken xs l).sink; parms = (taken xs l).parms }
unfolding taken
taken_shape [] l = refl
taken_shape (c ∷ cs) l =
    let e : take_in c l ≡ record l { sink = (take_in c l).sink; parms = (take_in c l).parms } =
      unfold take_in in ground arith in
    taken_shape cs (take_in c l)
    ∙ ap
        (λ (t : Link). record t {
          sink = (taken cs (take_in c l)).sink;
          parms = (taken cs (take_in c l)).parms;
        })
        e

take_in_damage :
    (c : ℕ) (l : Link) (start : ℕ) (file : List ℕ)
    → start + length file ≤ l.sink.os_addr
    → l.sink.os_addr + 1 < 2 ^ 32
    → Holds l.sink.memory start file
    → Holds (take_in c l).sink.memory start file
      × (start + length file ≤ (take_in c l).sink.os_addr)
      × ((take_in c l).sink.os_addr ≤ l.sink.os_addr + 1)
unfolding take_in k_data_char bin_data_char
take_in_damage c l start file le lt h = ground (
  arith,
  Holds-write file l.sink.memory start l.sink.os_addr c le h,
  Holds-write file l.sink.memory start l.sink.os_addr (ktrans c) le h,
)

-- Whatever a packet holds, it writes behind what has arrived.
pub taken-Holds :
    (xs : List ℕ) (l : Link) (start : ℕ) (file : List ℕ)
    → start + length file ≤ l.sink.os_addr
    → l.sink.os_addr + length xs < 2 ^ 32
    → Holds l.sink.memory start file
    → Holds (taken xs l).sink.memory start file
unfolding taken
taken-Holds [] l start file le lt h = h
taken-Holds (c ∷ cs) l start file le lt h =
    let d = take_in_damage c l start file le (omega arith) h in
    taken-Holds cs (take_in c l) start file d.1 (omega (arith, d.2)) d.0
