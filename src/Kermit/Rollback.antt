-- ===== src/Kermit/Rollback.antt =====
-- common/cmd_boot.c: what `k_recv` does to a packet that it has acknowledged, when the first bytes of
-- the next one are damaged.
use armboot.Prelude.{
  ℕ, suc, ◌+◌, ◌^◌, ◌<◌, ◌≡◌, ◌∙◌, refl, ap, sym, subst, List, [], ◌∷◌, ◌++◌, some, arith,
  append_assoc, ==_ne, lt→ltb, length,
}
use armboot.Kermit.{
  Peer, Link, k_escape, k_data_restore, packet_error, start_char, get_summed, get_checked,
  serial_getc,
}
use armboot.Kermit.Answer.{send_nack, ack_type, nack_type}
use armboot.Kermit.Receive.{
  data_type, proceed, main_loop, refuse, get_packet, get_body, wait_for_start,
}
use armboot.Kermit.Frame.{frame}
use armboot.Kermit.Escape.{encode, AreOctets}
use armboot.Kermit.Reply.{reply, send, send_nack-reply}
use armboot.Kermit.Stage.{Holds, Has}
use armboot.Kermit.Session.{next_number}
use armboot.Kermit.Round.{round-data}
use armboot.Kermit.Round.Expected.{expected_sink, Expects}

Holds-prefix : (xs ys : List ℕ) (m : ℕ → ℕ) (a : ℕ) → Holds m a (xs ++ ys) → Holds m a xs
Holds-prefix [] ys m a h = tt
Holds-prefix (x ∷ xs) ys m a h = (h.0, Holds-prefix xs ys m (a + 1) h.1)

get_packet-control :
    (c : ℕ) (rest : List ℕ) (l : Link)
    → c < 32
    → get_packet (record l { input = start_char ∷ c ∷ rest })
      ≡ packet_error (record l { input = rest; parms = []; sum = 0 })
unfolding get_packet wait_for_start get_body get_summed get_checked serial_getc
get_packet-control c rest l h = rw (lt→ltb c 32 h)

-- Behind the damaged length byte, the pointer is where it was before the last packet.
round-control :
    (n start c : ℕ) (file rest : List ℕ) (fuel : ℕ) (l : Link)
    → c < 32
    → n < 64
    → l.n ≡ n
    → l.last_n ≡ some n
    → l.peer.quote ≡ k_escape
    → Has (k_data_restore l.saved l.sink) start file
    → (l' : Link) × (main_loop (suc fuel) (record l { input = start_char ∷ c ∷ rest })
        ≡ main_loop fuel (record l' { input = rest }))
      × (l'.output ≡ l.output ++ reply l.peer n nack_type [])
      × (l'.peer ≡ l.peer)
      × Expects l' (next_number n) start file
unfolding main_loop refuse
round-control n start c file rest fuel l hc hn en el hq back =
    let t : Link = record l { input = rest; parms = []; sum = 0 } in
    let r : Link = record t { k_state = t.k_state_saved; sink = k_data_restore t.saved t.sink } in
    let sent : send_nack l.n r ≡ send (reply l.peer n nack_type []) r =
      ap (λ k. send_nack k r) en ∙ send_nack-reply n r (omega arith) in
    (
      send (reply l.peer n nack_type []) r,
      ap (proceed (main_loop fuel)) (get_packet-control c rest l hc) ∙ ap (main_loop fuel) sent,
      refl,
      refl,
      record {
        quote = hq;
        has = rw el (rw (==_ne (next_number n) n (λ e. absurd (omega (arith, e)))) back);
      },
    )

-- A packet of data arrives undamaged and is acknowledged, then the length byte of the next packet is
-- damaged so that it is a control character. The pointer goes back to before the packet that was
-- acknowledged, so that the next packet of data, which is acknowledged too, is stored in its place:
-- the first piece is missing from what has arrived.
pub main_loop-lost_piece :
    (n start c : ℕ) (file cs ds rest : List ℕ) (fuel : ℕ) (l : Link)
    → c < 32
    → n < 64
    → AreOctets cs
    → AreOctets ds
    → length (encode cs) < 221
    → length (encode ds) < 221
    → start + length file + length cs + length ds < 2 ^ 32
    → Expects l n start file
    → (l' : Link) × (main_loop (3 + fuel) (record l {
      input =
          frame n data_type
            (encode cs)
            (start_char ∷ c ∷ frame (next_number n) data_type (encode ds) rest);
    })
        ≡ main_loop fuel (record l' { input = rest }))
      × Has l'.sink start (file ++ ds)
      × (l'.output
          ≡ l.output
            ++ (reply l.peer n ack_type []
                ++ (reply l.peer n nack_type [] ++ reply l.peer (next_number n) ack_type [])))
unfolding k_data_restore
main_loop-lost_piece n start c file cs ds rest fuel l hc hn oc od lc ld lt ready =
    let m = next_number n in
    let next = frame m data_type (encode ds) rest in
    let (l1, e1, s1, b1) =
      round-data [] n start file (start_char ∷ c ∷ next) (suc (suc fuel)) l tt (omega arith) ready
        cs oc lc (omega arith) in
    let known : Has (expected_sink n l) start file = ready.has in
    let back : Has (k_data_restore l1.saved l1.sink) start file =
      subst (λ s. Has s start file) (sym b1)
        (record {
          state = known.state;
          addr = known.addr;
          escape = known.escape;
          holds = Holds-prefix file cs l1.sink.memory start s1.has.holds;
        }) in
    let (l2, e2, o2, p2, x2) =
      round-control n start c file next (suc fuel) l1 hc hn s1.number s1.last
        (ap (λ (p : Peer). p.quote) s1.agreed ∙ ready.quote) back in
    let (l3, e3, s3, _) =
      round-data [] m start file rest fuel l2 tt (omega arith) x2 ds od ld (omega arith) in
    let fuels : 3 + fuel ≡ suc (suc (suc fuel)) = omega arith in
    (
      l3,
      ap
            (λ f.
              main_loop f
                (record l { input = frame n data_type (encode cs) (start_char ∷ c ∷ next) }))
            fuels
          ∙ (e1 ∙ (e2 ∙ e3)),
      s3.has,
      s3.sent
          ∙ (rw (o2, p2, s1.sent, s1.agreed)
              (append_assoc (l.output ++ reply l.peer n ack_type []) (reply l.peer n nack_type [])
                  (reply l.peer m ack_type [])
                ∙ append_assoc l.output (reply l.peer n ack_type [])
                    (reply l.peer n nack_type [] ++ reply l.peer m ack_type []))),
    )
