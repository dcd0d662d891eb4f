-- ===== src/Kermit/Download.antt =====
-- common/cmd_boot.c: `k_recv` on the packets of a whole download.
use armboot.Prelude.{
  ℕ, suc, ◌+◌, ◌^◌, ◌<◌, ◌≤◌, ◌≡◌, ◌∙◌, refl, ap, sym, List, [], ◌∷◌, ◌++◌, arith, append_assoc,
  append-nil, ==_ne, length, length-append,
}
use armboot.Kermit.{Peer, Link, k_escape, end_char}
use armboot.Kermit.Answer.{ack_type, nack_type}
use armboot.Kermit.Receive.{main_loop}
use armboot.Kermit.Frame.{IsNoise, frame}
use armboot.Kermit.Reply.{reply, negotiated}
use armboot.Kermit.Taken.{kept}
use armboot.Kermit.Session.{
  Message, parameters, piece, notice, Attempt, Delivery, kind_of, payload_of, IsMessage,
  AreAttempts, next_number, AreDeliveries, number_after, attempts_wire, wire, piece_of, content,
  peer_after, answer_to, nacks, replies, last_peer, packets,
}
use armboot.Kermit.Round.{round-data, round-init, round-other, round-damaged}
use armboot.Kermit.Round.Expected.{Expects, Settled}

-- How a run of rounds ends.
pub record Leads (n start : ℕ) (file output : List ℕ) (peer : Peer) (l : Link) : Type 0 where
  pub sent : l.output ≡ output
  pub agreed : l.peer ≡ peer
  pub expects : Expects l n start file

pub attempts_refused :
    (attempts : List Attempt) (noise tail : List ℕ) (n start : ℕ) (file : List ℕ) (fuel : ℕ)
    (l : Link)
    → IsNoise noise
    → n < 224
    → start + length file + 221 ≤ 2 ^ 32
    → AreAttempts n attempts
    → Expects l n start file
    → (l' : Link) × (noise' : List ℕ) × (main_loop
          (length attempts + fuel)
          (record l { input = noise ++ attempts_wire n attempts tail })
        ≡ main_loop fuel (record l' { input = noise' ++ tail }))
      × IsNoise noise'
      × Leads n start file (l.output ++ nacks l.peer n attempts) l.peer l'
unfolding attempts_wire nacks
attempts_refused [] noise tail n start file fuel l hj hn lt ha ready = (
  l,
  noise,
  ap (λ f. main_loop f (record l { input = noise ++ tail })) (omega arith),
  hj,
  record { sent = sym (append-nil l.output); agreed = refl; expects = ready },
)
attempts_refused (a ∷ rest) noise tail n start file fuel l hj hn lt ha ready =
    let (l1, e1, o1, p1, r1) =
      round-damaged noise n start file (attempts_wire n rest tail) (length rest + fuel) l hj hn
        ready a.check a.kind a.payload ha.0 ha.1 ha.2.0 ha.2.1 (omega (arith, ha.2.1)) in
    let (l2, noise2, e2, j2, r2) =
      attempts_refused rest (end_char ∷ []) tail n start file fuel l1
        (λ e. absurd (omega (arith, e)), tt) hn lt ha.3 r1 in
    (
      l2,
      noise2,
      ap (λ f. main_loop f (record l { input = noise ++ attempts_wire n (a ∷ rest) tail }))
            (omega arith)
          ∙ (e1 ∙ e2),
      j2,
      record {
        sent =
            r2.sent
            ∙ (rw (o1, p1)
                (append_assoc l.output (reply l.peer n nack_type []) (nacks l.peer n rest)));
        agreed = r2.agreed ∙ p1;
        expects = r2.expects;
      },
    )

Settled-Leads :
    (l : Link) (n start : ℕ) (file output : List ℕ) (peer : Peer)
    → n < 64
    → peer.quote ≡ k_escape
    → Settled l n start file output peer
    → Leads (next_number n) start file output peer l
Settled-Leads l n start file output peer hn hq s = record {
  sent = s.sent;
  agreed = s.agreed;
  expects = record {
    quote = ap (λ (p : Peer). p.quote) s.agreed ∙ hq;
    has = rw s.last (rw (==_ne (next_number n) n (λ e. absurd (omega (arith, e)))) s.has);
  };
}

-- The packet that gets through.
message_taken :
    (m : Message) (noise rest : List ℕ) (n start : ℕ) (file : List ℕ) (fuel : ℕ) (l : Link)
    → IsNoise noise
    → n < 64
    → start + length file + length (piece_of m) < 2 ^ 32
    → IsMessage m
    → Expects l n start file
    → (l' : Link) × (main_loop
          (suc fuel)
          (record l { input = noise ++ frame n (kind_of m) (payload_of m) rest })
        ≡ main_loop fuel (record l' { input = rest }))
      × Leads
          (next_number n)
          start
          (file ++ piece_of m)
          (l.output ++ reply (peer_after m l.peer) n ack_type (answer_to m))
          (peer_after m l.peer)
          l'
message_taken (parameters ps) noise rest n start file fuel l hj hn lt hm ready =
    let (l', e, s) =
      round-init noise n start file rest fuel l hj (omega arith) ready ps hm.0.0 hm.0.1 in
    (
      l',
      e,
      rw (append-nil file) (Settled-Leads l' n start file _ (negotiated (kept ps [])) hn hm.1 s),
    )
message_taken (piece cs) noise rest n start file fuel l hj hn lt hm ready =
    let (l', e, s, _) =
      round-data noise n start file rest fuel l hj (omega arith) ready cs hm.0 hm.1 lt in
    (l', e, Settled-Leads l' n start (file ++ cs) _ l.peer hn ready.quote s)
message_taken (notice kind payload) noise rest n start file fuel l hj hn lt hm ready =
    let (l', e, s) =
      round-other noise n start file rest fuel l hj (omega arith) ready kind payload hm.1 hm.2 hm.3
        hm.4 hm.0.0 hm.0.1 in
    (l', e, rw (append-nil file) (Settled-Leads l' n start file _ l.peer hn ready.quote s))

pub number_after-lt : (ds : List Delivery) (n : ℕ) → n < 64 → number_after n ds < 64
unfolding number_after
number_after-lt [] n h = h
number_after-lt (_ ∷ ds) n h = number_after-lt ds (next_number n) (omega arith)

-- All packets before the last one.
pub deliveries_taken :
    (ds : List Delivery) (noise tail : List ℕ) (n start : ℕ) (file : List ℕ) (fuel : ℕ) (l : Link)
    → IsNoise noise
    → n < 64
    → start + length file + length (content ds) + 221 ≤ 2 ^ 32
    → AreDeliveries n ds
    → Expects l n start file
    → (l' : Link) × (noise' : List ℕ) × (main_loop
          (packets ds + fuel)
          (record l { input = noise ++ wire n ds tail })
        ≡ main_loop fuel (record l' { input = noise' ++ tail }))
      × IsNoise noise'
      × Leads
          (number_after n ds)
          start
          (file ++ content ds)
          (l.output ++ replies l.peer n ds)
          (last_peer l.peer ds)
          l'
unfolding packets wire content replies last_peer number_after
deliveries_taken [] noise tail n start file fuel l hj hn lt hd ready = (
  l,
  noise,
  ap (λ f. main_loop f (record l { input = noise ++ tail })) (omega arith),
  hj,
  rw (append-nil file)
      (record { sent = sym (append-nil l.output); agreed = refl; expects = ready }),
)
deliveries_taken (d ∷ ds) noise tail n start file fuel l hj hn lt hd ready =
    let p1 : Peer = peer_after d.message l.peer in
    let got = reply p1 n ack_type (answer_to d.message) in
    let rest = wire (next_number n) ds tail in
    let size = length-append (piece_of d.message) (content ds) in
    let size2 = length-append file (piece_of d.message) in
    let (la, na, ea, ja, ra) =
      attempts_refused d.attempts noise (frame n (kind_of d.message) (payload_of d.message) rest) n
        start file (suc (packets ds + fuel)) l hj (omega arith) (omega (arith, size)) hd.0 ready in
    let (lb, eb, rb) =
      message_taken d.message na rest n start file (packets ds + fuel) la ja hn
        (omega (arith, size)) hd.1 ra.expects in
    let (lc, nc, ec, jc, rc) =
      deliveries_taken ds [] tail (next_number n) start (file ++ piece_of d.message) fuel lb tt
        (omega arith) (omega (arith, size, size2)) hd.2 rb.expects in
    (
      lc,
      nc,
      ap (λ f. main_loop f (record l { input = noise ++ wire n (d ∷ ds) tail })) (omega arith)
          ∙ (ea ∙ (eb ∙ ec)),
      jc,
      record {
        sent =
            rc.sent
            ∙ (rw (rb.sent, ra.sent, rb.agreed, ra.agreed)
                (append_assoc (l.output ++ nacks l.peer n d.attempts) got
                    (replies p1 (next_number n) ds)
                  ∙ append_assoc l.output (nacks l.peer n d.attempts)
                      (got ++ replies p1 (next_number n) ds)));
        agreed = rc.agreed ∙ rw (rb.agreed, ra.agreed) refl;
        expects = rw (← append_assoc file (piece_of d.message) (content ds)) rc.expects;
      },
    )
