-- ===== src/Kermit/Round.antt =====
-- common/cmd_boot.c: one round of `k_recv`, for a packet of each type and for a damaged one.
pub mod Expected
use armboot.Prelude.{
  ℕ, suc, ◌≢◌, ◌+◌, ◌^◌, ◌<◌, ◌≤◌, ◌≡◌, ◌∙◌, refl, ap, sym, subst, true, false, List, [], ◌∷◌, ◌++◌,
  Option, none, some, arith, ==_ne, ==_refl, if◌then◌else◌, length,
}
use armboot.Kermit.{Saved, Sink, Peer, Link, k_escape, k_data_save, k_data_restore, go, end_char}
use armboot.Kermit.Answer.{send_ack, ack_type, nack_type, total}
use armboot.Kermit.Receive.{
  data_type, send_type, break_type, repeats, checkpoint, proceed, main_loop, refuse, accept,
  Outcome, finished,
}
use armboot.Kermit.Frame.{
  taken, opened, IsNoise, AreBytes, at, body, frame, sealed, own_check, get_packet-frame,
  get_packet-damaged,
}
use armboot.Kermit.Escape.{feed, encode, AreOctets, encode-AreBytes}
use armboot.Kermit.Reply.{
  reply, send, send_ack-reply, send_nack-reply, handle_send_packet-reply, negotiated, answer,
}
use armboot.Kermit.Stage.{Holds, Has, feed-Has}
use armboot.Kermit.Taken.{kept, taken-data, taken-parms, taken-other, taken_shape, taken-Holds}
use armboot.Kermit.Round.Expected.{
  expected_sink, Expects, marked, opened-marked, restore_saved, proceed_more, Settled,
}

module _ (noise : List ℕ) (n start : ℕ) (file rest : List ℕ) (fuel : ℕ) (l : Link)
    (between : IsNoise noise) (small : n < 224) (ready : Expects l n start file) where
  round-frame :
      (kind : ℕ) (payload : List ℕ)
      → 32 ≤ kind
      → length payload < 221
      → AreBytes payload
      → main_loop (suc fuel) (record l { input = noise ++ frame n kind payload rest })
        ≡ proceed
            (main_loop fuel)
            (go tt (at rest (total (body n kind payload)) (taken payload (marked n kind l))))
  unfolding main_loop
  round-frame kind payload hk hl hp =
      rw (get_packet-frame noise n kind payload rest l between small hk hl hp)
        (rw (opened-marked n kind l) refl)

  -- A packet of data.
  pub round-data :
      (cs : List ℕ)
      → AreOctets cs
      → length (encode cs) < 221
      → start + length file + length cs < 2 ^ 32
      → (l' : Link) × (main_loop
            (suc fuel)
            (record l { input = noise ++ frame n data_type (encode cs) rest })
          ≡ main_loop fuel (record l' { input = rest }))
        × Settled l' n start (file ++ cs) (l.output ++ reply l.peer n ack_type []) l.peer
        × (k_data_restore l'.saved l'.sink ≡ record (expected_sink n l) { memory = l'.sink.memory })
  unfolding accept
  round-data cs octets len lt =
      let s : Sink = feed (encode cs) (expected_sink n l) in
      let t : Link =
        at rest (total (body n data_type (encode cs)))
          (record (marked n data_type l) { sink = s }) in
      (
        send (reply l.peer n ack_type []) t,
        round-frame data_type (encode cs) (omega arith) len (encode-AreBytes cs octets)
            ∙ rw (taken-data (encode cs) (marked n data_type l) refl ready.quote) (
                proceed_more (main_loop fuel) t refl
                ∙ ap (main_loop fuel) (send_ack-reply n t small)),
        record {
          number = refl;
          last = refl;
          sent = refl;
          agreed = refl;
          has = feed-Has cs (expected_sink n l) start file octets lt ready.has;
        },
        restore_saved n l s,
      )

  -- A send-init packet: the peer's parameters are taken, and answered.
  pub round-init :
      (payload : List ℕ)
      → AreBytes payload
      → length payload < 221
      → (l' : Link) × (main_loop
            (suc fuel)
            (record l { input = noise ++ frame n send_type payload rest })
          ≡ main_loop fuel (record l' { input = rest }))
        × Settled l' n start file
            (l.output ++ reply (negotiated (kept payload [])) n ack_type (answer (kept payload [])))
            (negotiated (kept payload []))
  unfolding accept
  round-init payload bytes len =
      let ps = kept payload [] in
      let t : Link =
        at rest (total (body n send_type payload)) (record (marked n send_type l) { parms = ps }) in
      (
        send (reply (negotiated ps) n ack_type (answer ps)) (record t { peer = negotiated ps }),
        round-frame send_type payload (omega arith) len bytes
            ∙ rw (taken-parms payload (marked n send_type l) refl) (
                proceed_more (main_loop fuel) t refl
                ∙ ap (main_loop fuel) ((handle_send_packet-reply n t small).0)),
        record { number = refl; last = refl; sent = refl; agreed = refl; has = ready.has },
      )

  -- A packet of another type, such as a file header or the end of a file.
  pub round-other :
      (kind : ℕ) (payload : List ℕ)
      → 32 ≤ kind
      → kind ≢ send_type
      → kind ≢ data_type
      → kind ≢ break_type
      → AreBytes payload
      → length payload < 221
      → (l' : Link) × (main_loop
            (suc fuel)
            (record l { input = noise ++ frame n kind payload rest })
          ≡ main_loop fuel (record l' { input = rest }))
        × Settled l' n start file (l.output ++ reply l.peer n ack_type []) l.peer
  unfolding accept
  round-other kind payload hk hs hd hb bytes len =
      let t : Link = at rest (total (body n kind payload)) (marked n kind l) in
      let e : accept t ≡ (send_ack n t, false) =
        rw (==_ne kind send_type hs, ==_ne kind break_type hb) in
      (
        send (reply l.peer n ack_type []) t,
        round-frame kind payload hk len bytes
            ∙ rw (taken-other payload (marked n kind l) hs hd) (
                proceed_more (main_loop fuel) t (ap (λ r. r.1) e)
                ∙ ap (main_loop fuel) (ap (λ r. r.0) e ∙ send_ack-reply n t small)),
        record { number = refl; last = refl; sent = refl; agreed = refl; has = ready.has },
      )

  -- A break packet ends the download.
  pub round-break :
      (payload : List ℕ)
      → AreBytes payload
      → length payload < 221
      → (l' : Link) × (main_loop
            (suc fuel)
            (record l { input = noise ++ frame n break_type payload rest })
          ≡ finished (record l' { input = rest }))
        × Settled l' n start file (l.output ++ reply l.peer n ack_type []) l.peer
  unfolding accept
  round-break payload bytes len =
      let t : Link = at rest (total (body n break_type payload)) (marked n break_type l) in
      (
        send (reply l.peer n ack_type []) t,
        round-frame break_type payload (omega arith) len bytes
            ∙ rw
                (taken-other payload (marked n break_type l) (λ e. absurd (omega (arith, e)))
                  (λ e. absurd (omega (arith, e))))
                (ap finished (send_ack-reply n t small)),
        record { number = refl; last = refl; sent = refl; agreed = refl; has = ready.has },
      )

  -- A packet with a wrong check byte: it is refused, and the same number is expected again.
  pub round-damaged :
      (check kind : ℕ) (payload : List ℕ)
      → check ≢ own_check n kind payload
      → 32 ≤ kind
      → AreBytes payload
      → length payload < 221
      → start + length file + length payload < 2 ^ 32
      → (l' : Link) × (main_loop
            (suc fuel)
            (record l { input = noise ++ sealed check n kind payload rest })
          ≡ main_loop fuel (record l' { input = end_char ∷ rest }))
        × (l'.output ≡ l.output ++ reply l.peer n nack_type [])
        × (l'.peer ≡ l.peer)
        × Expects l' n start file
  unfolding refuse main_loop k_data_restore
  round-damaged check kind payload hc hk bytes len lt =
      let o : Link = marked n kind l in
      let x : Link = taken payload o in
      let t : Link =
        at (end_char ∷ rest) (total (body n kind payload))
          (record o { sink = x.sink; parms = x.parms }) in
      let r : Link = record t { k_state = t.k_state_saved; sink = k_data_restore t.saved t.sink } in
      let back = restore_saved n l x.sink in
      let known : Has (expected_sink n l) start file = ready.has in
      let kept_so_far : Holds x.sink.memory start file =
        taken-Holds payload o start file (omega (arith, known.addr)) (omega (arith, known.addr))
          known.holds in
      (
        send (reply l.peer n nack_type []) r,
        rw (get_packet-damaged noise check n kind payload rest l hc between small hk len bytes) (
            rw (opened-marked n kind l)
              (rw (taken_shape payload o) (ap (main_loop fuel) (send_nack-reply n r small)))),
        refl,
        refl,
        record {
          quote = ready.quote;
          has = rw (==_refl n) (
              subst (λ s. Has s start file) (sym back)
                (record {
                  state = known.state;
                  addr = known.addr;
                  escape = known.escape;
                  holds = kept_so_far;
                }));
        },
      )
