-- ===== src/Kermit/Region.antt =====
-- common/cmd_boot.c: where `k_recv` may write: an invariant, with the rules for its pieces.
pub mod Body
pub mod Loop
use armboot.Prelude.{
  ℕ, zero, suc, ◌≢◌, ◌+◌, ◌-◌, ◌%◌, ◌/◌, ◌^◌, ◌<◌, ◌≤◌, ◌≡◌, ◌∙◌, ◌⊎◌, inl, inr, refl, ap, sym,
  subst, Bool, true, false, List, [], ◌∷◌, ◌++◌, Option, none, some, arith, ◌==◌, ==_ne, Bool-cases,
  ltb, ◌*◌, if◌then◌else◌, length,
}
use armboot.Prelude.Int.{ℤ, pos, negsuc, sub_ℕ}
use armboot.Kermit.{
  Sink, Saved, Peer, Link, Turn, go, packet_error, waits, M, follow, ◌>>=◌, ◌>>◌, ktrans, write,
  bin_data_char, k_data_char, k_data_save, k_data_restore, get_any, serial_getc, refuse_control,
  get_checked, add_sum, get_summed, untochar, block_check, start_char, end_char,
}
use armboot.Kermit.Answer.{send_ack, send_nack, handle_send_packet, s1_sendpacket}
use armboot.Kermit.Receive.{
  keep_parm, repeats, checkpoint, get_sequence, get_type, get_extended, with_extended, take_in,
  get_rest, rounds_above_1, get_check, get_end, begin_packet, get_body, get_packet, wait_for_start,
  refuse, accept, Outcome, finished, waiting, no_fuel, proceed, main_loop, initial, load_serial_bin,
}

-- A download may write between two addresses; `before` is the memory that it finds.
pub record Region : Type 0 where
  pub start : ℕ
  pub limit : ℕ
  pub before : ℕ → ℕ

module _ (region : Region) where
  open region use {start, limit, before}

  -- The pointer stands between the two addresses, with room for each byte that the line still
  -- brings and for `extra` more; what lies outside is as it was. So many bytes are left at most.
  pub record Fine (extra left : ℕ) (l : Link) : Type 0 where
    pub low : start ≤ l.sink.os_addr
    pub low_saved : start ≤ l.saved.os_addr
    pub room : l.sink.os_addr + extra + length l.input ≤ limit
    pub room_saved : l.saved.os_addr + length l.input ≤ limit
    pub outside : (a : ℕ) → (a < start) ⊎ (limit ≤ a) → l.sink.memory a ≡ before a
    pub short : length l.input ≤ left

  abbrev pub TurnFine : {A : Type 0} → ℕ → ℕ → Turn A → Type 0
  TurnFine extra left (go _ l) = Fine extra left l
  TurnFine extra left (packet_error l) = Fine 0 left l
  TurnFine extra left (waits l) = Fine 0 left l × (l.input ≡ [])

  pub weaken : (extra left : ℕ) (l : Link) → Fine extra left l → Fine 0 left l
  weaken extra left l h = record {
    low = h.low;
    low_saved = h.low_saved;
    room = omega (arith, h.room);
    room_saved = h.room_saved;
    outside = h.outside;
    short = h.short;
  }

  -- The rule for a bind.
  pub follow-Fine :
      {A B : Type 0} (e1 e2 left : ℕ) (t : Turn A) (f : A → M B)
      → TurnFine e1 left t
      → ((a : A) (l : Link) → Fine e1 left l → TurnFine e2 left (f a l))
      → TurnFine e2 left (follow t f)
  follow-Fine e1 e2 left (go a l) f h k = k a l h
  follow-Fine e1 e2 left (packet_error l) f h k = h
  follow-Fine e1 e2 left (waits l) f h k = h

  serial_getc-Fine :
      (i : List ℕ) (left : ℕ) (l : Link)
      → l.input ≡ i
      → Fine 0 left l
      → TurnFine 1 left (serial_getc i l)
  unfolding serial_getc
  serial_getc-Fine [] left l e h = (h, e)
  serial_getc-Fine (c ∷ cs) left l e h =
      let len : length l.input ≡ suc (length cs) = ap length e in
      record {
        low = h.low;
        low_saved = h.low_saved;
        room = omega (arith, h.room, len);
        room_saved = omega (arith, h.room_saved, len);
        outside = h.outside;
        short = omega (arith, h.short, len);
      }

  pub get_any-Fine : (left : ℕ) (l : Link) → Fine 0 left l → TurnFine 1 left (get_any l)
  get_any-Fine left l h = serial_getc-Fine l.input left l refl h

  refuse_control-Fine :
      (e left c : ℕ) (l : Link) → Fine e left l → TurnFine e left (refuse_control c l)
  refuse_control-Fine e left c l h = elim (Bool-cases (ltb c 32)) [
    | inl low ↦ rw low (weaken e left l h)
    | inr high ↦ rw high h
  ]

  pub get_checked-Fine : (left : ℕ) (l : Link) → Fine 0 left l → TurnFine 1 left (get_checked l)
  unfolding get_checked
  get_checked-Fine left l h =
      follow-Fine 1 1 left (get_any l) refuse_control (get_any-Fine left l h)
        (refuse_control-Fine 1 left)

  pub same :
      (e left : ℕ) (l l' : Link)
      → l'.sink ≡ l.sink
      → l'.saved ≡ l.saved
      → l'.input ≡ l.input
      → Fine e left l
      → Fine e left l'
  same e left l l' es ev ei h = record {
    low = rw es h.low;
    low_saved = rw ev h.low_saved;
    room = rw (es, ei) h.room;
    room_saved = rw (ev, ei) h.room_saved;
    outside = rw es h.outside;
    short = rw ei h.short;
  }

  pub get_summed-Fine : (left : ℕ) (l : Link) → Fine 0 left l → TurnFine 1 left (get_summed l)
  unfolding get_summed
  get_summed-Fine left l h =
      follow-Fine 1 1 left (get_checked l) (λ c. add_sum c >> (λ l1. go c l1))
        (get_checked-Fine left l h)
        (λ c l1 h1. same 1 left l1 (record l1 { sum = l1.sum + c }) refl refl refl h1)

  -- Every run ends, by a break packet or by an empty line.
  abbrev pub OutcomeFine : Outcome → Type 0
  OutcomeFine (finished l) = Fine 0 (length l.input) l
  OutcomeFine (waiting l) = Fine 0 (length l.input) l × (l.input ≡ [])
  OutcomeFine no_fuel = ⊥
