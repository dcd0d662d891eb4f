-- ===== src/Kermit/Region/Loop.antt =====
-- common/cmd_boot.c: every run of `k_recv` stays in its region and ends, whatever the line brings.
use armboot.Prelude.{
  ℕ, zero, suc, ◌+◌, ◌^◌, ◌<◌, ◌≤◌, ◌≡◌, ◌⊎◌, inl, inr, refl, ap, Bool, true, false, List, [], ◌∷◌,
  arith, ◌==◌, Bool-cases, if◌then◌else◌, length,
}
use armboot.Kermit.{Link, Turn, go, packet_error, waits, follow, k_data_restore}
use armboot.Kermit.Answer.{send_ack, send_nack, handle_send_packet, s1_sendpacket}
use armboot.Kermit.Receive.{
  begin_packet, get_body, get_packet, wait_for_start, refuse, accept, Outcome, finished, waiting,
  no_fuel, proceed, main_loop, initial, load_serial_bin,
}
use armboot.Kermit.Region.{Region, Fine, TurnFine, OutcomeFine, follow-Fine, same}
use armboot.Kermit.Region.Body.{get_body-Fine}

module _ (region : Region) (fits : region.limit < 2 ^ 32) where
  -- The wait for a packet takes a byte.
  wait_for_start-Fine :
      (i : List ℕ) (left : ℕ) (l : Link)
      → length i ≤ suc left
      → length i ≤ length l.input
      → Fine region 0 (suc left) l
      → TurnFine region 0 left (wait_for_start i l)
  unfolding wait_for_start
  wait_for_start-Fine [] left l le le2 h = (
    record {
      low = h.low;
      low_saved = h.low_saved;
      room = omega (arith, h.room);
      room_saved = omega (arith, h.room_saved);
      outside = h.outside;
      short = omega arith;
    },
    refl,
  )
  wait_for_start-Fine (c ∷ cs) left l le le2 h = elim (Bool-cases (c == 1)) [
    | inl found ↦ rw found (record {
      low = h.low;
      low_saved = h.low_saved;
      room = omega (arith, h.room);
      room_saved = omega (arith, h.room_saved);
      outside = h.outside;
      short = omega arith;
    })
    | inr noise ↦ rw noise (wait_for_start-Fine cs left l (omega arith) (omega arith) h)
  ]

  get_packet-Fine :
      (left : ℕ) (l : Link) → Fine region 0 (suc left) l → TurnFine region 0 left (get_packet l)
  unfolding get_packet
  get_packet-Fine left l h =
      follow-Fine region 0 0 left (wait_for_start l.input (begin_packet l)) _
        (wait_for_start-Fine l.input left (begin_packet l) h.short (omega arith)
          (same region 0 (suc left) l (begin_packet l) refl refl refl h))
        (λ _ l1 h1. get_body-Fine region fits left l1 h1)

  refuse-Fine : (left : ℕ) (l : Link) → Fine region 0 left l → Fine region 0 left (refuse l)
  unfolding refuse send_nack s1_sendpacket k_data_restore
  refuse-Fine left l h = record {
    low = h.low_saved;
    low_saved = h.low_saved;
    room = omega (arith, h.room_saved);
    room_saved = h.room_saved;
    outside = h.outside;
    short = h.short;
  }

  accept-Fine : (left : ℕ) (l : Link) → Fine region 0 left l → Fine region 0 left (accept l).0
  unfolding accept send_ack handle_send_packet s1_sendpacket
  accept-Fine left l h = elim (Bool-cases (l.k_state == 83)) [
    | inl init ↦ rw init (same region 0 left l _ refl refl refl h)
    | inr other ↦ rw other (same region 0 left l _ refl refl refl h)
  ]

  settle : (left : ℕ) (l : Link) → Fine region 0 left l → Fine region 0 (length l.input) l
  settle left l h = record {
    low = h.low;
    low_saved = h.low_saved;
    room = h.room;
    room_saved = h.room_saved;
    outside = h.outside;
    short = omega arith;
  }

  done-Fine :
      (stop : Bool) (l : Link) (rest : Outcome)
      → Fine region 0 (length l.input) l
      → OutcomeFine region rest
      → OutcomeFine region (if stop then finished l else rest)
  done-Fine true l rest h r = h
  done-Fine false l rest h r = r

  proceed-Fine :
      (left : ℕ) (next : Link → Outcome) (t : Turn (Unit {0}))
      → ((l : Link) → Fine region 0 left l → OutcomeFine region (next l))
      → TurnFine region 0 left t
      → OutcomeFine region (proceed next t)
  proceed-Fine left next (go _ l) k h =
      let a = accept-Fine left l h in
      done-Fine (accept l).1 (accept l).0 (next (accept l).0) (settle left (accept l).0 a)
        (k (accept l).0 a)
  proceed-Fine left next (packet_error l) k h = k (refuse l) (refuse-Fine left l h)
  proceed-Fine left next (waits l) k h = (settle left l h.0, h.1)

  length_zero : (i : List ℕ) → length i ≤ 0 → i ≡ []
  length_zero [] h = refl
  length_zero (c ∷ cs) h = absurd (omega arith)

  pub main_loop-Fine :
      (left : ℕ) (l : Link) → Fine region 0 left l → OutcomeFine region (main_loop (suc left) l)
  unfolding main_loop get_packet wait_for_start
  main_loop-Fine zero l h =
      let none_left : l.input ≡ [] = length_zero l.input h.short in
      let quiet_line : get_packet l ≡ waits (record (begin_packet l) { input = [] }) =
        ap (λ i. follow (wait_for_start i (begin_packet l)) (λ _. get_body)) none_left in
      rw quiet_line (
        record {
          low = h.low;
          low_saved = h.low_saved;
          room = omega (arith, h.room);
          room_saved = omega (arith, h.room_saved);
          outside = h.outside;
          short = omega arith;
        },
        refl,
      )
  main_loop-Fine (suc left) l h =
      proceed-Fine left (main_loop (suc left)) (get_packet l) (main_loop-Fine left)
        (get_packet-Fine left l h)

-- The last link of a run that ends.
ends :
    (region : Region) (o : Outcome)
    → OutcomeFine region o
    → (l : Link) × ((o ≡ finished l) ⊎ ((o ≡ waiting l) × (l.input ≡ [])))
      × Fine region 0 (length l.input) l
ends region (finished l) h = (l, inl refl, h)
ends region (waiting l) h = (l, inr (refl, h.1), h.0)
ends region no_fuel h = elim h [ ]

-- Whatever bytes the line brings, if that many addresses are left from the offset on: the download
-- ends with a break packet, or waits with all bytes read; the pointer has not left the range of so
-- many addresses from the offset on, and the memory outside of this range is as it was.
pub load_serial_bin_region :
    (offset : ℕ) (input : List ℕ) (memory : ℕ → ℕ)
    → offset + length input < 2 ^ 32
    → (l : Link) × ((load_serial_bin offset input memory ≡ finished l)
        ⊎ ((load_serial_bin offset input memory ≡ waiting l) × (l.input ≡ [])))
      × (offset ≤ l.sink.os_addr)
      × (l.sink.os_addr ≤ offset + length input)
      × ((a : ℕ) → (a < offset) ⊎ (offset + length input ≤ a) → l.sink.memory a ≡ memory a)
unfolding load_serial_bin initial
load_serial_bin_region offset input memory fits =
    let r : Region = record { start = offset; limit = offset + length input; before = memory } in
    let begun : Fine r 0 (length input) (initial offset input memory) = record {
      low = omega arith;
      low_saved = omega arith;
      room = omega arith;
      room_saved = omega arith;
      outside = λ a out. refl;
      short = omega arith;
    } in
    let (l, how, h) =
      ends r (load_serial_bin offset input memory)
        (main_loop-Fine r fits (length input) (initial offset input memory) begun) in
    (l, how, h.low, omega (arith, h.room), h.outside)
