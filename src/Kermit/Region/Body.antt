-- ===== src/Kermit/Region/Body.antt =====
-- common/cmd_boot.c: the body of a packet keeps `k_recv` in its region.
use armboot.Prelude.{
  ℕ, zero, suc, ◌+◌, ◌%◌, ◌^◌, ◌<◌, ◌≡◌, inl, inr, refl, Bool, true, false, arith, ◌==◌, ==_ne,
  Bool-cases, ◌*◌, if◌then◌else◌,
}
use armboot.Prelude.Int.{ℤ, pos, negsuc, sub_ℕ}
use armboot.Kermit.{
  Sink, Link, go, packet_error, ktrans, bin_data_char, k_data_char, k_data_save, k_data_restore,
  get_any, get_checked, get_summed, untochar, block_check, end_char,
}
use armboot.Kermit.Receive.{
  keep_parm, repeats, checkpoint, get_sequence, get_type, get_extended, with_extended, take_in,
  get_rest, rounds_above_1, get_check, get_end, get_body,
}
use armboot.Kermit.Region.{
  Region, Fine, TurnFine, weaken, follow-Fine, get_any-Fine, get_checked-Fine, same,
  get_summed-Fine,
}

module _ (region : Region) (fits : region.limit < 2 ^ 32) where
  bin_data_char-Fine :
      (left c : ℕ) (l : Link)
      → Fine region 1 left l
      → Fine region 0 left (record l { sink = bin_data_char c l.sink })
  unfolding bin_data_char
  bin_data_char-Fine left c l h =
      let moves : (l.sink.os_addr + 1) % 2 ^ 32 ≡ l.sink.os_addr + 1 = omega (arith, h.room) in
      elim (Bool-cases (l.sink.os_state == 0)) [
        | inl writes ↦
            rw (writes, moves)
              (record {
                low = omega (arith, h.low);
                low_saved = h.low_saved;
                room = omega (arith, h.room);
                room_saved = h.room_saved;
                outside = λ a out.
                    rw
                      (==_ne a l.sink.os_addr (λ e. elim out [
                        | inl lt ↦ absurd (omega (arith, lt, e, h.low))
                        | inr ge ↦ absurd (omega (arith, ge, e, h.room))
                      ]))
                      (h.outside a out);
                short = h.short;
              })
        | inr idle ↦ rw idle (weaken region 1 left l h)
      ]

  -- The pending escape is no part of the claim.
  escape-Fine :
      (left : ℕ) (b : Bool) (s : Sink) (l : Link)
      → Fine region 0 left (record l { sink = s })
      → Fine region 0 left (record l { sink = record s { escape = b } })
  escape-Fine left b s l h = record {
    low = h.low;
    low_saved = h.low_saved;
    room = h.room;
    room_saved = h.room_saved;
    outside = h.outside;
    short = h.short;
  }

  -- The branches of `k_data_char`.
  branch-Fine :
      (left c : ℕ) (pending quoted : Bool) (l : Link)
      → Fine region 1 left l
      → Fine region 0 left (record l {
        sink =
            if pending
            then record (bin_data_char (ktrans c) l.sink) { escape = false }
            else if quoted
            then record l.sink { escape = true }
            else bin_data_char c l.sink;
      })
  branch-Fine left c true quoted l h =
      escape-Fine left false (bin_data_char (ktrans c) l.sink) l
        (bin_data_char-Fine left (ktrans c) l h)
  branch-Fine left c false true l h = escape-Fine left true l.sink l (weaken region 1 left l h)
  branch-Fine left c false false l h = bin_data_char-Fine left c l h

  k_data_char-Fine :
      (left quote c : ℕ) (l : Link)
      → Fine region 1 left l
      → Fine region 0 left (record l { sink = k_data_char quote c l.sink })
  unfolding k_data_char
  k_data_char-Fine left quote c l h = branch-Fine left c l.sink.escape (c == quote) l h

  take_in-Fine : (left c : ℕ) (l : Link) → Fine region 1 left l → Fine region 0 left (take_in c l)
  unfolding take_in
  take_in-Fine left c l h = elim (Bool-cases (l.k_state == 68)) [
    | inl kind ↦ rw kind (k_data_char-Fine left l.peer.quote c l h)
    | inr kind ↦ rw kind (elim (Bool-cases (l.k_state == 83)) [
      | inl init ↦ rw init (
          same region 0 left l (record l { parms = keep_parm c l.parms }) refl refl refl
            (weaken region 1 left l h))
      | inr other ↦ rw other (weaken region 1 left l h)
    ])
  ]

  get_rest-Fine :
      (k left : ℕ) (l : Link) → Fine region 0 left l → TurnFine region 0 left (get_rest k l)
  unfolding get_rest
  get_rest-Fine zero left l h = h
  get_rest-Fine (suc k) left l h =
      follow-Fine region 1 0 left (get_summed l) (λ c l1. get_rest k (take_in c l1))
        (get_summed-Fine region left l h)
        (λ c l1 h1. get_rest-Fine k left (take_in c l1) (take_in-Fine left c l1 h1))

  checkpoint-Fine :
      (left n : ℕ) (l : Link) → Fine region 0 left l → Fine region 0 left (checkpoint n l)
  unfolding checkpoint k_data_restore k_data_save
  checkpoint-Fine left n l h = elim (Bool-cases (repeats n l.last_n)) [
    | inl again ↦ rw again (record {
      low = h.low_saved;
      low_saved = h.low_saved;
      room = omega (arith, h.room_saved);
      room_saved = h.room_saved;
      outside = h.outside;
      short = h.short;
    })
    | inr new ↦ rw new (record {
      low = h.low;
      low_saved = h.low;
      room = h.room;
      room_saved = omega (arith, h.room);
      outside = h.outside;
      short = h.short;
    })
  ]

  get_sequence-Fine :
      (left : ℕ) (l : Link) → Fine region 0 left l → TurnFine region 0 left (get_sequence l)
  unfolding get_sequence
  get_sequence-Fine left l h =
      follow-Fine region 1 0 left (get_summed l)
        (λ c l1. go tt (checkpoint (untochar c) (record l1 { n = untochar c })))
        (get_summed-Fine region left l h)
        (λ c l1 h1.
          checkpoint-Fine left (untochar c) (record l1 { n = untochar c })
            (same region 0 left l1 (record l1 { n = untochar c }) refl refl refl
              (weaken region 1 left l1 h1)))

  get_type-Fine : (left : ℕ) (l : Link) → Fine region 0 left l → TurnFine region 0 left (get_type l)
  unfolding get_type
  get_type-Fine left l h =
      follow-Fine region 1 0 left (get_summed l) (λ c l1. go tt (record l1 { k_state = c }))
        (get_summed-Fine region left l h)
        (λ c l1 h1.
          same region 0 left l1 (record l1 { k_state = c }) refl refl refl
            (weaken region 1 left l1 h1))

  -- A check byte that was read is compared.
  compared :
      {A : Type 0} (left : ℕ) (test : Bool) (a : A) (l l' : Link)
      → Fine region 0 left l'
      → Fine region 0 left l
      → TurnFine region 0 left (if test then go a l' else packet_error l)
  compared left true a l l' h' h = h'
  compared left false a l l' h' h = h

  get_check-Fine :
      (left : ℕ) (l : Link) → Fine region 0 left l → TurnFine region 0 left (get_check l)
  unfolding get_check
  get_check-Fine left l h =
      follow-Fine region 1 0 left (get_checked l)
        (λ c l1. if c == block_check l1.sum then go tt l1 else packet_error l1)
        (get_checked-Fine region left l h)
        (λ c l1 h1.
          compared left (c == block_check l1.sum) tt l1 l1 (weaken region 1 left l1 h1)
            (weaken region 1 left l1 h1))

  get_end-Fine : (left : ℕ) (l : Link) → Fine region 0 left l → TurnFine region 0 left (get_end l)
  unfolding get_end
  get_end-Fine left l h =
      follow-Fine region 1 0 left (get_any l)
        (λ c l1. if c == end_char then go tt l1 else packet_error l1) (get_any-Fine region left l h)
        (λ c l1 h1.
          compared left (c == end_char) tt l1 l1 (weaken region 1 left l1 h1)
            (weaken region 1 left l1 h1))

  get_extended-Fine :
      (left : ℕ) (l : Link) → Fine region 0 left l → TurnFine region 0 left (get_extended l)
  unfolding get_extended
  get_extended-Fine left l h =
      follow-Fine region 1 0 left (get_summed l) _ (get_summed-Fine region left l h) (λ hi l1 h1.
        follow-Fine region 1 0 left (get_summed l1) _
          (get_summed-Fine region left l1 (weaken region 1 left l1 h1))
          (λ lo l2 h2.
            follow-Fine region 1 0 left (get_checked l2)
              (λ c l3.
                if c == block_check l3.sum
                then go (pos (untochar hi * 95 + untochar lo)) (record l3 { sum = l3.sum + c })
                else packet_error l3)
              (get_checked-Fine region left l2 (weaken region 1 left l2 h2))
              (λ c l3 h3.
                compared left (c == block_check l3.sum) (pos (untochar hi * 95 + untochar lo)) l3
                  (record l3 { sum = l3.sum + c })
                  (same region 0 left l3 (record l3 { sum = l3.sum + c }) refl refl refl
                    (weaken region 1 left l3 h3))
                  (weaken region 1 left l3 h3))))

  with_extended-Fine :
      (left : ℕ) (len : ℤ) (l : Link)
      → Fine region 0 left l
      → TurnFine region 0 left (with_extended len l)
  with_extended-Fine left (pos k) l h = h
  with_extended-Fine left (negsuc k) l h = elim (Bool-cases (k == 1)) [
    | inl long ↦ rw long (get_extended-Fine left l h)
    | inr other ↦ rw other h
  ]

  pub get_body-Fine :
      (left : ℕ) (l : Link) → Fine region 0 left l → TurnFine region 0 left (get_body l)
  unfolding get_body
  get_body-Fine left l h =
      follow-Fine region 1 0 left (get_summed l) _ (get_summed-Fine region left l h) (λ c l1 h1.
        follow-Fine region 0 0 left (get_sequence l1) _
          (get_sequence-Fine left l1 (weaken region 1 left l1 h1))
          (λ _ l2 h2.
            follow-Fine region 0 0 left (get_type l2) _ (get_type-Fine left l2 h2) (λ _ l3 h3.
              follow-Fine region 0 0 left (with_extended (sub_ℕ (untochar c) 2) l3) _
                (with_extended-Fine left (sub_ℕ (untochar c) 2) l3 h3)
                (λ len l4 h4.
                  follow-Fine region 0 0 left (get_rest (rounds_above_1 len) l4) _
                    (get_rest-Fine (rounds_above_1 len) left l4 h4)
                    (λ _ l5 h5.
                      follow-Fine region 0 0 left (get_check l5) _ (get_check-Fine left l5 h5)
                        (λ _ l6 h6. get_end-Fine left l6 h6))))))
