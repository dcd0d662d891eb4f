-- ===== src/Kermit/Receive.antt =====
-- common/cmd_boot.c: `k_recv`, which receives the packets, with `load_serial_bin`.
use armboot.Prelude.{
  ℕ, zero, suc, ◌+◌, ◌-◌, ◌*◌, Bool, false, List, [], ◌∷◌, ◌++◌, Option, none, some, ◌==◌, leb,
  if◌then◌else◌, length,
}
use armboot.Prelude.Int.{ℤ, pos, negsuc, sub_ℕ}
use armboot.Kermit.{
  Link, Turn, go, packet_error, waits, M, follow, ◌>>=◌, ◌>>◌, untochar, start_char, end_char,
  k_data_save, k_data_restore, k_data_char, k_data_init, serial_getc, get_any, get_checked,
  get_summed, block_check,
}
use armboot.Kermit.Answer.{send_ack, send_nack, handle_send_packet, default_peer}

-- SEND_TYPE, DATA_TYPE, BREAK_TYPE
abbrev pub send_type : ℕ
send_type = b'S'

abbrev pub data_type : ℕ
data_type = b'D'

abbrev pub break_type : ℕ
break_type = b'B'

-- while (serial_getc() != START_CHAR);
unfoldable pub wait_for_start : List ℕ → M (Unit {0})
wait_for_start [] l = waits (record l { input = [] })
wait_for_start (c ∷ cs) l =
    let rest = wait_for_start cs l in
    if c == start_char then go tt (record l { input = cs }) else rest

-- The comparison with `last_n`, which begins at -1.
abbrev pub repeats : ℕ → Option ℕ → Bool
repeats n none = false
repeats n (some m) = n == m

-- the new code that checks sequence numbers for retried packets
unfoldable pub checkpoint : ℕ → Link → Link
unfolding k_data_restore k_data_save
checkpoint n l =
    if repeats n l.last_n
    then record l { k_state = l.k_state_saved; sink = k_data_restore l.saved l.sink }
    else record l { last_n = some n; k_state_saved = l.k_state; saved = k_data_save l.sink }

-- the sequence number and the checkpoint
unfoldable pub get_sequence : M (Unit {0})
unfolding checkpoint get_summed
get_sequence = do c ← get_summed; λ l. go tt (checkpoint (untochar c) (record l { n = untochar c }))

unfoldable pub get_type : M (Unit {0})
unfolding get_summed
get_type = do c ← get_summed; λ l. go tt (record l { k_state = c })

-- The extended length behind a length byte of 0, with the header's checksum.
unfoldable pub get_extended : M ℤ
unfolding get_summed get_checked
get_extended = do
  hi ← get_summed
  lo ← get_summed
  c ← get_checked
  λ l.
      (if c == block_check l.sum
        then go (pos (untochar hi * 95 + untochar lo)) (record l { sum = l.sum + c })
        else packet_error l)

-- if (length == -2)
abbrev pub with_extended : ℤ → M ℤ
with_extended (pos len) l = go (pos len) l
with_extended (negsuc k) l = if k == 1 then get_extended l else go (negsuc k) l

-- *send_ptr++ = new_char; if (send_ptr >= &send_parms[SEND_DATA_SIZE]) --send_ptr;
abbrev pub keep_parm : ℕ → List ℕ → List ℕ
keep_parm c parms = if leb 20 (length parms + 1) then parms else parms ++ c ∷ []

unfoldable pub take_in : ℕ → Link → Link
unfolding k_data_char
take_in c l =
    if l.k_state == data_type
    then record l { sink = k_data_char l.peer.quote c l.sink }
    else if l.k_state == send_type
    then record l { parms = keep_parm c l.parms }
    else l

-- while (length > 1), by the rounds left
unfoldable pub get_rest : ℕ → M (Unit {0})
unfolding get_summed take_in
get_rest zero l = go tt l
get_rest (suc k) l = (do c ← get_summed; λ l1. get_rest k (take_in c l1)) l

abbrev pub rounds_above_1 : ℤ → ℕ
rounds_above_1 (pos len) = len - 1
rounds_above_1 (negsuc k) = 0

unfoldable pub get_check : M (Unit {0})
unfolding get_checked
get_check = do c ← get_checked; λ l. (if c == block_check l.sum then go tt l else packet_error l)

unfoldable pub get_end : M (Unit {0})
unfolding serial_getc
get_end = do c ← get_any; λ l. (if c == end_char then go tt l else packet_error l)

-- send_ptr = send_parms; … sum = 0;
abbrev pub begin_packet : Link → Link
begin_packet l = record l { parms = []; sum = 0 }

-- From the length byte to END_CHAR.
unfoldable pub get_body : M (Unit {0})
unfolding get_summed get_sequence get_type get_rest get_check get_end
get_body = do
  c ← get_summed
  get_sequence
  get_type
  len ← with_extended (sub_ℕ (untochar c) 2)
  get_rest (rounds_above_1 len)
  get_check
  get_end

unfoldable pub get_packet : M (Unit {0})
unfolding wait_for_start get_body
get_packet l = follow (wait_for_start l.input (begin_packet l)) (λ _. get_body)

-- The label `packet_error`, and the branches beside it: the flag is `done`.
unfoldable pub refuse : Link → Link
unfolding k_data_restore send_nack
refuse l =
    send_nack l.n (record l { k_state = l.k_state_saved; sink = k_data_restore l.saved l.sink })

unfoldable pub accept : Link → Link × Bool
unfolding handle_send_packet send_ack
accept l =
    if l.k_state == send_type
    then (handle_send_packet l.n l, false)
    else (send_ack l.n l, l.k_state == break_type)

-- `waiting` is a run that waits for input for ever.
pub data Outcome : Type 0 where
  finished : Link → Outcome
  waiting : Link → Outcome
  no_fuel : Outcome

-- The end of a round of the main loop, given the rounds that follow.
abbrev pub proceed : (Link → Outcome) → Turn (Unit {0}) → Outcome
proceed next (go _ l) =
    let (l', finish) = accept l in let rest = next l' in if finish then finished l' else rest
proceed next (packet_error l) = next (refuse l)
proceed next (waits l) = waiting l

unfoldable pub main_loop : ℕ → Link → Outcome
unfolding get_packet refuse accept
main_loop zero l = no_fuel
main_loop (suc fuel) l = proceed (main_loop fuel) (get_packet l)

-- The state behind the initialisation; `memory` is that before the download.
unfoldable pub initial : ℕ → List ℕ → (ℕ → ℕ) → Link
unfolding k_data_init k_data_save
initial bin_start_address input memory =
    let sink =
      k_data_init bin_start_address
        (record { os_state = 0; os_count = 0; os_addr = 0; escape = false; memory = memory }) in
    record {
      input = input;
      output = [];
      peer = default_peer;
      sink = sink;
      saved = k_data_save sink;
      k_state = 0;
      k_state_saved = 0;
      sum = 0;
      n = 0;
      last_n = none;
      parms = [];
    }

-- `k_recv` behind `set_kerm_bin_mode(offset)`, as `load_serial_bin` calls it. Each packet takes a
-- byte from the input at least.
unfoldable pub load_serial_bin : ℕ → List ℕ → (ℕ → ℕ) → Outcome
unfolding main_loop initial
load_serial_bin offset input memory = main_loop (suc (length input)) (initial offset input memory)
