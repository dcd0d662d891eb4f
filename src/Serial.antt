-- ===== src/Serial.antt =====
-- common/cmd_boot.c: the download of S-records by `loads`: `read_record`, `load_serial` and
-- `do_load_serial` (without CFG_LOADS_BAUD_CHANGE), with `ctrlc` of common/console.c. The console is
-- the serial line itself. `start_addr`, `end_addr`, `line_count` and the echo are only printed.
pub mod Text
pub mod Lines
pub mod Records
pub mod Polls
mod Tests
use armboot.Prelude.{
  ℕ, zero, suc, ◌+◌, ◌-◌, ◌%◌, ◌^◌, Bool, true, false, ◌&&◌, not, ◌||◌, List, [], ◌∷◌, ◌++◌, Option,
  none, some, Exec, done, fault, blocked, ◌>>=◌, ◌==◌, ltb, if◌then◌else◌, length,
}
use armboot.Prelude.Int.{ℤ, pos, negsuc}
use armboot.CString.{CString, simple_strtoul}
use armboot.Srec.{
  Status, start, data2, data3, data4, count_record, end4, end3, end2, empty, bad_type, no_srec,
  bad_chks, Decoder, Step, go, ret, srec_decode,
}
use armboot.Flash.{Bank}
use armboot.Flash.Write.{addr2info, is_error, flash_write}

-- A byte of the line, and whether it is waiting there when the line is polled before it is read.
pub record Byte : Type 0 where
  pub code : ℕ
  pub waiting : Bool

-- `ctrlc()`: a byte that waits is read, and thrown away if it is not ^C.
unfoldable pub ctrlc : List Byte → Bool × List Byte
ctrlc [] = (false, [])
ctrlc (b ∷ bs) = if b.waiting then (b.code == 3, bs) else (false, b ∷ bs)

-- What `read_record` returns: the record in the buffer, whose length is the result, or -1.
pub data Reading : Type 0 where
  line : CString → Reading
  stop : Reading

abbrev is_end_of_line : ℕ → Bool
is_end_of_line c = c == b'\r' || c == b'\n'

abbrev is_abort : ℕ → Bool
is_abort c = c == 0 || c == 3

-- The end of a round of the loop: `next` is the rounds that follow, and is given the line behind
-- the byte.
abbrev pub polled :
    (List Byte → Exec (Reading × List Byte)) → Bool × List Byte → Exec (Reading × List Byte)
polled next (true, bs) = done (stop, bs)
polled next (false, bs) = next bs

-- for (p=buf; p < buf+len; ++p), by the rounds left; `out` is what stands in the buffer.
unfoldable pub read_chars : ℕ → CString → List Byte → Exec (Reading × List Byte)
unfolding ctrlc
read_chars zero out bs = done (line out, bs)
read_chars (suc len) out [] = blocked
read_chars (suc len) out (b ∷ bs) =
    let next = polled (read_chars len (out ++ b.code ∷ [])) (ctrlc bs) in
    if is_end_of_line b.code
    then done (line out, bs)
    else if is_abort b.code
    then done (stop, bs)
    else next

-- SREC_MAXRECLEN
abbrev pub max_rec_len : ℕ
max_rec_len = 516

-- The room for the NUL is left.
unfoldable pub read_record : List Byte → ℕ → Exec (Reading × List Byte)
unfolding read_chars
read_record bs len = read_chars (len - 1) [] bs

-- `binlen` as the `size_t` of memcpy and the `ulong` of flash_write
abbrev pub to_ulong : ℤ → ℕ
to_ulong (pos n) = n
to_ulong (negsuc n) = 2 ^ 32 - (n + 1)

-- memcpy((char *)store_addr, binbuf, binlen), where `src` is what is in `binbuf`
unfoldable pub copy_out : ℕ → List ℕ → ℕ → (ℕ → ℕ) → Exec (ℕ → ℕ)
copy_out zero src p m = done m
copy_out (suc count) [] p m = fault
copy_out (suc count) (c ∷ src) p m =
    copy_out count src ((p + 1) % 2 ^ 32) (λ a. if a == p then c else m a)

-- ~0
abbrev pub all_ones : ℕ
all_ones = 2 ^ 32 - 1

-- The memory, and the flash with its banks.
pub record Store (S : Type 0) : Type 0 where
  pub memory : ℕ → ℕ
  pub flash : S

-- A line goes on with a store, or the function returns.
pub data Turn (S : Type 0) : Type 0 where
  further : Store S → Turn S
  return : ℕ → Store S → Turn S

-- What is left of the line, the result and the store.
abbrev pub Loaded : Type 0 → Type 0
Loaded S = List Byte × ℕ × Store S

abbrev pub written : {S : Type 0} → Store S → ℤ × S → Turn S
written st (rc, flash) =
    if is_error rc
    then return all_ones (record st { flash = flash })
    else further (record st { flash = flash })

abbrev pub copied : {S : Type 0} → Store S → Exec (ℕ → ℕ) → Exec (Turn S)
copied st (done m) = done (further (record st { memory = m }))
copied st fault = fault
copied st blocked = blocked

abbrev pub carry_on :
    {S : Type 0}
    → (Decoder → Store S → Exec (Loaded S))
    → List Byte
    → Decoder × Turn S
    → Exec (Loaded S)
carry_on next bs (d, further st) = next d st
carry_on next bs (d, return r st) = done (bs, r, st)

module _ {S : Type 0} (write_buff : ℕ → List ℕ → ℕ → ℕ → S → ℤ × S) (banks : List Bank)
    (offset : ℕ) where
  -- the case of the data records
  abbrev pub store_in : Decoder → ℕ → Option ℕ → Store S → Exec (Turn S)
  store_in d store_addr none st =
      copied st (copy_out (to_ulong d.count) d.bytes store_addr st.memory)
  store_in d store_addr (some _) st =
      done
        (written st (flash_write write_buff banks d.bytes store_addr (to_ulong d.count) st.flash))

  unfoldable pub store_record : Decoder → Store S → Exec (Turn S)
  unfolding copy_out addr2info flash_write
  store_record d st =
      let store_addr = (d.addr + offset) % 2 ^ 32 in
      store_in d store_addr (addr2info 0 banks store_addr) st

  -- `if (type < 0)` and the switch
  unfoldable pub take_record : Status → Decoder → Store S → Exec (Turn S)
  unfolding store_record
  take_record data2 d st = store_record d st
  take_record data3 d st = store_record d st
  take_record data4 d st = store_record d st
  take_record end4 d st = done (return d.addr st)
  take_record end3 d st = done (return d.addr st)
  take_record end2 d st = done (return d.addr st)
  take_record start d st = done (further st)
  take_record count_record d st = done (further st)
  take_record empty d st = done (further st)
  take_record bad_type d st = done (return all_ones st)
  take_record no_srec d st = done (return all_ones st)
  take_record bad_chks d st = done (return all_ones st)

  abbrev pub decoded : Step Status → Store S → Exec (Decoder × Turn S)
  decoded (go t d) st = take_record t d st >>= λ turn. done (d, turn)
  decoded (ret t d) st = take_record t d st >>= λ turn. done (d, turn)

  -- A round of the loop; `next` is the rounds that follow.
  abbrev pub with_reading :
      (List Byte → Decoder → Store S → Exec (Loaded S))
      → Decoder
      → Store S
      → Reading × List Byte
      → Exec (Loaded S)
  with_reading next d st (stop, bs) = done (bs, all_ones, st)
  with_reading next d st (line record_text, bs) =
      decoded (srec_decode record_text d) st >>= λ r. carry_on (next bs) bs r

  -- Each record takes a byte from the line; running out of fuel is a fault.
  unfoldable pub load_lines : ℕ → List Byte → Decoder → Store S → Exec (Loaded S)
  unfolding read_record take_record srec_decode
  load_lines zero bs d st = fault
  load_lines (suc fuel) bs d st =
      read_record bs (max_rec_len + 1) >>= λ r. with_reading (load_lines fuel) d st r

  -- `d` is what the locals hold before they are set.
  unfoldable pub load_serial : List Byte → Decoder → Store S → Exec (Loaded S)
  unfolding load_lines
  load_serial bs d st = load_lines (suc (length bs)) bs d st

-- The loop behind the download: a byte that waits is thrown away, 100 times at most.
unfoldable pub drain : ℕ → List Byte → List Byte
drain zero bs = bs
drain (suc k) [] = []
drain (suc k) (b ∷ bs) = drain k (if b.waiting then bs else b ∷ bs)

-- `argv[1]` of two arguments
unfoldable pub offset_of : List CString → ℕ
unfolding simple_strtoul
offset_of (_ ∷ arg ∷ []) = (simple_strtoul arg 16).0
offset_of _ = 0

-- The line that is left, `load_addr` and the store.
abbrev pub finish : {S : Type 0} → ℕ → Loaded S → Loaded S
finish load_addr (bs, addr, st) = (drain 100 bs, (if addr == all_ones then load_addr else addr), st)

module _ {S : Type 0} (write_buff : ℕ → List ℕ → ℕ → ℕ → S → ℤ × S) (banks : List Bank) where
  unfoldable pub do_load_serial : List CString → List Byte → Decoder → ℕ → Store S → Exec (Loaded S)
  unfolding load_serial offset_of drain
  do_load_serial argv bs d load_addr st =
      load_serial write_buff banks (offset_of argv) bs d st >>= λ r. done (finish load_addr r)
