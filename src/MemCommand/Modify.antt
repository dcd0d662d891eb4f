-- ===== src/MemCommand/Modify.antt =====
-- `mod_mem` of common/cmd_mem.c, which `do_mem_mm` and `do_mem_nm` call. What `readline` leaves in
-- the console buffer is a list of lines; `none` is a line that was broken off, which is empty then.
-- CONFIG_BOOT_RETRY_TIME is not modelled.
use armboot.Prelude.{
  ℕ, ◌-◌, ◌*◌, ◌%◌, ◌^◌, Bool, true, false, List, [], ◌∷◌, Option, none, some, ◌==◌, if◌then◌else◌,
  drop, length, Exec, done, blocked, ◌>>=◌,
}
use armboot.CString.{CString, simple_strtoul}
use armboot.MemCommand.{Bus, size_of, next, address}

-- mm_last_addr and mm_last_size, which is 1, 2 or 4 behind the first command
pub record Last : Type 0 where
  pub addr : ℕ
  pub size : ℕ

-- With CMD_FLAG_REPEAT the last values are used.
abbrev pub started : Bool → ℕ → CString → CString → Last → Last
started repeat base name arg last =
    if repeat then last else record { addr = address base arg; size = size_of (drop 2 name) }

abbrev pub advanced : Bool → Last → Last
advanced incrflag l = if incrflag then record l { addr = next l.addr l.size } else l

module _ {M : Type 0} (bus : Bus M) (incrflag : Bool) where
  abbrev pub modified : Last → ℕ → M → M
  modified l i m = bus.write l.size l.addr (i % 2 ^ (8 * l.size)) m

  -- Is no character of the line part of a number?
  abbrev pub unread : CString → CString → Bool
  unread line endp = length line - length endp == 0

  -- do { … } while (nbytes)
  unfoldable pub modify : List (Option CString) → Last → M → Exec (Last × M)
  unfolding simple_strtoul
  modify [] l m = blocked
  modify (none ∷ lines) l m = done (l, m)
  modify (some [] ∷ lines) l m = modify lines (advanced incrflag l) m
  modify (some (c ∷ cs) ∷ lines) l m =
      let (i, endp) = simple_strtoul (c ∷ cs) 16 in
      let more = modify lines (advanced incrflag l) (modified l i m) in
      if unread (c ∷ cs) endp then done (l, m) else more

  unfoldable pub mod_mem :
      Bool → ℕ → List CString → List (Option CString) → Last → M → Exec (ℕ × Last × M)
  unfolding modify size_of simple_strtoul
  mod_mem repeat base (name ∷ arg ∷ []) lines last m = do
    (last', m') ← modify lines (started repeat base name arg last) m
    done (0, last', m')
  mod_mem repeat base _ lines last m = done (1, last, m)

abbrev pub do_mem_mm :
    {M : Type 0}
    → Bus M
    → Bool
    → ℕ
    → List CString
    → List (Option CString)
    → Last
    → M
    → Exec (ℕ × Last × M)
do_mem_mm bus = mod_mem bus true

abbrev pub do_mem_nm :
    {M : Type 0}
    → Bus M
    → Bool
    → ℕ
    → List CString
    → List (Option CString)
    → Last
    → M
    → Exec (ℕ × Last × M)
do_mem_nm bus = mod_mem bus false
