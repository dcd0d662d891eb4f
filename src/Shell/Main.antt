-- ===== src/Shell/Main.antt =====
-- common/main.c: `main_loop`, over `readline`, `run_command` and `abortboot`; without
-- CONFIG_BOOT_RETRY_TIME and CONFIG_PREBOOT.
pub mod Repeat
use armboot.Prelude.{
  ℕ, zero, suc, ◌+◌, ◌-◌, ◌^◌, ◌%◌, Bool, true, false, not, ◌&&◌, List, [], ◌∷◌, ◌++◌, Option, none,
  some, ◌==◌, ltb, if◌then◌else◌, length, Exec, done, fault, blocked, ◌>>=◌,
}
use armboot.Prelude.Int.{ℤ, pos, negsuc, is_negative}
use armboot.Memory.{load}
use armboot.CString.{CString, simple_strtoul}
use armboot.Env.{string_at}
use armboot.Shell.Readline.{Answer, Line, readline}
use armboot.Shell.Run.{Command, run_command}

-- `simple_strtol(s, NULL, 10)`, as an int
abbrev to_int : ℕ → ℤ
to_int n = if ltb n (2 ^ 31) then pos n else negsuc (2 ^ 32 - 1 - n)

abbrev minus_of : ℕ → ℕ
minus_of n = (2 ^ 32 - n) % 2 ^ 32

unfoldable pub strtol_10 : CString → ℤ
unfolding simple_strtoul
strtol_10 [] = to_int (simple_strtoul [] 10).0
strtol_10 (c ∷ cs) =
    if c == b'-'
    then to_int (minus_of (simple_strtoul cs 10).0)
    else to_int (simple_strtoul (c ∷ cs) 10).0

-- bootdelay = s ? (int)simple_strtol(s, NULL, 10) : 0
unfoldable pub delay_of : Option CString → ℤ
unfolding strtol_10
delay_of none = pos 0
delay_of (some s) = strtol_10 s

-- The console, its buffer, `lastcommand`, `rc` and the state of the board.
pub record Monitor (S : Type 0) : Type 0 where
  pub console : List ℕ
  pub output : List ℕ
  pub console_buffer : List ℕ
  pub lastcommand : CString
  pub rc : ℤ
  pub board : S

-- rc <= 0
abbrev pub is_positive : ℤ → Bool
is_positive (pos zero) = false
is_positive (pos (suc n)) = true
is_positive (negsuc n) = false

abbrev pub bootdelay_name : CString
bootdelay_name = b'b' ∷ b'o' ∷ b'o' ∷ b't' ∷ b'd' ∷ b'e' ∷ b'l' ∷ b'a' ∷ b'y' ∷ []

abbrev pub bootcmd_name : CString
bootcmd_name = b'b' ∷ b'o' ∷ b'o' ∷ b't' ∷ b'c' ∷ b'm' ∷ b'd' ∷ []

-- if (rc <= 0) lastcommand[0] = 0;
abbrev pub forget : {S : Type 0} → Monitor S → Monitor S
forget m = if is_positive m.rc then m else record m { lastcommand = [] }

abbrev pub with_result : {S : Type 0} → Monitor S → ℤ × S → Exec (Monitor S)
with_result m (rc, s) = done (forget (record m { rc = rc; board = s }))

abbrev pub with_answer : {S : Type 0} → Monitor S → Answer → Monitor S
with_answer m a = record m {
  console = a.console;
  output = a.line.screen.output;
  console_buffer = a.line.buffer;
}

module _ {S : Type 0} (size maxargs : ℕ) (table : List Command) (prompt : CString)
    (lookup : S → CString → Exec (Option CString))
    (execute : Bool → Command → Bool → List CString → S → S) (had_ctrlc : S → Bool)
    (clear_ctrlc : S → S) (stale : List ℕ) where
  -- `execute` is also told of CMD_FLAG_REPEAT, the first flag.
  unfoldable pub run : Bool → CString → S → Exec (ℤ × S)
  run repeat cmd s =
      run_command size maxargs table lookup (execute repeat) had_ctrlc clear_ctrlc stale (some cmd)
        false s

  -- From `flag = 0` on, by what `readline` has returned; `m` has the line in its buffer.
  unfoldable pub after_line : ℤ → Monitor S → Exec (Monitor S)
  unfolding run
  after_line (pos zero) m = run true m.lastcommand m.board >>= λ r. with_result m r
  after_line (pos (suc n)) m = do
    line ← string_at (load m.console_buffer) (suc (length m.console_buffer)) 0
    r ← run false line m.board
    with_result (record m { lastcommand = line }) r
  after_line (negsuc n) m = done (forget m)

  -- One round of `for (;;)`.
  unfoldable pub main_round : Monitor S → Exec (Monitor S)
  unfolding after_line readline
  main_round m = do
    a ← readline size prompt m.console_buffer m.output m.console
    after_line a.code (with_answer m a)

  -- So many rounds; the loop itself has no end.
  unfoldable pub main_rounds : ℕ → Monitor S → Exec (Monitor S)
  unfolding main_round
  main_rounds zero m = done m
  main_rounds (suc n) m = main_round m >>= λ m'. main_rounds n m'

  -- The part before the loop: `abort` is what `abortboot` returns for a delay.
  abbrev pub autorun : (ℤ → Bool) → ℤ → Option CString → S → Exec S
  autorun abort delay none s = done s
  autorun abort delay (some cmd) s =
      if not (is_negative delay) && not (abort delay)
      then (run false cmd s >>= λ r. done r.1)
      else done s

  unfoldable pub autoboot : (ℤ → Bool) → S → Exec S
  unfolding delay_of run
  autoboot abort s = do
    delay ← lookup s bootdelay_name
    command ← lookup s bootcmd_name
    autorun abort (delay_of delay) command s
