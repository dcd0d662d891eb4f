-- ===== src/Shell/Main/Repeat.antt =====
-- common/main.c: an empty line behind a command, in `main_loop`.
use armboot.Prelude.{
  ℕ, suc, ◌≡◌, ◌∙◌, refl, ap, sym, Bool, true, false, List, [], Option, Bool-cases, inl, inr,
  if◌then◌else◌, length, Exec, done, ◌>>=◌, bind-done,
}
use armboot.Prelude.Int.{ℤ, pos, negsuc}
use armboot.Memory.{load}
use armboot.CString.{CString, strlen}
use armboot.Env.{string_at}
use armboot.Shell.Readline.{Answer, readline}
use armboot.Shell.Run.{Command, run_command}
use armboot.Shell.Main.{
  Monitor, is_positive, forget, run, with_result, after_line, with_answer, main_round, main_rounds,
}

bind_to_done : {A : Type 0} (x : Exec A) → (x >>= λ a. done a) ≡ x
bind_to_done (done a) = refl
bind_to_done Exec.fault = refl
bind_to_done Exec.blocked = refl

-- The monitor behind a line with its command.
abbrev pub behind : {S : Type 0} → Monitor S → Answer → CString → ℤ → S → Monitor S
behind m a line rc s = record (with_answer m a) {
  lastcommand = (if is_positive rc then line else []);
  rc = rc;
  board = s;
}

module _ {S : Type 0} (size maxargs : ℕ) (table : List Command) (prompt : CString)
    (lookup : S → CString → Exec (Option CString))
    (execute : Bool → Command → Bool → List CString → S → S) (had_ctrlc : S → Bool)
    (clear_ctrlc : S → S) (stale : List ℕ) where
  abbrev pub runs : Bool → CString → S → Exec (ℤ × S)
  runs = run size maxargs table prompt lookup execute had_ctrlc clear_ctrlc stale

  after_code :
      (m : Monitor S) (a : Answer) {code : ℤ}
      → readline size prompt m.console_buffer m.output m.console ≡ done a
      → a.code ≡ code
      → main_round size maxargs table prompt lookup execute had_ctrlc clear_ctrlc stale m
        ≡ after_line size maxargs table prompt lookup execute had_ctrlc clear_ctrlc stale code
            (with_answer m a)
  unfolding main_round
  after_code m a e c =
      bind-done
        (λ x.
          after_line size maxargs table prompt lookup execute had_ctrlc clear_ctrlc stale x.code
            (with_answer m x))
        e
      ∙ ap
          (λ k.
            after_line size maxargs table prompt lookup execute had_ctrlc clear_ctrlc stale k
              (with_answer m a))
          c

  nothing_run : (repeat : Bool) (s : S) → runs repeat [] s ≡ done (negsuc 0, clear_ctrlc s)
  unfolding run run_command strlen
  nothing_run repeat s = refl

  forgotten :
      (m : Monitor S) (a : Answer) (line : CString) (rc : ℤ) (s : S)
      → forget (record (with_answer m a) { lastcommand = line; rc = rc; board = s })
        ≡ behind m a line rc s
  forgotten m a line rc s = elim (Bool-cases (is_positive rc)) [
    | inl e ↦ rw e refl
    | inr e ↦ rw e refl
  ]

  line_run :
      (m : Monitor S) (a : Answer) (n : ℕ) (line : CString) (rc : ℤ) (s : S)
      → readline size prompt m.console_buffer m.output m.console ≡ done a
      → a.code ≡ pos (suc n)
      → string_at (load a.line.buffer) (suc (length a.line.buffer)) 0 ≡ done line
      → runs false line m.board ≡ done (rc, s)
      → main_round size maxargs table prompt lookup execute had_ctrlc clear_ctrlc stale m
        ≡ done (behind m a line rc s)
  unfolding after_line
  line_run m a n line rc s read code text ran =
      after_code m a read code
      ∙ bind-done
          (λ l. runs false l m.board >>= λ r.
            with_result (record (with_answer m a) { lastcommand = l }) r)
          text
      ∙ bind-done (λ r. with_result (record (with_answer m a) { lastcommand = line }) r) ran
      ∙ ap done (forgotten m a line rc s)

  -- The second line, by whether the first command may be repeated.
  empty_line :
      (again : Bool) (m : Monitor S) (line : CString) (rc : ℤ) (s : S)
      → ((if again then line else []) ≡ m.lastcommand)
      → m.board ≡ s
      → after_line size maxargs table prompt lookup execute had_ctrlc clear_ctrlc stale (pos 0) m
        ≡ (if again
            then (runs true line s >>= λ r. with_result m r)
            else done (record m { lastcommand = []; rc = negsuc 0; board = clear_ctrlc s }))
  unfolding after_line
  empty_line true m line rc s last board = rw (← last, board) refl
  empty_line false m line rc s last board =
      ap (λ c. runs true c m.board >>= λ r. with_result m r) (sym last)
      ∙ (bind-done (λ r. with_result m r) (nothing_run true m.board)
          ∙ ap (λ b. done (record m { lastcommand = []; rc = negsuc 0; board = clear_ctrlc b }))
              board)

  -- A line is entered that is not empty, its command runs to an end, and then an empty line is
  -- entered. If the result of the command was positive, the command is run again, with the flag for
  -- a repetition; if not, nothing is run: what is remembered is forgotten, and so is a Control-C
  -- that was typed, and but for that the board is as the command left it.
  pub main_rounds-empty_line :
      (m : Monitor S) (a b : Answer) (n : ℕ) (line : CString) (rc : ℤ) (s : S)
      → readline size prompt m.console_buffer m.output m.console ≡ done a
      → a.code ≡ pos (suc n)
      → string_at (load a.line.buffer) (suc (length a.line.buffer)) 0 ≡ done line
      → runs false line m.board ≡ done (rc, s)
      → readline size prompt a.line.buffer a.line.screen.output a.console ≡ done b
      → b.code ≡ pos 0
      → main_rounds size maxargs table prompt lookup execute had_ctrlc clear_ctrlc stale 2 m ≡ (
          if is_positive rc
          then (runs true line s >>= λ r. with_result (with_answer (behind m a line rc s) b) r)
          else done (record (with_answer (behind m a line rc s) b) {
            lastcommand = [];
            rc = negsuc 0;
            board = clear_ctrlc s;
          }))
  unfolding main_rounds
  main_rounds-empty_line m a b n line rc s read code text ran again empty =
      let m1 = behind m a line rc s in
      bind-done
        (λ m'.
          main_round size maxargs table prompt lookup execute had_ctrlc clear_ctrlc stale m'
          >>= λ m''. done m'')
        (line_run m a n line rc s read code text ran)
      ∙ (bind_to_done
            (main_round size maxargs table prompt lookup execute had_ctrlc clear_ctrlc stale m1)
          ∙ (after_code m1 b again empty
              ∙ empty_line (is_positive rc) (with_answer m1 b) line rc s refl refl))
