-- ===== src/Shell/Tests.antt =====
-- The shell's definitions and theorems on concrete input.
mod Texts
use Prim.Native.Char.{code}
use Prim.Native.String.{String}
use armboot.Prelude.{
  ℕ, ◌≤◌, ◌≡◌, ◌⊎◌, refl, true, false, List, [], ◌∷◌, ◌++◌, Option, none, some, arith, length, take,
  ltb, Bool, Exec, done, fault, ◌+◌, ◌%◌, suc, if◌then◌else◌, ◌>>=◌,
}
use armboot.Memory.{load, store}
use armboot.Prelude.Int.{pos, negsuc}
use armboot.CString.{CString}
use armboot.Env.{Board, Config, env_char, getenv_value, string_at}
use armboot.Env.Image.{Entry, encode, lookup, same}
use armboot.Env.Lookup.{Visible}
use armboot.Shell.Readline.{Answer, readline, read_keys, key, insert, echo}
use armboot.Shell.Readline.Editor.{edit, entered}
use armboot.Shell.Readline.Keys.{Agrees, readline-edit}
use armboot.Shell.Parse.{Arguments, parse_line, parse_args, cut_word, skip_blanks, skip_word}
use armboot.Shell.Parse.Words.{words}
use armboot.Shell.Parse.Cut.{parse_line-words}
use armboot.Shell.Parse.Cut.Word.{Holds}
use armboot.Shell.Macros.{process_macros, scan, scan_next, scan_all}
use armboot.Shell.Macros.Template.{Piece, letter, variable}
use armboot.Shell.Macros.Expand.{process_macros-environment}
use armboot.CString.{strncmp, strlen, simple_strtoul, prefix, read_digits}
use armboot.Env.Image.{IsName}
use armboot.Shell.Run.{
  Command, find_cmd, run_token, run_tokens, run_command, dispatch, do_run, call, cut_token,
  strings_at,
}
use armboot.Shell.Run.Table.{AreNames, IsFirst, find_cmd-IsFirst}
use armboot.Shell.Run.Outcome.{run_token-words}
use armboot.Shell.Run.Loop.{AreBlanks, run_tokens-fuel, run_command-blank, do_run-first_only}
use armboot.Shell.Macros.Room.{process_macros-le-size}
use armboot.Shell.Autoboot.{watch, from_start, abortboot_keyed, abortboot}
use armboot.Shell.Autoboot.Keyed.{typed, abortboot_keyed-stop_key}
use armboot.Shell.Main.{Monitor, is_positive, run, with_result, with_answer, main_rounds, delay_of}
use armboot.Shell.Main.Repeat.{runs, behind, main_rounds-empty_line}
use armboot.Shell.Tests.Texts.{codes, blank_buffer, command}

-- Two commands that count the calls, and a board with no variables.
abbrev md : Command
md = record { name = codes "md"; lmin = 2; maxargs = 4; repeatable = true; is_bootd = false }

abbrev table : List Command
table =
    md
    ∷ record { name = codes "mdx"; lmin = 3; maxargs = 1; repeatable = false; is_bootd = false }
    ∷ []

abbrev unset : ℕ → CString → Exec (Option CString)
unset _ _ = done none

abbrev count : Command → Bool → List CString → ℕ → ℕ
count _ _ _ calls = calls + 1

-- 100 stands for a Control-C that has been seen.
abbrev seen : ℕ → Bool
seen s = ltb 99 s

abbrev forget_ctrlc : ℕ → ℕ
forget_ctrlc s = s % 100

names_are_strings : AreNames table
unfolding AreNames
names_are_strings = omega arith

mdx-IsFirst : IsFirst (codes "mdx") table (find_cmd (codes "mdx") table)
mdx-IsFirst = find_cmd-IsFirst (codes "mdx") table (omega arith) names_are_strings

first_is_md : find_cmd (codes "mdx") table ≡ some md
unfolding find_cmd strncmp
first_is_md = refl

no_values : (name : CString) → IsName name → unset 0 name ≡ done none
no_values name h = refl

run_token-words_example :
    run_token 64 16 table unset count seen [] (codes "md 1$(x)") false true 0
    ≡ dispatch 64 16 table unset count seen (take 16 (words (codes "md 1"))) false true 0
run_token-words_example =
    run_token-words 64 16 table unset count seen (λ _. none)
      (letter b'm' ∷ letter b'd' ∷ letter b' ' ∷ letter b'1' ∷ variable (codes "x") ∷ []) [] false
      true 0 no_values (omega arith) (omega arith) (omega arith) (omega arith)

run_tokens-fuel_example :
    run_tokens 64 16 table unset count seen 9 [] (codes "md; md") false true 0
    ≡ run_tokens 64 16 table unset count seen 7 [] (codes "md; md") false true 0
run_tokens-fuel_example =
    run_tokens-fuel 64 16 table unset count seen 9 7 [] (codes "md; md") false true 0 (omega arith)
      (omega arith)

two_blanks : AreBlanks (codes "  ")
unfolding AreBlanks
two_blanks = (refl, (refl, tt))

forgotten :
    run_command 64 16 table unset count seen forget_ctrlc [] (some []) false 107
    ≡ done (negsuc 0, 7)
unfolding run_command strlen
forgotten = refl

blank_line :
    run_command 64 16 table unset count seen forget_ctrlc [] (some (codes "  ")) false 0 ≡ fault
blank_line =
    run_command-blank 64 16 table unset count seen forget_ctrlc (λ _. none) [] b' ' (b' ' ∷ [])
      false 0 no_values two_blanks (omega arith)

-- Two variables, of which each has the command line "md".
abbrev both_md : ℕ → CString → Exec (Option CString)
both_md _ _ = done (some (codes "md"))

md_runs :
    run_command 64 16 table both_md count seen forget_ctrlc [] (some (codes "md")) false 0
    ≡ done (pos 1, 1)
unfolding run_command run_tokens run_token dispatch call find_cmd strncmp strlen cut_token
    process_macros scan_all scan_next scan strings_at parse_line parse_args cut_word skip_blanks
    skip_word string_at load store
md_runs = refl

first_alone :
    do_run 64 16 table both_md count seen forget_ctrlc [] (codes "a" ∷ codes "b" ∷ []) false 0
    ≡ done (pos 1, 1)
first_alone =
    do_run-first_only 64 16 table both_md count seen forget_ctrlc [] (codes "a") (codes "b" ∷ [])
      false 0 refl md_runs

-- The stop key "stop" behind an 's' and with a pause in it, and one round more.
no_variables : CString → Exec (Option CString)
no_variables _ = done none

abortboot_keyed-stop_key_example :
    abortboot_keyed no_variables none (some (codes "stop")) (
      (some b's' ∷ [])
      ++ ((some b's' ∷ some b't' ∷ none ∷ some b'o' ∷ some b'p' ∷ []) ++ none ∷ []))
    ≡ done true
unfolding no_variables typed
abortboot_keyed-stop_key_example =
    abortboot_keyed-stop_key no_variables none (some (codes "stop")) none none b's' (codes "top")
      (some b's' ∷ []) (some b's' ∷ some b't' ∷ none ∷ some b'o' ∷ some b'p' ∷ []) [] none
      (λ e. absurd (omega (arith, e))) (omega arith) refl refl refl refl

-- A key that begins with a character twice is missed behind a third one.
missed_key :
    watch none
      (from_start (some (codes "aab")))
      (some b'a' ∷ some b'a' ∷ some b'a' ∷ some b'b' ∷ none ∷ [])
    ≡ false
unfolding watch
missed_key = refl

-- Without the keys: a key in the second that is waited for, and one that comes too late.
key_in_time :
    (abortboot false (pos 1) (false ∷ true ∷ []) ≡ true)
    × (abortboot false (pos 0) (true ∷ []) ≡ false)
    × (abortboot true (pos 0) (true ∷ []) ≡ true)
unfolding abortboot
key_in_time = (refl, refl, refl)

delays : (delay_of (some (codes "-1")) ≡ negsuc 0) × (delay_of (some (codes "5")) ≡ pos 5)
unfolding delay_of simple_strtoul prefix read_digits
delays = (refl, refl)

-- "md", Enter, Enter.
abbrev md_twice : Monitor ℕ
md_twice = record {
  console = b'm' ∷ b'd' ∷ b'\r' ∷ b'\r' ∷ [];
  output = [];
  console_buffer = blank_buffer;
  lastcommand = [];
  rc = pos 1;
  board = 0;
}

abbrev count_all : Bool → Command → Bool → List CString → ℕ → ℕ
count_all repeat = count

-- What `readline` answers to the first line, and to the second.
abbrev first_answer : Answer
first_answer = record {
  code = pos 2;
  line = record {
    buffer = b'm' ∷ b'd' ∷ 0 ∷ 7 ∷ 7 ∷ 7 ∷ 7 ∷ 7 ∷ [];
    p = 2;
    n = 2;
    screen = record { col = 4; output = codes "> md" ++ (b'\r' ∷ b'\n' ∷ []) };
  };
  console = b'\r' ∷ [];
}

abbrev second_answer : Answer
second_answer = record {
  code = pos 0;
  line = record {
    buffer = 0 ∷ b'd' ∷ 0 ∷ 7 ∷ 7 ∷ 7 ∷ 7 ∷ 7 ∷ [];
    p = 0;
    n = 0;
    screen = record {
      col = 2;
      output = (codes "> md" ++ (b'\r' ∷ b'\n' ∷ [])) ++ (codes "> " ++ (b'\r' ∷ b'\n' ∷ []));
    };
  };
  console = [];
}

first_read :
    readline 8 (codes "> ") md_twice.console_buffer md_twice.output md_twice.console
    ≡ done first_answer
unfolding readline read_keys key insert echo strlen store
first_read = refl

second_read :
    readline 8
      (codes "> ")
      first_answer.line.buffer
      first_answer.line.screen.output
      first_answer.console
    ≡ done second_answer
unfolding readline read_keys key insert echo strlen store
second_read = refl

first_run :
    runs 8 16 table (codes "> ") unset count_all seen forget_ctrlc [] false (codes "md") 0
    ≡ done (pos 1, 1)
unfolding run run_command run_tokens run_token dispatch call find_cmd strncmp strlen cut_token
    process_macros scan_all scan_next scan strings_at parse_line parse_args cut_word skip_blanks
    skip_word string_at load store
first_run = refl

first_text :
    string_at (load first_answer.line.buffer) (suc (length first_answer.line.buffer)) 0
    ≡ done (codes "md")
unfolding string_at load
first_text = refl

main_rounds-empty_line_example :
    main_rounds 8 16 table (codes "> ") unset count_all seen forget_ctrlc [] 2 md_twice ≡ (
      if is_positive (pos 1)
      then (runs 8 16 table (codes "> ") unset count_all seen forget_ctrlc [] true (codes "md") 1
          >>= λ r.
              with_result
                (with_answer (behind md_twice first_answer (codes "md") (pos 1) 1) second_answer)
                r)
      else done
          (record (with_answer
            (behind md_twice first_answer (codes "md") (pos 1) 1)
            second_answer) { lastcommand = []; rc = negsuc 0; board = 1 }))
main_rounds-empty_line_example =
    main_rounds-empty_line 8 16 table (codes "> ") unset count_all seen forget_ctrlc [] md_twice
      first_answer second_answer 1 (codes "md") (pos 1) 1 first_read refl first_text first_run
      second_read refl
