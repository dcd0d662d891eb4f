-- ===== src/Shell/Run.antt =====
-- `find_cmd` of common/command.c and `run_command` of common/main.c. The commands themselves, and
-- whether ^C has been seen, and that this is forgotten, are functions on a state of the board.
pub mod Table
pub mod Outcome
pub mod Loop
use armboot.Prelude.{
  ℕ, zero, suc, ◌+◌, ◌-◌, Bool, true, false, not, ◌&&◌, ◌||◌, List, [], ◌∷◌, ◌++◌, Option, none,
  some, ◌==◌, ltb, if◌then◌else◌, length, Exec, done, fault, ◌>>=◌,
}
use armboot.Prelude.Int.{ℤ, pos, negsuc}
use armboot.Memory.{load}
use armboot.CString.{CString, strlen, strncmp}
use armboot.Env.{string_at}
use armboot.Shell.Parse.{Arguments, parse_line}
use armboot.Shell.Macros.{process_macros}

-- `cmd_tbl_t`; `is_bootd` says that `cmd` is do_bootd.
pub record Command : Type 0 where
  pub name : CString
  pub lmin : ℕ
  pub maxargs : ℕ
  pub repeatable : Bool
  pub is_bootd : Bool

unfoldable pub find_cmd : CString → List Command → Option Command
find_cmd cmd [] = none
find_cmd cmd (cmdtp ∷ table) =
    let rest = find_cmd cmd table in
    if strncmp cmd cmdtp.name cmdtp.lmin == 0 then some cmdtp else rest

-- for (sep = str; *sep; sep++) { ... }: the token and what is left; `prev` is *(sep-1), and `none` at
-- the start of the string.
unfoldable pub cut_token : Option ℕ → CString → CString × CString
cut_token prev [] = ([], [])
cut_token prev (c ∷ cs) =
    let (token, str) = cut_token (some c) cs in
    let past_start : Bool = elim prev [ none ↦ false | some p ↦ not (p == b'\\') ] in
    if c == b';' && past_start then ([], cs) else (c ∷ token, str)

-- The strings that `argv` points to.
unfoldable pub strings_at : List ℕ → List ℕ → Exec (List CString)
strings_at buffer [] = done []
strings_at buffer (i ∷ is) = do
  s ← string_at (load buffer) (suc (length buffer)) i
  ss ← strings_at buffer is
  done (s ∷ ss)

-- rc == 0
abbrev pub is_ok : ℤ → Bool
is_ok (pos zero) = true
is_ok (pos (suc n)) = false
is_ok (negsuc n) = false

module _ {S : Type 0} (size maxargs : ℕ) (table : List Command)
    (lookup : S → CString → Exec (Option CString)) (execute : Command → Bool → List CString → S → S)
    (had_ctrlc : S → Bool) where
  -- After a token the loop goes on, or `run_command` returns.
  pub data Turn : Type 0 where
    go_on : Bool → Bool → S → Turn
    finish : ℤ → S → Turn

  -- From the call of the command on.
  unfoldable pub call : Command → List CString → Bool → Bool → S → Turn
  call cmdtp argv flag repeatable s =
      let s' = execute cmdtp flag argv s in
      if had_ctrlc s' then finish (pos 0) s' else go_on flag (repeatable && cmdtp.repeatable) s'

  -- What is done with the arguments; find_cmd(NULL) reads through the null pointer. `flag` is
  -- CMD_FLAG_BOOTD.
  unfoldable pub dispatch : List CString → Bool → Bool → S → Exec Turn
  dispatch [] flag repeatable s = fault
  dispatch (cmd ∷ args) flag repeatable s = elim (find_cmd cmd table) [
    | none ↦ done (finish (negsuc 0) s)
    | some cmdtp ↦
        if ltb cmdtp.maxargs (suc (length args))
        then done (finish (negsuc 0) s)
        else if cmdtp.is_bootd
        then (if flag
            then done (finish (negsuc 0) s)
            else done (call cmdtp (cmd ∷ args) true repeatable s))
        else done (call cmdtp (cmd ∷ args) flag repeatable s)
  ]

  -- One round of the loop; `stale` is what else stands in `finaltoken`.
  unfoldable pub run_token : List ℕ → CString → Bool → Bool → S → Exec Turn
  run_token stale token flag repeatable s = do
    (output, terminated) ← process_macros size (lookup s) token
    let buffer = (if terminated then output ++ 0 ∷ stale else output)
    r ← parse_line maxargs buffer
    argv ← strings_at r.buffer r.argv
    dispatch argv flag repeatable s

  abbrev pub code_of : Bool → ℤ
  code_of true = pos 1
  code_of false = pos 0

  abbrev pub proceed : (Bool → Bool → S → Exec (ℤ × S)) → Turn → Exec (ℤ × S)
  proceed next (go_on flag repeatable s) = next flag repeatable s
  proceed next (finish code s) = done (code, s)

  -- while (*str) { ... }
  unfoldable pub run_tokens : ℕ → List ℕ → CString → Bool → Bool → S → Exec (ℤ × S)
  run_tokens zero stale str flag repeatable s = fault
  run_tokens (suc fuel) stale [] flag repeatable s = done (code_of repeatable, s)
  run_tokens (suc fuel) stale (c ∷ cs) flag repeatable s = do
    t ← run_token stale (cut_token none (c ∷ cs)).0 flag repeatable s
    proceed (run_tokens fuel stale (cut_token none (c ∷ cs)).1) t

  -- `clear_ctrlc()` of common/console.c forgets what `had_ctrlc` has seen.
  module _ (clear_ctrlc : S → S) where
    -- `cmd` is `none` where the pointer is NULL.
    unfoldable pub run_command : List ℕ → Option CString → Bool → S → Exec (ℤ × S)
    run_command stale none flag s = done (negsuc 0, clear_ctrlc s)
    run_command stale (some cmd) flag s =
        let run = run_tokens (suc (strlen cmd)) stale cmd flag true (clear_ctrlc s) in
        if strlen cmd == 0 || ltb (size - 1) (strlen cmd)
        then done (negsuc 0, clear_ctrlc s)
        else run

    -- The loop of `do_run`, which goes on while `rc` is 0.
    unfoldable pub run_variables : List ℕ → List CString → Bool → ℤ → S → Exec (ℤ × S)
    run_variables stale [] flag rc s = done (rc, s)
    run_variables stale (name ∷ names) flag rc s =
        let run_next = (do
          value ← lookup s name
          (rc', s') ← run_command stale value flag s
          run_variables stale names flag rc' s') in
        if is_ok rc then run_next else done (rc, s)

    -- `names` are argv[1], ...
    unfoldable pub do_run : List ℕ → List CString → Bool → S → Exec (ℤ × S)
    do_run stale [] flag s = done (pos 1, s)
    do_run stale (name ∷ names) flag s = run_variables stale (name ∷ names) flag (pos 0) s
