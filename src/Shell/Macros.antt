-- ===== src/Shell/Macros.antt =====
-- `process_macros` of common/main.c. A pointer into the input is the rest of it from there on;
-- `lookup` is what `getenv` returns for a name.
pub mod Template
pub mod Plain
pub mod Expand
pub mod Room
use armboot.Prelude.{
  ℕ, zero, suc, ◌+◌, ◌-◌, true, false, not, ◌&&◌, List, [], ◌∷◌, ◌++◌, Bool, Option, none, some,
  ◌==◌, if◌then◌else◌, length, ltb, take, Exec, done, fault, ◌>>=◌,
}
use armboot.CString.{CString}

-- The locals; `room` is `outputcnt`, and `output` is what has been written.
pub record Scanner : Type 0 where
  pub state : ℕ
  pub prev : ℕ
  pub varname_start : CString
  pub room : ℕ
  pub output : List ℕ

abbrev pub put : ℕ → Scanner → Scanner
put c m = record m { room = m.room - 1; output = m.output ++ c ∷ [] }

-- while ((*envval) && outputcnt) { *(output++) = *(envval++); outputcnt--; }
unfoldable pub put_value : CString → Scanner → Scanner
put_value [] m = m
put_value (c ∷ cs) m = let more = put_value cs (put c m) in if m.room == 0 then m else more

-- *(output++) = '$'; outputcnt--; if (outputcnt) { *(output++) = c; outputcnt--; }
unfoldable pub put_dollar : ℕ → Scanner → Scanner
put_dollar c m = let m' = put b'$' m in if m'.room == 0 then m' else put c m'

module _ (size : ℕ) (lookup : CString → Exec (Option CString)) where
  -- `varname_start` up to the ')' in front of `input`, in an array of CFG_CBSIZE bytes
  unfoldable pub variable_name : CString → CString → Exec CString
  variable_name varname_start input =
      let envcnt = length varname_start - length input - 1 in
      if ltb envcnt size then done (take envcnt varname_start) else fault

  unfoldable pub put_variable : Option CString → Scanner → Scanner
  put_variable none m = m
  put_variable (some value) m = put_value value m

  -- The `switch (state)` on a character, with `input` behind it.
  unfoldable pub scan : ℕ → CString → Scanner → Exec Scanner
  scan c input m =
      let end_variable = (do
        envname ← variable_name m.varname_start input
        envval ← lookup envname
        done (record (put_variable envval m) { state = 0 })) in
      if m.state == 0
      then (if c == b'$' && not (m.prev == b'\\')
          then done (record m { state = 1 })
          else done (put c m))
      else if m.state == 1
      then (if c == b'('
          then done (record m { state = 2; varname_start = input })
          else done (put_dollar c (record m { state = 0 })))
      else if c == b')'
      then end_variable
      else done m

  -- prev = c
  unfoldable pub scan_next : ℕ → CString → Scanner → Exec Scanner
  scan_next c input m = do m' ← scan c input m; done (record m' { prev = c })

  -- while (inputcnt && outputcnt) { ... }: an escape character in front of another one is removed.
  unfoldable pub scan_all : CString → Scanner → Exec Scanner
  scan_all [] m = done m
  scan_all (c ∷ []) m =
      if m.room == 0
      then done m
      else if c == b'\\' && not (m.prev == b'\\')
      then done m
      else scan_next c [] m
  scan_all (c ∷ d ∷ input) m = elim (m.room == 0) [
    | true ↦ done m
    | false ↦ elim (c == b'\\' && not (m.prev == b'\\')) [
      | true ↦ do m' ← scan_next d input (record m { prev = c }); scan_all input m'
      | false ↦ do m' ← scan_next c (d ∷ input) m; scan_all (d ∷ input) m'
    ]
  ]

  -- What is written to `output`, and whether a NUL has been put behind it.
  unfoldable pub process_macros : CString → Exec (List ℕ × Bool)
  process_macros input = do
    m ←
        scan_all input
          (record { state = 0; prev = 0; varname_start = []; room = size; output = [] })
    done (m.output, not (m.room == 0))
