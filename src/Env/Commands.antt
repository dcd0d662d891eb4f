-- ===== src/Env/Commands.antt =====
-- `do_printenv` and `do_setenv` of common/cmd_nvedit.c. The output is what goes through `putc` and
-- `puts`; the messages of `printf` are not in it. `ctrlc`, on a state `S` of the console, is a
-- parameter.
pub mod Printed
use armboot.Prelude.{
  ℕ, zero, suc, ◌+◌, ◌-◌, Bool, true, false, List, [], ◌∷◌, ◌++◌, Option, none, some, ◌==◌, Exec,
  done, fault, ◌>>=◌,
}
use armboot.CString.{CString}
use armboot.Env.{Board, Config, find_end, envmatch, get_env_char, env_size}
use armboot.Env.Setenv.{do_setenv}

module _ (get : ℕ → Exec ℕ) where
  -- for (k=i; k<nxt; ++k) putc(get_env_char(bd, k)), of `nxt - i` characters
  unfoldable pub print_range : ℕ → ℕ → Exec (List ℕ)
  print_range zero k = done []
  print_range (suc n) k = do c ← get k; cs ← print_range n (k + 1); done (c ∷ cs)

  -- The loop without arguments: the result, the output and the console.
  unfoldable pub print_all : {S : Type 0} → (S → Bool × S) → ℕ → ℕ → ℕ → S → Exec (ℕ × List ℕ × S)
  print_all ctrlc zero size i s = fault
  print_all ctrlc (suc fuel) size i s = do
    c ← get i
    elim (c == 0) [
      | true ↦ done (0, [], s)
      | false ↦ do
        nxt ← find_end get size i
        cs ← print_range (nxt - i) i
        let (abort, s') = ctrlc s
        elim abort [
          | true ↦ done (1, cs ++ b'\n' ∷ [], s')
          | false ↦ do
            (rc, more, s'') ← print_all ctrlc fuel size (nxt + 1) s'
            done (rc, (cs ++ b'\n' ∷ []) ++ more, s'')
        ]
    ]

  -- The inner loop for one name; `none` is "not defined".
  unfoldable pub print_name : ℕ → ℕ → CString → ℕ → Exec (Option (List ℕ))
  print_name zero size name j = fault
  print_name (suc fuel) size name j = do
    c ← get j
    elim (c == 0) [
      | true ↦ done none
      | false ↦ do
        nxt ← find_end get size j
        k ← envmatch get name j
        elim k [
          | none ↦ print_name fuel size name (nxt + 1)
          | some v ↦ do cs ← print_range (nxt - v) v; done (some (name ++ b'=' ∷ cs ++ b'\n' ∷ []))
        ]
    ]

  -- The outer loop over argv[1], argv[2], ...
  unfoldable pub print_names : ℕ → List CString → Exec (ℕ × List ℕ)
  print_names size [] = done (0, [])
  print_names size (name ∷ names) = do
    line ← print_name (suc size) (suc size) name 0
    elim line [
      | none ↦ done (1, [])
      | some cs ↦ do (rc, more) ← print_names size names; done (rc, cs ++ more)
    ]

unfoldable pub do_printenv :
    {S : Type 0} → (S → Bool × S) → Config → Board → List CString → S → Exec (ℕ × List ℕ × S)
do_printenv ctrlc cfg bd (_ ∷ name ∷ names) s = do
  (rc, out) ← print_names (get_env_char cfg bd) (env_size cfg bd) (name ∷ names)
  done (rc, out, s)
do_printenv ctrlc cfg bd _ s =
    print_all (get_env_char cfg bd) ctrlc (suc (env_size cfg bd)) (suc (env_size cfg bd)) 0 s

-- `do_setenv` of the table, where argc is the length of `argv`.
unfoldable pub do_setenv_command : Config → Board → List CString → Exec (ℕ × Board)
do_setenv_command cfg bd (_ ∷ name ∷ values) = do_setenv cfg bd name values
do_setenv_command cfg bd _ = done (1, bd)
