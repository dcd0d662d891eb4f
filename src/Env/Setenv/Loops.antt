-- ===== src/Env/Setenv/Loops.antt =====
-- The loops of `_do_setenv` of common/cmd_nvedit.c over the array.
use armboot.Prelude.{
  ℕ, zero, suc, ◌+◌, ◌-◌, true, false, List, [], ◌∷◌, Option, none, some, ◌==◌, ltb, if◌then◌else◌,
  length, Exec, done, fault, ◌>>=◌,
}
use armboot.Memory.{load, store}
use armboot.CString.{CString, strlen}
use armboot.Env.{find_end, envmatch}

-- `env`, `nxt` and `oldval` where the search breaks off.
pub record Found : Type 0 where
  pub env : ℕ
  pub nxt : ℕ
  pub oldval : ℕ

-- for (env = bi_env_data; *env; env = nxt+1) { ... }; `none` where `oldval` stays -1
unfoldable pub search : ℕ → List ℕ → CString → ℕ → Exec (Option Found)
search zero p name env = fault
search (suc fuel) p name env = do
  c ← load p env
  elim (c == 0) [
    | true ↦ done none
    | false ↦ do
      nxt ← find_end (load p) (suc (length p)) env
      oldval ← envmatch (load p) name env
      elim oldval [
        | some v ↦ done (some (record { env = env; nxt = nxt; oldval = v }))
        | none ↦ search fuel p name (nxt + 1)
      ]
  ]

-- for (;;) { *env = *nxt++; if ((*env == '\0') && (*nxt == '\0')) break; ++env; }
unfoldable pub shift : ℕ → List ℕ → ℕ → ℕ → Exec (List ℕ × ℕ)
shift zero p env nxt = fault
shift (suc fuel) p env nxt = do
  c ← load p nxt
  q ← store p env c
  elim (c == 0) [
    | false ↦ shift fuel q (env + 1) (nxt + 1)
    | true ↦ do
      d ← load q (nxt + 1)
      elim (d == 0) [ true ↦ done (q, env) | false ↦ shift fuel q (env + 1) (nxt + 1) ]
  ]

-- The definition from `env` to `nxt` is deleted.
unfoldable pub delete : List ℕ → ℕ → ℕ → Exec (List ℕ)
delete p env nxt = do
  c ← load p (nxt + 1)
  let at_start = (do q ← store p env 0; done (q, env))
  let moved = shift (suc (length p)) p env (nxt + 1)
  (q, e) ← (if c == 0 then (if ltb 0 env then done (p, env - 1) else at_start) else moved)
  store q (e + 1) 0

-- for (env = bi_env_data; *env || *(env+1); ++env)
unfoldable pub find_double : ℕ → List ℕ → ℕ → Exec ℕ
find_double zero p env = fault
find_double (suc fuel) p env = do
  c ← load p env
  elim (c == 0) [
    | false ↦ find_double fuel p (env + 1)
    | true ↦ do
      d ← load p (env + 1)
      elim (d == 0) [ true ↦ done env | false ↦ find_double fuel p (env + 1) ]
  ]

-- while ((*env = *s++) != '\0') env++
unfoldable pub write_string : List ℕ → ℕ → CString → Exec (List ℕ × ℕ)
write_string p env [] = do q ← store p env 0; done (q, env)
write_string p env (c ∷ cs) = do q ← store p env c; write_string q (env + 1) cs

-- The loop over argv[2], argv[3], ...; `sep` is '=' for the first and ' ' for all others.
unfoldable pub write_values : List ℕ → ℕ → ℕ → List CString → Exec (List ℕ × ℕ)
write_values p env sep [] = done (p, env)
write_values p env sep (v ∷ vs) = do
  q ← store p env sep
  (r, e) ← write_string q (env + 1) v
  write_values r e b' ' vs

abbrev pub lengths : List CString → ℕ
lengths [] = 0
lengths (v ∷ vs) = strlen v + 1 + lengths vs

-- `len`
abbrev pub entry_length : CString → List CString → ℕ
entry_length name values = strlen name + 2 + lengths values

-- The new definition is written behind the others; `none` is the overflow message.
unfoldable pub append : List ℕ → CString → List CString → Exec (Option (List ℕ))
append p name values = do
  e ← find_double (suc (length p)) p 0
  let env = (if ltb 0 e then e + 1 else e)
  let write = (do
    (q, e₁) ← write_string p env name
    (r, e₂) ← write_values q e₁ b'=' values
    s ← store r (e₂ + 1) 0
    done (some s))
  if ltb (length p) (entry_length name values) then done none else write
