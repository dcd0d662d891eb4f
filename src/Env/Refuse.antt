-- ===== src/Env/Refuse.antt =====
-- What `_do_setenv` refuses to overwrite.
use armboot.Prelude.{
  ℕ, ◌≡◌, ◌∙◌, ap, ◌⊎◌, inl, inr, true, false, List, [], ◌∷◌, none, some, arith, done, fault,
}
use armboot.CString.{CString, is_among, simple_strtoul, strcmp}
use armboot.Env.{Env, Board, Config}
use armboot.Env.Image.{Entry, IsName, lookup, Represents}
use armboot.Env.Search.{Around-found, locate-cases, search_image}
use armboot.Env.Setenv.{
  is_locked, serial, ethaddr, baudrate, switch_baudrate, replace, do_setenv, do_setenv_at,
}
use armboot.Env.Setenv.Loops.{Found}

abbrev IsOnce : CString → Type 0
IsOnce name = (name ≡ serial) ⊎ (name ≡ ethaddr)

once_is_locked :
    (cfg : Config) (p : List ℕ) (name : CString) (oldval : ℕ)
    → cfg.env_overwrite ≡ false
    → cfg.ethaddr_once ≡ none
    → IsOnce name
    → is_locked cfg p name oldval ≡ done true
unfolding is_locked strcmp
once_is_locked cfg p name oldval o d (inl h) = rw (h, o)
once_is_locked cfg p name oldval o d (inr h) = rw (h, o, d)

module _ (cfg : Config) (bd : Board) {e : Env} {es : List Entry} (env_is : bd.env ≡ some e)
    (v : Represents e.image es) where
  -- The search has found a definition, and `_do_setenv` goes on with `replace`.
  replaced :
      (name : CString) (values : List CString) {x : CString}
      → IsName name
      → lookup name es ≡ some x
      → (f : Found) × (do_setenv cfg bd name values ≡ replace cfg bd e name values f)
  unfolding do_setenv_at
  replaced name values hn set' = elim (locate-cases name es 0) [
    | inl a ↦ absurd (ground (arith, set', a.unset))
    | inr b ↦
        let found = search_image e.image name es v.slack v.image_is hn v.entries in
        (
          Around-found b.around 0,
          ap (λ m. do_setenv_at cfg bd m name values) env_is ∙ ground (arith, found, b.located),
        )
  ]

  -- With neither CONFIG_ENV_OVERWRITE nor CONFIG_OVERWRITE_ETHADDR_ONCE: once serial# or ethaddr is
  -- set, `_do_setenv` with that name returns 1 and changes nothing, whatever the values.
  pub do_setenv-once :
      (name : CString) (values : List CString) {x : CString}
      → cfg.env_overwrite ≡ false
      → cfg.ethaddr_once ≡ none
      → IsOnce name
      → lookup name es ≡ some x
      → do_setenv cfg bd name values ≡ done (1, bd)
  unfolding replace
  do_setenv-once name values o d once set' =
      let (f, goes) = replaced name values (name_of name once) set' in
      goes ∙ rw (once_is_locked cfg e.image name f.oldval o d once)
    where
      name_of : (n : CString) → IsOnce n → IsName n
      name_of n (inl h) = rw h (omega arith)
      name_of n (inr h) = rw h (omega arith)

  baudrate_not_locked : (oldval : ℕ) → is_locked cfg e.image baudrate oldval ≡ done false
  unfolding is_locked strcmp
  baudrate_not_locked oldval = ground arith

  -- Once baudrate is set, `_do_setenv` with a rate that is not in the table of supported rates
  -- returns 1 and changes nothing.
  pub do_setenv-baudrate_unsupported :
      (value : CString) (more : List CString) {x : CString}
      → lookup baudrate es ≡ some x
      → is_among (simple_strtoul value 10).0 cfg.baudrate_table ≡ false
      → do_setenv cfg bd baudrate (value ∷ more) ≡ done (1, bd)
  unfolding replace switch_baudrate strcmp
  do_setenv-baudrate_unsupported value more set' unsupported =
      let (f, goes) = replaced baudrate (value ∷ more) (omega arith) set' in
      goes ∙ rw (baudrate_not_locked f.oldval) (rw unsupported)

  -- Once baudrate is set, `_do_setenv` with no value, which is to delete it, reads a number through
  -- the null pointer argv[2].
  pub do_setenv-baudrate_null :
      {x : CString} → lookup baudrate es ≡ some x → do_setenv cfg bd baudrate [] ≡ fault
  unfolding replace switch_baudrate strcmp
  do_setenv-baudrate_null set' =
      let (f, goes) = replaced baudrate [] (omega arith) set' in
      goes ∙ rw (baudrate_not_locked f.oldval)
