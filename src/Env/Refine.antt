-- ===== src/Env/Refine.antt =====
-- `_do_setenv` against the abstract environment.
use armboot.Prelude.{
  ℕ, ◌+◌, ◌<◌, ◌≤◌, ◌≡◌, ◌≢◌, ◌∙◌, refl, ap, ◌⊎◌, List, [], ◌∷◌, ◌++◌, none, some, length, done,
  fault,
}
use armboot.CString.{CString}
use armboot.Env.{Env, Board, Config}
use armboot.Env.Image.{
  Entry, IsText, IsName, AreEntries, encode, encoded_length, lookup, erase, Represents,
}
use armboot.Env.Write.{joined}
use armboot.Env.Append.{entry, append-some, append-none, append-fault}
use armboot.Env.Sizes.{append-Size}
use armboot.Env.Prepare.{IsPlain, Prepared, do_setenv-define}
use armboot.Env.Setenv.{define, do_setenv, do_setenv_at, with_image, update_copies}
use armboot.Env.Setenv.Loops.{append, entry_length}

AreEntries-append : (es fs : List Entry) → AreEntries es → AreEntries fs → AreEntries (es ++ fs)
AreEntries-append [] fs h k = k
AreEntries-append (e ∷ es) fs h k = (h.0, h.1, AreEntries-append es fs h.2 k)

append_ne_nil : (es : List Entry) (e : Entry) → es ++ e ∷ [] ≢ []
append_ne_nil [] e h = cc
append_ne_nil (_ ∷ _) e h = cc

module _ (cfg : Config) (bd : Board) {e : Env} {es : List Entry} (name : CString)
    (env_is : bd.env ≡ some e) (v : Represents e.image es) (hn : IsName name)
    (allowed : (lookup name es ≡ none) ⊎ IsPlain name) where
  -- Deleting a variable, on an environment that represents the definitions `es`: if the name is not
  -- set, or is none of serial#, ethaddr and baudrate, `_do_setenv` with no value returns 0. The
  -- array keeps its size and then represents `es` without the first definition of the name, and its
  -- CRC is right.
  pub do_setenv-erase :
      (p : List ℕ) × (do_setenv cfg bd name [] ≡ done (0, with_image bd p))
      × Represents p (erase name es)
      × (length p ≡ length e.image)
  unfolding define
  do_setenv-erase =
      let (p, goes, prepared) = do_setenv-define cfg bd e es name [] v hn allowed in
      (
        p,
        ap (λ m. do_setenv_at cfg bd m name []) env_is ∙ goes,
        prepared.represents,
        prepared.same_size,
      )

  module _ (value : CString) (more : List CString) (hv : IsText (joined value more)) where
    appended :
        (p r : List ℕ)
        → Prepared e.image name es p
        → append p name (value ∷ more) ≡ done (some r)
        → length r ≡ length e.image
    appended p r h eq = (rw eq at (append-Size p name (value ∷ more))) ∙ h.same_size

    -- Setting a variable, on an environment that represents the definitions `es`: if the name is
    -- not set, or is none of serial#, ethaddr and baudrate, and the new definition fits behind the
    -- others, `_do_setenv` returns 0. The array keeps its size and then represents `es` without the
    -- first definition of the name and with the new one, its values joined by blanks, at the end;
    -- its CRC is right, and the copies that are kept elsewhere are updated.
    pub do_setenv-refines :
        encoded_length (erase name es) + entry_length name (value ∷ more) ≤ length e.image
        → (r : List ℕ) × (do_setenv cfg bd name (value ∷ more)
            ≡ done (0, update_copies (with_image bd r) name value))
          × Represents r (erase name es ++ entry name value more ∷ [])
          × (length r ≡ length e.image)
    unfolding define
    do_setenv-refines fits =
        let (p, goes, prepared) = do_setenv-define cfg bd e es name (value ∷ more) v hn allowed in
        let rep = prepared.represents in
        let (tail, wrote) =
          append-some (erase name es) rep.slack name value more rep.entries rep.two_zeros
            (rw (← rep.image_is, prepared.same_size) fits) in
        let r = encode (erase name es ++ entry name value more ∷ []) (0 ∷ tail) in
        let wrote' : append p name (value ∷ more) ≡ done (some r) = rw rep.image_is wrote in
        (
          r,
          ap (λ m. do_setenv_at cfg bd m name (value ∷ more)) env_is ∙ goes ∙ rw wrote',
          record {
            slack = tail;
            image_is = refl;
            entries = AreEntries-append (erase name es) _ rep.entries (hn, hv, tt);
            two_zeros = λ h. absurd (append_ne_nil (erase name es) _ h);
          },
          appended p r prepared wrote',
        )

    -- A definition that is longer than the whole array: under the same conditions on the name,
    -- `_do_setenv` returns 1. The old definition is gone and nothing is written, but the CRC is the
    -- one of the array as it was before.
    pub do_setenv-overflow :
        length e.image < entry_length name (value ∷ more)
        → (p : List ℕ) × (do_setenv cfg bd name (value ∷ more)
            ≡ done (1, record bd { env = some (record e { image = p }) }))
          × Represents p (erase name es)
    unfolding define
    do_setenv-overflow long =
        let (p, goes, prepared) = do_setenv-define cfg bd e es name (value ∷ more) v hn allowed in
        let rep = prepared.represents in
        let nothing =
          append-none (erase name es) rep.slack name value more rep.entries rep.two_zeros
            (rw (← rep.image_is, prepared.same_size) long) in
        let nothing' : append p name (value ∷ more) ≡ done none = rw rep.image_is nothing in
        (p, ap (λ m. do_setenv_at cfg bd m name (value ∷ more)) env_is ∙ goes ∙ rw nothing', rep)

    -- A definition that is no longer than the whole array, but does not fit behind the definitions
    -- that stay: under the same conditions on the name, the test for an overflow lets it through,
    -- and `_do_setenv` stores behind the end of the array.
    pub do_setenv-fault :
        entry_length name (value ∷ more) ≤ length e.image
        → length e.image < encoded_length (erase name es) + entry_length name (value ∷ more)
        → do_setenv cfg bd name (value ∷ more) ≡ fault
    unfolding define
    do_setenv-fault passes long =
        let (p, goes, prepared) = do_setenv-define cfg bd e es name (value ∷ more) v hn allowed in
        let rep = prepared.represents in
        let out =
          append-fault (erase name es) rep.slack name value more rep.entries rep.two_zeros
            (rw (← rep.image_is, prepared.same_size) passes)
            (rw (← rep.image_is, prepared.same_size) long) in
        let out' : append p name (value ∷ more) ≡ fault = rw rep.image_is out in
        ap (λ m. do_setenv_at cfg bd m name (value ∷ more)) env_is ∙ goes ∙ rw out'
