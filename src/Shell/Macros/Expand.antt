-- ===== src/Shell/Macros/Expand.antt =====
-- `process_macros` of common/main.c on templates, with any variables and with an environment.
mod Steps
use armboot.Prelude.{
  ℕ, ◌-◌, ◌<◌, ◌≤◌, ◌≡◌, ◌≢◌, refl, sym, ap, ◌∙◌, true, false, not, ◌&&◌, List, [], ◌∷◌, ◌++◌,
  Option, none, some, ◌==◌, arith, inl, inr, Bool-cases, append-nil, append_assoc, length,
  length-append, ltb, take, take-append, Exec, done, bind-done,
}
use armboot.CString.{CString}
use armboot.Env.{Config, Board, getenv_value}
use armboot.Env.Image.{Entry, IsName, lookup}
use armboot.Env.Lookup.{Visible, getenv_value-lookup}
use armboot.Shell.Macros.{
  Scanner, put, put_variable, variable_name, scan, scan_next, scan_all, process_macros,
}
use armboot.Shell.Macros.Template.{
  Piece, letter, variable, written, value_of, expanded, IsPlainName, ArePieces,
}
use armboot.Shell.Macros.Plain.{
  with_value, put_value-fits, scan_all-end, scan_all-plain, scan_all-escaped, scan_all-name,
}
use armboot.Shell.Macros.Expand.Steps.{
  Expands, scan_next-letter, scan_next-dollar, scan_next-open, scan_next-close,
}

plain-IsName : (name : CString) → IsPlainName name → IsName name
plain-IsName [] h = tt
plain-IsName (c ∷ cs) (nonzero, no_equals, _, _, h) = (nonzero, no_equals, plain-IsName cs h)

-- The template goes on behind a piece that has put `v`.
behind_piece :
    (v text : CString) (m m' : Scanner) (r : Exec Scanner)
    → m'.output ≡ m.output ++ v
    → m'.room ≡ m.room - length v
    → Expands text m' r
    → Expands (v ++ text) m r
behind_piece v text m m' r o k e = record {
  final = e.final;
  goes = e.goes;
  output_is = e.output_is ∙ ap (λ xs. xs ++ text) o ∙ append_assoc m.output v text;
  room_is = omega (arith, k, e.room_is, length-append v text);
}

module _ (size : ℕ) (lookup : CString → Exec (Option CString)) (values : CString → Option CString)
    (known : (name : CString) → IsName name → lookup name ≡ done (values name)) where
  Expansion : List Piece → Scanner → Type 0
  Expansion ps m = Expands (expanded values ps) m (scan_all size lookup (written ps) m)

  scan_all-variable :
      (name : CString) (ps : List Piece) (m : Scanner)
      → IsPlainName name
      → m.state ≡ 0
      → (m.prev == b'\\') ≡ false
      → length (expanded values (variable name ∷ ps)) < m.room
      → length (written (variable name ∷ ps)) < size
      → scan_all size lookup (written (variable name ∷ ps)) m
        ≡ scan_all size lookup (written ps) (record (with_value (value_of (values name)) m) {
          state = 0;
          prev = b')';
          varname_start = name ++ b')' ∷ written ps;
        })
  scan_all-variable name ps m hn s e room fits =
      let v = values name in
      let rest = written ps in
      let input = name ++ b')' ∷ rest in
      let has_room : m.room ≢ 0 = λ z. absurd (omega (arith, z, room)) in
      let m₁ = record m { state = 1; prev = b'$' } in
      let m₂ = record m { state = 2; prev = b'('; varname_start = input } in
      let (p, named, p_ok) =
        scan_all-name size lookup name (b')' ∷ rest) m₂ hn has_room refl refl in
      let m₃ = record m₂ { prev = p } in
      scan_all-plain size lookup b'$' (b'(' ∷ input) m has_room refl
      ∙ bind-done _ (scan_next-dollar size lookup (b'(' ∷ input) m s e)
      ∙ scan_all-plain size lookup b'(' input m₁ has_room refl
      ∙ bind-done _ (scan_next-open size lookup input m₁ refl)
      ∙ named
      ∙ scan_all-plain size lookup b')' rest m₃ has_room refl
      ∙ bind-done _ (
          scan_next-close size lookup name rest v m₃ refl refl (known name (plain-IsName name hn))
            (omega (arith, fits, length-append name (b')' ∷ rest)))
            (omega (arith, room, length-append (value_of v) (expanded values ps))))

  scan_all-Expands :
      (ps : List Piece) (m : Scanner)
      → ArePieces ps
      → m.state ≡ 0
      → (m.prev == b'\\') ≡ false
      → length (expanded values ps) < m.room
      → length (written ps) < size
      → Expansion ps m
  unfolding Expansion
  scan_all-Expands [] m h s e room fits = record {
    final = m;
    goes = scan_all-end size lookup m;
    output_is = sym (append-nil m.output);
    room_is = omega arith;
  }
  scan_all-Expands (variable name ∷ ps) m (hn, h) s e room fits =
      let v = value_of (values name) in
      let m' = record (with_value v m) {
        state = 0;
        prev = b')';
        varname_start = name ++ b')' ∷ written ps;
      } in
      let more =
        scan_all-Expands ps m' h refl refl
          (omega (arith, room, length-append v (expanded values ps)))
          (omega (arith, fits, length-append name (b')' ∷ written ps))) in
      rw (scan_all-variable name ps m hn s e room fits) (
        behind_piece v (expanded values ps) m m' (scan_all size lookup (written ps) m') refl refl
          more)
  scan_all-Expands (letter c ∷ ps) m (no_escape, h) s e room fits =
      let has_room : m.room ≢ 0 = λ z. absurd (omega (arith, z, room)) in
      let plain : (c == b'\\') ≡ false = ground (arith, no_escape) in
      let m' = record (put c m) { prev = c } in
      elim (Bool-cases (c == b'$')) [
        | inl dollar ↦
            let m₁ = record m { prev = b'\\' } in
            let more =
              scan_all-Expands ps m' h s plain (omega (arith, room))
                (let f = fits in ground (arith, f, dollar)) in
            rw dollar (
              rw
                (scan_all-escaped size lookup c (written ps) m has_room e
                  ∙ bind-done _ (scan_next-letter size lookup c (written ps) m₁ s (rw dollar refl)))
                (behind_piece (c ∷ []) (expanded values ps) m m'
                  (scan_all size lookup (written ps) m') refl refl more))
        | inr other ↦
            let more =
              scan_all-Expands ps m' h s plain (omega (arith, room))
                (let f = fits in ground (arith, f, other)) in
            rw other (
              rw
                (scan_all-plain size lookup c (written ps) m has_room (rw plain refl)
                  ∙ bind-done _ (scan_next-letter size lookup c (written ps) m s (rw other refl)))
                (behind_piece (c ∷ []) (expanded values ps) m m'
                  (scan_all size lookup (written ps) m') refl refl more))
      ]

  pub process_macros-expanded :
      (ps : List Piece)
      → ArePieces ps
      → length (written ps) < size
      → length (expanded values ps) < size
      → process_macros size lookup (written ps) ≡ done (expanded values ps, true)
  unfolding process_macros Expansion
  process_macros-expanded ps h fits room =
      let e =
        scan_all-Expands ps
          (record { state = 0; prev = 0; varname_start = []; room = size; output = [] }) h refl refl
          room fits in
      let has_room : (e.final.room == 0) ≡ false = ground (arith, e.room_is) in
      bind-done _ e.goes ∙ rw (e.output_is, has_room) refl

-- `process_macros` with the variables of an environment that represents the definitions `es`: a
-- template whose names hold no NUL, '=', ')' or '\\' and whose letters are no '\\', written with
-- "$(name)" for a variable and "\\$" for a '$', comes out with each variable replaced by its value,
-- or by nothing where it is not set, and with a NUL behind it. Both the text that is written and the
-- text that comes out are shorter than CFG_CBSIZE.
pub process_macros-environment :
    (size : ℕ) (cfg : Config) (bd : Board) {es : List Entry} (ps : List Piece)
    → Visible cfg bd es
    → ArePieces ps
    → length (written ps) < size
    → length (expanded (λ name. lookup name es) ps) < size
    → process_macros size (getenv_value cfg bd) (written ps)
      ≡ done (expanded (λ name. lookup name es) ps, true)
process_macros-environment size cfg bd {es} ps v =
    process_macros-expanded size (getenv_value cfg bd) (λ name. lookup name es)
      (λ name hn. getenv_value-lookup cfg bd name v hn) ps
