-- ===== src/Shell/Macros/Expand/Steps.antt =====
-- The states of `process_macros` of common/main.c, on the text of a variable.
use armboot.Prelude.{
  ℕ, ◌-◌, ◌<◌, ◌≤◌, ◌≡◌, refl, ap, true, false, not, ◌&&◌, ◌∷◌, ◌++◌, Option, none, some, ◌==◌,
  arith, append-nil, length, length-append, ltb, take, take-append, Exec, done,
}
use armboot.CString.{CString}
use armboot.Env.Image.{lookup}
use armboot.Shell.Macros.{Scanner, put, put_variable, variable_name, scan, scan_next}
use armboot.Shell.Macros.Template.{value_of}
use armboot.Shell.Macros.Plain.{with_value, put_value-fits}

pub record Expands (text : CString) (m : Scanner) (r : Exec Scanner) : Type 0 where
  pub final : Scanner
  pub goes : r ≡ done final
  pub output_is : final.output ≡ m.output ++ text
  pub room_is : final.room ≡ m.room - length text

variable_name-name :
    (size : ℕ) (lookup : CString → Exec (Option CString)) (name input start : CString)
    → start ≡ name ++ b')' ∷ input
    → length name < size
    → variable_name size lookup start input ≡ done name
unfolding variable_name
variable_name-name size lookup name input start e h =
    let n : length start - length input - 1 ≡ length name =
      let k = ap length e in omega (arith, k, length-append name (b')' ∷ input)) in
    let fits : ltb (length name) size ≡ true = ground arith in
    let t : take (length name) start ≡ name = rw e (take-append name (b')' ∷ input)) in
    rw (n, fits, t) refl

module _ (size : ℕ) (lookup : CString → Exec (Option CString)) where
  pub scan_next-letter :
      (c : ℕ) (input : CString) (m : Scanner)
      → m.state ≡ 0
      → (c == b'$' && not (m.prev == b'\\')) ≡ false
      → scan_next size lookup c input m ≡ done (record (put c m) { prev = c })
  unfolding scan_next scan
  scan_next-letter c input m s e = ground (arith, s, e)

  pub scan_next-dollar :
      (input : CString) (m : Scanner)
      → m.state ≡ 0
      → (m.prev == b'\\') ≡ false
      → scan_next size lookup b'$' input m ≡ done (record m { state = 1; prev = b'$' })
  unfolding scan_next scan
  scan_next-dollar input m s e = ground (arith, s, e)

  pub scan_next-open :
      (input : CString) (m : Scanner)
      → m.state ≡ 1
      → scan_next size lookup b'(' input m
        ≡ done (record m { state = 2; prev = b'('; varname_start = input })
  unfolding scan_next scan
  scan_next-open input m s = ground (arith, s)

  pub scan_next-close :
      (name input : CString) (value : Option CString) (m : Scanner)
      → m.state ≡ 2
      → m.varname_start ≡ name ++ b')' ∷ input
      → lookup name ≡ done value
      → length name < size
      → length (value_of value) ≤ m.room
      → scan_next size lookup b')' input m
        ≡ done (record (with_value (value_of value) m) { state = 0; prev = b')' })
  unfolding scan_next scan put_variable
  scan_next-close name input none m s v l h f = ground (
    arith,
    s,
    variable_name-name size lookup name input m.varname_start v h,
    l,
    append-nil m.output,
  )
  scan_next-close name input (some value) m s v l h f = ground (
    arith,
    s,
    variable_name-name size lookup name input m.varname_start v h,
    l,
    put_value-fits value m f,
  )
