-- ===== src/Shell/Macros/Plain.antt =====
-- The steps of `process_macros` on the characters of a template.
use armboot.Prelude.{
  ℕ, ◌-◌, ◌≤◌, ◌≡◌, ◌≢◌, refl, sym, ap, ◌∙◌, false, not, ◌&&◌, [], ◌∷◌, ◌++◌, Option, ◌==◌, arith,
  append-nil, append_assoc, length, Exec, done, fault, blocked, ◌>>=◌, bind-done,
}
use armboot.CString.{CString}
use armboot.Shell.Macros.{Scanner, put, put_value, scan, scan_next, scan_all}
use armboot.Shell.Macros.Template.{IsPlainName}

unit : (n : Exec Scanner) → n ≡ (n >>= λ m. done m)
unit (done m) = refl
unit fault = refl
unit blocked = refl

-- What `put_value` leaves when the value fits.
abbrev pub with_value : CString → Scanner → Scanner
with_value v m = record m { room = m.room - length v; output = m.output ++ v }

pub put_value-fits :
    (v : CString) (m : Scanner) → length v ≤ m.room → put_value v m ≡ with_value v m
unfolding put_value
put_value-fits [] m h =
    ap (λ o. record m { output = o }) (sym (append-nil m.output))
    ∙ ap (λ k. record m { room = k; output = m.output ++ [] }) (omega arith)
put_value-fits (c ∷ cs) m h =
    let some_room : (m.room == 0) ≡ false = ground arith in
    let rest = put_value-fits cs (put c m) (omega arith) in
    rw some_room (
      rest
      ∙ ap (λ o. record m { room = m.room - 1 - length cs; output = o })
          (append_assoc m.output (c ∷ []) cs)
      ∙ ap (λ k. record m { room = k; output = m.output ++ c ∷ cs }) (omega arith))

module _ (size : ℕ) (lookup : CString → Exec (Option CString)) where
  pub scan_all-end : (m : Scanner) → scan_all size lookup [] m ≡ done m
  unfolding scan_all
  scan_all-end m = refl

  pub scan_all-plain :
      (c : ℕ) (input : CString) (m : Scanner)
      → m.room ≢ 0
      → (c == b'\\' && not (m.prev == b'\\')) ≡ false
      → scan_all size lookup (c ∷ input) m
        ≡ (scan_next size lookup c input m >>= scan_all size lookup input)
  unfolding scan_all
  scan_all-plain c [] m h e =
      let some_room : (m.room == 0) ≡ false = ground (arith, h) in
      rw (some_room, e) (unit (scan_next size lookup c [] m))
  scan_all-plain c (d ∷ input) m h e = ground (arith, h, e)

  pub scan_all-escaped :
      (d : ℕ) (input : CString) (m : Scanner)
      → m.room ≢ 0
      → (m.prev == b'\\') ≡ false
      → scan_all size lookup (b'\\' ∷ d ∷ input) m
        ≡ (scan_next size lookup d input (record m { prev = b'\\' }) >>= scan_all size lookup input)
  unfolding scan_all
  scan_all-escaped d input m h e = ground (arith, h, e)

  -- The characters of a name change nothing but `prev`.
  scan_next-name :
      (c : ℕ) (input : CString) (m : Scanner)
      → m.state ≡ 2
      → (c == b')') ≡ false
      → scan_next size lookup c input m ≡ done (record m { prev = c })
  unfolding scan_next scan
  scan_next-name c input m s e = ground (arith, s, e)

  pub scan_all-name :
      (name rest : CString) (m : Scanner)
      → IsPlainName name
      → m.room ≢ 0
      → m.state ≡ 2
      → (m.prev == b'\\') ≡ false
      → (p : ℕ) × (scan_all size lookup (name ++ rest) m
          ≡ scan_all size lookup rest (record m { prev = p }))
        × ((p == b'\\') ≡ false)
  scan_all-name [] rest m hn h s e = (m.prev, refl, e)
  scan_all-name (c ∷ cs) rest m (_, _, not_end, not_escape, hn) h s e =
      let no_escape : (c == b'\\') ≡ false = ground (arith, not_escape) in
      let no_end : (c == b')') ≡ false = ground (arith, not_end) in
      let (p, goes, e') = scan_all-name cs rest (record m { prev = c }) hn h s no_escape in
      (
        p,
        scan_all-plain c (cs ++ rest) m h (ground (arith, no_escape))
            ∙ bind-done _ (scan_next-name c (cs ++ rest) m s no_end)
            ∙ goes,
        e',
      )
