-- ===== src/Serial/Tests.antt =====
-- The download of `loads` on concrete lines, and the theorems at them.
use Prim.Native.Char.{code}
use Prim.Native.String.{String}
use armboot.Prelude.{
  ℕ, ◌+◌, ◌≡◌, refl, inl, inr, List, [], ◌∷◌, ◌++◌, Exec, done, fault, blocked, arith,
}
use armboot.Prelude.Int.{ℤ, pos}
use armboot.CString.{read_digits, prefix}
use armboot.Flash.Write.{addr2info}
use armboot.Srec.{Decoder}
use armboot.Srec.Line.{s1, s9, Line, IsLine, checksum, total}
use armboot.Serial.{line, max_rec_len, read_record, Store, Loaded, load_serial, offset_of, drain}
use armboot.Serial.Text.{late, text_line, on_line}
use armboot.Serial.Lines.{item, blank, Sent, on_wire, obey_all, put_all}
use armboot.Serial.Records.{load_serial-obey_all}
use armboot.Serial.Polls.{early, read_record-early}

abbrev codes : String → List ℕ
codes String.[] = []
codes (String.◌∷◌ c s) = code c ∷ codes s

-- No flash: the driver is never called.
abbrev no_driver : ℕ → List ℕ → ℕ → ℕ → ℕ → ℤ × ℕ
no_driver i src addr len flash = (pos 0, flash)

abbrev two_bytes : Line
two_bytes = record { kind = s1; addr = 0x100; payload = 0xab ∷ 0x12 ∷ [] }

abbrev last_line : Line
last_line = record { kind = s9; addr = 0x100; payload = [] }

two_bytes-IsLine : IsLine two_bytes
two_bytes-IsLine = record {
  addr_fits = omega arith;
  payload_fits = omega arith;
  bytes = omega arith;
}

last_line-IsLine : IsLine last_line
last_line-IsLine = record { addr_fits = omega arith; payload_fits = omega arith; bytes = tt }

-- "S1050100AB123C", an empty line and "S9030100FB", ended by CR and LF.
abbrev download : List Sent
download =
    record { what = item two_bytes 0x3c; end = b'\r' }
    ∷ record { what = blank; end = b'\n' }
    ∷ record { what = item last_line 0xfb; end = b'\n' }
    ∷ []

abbrev fresh : Decoder
fresh = record { input = []; chksum = 0; count = pos 0; addr = 0; bytes = [] }

abbrev zeroed : Store ℕ
zeroed = record { memory = λ a. 0; flash = 0 }

load_serial-obey_all_example :
    load_serial no_driver [] 0x8000 (on_wire download) fresh zeroed
    ≡ obey_all no_driver [] 0x8000 download zeroed
load_serial-obey_all_example = load_serial-obey_all no_driver [] 0x8000 download fresh zeroed (
  (two_bytes-IsLine, omega arith),
  inl refl,
  (tt, inr refl, ((last_line-IsLine, omega arith), inr refl, tt)),
)

abbrev start_and_byte : ℕ → Exec (Loaded ℕ) → ℕ × ℕ
start_and_byte a (done (_, r, st)) = (r, st.memory a)
start_and_byte a fault = (0, 0)
start_and_byte a blocked = (0, 0)

-- The bytes arrive, by evaluation.
loaded : start_and_byte 0x8101 (obey_all no_driver [] 0x8000 download zeroed) ≡ (0x100, 0x12)
unfolding obey_all put_all checksum total addr2info
loaded = refl

-- "loads 8000", and a byte that comes late behind one that waits.
arguments : offset_of (codes "loads" ∷ codes "8000" ∷ []) ≡ 0x8000
unfolding offset_of read_digits prefix
arguments = refl

drained : drain 100 (early 4 ∷ late 5 ∷ []) ≡ late 5 ∷ []
unfolding drain
drained = refl

-- The line "S9" with an 'x' in it that comes early.
read_record-early_example :
    read_record
      (late b'S' ∷ on_line [] (early b'\r' ∷ text_line (b'9' ∷ []) b'\r' []))
      (max_rec_len + 1)
    ≡ done (line (b'S' ∷ ([] ++ b'9' ∷ [])), [])
read_record-early_example =
    read_record-early b'S' b'\r' b'\r' [] (b'9' ∷ []) [] (omega arith) (omega arith) tt
      (omega arith) (λ e. omega (arith, e)) (inl refl)
