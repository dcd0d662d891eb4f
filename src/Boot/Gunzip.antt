-- ===== src/Boot/Gunzip.antt =====
-- `gunzip` of common/cmd_bootm.c: the header of the compressed data. zlib is a parameter: `inflate`
-- takes the place to write to with its room, and the data with their length; `none` is an error.
use Prim.Native.Nat.{bit_and}
use armboot.Prelude.{
  ℕ, zero, suc, ◌+◌, ◌-◌, ◌*◌, ◌%◌, ◌^◌, Bool, true, false, not, ◌&&◌, ◌||◌, Option, none, ◌==◌,
  leb, if◌then◌else◌, Exec, done, fault, ◌>>=◌,
}
use armboot.MemCommand.{Bus}

-- (flags & bit) != 0
abbrev pub has_flag : ℕ → ℕ → Bool
has_flag flags bit = not (bit_and flags bit == 0)

module _ {M : Type 0} (bus : Bus M) where
  -- src[i]
  abbrev pub char_at : ℕ → ℕ → M → ℕ
  char_at src i m = bus.read 1 ((src + i) % 2 ^ 32) m

  -- while (src[i++] != 0)
  unfoldable pub skip_string : ℕ → ℕ → ℕ → M → Exec ℕ
  skip_string zero src i m = fault
  skip_string (suc fuel) src i m = elim (char_at src i m == 0) [
    | true ↦ done (i + 1)
    | false ↦ skip_string fuel src (i + 1) m
  ]

  abbrev pub skip_if : Bool → ℕ → ℕ → ℕ → M → Exec ℕ
  skip_if false fuel src i m = done i
  skip_if true fuel src i m = skip_string fuel src i m

  -- `i` behind the header
  unfoldable pub header_end : ℕ → ℕ → ℕ → M → Exec ℕ
  unfolding skip_string
  header_end fuel src flags m = do
    let extra = 12 + char_at src 10 m + char_at src 11 m * 2 ^ 8
    i ← skip_if (has_flag flags 8) fuel src (if has_flag flags 4 then extra else 10) m
    j ← skip_if (has_flag flags 0x10) fuel src i m
    done (if has_flag flags 2 then j + 2 else j)

  abbrev pub is_deflated : ℕ → M → Bool
  is_deflated src m = char_at src 2 m == 8 && not (has_flag (char_at src 3 m) 0xe0)

  -- `none` is the return of -1. The length is read as an int, which is negative from 2 ^ 31 on.
  unfoldable pub gunzip : (ℕ → ℕ → ℕ → ℕ → M → Option M) → ℕ → ℕ → ℕ → ℕ → ℕ → M → Exec (Option M)
  unfolding header_end
  gunzip inflate fuel dst dstlen src len m = elim (is_deflated src m) [
    | false ↦ done none
    | true ↦ do
      i ← header_end fuel src (char_at src 3 m) m
      let run = inflate dst dstlen ((src + i) % 2 ^ 32) (len - i) m
      if leb len i || leb (2 ^ 31) len then done none else done run
  ]
