-- ===== src/Serial/Polls.antt =====
-- common/cmd_boot.c: `read_record` with bytes that are waiting when `ctrlc` polls the console.
use armboot.Prelude.{
  ℕ, zero, suc, ◌+◌, ◌<◌, ◌≡◌, ◌≢◌, ◌∙◌, refl, ap, true, List, [], ◌∷◌, ◌++◌, append_assoc, arith,
  done, ==_ne, length,
}
use armboot.Serial.{Byte, ctrlc, line, polled, read_chars, max_rec_len, read_record}
use armboot.Serial.Text.{late, IsPlain, ArePlain, IsStop, on_line, text_line, read_chars-text_line}

-- A byte that is there when the line is polled.
abbrev pub early : ℕ → Byte
early c = record { code = c; waiting = true }

-- One round: an ordinary character goes into the buffer.
read_chars-plain :
    (x len : ℕ) (out : List ℕ) (bs : List Byte)
    → IsPlain x
    → read_chars (suc len) out (late x ∷ bs) ≡ polled (read_chars len (out ++ x ∷ [])) (ctrlc bs)
unfolding read_chars
read_chars-plain x len out bs h =
    rw
      (
        ==_ne x 13 (λ q. absurd (omega (arith, q, h))),
        ==_ne x 10 (λ q. absurd (omega (arith, q, h))),
        ==_ne x 0 (λ q. absurd (omega (arith, q, h))),
        ==_ne x 3 (λ q. absurd (omega (arith, q, h))),
      )
      refl

read_chars-early :
    (x lost c len : ℕ) (cs ds out : List ℕ) (bs : List Byte)
    → length cs + length ds + 1 < len
    → IsPlain x
    → ArePlain cs
    → ArePlain ds
    → lost ≢ 3
    → IsStop c
    → read_chars len out (late x ∷ on_line cs (early lost ∷ text_line ds c bs))
      ≡ done (line (out ++ (x ∷ (cs ++ ds))), bs)
unfolding on_line ctrlc
read_chars-early x lost c zero cs ds out bs lt hx hc hd hl e = absurd (omega arith)
read_chars-early x lost c (suc len) [] ds out bs lt hx hc hd hl e =
    read_chars-plain x len out (early lost ∷ text_line ds c bs) hx
    ∙ (rw (==_ne lost 3 (λ q. hl q)) (
        read_chars-text_line ds (out ++ x ∷ []) c len bs (omega arith) hd e
        ∙ ap (λ t. done (line t, bs)) (append_assoc out (x ∷ []) ds)))
read_chars-early x lost c (suc len) (y ∷ cs) ds out bs lt hx hc hd hl e =
    read_chars-plain x len out (late y ∷ on_line cs (early lost ∷ text_line ds c bs)) hx
    ∙ (read_chars-early y lost c len cs ds (out ++ x ∷ []) bs (omega arith) hc.0 hc.1 hd hl e
        ∙ ap (λ t. done (line t, bs)) (append_assoc out (x ∷ []) (y ∷ (cs ++ ds))))

-- A record of characters from '0' on, which fits into the buffer, and in it, behind the first
-- character at least, any one byte but ^C, the end of the line included, that is waiting when `ctrlc`
-- polls the console: the record is read without this byte, and without an error.
pub read_record-early :
    (x lost c : ℕ) (cs ds : List ℕ) (bs : List Byte)
    → length cs + length ds + 1 < max_rec_len
    → IsPlain x
    → ArePlain cs
    → ArePlain ds
    → lost ≢ 3
    → IsStop c
    → read_record (late x ∷ on_line cs (early lost ∷ text_line ds c bs)) (max_rec_len + 1)
      ≡ done (line (x ∷ (cs ++ ds)), bs)
unfolding read_record
read_record-early x lost c cs ds bs lt hx hc hd hl e =
    read_chars-early x lost c max_rec_len cs ds [] bs lt hx hc hd hl e
