-- ===== src/CString/Print.antt =====
-- `number` of common/vsprintf.c, which writes a number for `vsprintf`. A long is its 32 bits. The
-- int arguments `size` and `precision` only count where they are positive: -1, their default, is 0
-- here, and a subtraction that stops at 0 makes the same loops run.
pub mod Reread
use armboot.Prelude.{
  ℕ, zero, suc, ◌+◌, ◌-◌, ◌%◌, ◌/◌, ◌^◌, Bool, true, false, not, ◌&&◌, ◌||◌, List, [], ◌∷◌, ◌++◌,
  Option, none, some, ◌==◌, ltb, leb, if◌then◌else◌, length,
}
use armboot.CString.{CString}

-- `type`, flag by flag
pub record Flags : Type 0 where
  pub zeropad : Bool
  pub sign : Bool
  pub plus : Bool
  pub space : Bool
  pub left : Bool
  pub special : Bool
  pub large : Bool

-- digits[d]
unfoldable pub digit : Bool → ℕ → ℕ
digit large d = if ltb d 10 then b'0' + d else (if large then b'A' else b'a') + (d - 10)

-- while (num != 0) tmp[i++] = digits[do_div(num,base)], with `tmp` in the order in which it is
-- written out, from its last character on.
unfoldable pub digits_onto : ℕ → Bool → ℕ → ℕ → CString → CString
digits_onto zero large base num tmp = tmp
digits_onto (suc fuel) large base num tmp =
    let more = digits_onto fuel large base (num / base) (digit large (num % base) ∷ tmp) in
    if num == 0 then tmp else more

abbrev pub is_negative_long : ℕ → Bool
is_negative_long num = leb (2 ^ 31) num

-- `sign`, where there is one
abbrev pub sign_of : Flags → ℕ → CString
sign_of type num =
    if type.sign
    then (if is_negative_long num
        then b'-' ∷ []
        else if type.plus
        then b'+' ∷ []
        else if type.space
        then b' ' ∷ []
        else [])
    else []

abbrev pub magnitude : Flags → ℕ → ℕ
magnitude type num = if type.sign && is_negative_long num then 2 ^ 32 - num else num

-- what SPECIAL puts in front of the digits
abbrev pub special_of : Flags → ℕ → CString
special_of type base =
    if type.special
    then (if base == 8
        then b'0' ∷ []
        else if base == 16
        then b'0' ∷ digit type.large 33 ∷ []
        else [])
    else []

-- while (n-- > 0) *str++ = c
unfoldable pub times : ℕ → ℕ → CString
times zero c = []
times (suc n) c = c ∷ times n c

abbrev pub max : ℕ → ℕ → ℕ
max m n = if ltb m n then n else m

-- The characters, from `size` on less the sign and the prefix, with at least `precision` digits.
abbrev pub laid_out : Flags → ℕ → ℕ → CString → CString → CString → CString
laid_out type size precision sign prefix tmp =
    let pad = size - length sign - length prefix - max precision (length tmp) in
    let zeropad = type.zeropad && not type.left in
    (if zeropad || type.left then [] else times pad b' ')
    ++ (sign
        ++ (prefix
            ++ ((if zeropad then times pad b'0' else [])
                ++ (times (precision - length tmp) b'0'
                    ++ (tmp ++ (if type.left then times pad b' ' else []))))))

-- What is written at `str`; `none` is the null pointer.
unfoldable pub number : ℕ → ℕ → ℕ → ℕ → Flags → Option CString
unfolding digits_onto digit times
number num base size precision type =
    let n = magnitude type num in
    let tmp = if n == 0 then b'0' ∷ [] else digits_onto 32 type.large base n [] in
    if ltb base 2 || ltb 36 base
    then none
    else some (laid_out type size precision (sign_of type num) (special_of type base) tmp)
