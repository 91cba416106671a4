-- ===== src/CString.antt =====
-- The functions of <string.h>, <stdio.h>, <ctype.h> and <stdlib.h> that the sources call, on a C
-- string given by its bytes before the NUL. A write into a buffer of `cap` bytes faults (`none`)
-- where text and NUL do not fit: in C it would run past the end of the array.
pub mod Laws
use Prim.Native.Char.{code}
use chat_application.Prelude.{
  ℕ, zero, suc, ◌+◌, ◌-◌, ◌*◌, ◌/◌, ◌%◌, String, Bool, ◌&&◌, Option, none, some, List, [], ◌∷◌,
  ◌++◌, ltb, leb, ◌==◌, if◌then◌else◌, length,
}

abbrev pub Bytes : Type 0
Bytes = List ℕ

-- The bytes of a literal (ASCII).
abbrev pub codes : String → Bytes
codes String.[] = []
codes (String.◌∷◌ c s) = code c ∷ codes s

-- What string functions see of a buffer: the bytes before the first NUL.
unfoldable pub c_string : Bytes → Bytes
c_string [] = []
c_string (c ∷ s) = if c == 0 then [] else c ∷ c_string s

-- `s[i]`; the byte at the end is the NUL, and the buffers that are indexed are zero behind it.
abbrev pub char_at : Bytes → ℕ → ℕ
char_at [] i = 0
char_at (c ∷ s) zero = c
char_at (c ∷ s) (suc i) = char_at s i

-- `strcpy(buf, text)` and `sprintf(buf, ...)` where `text` is what is printed
unfoldable pub write_text : ℕ → Bytes → Option Bytes
write_text cap text = if ltb (length text) cap then some text else none

-- `strcat(buf, text)`
unfoldable pub strcat : ℕ → Bytes → Bytes → Option Bytes
unfolding write_text
strcat cap buf text = write_text cap (buf ++ text)

-- A byte put before what `strstr` split off.
abbrev pub before : ℕ → Option (Bytes × Bytes) → Option (Bytes × Bytes)
before c none = none
before c (some (a, b)) = some (c ∷ a, b)

-- `strstr(s, "\r\n")`: the text up to the first terminator, and the text behind it
unfoldable pub strstr_crlf : Bytes → Option (Bytes × Bytes)
strstr_crlf [] = none
strstr_crlf (c ∷ []) = none
strstr_crlf (c ∷ d ∷ s) =
    let rest = strstr_crlf (d ∷ s) in
    if c == b'\r' && d == b'\n' then some ([], s) else before c rest

unfoldable pub isdigit : ℕ → Bool
isdigit c = leb b'0' c && leb c b'9'

-- `atoi` on a text that begins with a digit
unfoldable pub atoi : ℕ → Bytes → ℕ
unfolding isdigit
atoi acc [] = acc
atoi acc (c ∷ s) = let rest = atoi (acc * 10 + (c - b'0')) s in if isdigit c then rest else acc

-- `%d` of a number below 100, which all numbers that the sources print are
unfoldable pub decimal : ℕ → Bytes
decimal n = if ltb n 10 then (n + b'0') ∷ [] else (n / 10 + b'0') ∷ (n % 10 + b'0') ∷ []
