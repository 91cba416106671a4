-- ===== src/CString/Laws.antt =====
-- What the string functions promise.
use chat_application.Prelude.{
  ℕ, ◌+◌, ◌≤◌, ◌<◌, ◌≡◌, none, some, [], ◌∷◌, ◌++◌, arith, length, length-append,
}
use chat_application.CString.{Bytes, c_string, write_text, strcat, decimal}

pub write_text-fits : (cap : ℕ) (text : Bytes) → length text < cap → write_text cap text ≡ some text
unfolding write_text
write_text-fits cap text h = ground arith

pub strcat-fits :
    (cap : ℕ) (buf text : Bytes)
    → length buf + length text < cap
    → strcat cap buf text ≡ some (buf ++ text)
unfolding strcat
strcat-fits cap buf text h = ground (arith, length-append buf text)

pub strcat-overflows :
    (cap : ℕ) (buf text : Bytes) → cap ≤ length buf + length text → strcat cap buf text ≡ none
unfolding strcat
strcat-overflows cap buf text h = ground (arith, length-append buf text)

pub length-c_string-le : (s : Bytes) → length (c_string s) ≤ length s
unfolding c_string
length-c_string-le [] = omega arith
length-c_string-le (c ∷ s) = ground (arith, length-c_string-le s)

pub decimal-length : (n : ℕ) → (1 ≤ length (decimal n)) × (length (decimal n) ≤ 2)
unfolding decimal
decimal-length n = ground arith
