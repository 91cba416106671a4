-- ===== src/ClientStateManager/Framing.antt =====
-- How `read_and_process_client_message` cuts what it receives into messages: the loop of `strstr`
-- calls against a description that walks the text once.
pub mod Chunks
use chat_application.Prelude.{
  ℕ, zero, suc, fun_ext, ◌+◌, ◌≤◌, ◌<◌, ◌≡◌, refl, sym, ap, ◌∙◌, Bool, true, false, ◌&&◌, Option,
  none, some, List, [], ◌∷◌, ◌++◌, arith, length, ◌>>=◌, ◌==◌, if◌then◌else◌, Bool-cases,
  Option-cases, inl, inr,
}
use chat_application.CString.{Bytes, strstr_crlf, before}
use chat_application.Config.{ClientRef, World}
use chat_application.ClientStateManager.{
  append_msg, clear_msg, route_client_command, process_messages,
}

-- The complete messages, and the text behind the last terminator.
abbrev pub Frames : Type 0
Frames = List Bytes × Bytes

abbrev pub is_crlf : ℕ → ℕ → Bool
is_crlf c d = c == b'\r' && d == b'\n'

-- A byte, or a text, put in front.
abbrev pub push : ℕ → Frames → Frames
push c ([], rest) = ([], c ∷ rest)
push c (m ∷ ms, rest) = ((c ∷ m) ∷ ms, rest)

unfoldable pub frames : Bytes → Frames
frames [] = ([], [])
frames (c ∷ []) = ([], c ∷ [])
frames (c ∷ d ∷ s) =
    let cut : Frames = ([] ∷ (frames s).0, (frames s).1) in
    let go_on = push c (frames (d ∷ s)) in if is_crlf c d then cut else go_on

-- What the loop does with the messages, in order, and with the rest.
unfoldable pub deliver : ℕ → ClientRef → List Bytes → Bytes → World → Option World
deliver t c [] rest w = if length rest == 0 then some w else append_msg c rest w
deliver t c (m ∷ ms) rest w = do
  w₁ ← append_msg c m w
  w₂ ← route_client_command t c w₁
  deliver t c ms rest (clear_msg c w₂)

-- `strstr` finds the end of the first message.
abbrev Finds : Bytes → Option (Bytes × Bytes) → Type 0
Finds s none = frames s ≡ ([], s)
Finds s (some (a, b)) = (frames s ≡ (a ∷ (frames b).0, (frames b).1)) × (length b < length s)

Finds-before :
    (c d : ℕ) (s : Bytes) (o : Option (Bytes × Bytes))
    → is_crlf c d ≡ false
    → Finds (d ∷ s) o
    → Finds (c ∷ d ∷ s) (before c o)
unfolding frames
Finds-before c d s none e h = rw (e, h)
Finds-before c d s (some (a, b)) e h = (rw (e, h.0), omega arith)

strstr_crlf-Finds : (s : Bytes) → Finds s (strstr_crlf s)
unfolding frames strstr_crlf
strstr_crlf-Finds [] = refl
strstr_crlf-Finds (c ∷ []) = refl
strstr_crlf-Finds (c ∷ d ∷ s) = elim (Bool-cases (is_crlf c d)) [
  | inl e ↦ rw e (rw e, omega arith)
  | inr e ↦ rw e (Finds-before c d s (strstr_crlf (d ∷ s)) e (strstr_crlf-Finds (d ∷ s)))
]

module _ (t : ℕ) (c : ClientRef) where
  one_round :
      (fuel : ℕ) (temp : Bytes) (w : World) (o : Option (Bytes × Bytes))
      → strstr_crlf temp ≡ o
      → Finds temp o
      → ((b : Bytes) (u : World)
          → length b < length temp
          → process_messages fuel t c b u ≡ deliver t c (frames b).0 (frames b).1 u)
      → process_messages (suc fuel) t c temp w ≡ deliver t c (frames temp).0 (frames temp).1 w
  unfolding process_messages deliver
  one_round fuel temp w none e found again = rw (e, process_messages, found)
  one_round fuel temp w (some (a, b)) e found again =
      rw (e, process_messages, found.0)
        (ap (λ k. append_msg c a w >>= λ w₁. route_client_command t c w₁ >>= k)
          (fun_ext λ w₂. again b (clear_msg c w₂) found.1))

  -- With more fuel than the text has bytes, the loop of strstr calls delivers the messages that
  -- one walk over the text finds, in order, and keeps the rest.
  pub process_messages-deliver :
      (fuel : ℕ) (temp : Bytes) (w : World)
      → length temp < fuel
      → process_messages fuel t c temp w ≡ deliver t c (frames temp).0 (frames temp).1 w
  process_messages-deliver zero temp w h = elim h [ ]
  process_messages-deliver (suc fuel) temp w h =
      one_round fuel temp w (strstr_crlf temp) refl (strstr_crlf-Finds temp)
        (λ b u shorter. process_messages-deliver fuel b u (omega arith))
