-- ===== src/Send/Transmit.antt =====
-- The loop of `send` calls: nothing is lost, repeated or reordered.
use chat_application.Prelude.{
  ℕ, zero, suc, ◌+◌, ◌-◌, ◌≤◌, ◌≡◌, refl, ap, true, false, List, [], ◌∷◌, ◌++◌, arith, length, drop,
  take, ◌∙◌, append_assoc,
}
use chat_application.CString.{Bytes}
use chat_application.Send.{SendResult, failed, accepted, complete, transmit}

-- The bytes that the kernel took, in order.
pub taken : List SendResult → Bytes → Bytes
taken answers [] = []
taken [] (b ∷ rest) = []
taken (failed true ∷ answers) (b ∷ rest) = taken answers (b ∷ rest)
taken (failed false ∷ answers) (b ∷ rest) = []
taken (accepted n ∷ answers) (b ∷ rest) = take n (b ∷ rest) ++ taken answers (drop n (b ∷ rest))

take-drop : (n : ℕ) (s : Bytes) → take n s ++ drop n s ≡ s
take-drop zero s = refl
take-drop (suc n) [] = refl
take-drop (suc n) (b ∷ s) = ap (λ t. b ∷ t) (take-drop n s)

-- Whatever the kernel answers, the bytes that the loop of send calls had accepted, followed by the
-- bytes left, are the packet.
pub transmit-taken :
    (answers : List SendResult) (s : Bytes) → taken answers s ++ (transmit answers s).1 ≡ s
unfolding taken transmit
transmit-taken answers [] = refl
transmit-taken [] (b ∷ rest) = refl
transmit-taken (failed true ∷ answers) (b ∷ rest) = transmit-taken answers (b ∷ rest)
transmit-taken (failed false ∷ answers) (b ∷ rest) = refl
transmit-taken (accepted n ∷ answers) (b ∷ rest) =
    append_assoc (take n (b ∷ rest)) _ _
    ∙ ap (λ t. take n (b ∷ rest) ++ t) (transmit-taken answers (drop n (b ∷ rest)))
    ∙ take-drop n (b ∷ rest)

-- The bytes that the answers offer to take.
unfoldable pub offered : List SendResult → ℕ
offered [] = 0
offered (failed e ∷ answers) = offered answers
offered (accepted n ∷ answers) = n + offered answers

-- No answer is an error other than EAGAIN and EWOULDBLOCK.
abbrev pub IsRetried : List SendResult → Type 0
IsRetried [] = Unit {0}
IsRetried (failed true ∷ answers) = IsRetried answers
IsRetried (failed false ∷ answers) = ⊥
IsRetried (accepted n ∷ answers) = IsRetried answers

length-drop : (n : ℕ) (s : Bytes) → length (drop n s) ≡ length s - n
length-drop zero s = omega arith
length-drop (suc n) [] = omega arith
length-drop (suc n) (b ∷ s) = omega (arith, length-drop n s)

-- If every error is EAGAIN or EWOULDBLOCK and the answers offer to take as many bytes as the
-- packet has, the loop of send calls ends with all of it sent.
pub transmit-complete :
    (answers : List SendResult) (s : Bytes)
    → IsRetried answers
    → length s ≤ offered answers
    → transmit answers s ≡ (complete, [])
unfolding transmit offered
transmit-complete answers [] retried enough = refl
transmit-complete [] (b ∷ rest) retried enough = absurd (omega arith)
transmit-complete (failed true ∷ answers) (b ∷ rest) retried enough =
    transmit-complete answers (b ∷ rest) retried enough
transmit-complete (failed false ∷ answers) (b ∷ rest) retried enough = absurd retried
transmit-complete (accepted n ∷ answers) (b ∷ rest) retried enough =
    transmit-complete answers (drop n (b ∷ rest)) retried (omega (arith, length-drop n (b ∷ rest)))
