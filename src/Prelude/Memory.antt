-- ===== src/Prelude/Memory.antt =====
-- Arrays as functions from the index: a write at one index, a search loop, a count.
use Prim.Native.Nat.{ℕ, zero, suc, ◌+◌, ◌≤◌, ◌<◌}
use mathlib.Core.Path.{◌∙◌, sym, ap, ◌≡◌, refl, fun_ext}
use mathlib.Core.Logic.{◌≢◌, inl, inr}
use mathlib.Core.Bool.{Bool, true, false}
use mathlib.Core.Option.{Option, none, some}
use native.Mathlib.Omega.{arith}
use chat_application.Prelude.Tests.{◌==◌, ==_refl, if◌then◌else◌, Bool-cases}

abbrev pub update {ℓ} : {A : Type ℓ} → (ℕ → A) → ℕ → A → ℕ → A
update f i a j = if i == j then a else f j

-- What holds of the new value at the index, and of the old values elsewhere, holds after the write.
pub update_elim {ℓ κ} :
    {A : Type ℓ} (P : ℕ → A → Type κ) (f : ℕ → A) (i : ℕ) (a : A)
    → P i a
    → ((j : ℕ) → i ≢ j → P j (f j))
    → (j : ℕ) → P j (update f i a j)
update_elim P f i a at_i elsewhere j = elim (Bool-cases (i == j)) [
  | inl here ↦ let e : j ≡ i = ground arith in rw (e, ==_refl i) at_i
  | inr other ↦ rw other (elsewhere j (ground arith))
]

-- `for (int i = first; i < first + rounds; i++) if (test(i)) return i;`
pub first_from : (ℕ → Bool) → ℕ → ℕ → Option ℕ
first_from test zero i = none
first_from test (suc n) i = let rest = first_from test n (i + 1) in if test i then some i else rest

-- What the loop returns: the first index that passes, or the proof that none does.
abbrev pub IsFirst : (ℕ → Bool) → ℕ → ℕ → Option ℕ → Type 0
IsFirst test n i none = (j : ℕ) → i ≤ j → j < i + n → test j ≡ false
IsFirst test n i (some k) =
    (i ≤ k) × (k < i + n) × (test k ≡ true) × ((j : ℕ) → i ≤ j → j < k → test j ≡ false)

IsFirst-step :
    (test : ℕ → Bool) (n i : ℕ) (o : Option ℕ)
    → test i ≡ false
    → IsFirst test n (i + 1) o
    → IsFirst test (suc n) i o
IsFirst-step test n i none miss h = λ j p q. elim (Bool-cases (i == j)) [
  | inl here ↦ let e : j ≡ i = ground arith in rw e miss
  | inr later ↦ h j (ground arith) (omega arith)
]
IsFirst-step test n i (some k) miss h = (
  omega arith,
  omega arith,
  h.2,
  λ j p q. elim (Bool-cases (i == j)) [
    | inl here ↦ let e : j ≡ i = ground arith in rw e miss
    | inr later ↦ h.3 j (ground arith) q
  ],
)

pub first_from_lem : (test : ℕ → Bool) (n i : ℕ) → IsFirst test n i (first_from test n i)
unfolding first_from
first_from_lem test zero i = λ j p q. absurd (omega arith)
first_from_lem test (suc n) i = elim (Bool-cases (test i)) [
  | inl hit ↦ rw hit (omega arith, omega arith, hit, λ j p q. absurd (omega arith))
  | inr miss ↦ rw miss (IsFirst-step test n i _ miss (first_from_lem test n (i + 1)))
]

-- The last of two writes at one index stays.
pub update-update {ℓ} :
    {A : Type ℓ} (f : ℕ → A) (i : ℕ) (a b : A) → update (update f i a) i b ≡ update f i b
update-update f i a b =
    fun_ext λ j. elim (Bool-cases (i == j)) [ inl here ↦ rw here | inr other ↦ rw other ]

-- The number of indices below `n` that pass the test.
pub count : ℕ → (ℕ → Bool) → ℕ
count zero test = 0
count (suc n) test = count n test + (if test n then 1 else 0)

pub count-same : (n : ℕ) (f g : ℕ → Bool) → ((j : ℕ) → j < n → f j ≡ g j) → count n f ≡ count n g
unfolding count
count-same zero f g h = refl
count-same (suc n) f g h = rw (h n (omega arith), count-same n f g (λ j p. h j (omega arith)))

-- Two tests that differ at one index below `n` at most.
pub count-change :
    (n k : ℕ) (f g : ℕ → Bool)
    → k < n
    → ((j : ℕ) → j ≢ k → f j ≡ g j)
    → count n f + (if g k then 1 else 0) ≡ count n g + (if f k then 1 else 0)
unfolding count
count-change zero k f g h e = absurd (omega arith)
count-change (suc n) k f g h e = elim (Bool-cases (n == k)) [
  | inl here ↦
      let e' : n ≡ k = ground arith in
      rw (e', count-same k f g (λ j p. e j (omega arith))) (omega arith)
  | inr other ↦ rw (e n (ground arith)) (omega (arith, count-change n k f g (ground arith) e))
]

pub count-none : (n : ℕ) (f : ℕ → Bool) → ((j : ℕ) → j < n → f j ≡ false) → count n f ≡ 0
unfolding count
count-none zero f h = refl
count-none (suc n) f h = rw (h n (omega arith), count-none n f (λ j p. h j (omega arith)))

pub count-all : (n : ℕ) (f : ℕ → Bool) → ((j : ℕ) → j < n → f j ≡ true) → count n f ≡ n
unfolding count
count-all zero f h = refl
count-all (suc n) f h =
    rw (h n (omega arith), count-all n f (λ j p. h j (omega arith))) (omega arith)

-- A write of the value that is there.
pub update_self {ℓ} : {A : Type ℓ} (f : ℕ → A) (i : ℕ) (a : A) → f i ≡ a → update f i a ≡ f
update_self f i a e = fun_ext λ j. elim (Bool-cases (i == j)) [
  | inl here ↦ let same : i ≡ j = ground arith in rw here (sym e ∙ ap f same)
  | inr other ↦ rw other refl
]
