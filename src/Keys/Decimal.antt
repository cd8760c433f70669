-- ===== src/Keys/Decimal.antt =====
-- `%d` of a natural number: its decimal print, which determines it and holds digits only.
use gopher_cron.Base.{
  ℕ, zero, suc, ◌+◌, ◌-◌, ◌*◌, ◌/◌, ◌%◌, ◌≤◌, ◌<◌, Text, [], ◌∷◌, ◌++◌, ◌≡◌, refl, inl, inr, All,
  All-append, arith, ltb, if◌then◌else◌, Bool-cases,
}

-- One round for each digit; `n + 1` rounds are more than any `n` has digits.
rounds : ℕ → ℕ → Text
rounds zero n = []
rounds (suc f) n =
    let front = rounds f (n / 10) in (if ltb n 10 then [] else front) ++ (b'0' + n % 10) ∷ []

unfoldable pub decimal : ℕ → Text
unfolding rounds
decimal n = rounds (suc n) n

-- More fuel changes nothing.
rounds-fuel : (f g n : ℕ) → n < f → n < g → rounds f n ≡ rounds g n
unfolding rounds
rounds-fuel zero g n h k = elim h [ ]
rounds-fuel (suc f) zero n h k = elim k [ ]
rounds-fuel (suc f) (suc g) n h k = ground (arith, rounds-fuel f g (n / 10))

-- One more digit at the end of a print is the print of the number with that digit.
pub decimal-snoc : (n d : ℕ) → 0 < n → d < 10 → decimal (n * 10 + d) ≡ decimal n ++ (b'0' + d) ∷ []
unfolding decimal rounds
decimal-snoc n d h k =
    let same : (n * 10 + d) / 10 ≡ n = omega arith in
    let last : (n * 10 + d) % 10 ≡ d = omega arith in
    rw (same, last) (ground (arith, rounds-fuel (n * 10 + d) (suc n) n))

-- The number that digits spell behind `acc`.
unfoldable pub value : ℕ → Text → ℕ
value acc [] = acc
value acc (c ∷ s) = value (acc * 10 + (c - b'0')) s

value-append : (acc : ℕ) (s t : Text) → value acc (s ++ t) ≡ value (value acc s) t
unfolding value
value-append acc [] t = refl
value-append acc (c ∷ s) t = value-append (acc * 10 + (c - b'0')) s t

value-rounds : (f n : ℕ) → n < f → value 0 (rounds f n) ≡ n
unfolding rounds value
value-rounds zero n h = elim h [ ]
value-rounds (suc f) n h = elim (Bool-cases (ltb n 10)) [
  | inl small ↦ rw small (ground arith)
  | inr big ↦
      rw (big, value-append 0 (rounds f (n / 10)) ((b'0' + n % 10) ∷ []))
        (ground (arith, value-rounds f (n / 10)))
]

pub value-decimal : (n : ℕ) → value 0 (decimal n) ≡ n
unfolding decimal
value-decimal n = value-rounds (suc n) n (omega arith)

-- The print of a number determines the number.
pub decimal-injective : (a b : ℕ) → decimal a ≡ decimal b → a ≡ b
decimal-injective a b e = cc (value-decimal a, value-decimal b)

abbrev pub IsDigit : ℕ → Type 0
IsDigit c = (b'0' ≤ c) × (c ≤ b'9')

rounds-IsDigit : (f n : ℕ) → All IsDigit (rounds f n)
unfolding rounds
rounds-IsDigit zero n = tt
rounds-IsDigit (suc f) n = elim (Bool-cases (ltb n 10)) [
  | inl small ↦ rw small (omega arith)
  | inr big ↦
      rw big (All-append IsDigit (rounds f (n / 10)) _ (rounds-IsDigit f (n / 10)) (omega arith))
]

pub decimal-IsDigit : (n : ℕ) → All IsDigit (decimal n)
unfolding decimal
decimal-IsDigit n = rounds-IsDigit (suc n) n

-- A separator that is no digit ends the number before it.
split_at_sep :
    (c : ℕ) (xs ys s t : Text)
    → ¬ IsDigit c
    → All IsDigit xs
    → All IsDigit ys
    → xs ++ c ∷ s ≡ ys ++ c ∷ t
    → (xs ≡ ys) × (s ≡ t)
split_at_sep c [] [] s t n hx hy e = (refl, cc)
split_at_sep c [] (y ∷ ys) s t n hx hy e = absurd (n (rw (let h : c ≡ y = cc in h) hy.0))
split_at_sep c (x ∷ xs) [] s t n hx hy e = absurd (n (rw (let h : c ≡ x = cc in h) hx.0))
split_at_sep c (x ∷ xs) (y ∷ ys) s t n hx hy e =
    let (p, q) = split_at_sep c xs ys s t n hx.1 hy.1 (cc) in (cc, q)

pub decimal-cons-injective :
    (c a b : ℕ) (s t : Text)
    → ¬ IsDigit c
    → decimal a ++ c ∷ s ≡ decimal b ++ c ∷ t
    → (a ≡ b) × (s ≡ t)
decimal-cons-injective c a b s t n e =
    let (p, q) =
      split_at_sep c (decimal a) (decimal b) s t n (decimal-IsDigit a) (decimal-IsDigit b) e in
    (decimal-injective a b p, q)

snoc-cons : (xs : Text) (c : ℕ) → (d : ℕ) × (s : Text) × (xs ++ c ∷ [] ≡ d ∷ s)
snoc-cons [] c = (c, [], refl)
snoc-cons (x ∷ xs) c = (x, xs ++ c ∷ [], refl)

-- A print is not empty.
pub decimal-cons : (n : ℕ) → (d : ℕ) × (s : Text) × (decimal n ≡ d ∷ s)
unfolding decimal rounds
decimal-cons n = snoc-cons (if ltb n 10 then [] else rounds n (n / 10)) (b'0' + n % 10)
