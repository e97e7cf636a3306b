-- ===== src/Base/Decimal.antt =====
-- `snprintf` of unsigned numbers: `%lu` and `%0<k>lu`, and the number that digits spell.
use mathlib.Core.List.{foldl, foldl-append}
use multisensory_device.Base.{
  ℕ, zero, suc, ◌+◌, ◌-◌, ◌*◌, ◌/◌, ◌%◌, ◌≤◌, ◌<◌, ◌≡◌, refl, List, [], ◌∷◌, ◌++◌, arith, ltb,
  if◌then◌else◌, length, length-append, All,
}

abbrev pub digit : ℕ → ℕ
digit d = b'0' + d

-- `%lu` in at most `k` places, which a number below 10 ^ k fits.
unfoldable pub print_decimal : ℕ → ℕ → List ℕ
print_decimal zero n = []
print_decimal (suc k) n =
    let shorter = print_decimal k (n / 10) in
    if ltb n 10 then digit n ∷ [] else shorter ++ (digit (n % 10) ∷ [])

-- `%0<k>lu` of a number that fits k places.
unfoldable pub print_padded : ℕ → ℕ → List ℕ
print_padded zero n = []
print_padded (suc k) n = print_padded k (n / 10) ++ (digit (n % 10) ∷ [])

abbrev pub shift : ℕ → ℕ → ℕ
shift n c = n * 10 + (c - b'0')

abbrev pub value : List ℕ → ℕ
value = foldl shift 0

abbrev pub IsDigit : ℕ → Type 0
IsDigit c = (b'0' ≤ c) × (c ≤ b'9')

abbrev pub pow10 : ℕ → ℕ
pow10 zero = 1
pow10 (suc k) = 10 * pow10 k

value-snoc : (s : List ℕ) (d : ℕ) → value (s ++ (digit d ∷ [])) ≡ value s * 10 + d
value-snoc s d = omega (arith, foldl-append shift 0 s (digit d ∷ []))

pub value-print_decimal : (k n : ℕ) → n < pow10 k → value (print_decimal k n) ≡ n
unfolding print_decimal
value-print_decimal zero n h = omega arith
value-print_decimal (suc k) n h =
    ground (arith, value-print_decimal k (n / 10), value-snoc (print_decimal k (n / 10)) (n % 10))

pub value-print_padded : (k n : ℕ) → n < pow10 k → value (print_padded k n) ≡ n
unfolding print_padded
value-print_padded zero n h = omega arith
value-print_padded (suc k) n h = omega (
  arith,
  value-print_padded k (n / 10) (omega arith),
  value-snoc (print_padded k (n / 10)) (n % 10),
)

pub length-print_padded : (k n : ℕ) → length (print_padded k n) ≡ k
unfolding print_padded
length-print_padded zero n = refl
length-print_padded (suc k) n = omega (
  arith,
  length-print_padded k (n / 10),
  length-append (print_padded k (n / 10)) (digit (n % 10) ∷ []),
)

pub length-print_decimal : (k n : ℕ) → length (print_decimal k n) ≤ k
unfolding print_decimal
length-print_decimal zero n = omega arith
length-print_decimal (suc k) n = ground (
  arith,
  length-print_decimal k (n / 10),
  length-append (print_decimal k (n / 10)) (digit (n % 10) ∷ []),
)

All-snoc : (P : ℕ → Type 0) (xs : List ℕ) (x : ℕ) → All P xs → P x → All P (xs ++ (x ∷ []))
All-snoc P [] x h p = (p, tt)
All-snoc P (y ∷ ys) x h p = (h.0, All-snoc P ys x h.1 p)

pub print_padded-IsDigit : (k n : ℕ) → All IsDigit (print_padded k n)
unfolding print_padded
print_padded-IsDigit zero n = tt
print_padded-IsDigit (suc k) n =
    All-snoc IsDigit (print_padded k (n / 10)) (digit (n % 10)) (print_padded-IsDigit k (n / 10))
      (omega arith)

pub print_decimal-IsDigit : (k n : ℕ) → All IsDigit (print_decimal k n)
unfolding print_decimal
print_decimal-IsDigit zero n = tt
print_decimal-IsDigit (suc k) n = ground (
  arith,
  All-snoc IsDigit (print_decimal k (n / 10)) (digit (n % 10)),
  print_decimal-IsDigit k (n / 10),
)
