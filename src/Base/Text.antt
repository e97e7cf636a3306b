-- ===== src/Base/Text.antt =====
-- The C string functions that the firmware calls on byte buffers.
use Prim.Native.Char.{code}
use Prim.Native.String.{String}
use mathlib.Core.Option
use multisensory_device.Base.{
  ℕ, zero, suc, ◌+◌, ◌≤◌, ◌≡◌, refl, ◌∙◌, ◌≢◌, ap, Bool, true, false, ◌&&◌, Option, none, some,
  List, [], ◌∷◌, ◌++◌, arith, ◌==◌, if◌then◌else◌, length, drop, All, Bool-cases, inl, inr,
}

-- The bytes of a literal.
abbrev pub codes : String → List ℕ
codes String.[] = []
codes (String.◌∷◌ c s) = code c ∷ codes s

-- What a `const char*` into the buffer reads: the bytes before the first zero.
unfoldable pub c_string : List ℕ → List ℕ
c_string [] = []
c_string (c ∷ s) = if c == 0 then [] else c ∷ c_string s

unfoldable pub starts_with : List ℕ → List ℕ → Bool
starts_with [] s = true
starts_with (n ∷ ns) [] = false
starts_with (n ∷ ns) (c ∷ s) = n == c && starts_with ns s

-- strstr: the place of the first occurrence.
unfoldable pub strstr : List ℕ → List ℕ → Option ℕ
unfolding starts_with
strstr needle [] = if starts_with needle [] then some 0 else none
strstr needle (c ∷ s) =
    if starts_with needle (c ∷ s) then some 0 else Option.map suc (strstr needle s)

pub starts_with_sound : (n s : List ℕ) → starts_with n s ≡ true → s ≡ n ++ drop (length n) s
unfolding starts_with
starts_with_sound [] s h = refl
starts_with_sound (n ∷ ns) [] h = cc
starts_with_sound (n ∷ ns) (c ∷ s) h = ground (arith, starts_with_sound ns s)

pub starts_with_complete : (n s : List ℕ) → starts_with n (n ++ s) ≡ true
unfolding starts_with
starts_with_complete [] s = refl
starts_with_complete (n ∷ ns) s = ground (arith, starts_with_complete ns s)

drop-nil : (n : ℕ) → drop {A = ℕ} n [] ≡ []
drop-nil zero = refl
drop-nil (suc n) = refl

pub drop-drop : (p n : ℕ) (s : List ℕ) → drop n (drop p s) ≡ drop (p + n) s
drop-drop zero n s = let e : n ≡ 0 + n = omega arith in ap (λ (t : ℕ). drop t s) e
drop-drop (suc p) n [] = rw (drop-nil n, drop-nil (suc p + n))
drop-drop (suc p) n (c ∷ s) =
    let e : suc (p + n) ≡ suc p + n = omega arith in
    drop-drop p n s ∙ ap (λ (t : ℕ). drop t (c ∷ s)) e

-- Where the search finds the needle the text splits around it.
pub strstr_sound :
    (n s : List ℕ) (p : ℕ)
    → strstr n s ≡ some p
    → (pre : List ℕ) × (post : List ℕ) × (s ≡ pre ++ (n ++ post)) × (length pre ≡ p)
unfolding strstr
strstr_sound n [] zero h = ([], drop (length n) [], starts_with_sound n [] (ground arith), refl)
strstr_sound n [] (suc p) h = absurd (ground arith)
strstr_sound n (c ∷ s) zero h =
    ([], drop (length n) (c ∷ s), starts_with_sound n (c ∷ s) (ground arith), refl)
strstr_sound n (c ∷ s) (suc p) h =
    let (pre, post, split, place) = strstr_sound n s p (ground arith) in
    (c ∷ pre, post, ap (◌∷◌ c) split, ap suc place)

strstr_here : (n s : List ℕ) → starts_with n s ≡ true → strstr n s ≡ some 0
unfolding strstr
strstr_here n [] h = rw h
strstr_here n (c ∷ s) h = rw h

-- A needle behind a prefix is found no later than there.
pub strstr_complete :
    (n pre post : List ℕ) → (p : ℕ) × (strstr n (pre ++ (n ++ post)) ≡ some p) × (p ≤ length pre)
unfolding strstr
strstr_complete n [] post =
    (0, strstr_here n (n ++ post) (starts_with_complete n post), omega arith)
strstr_complete n (c ∷ pre) post =
    let (p, found, before) = strstr_complete n pre post in
    elim (Bool-cases (starts_with n (c ∷ (pre ++ (n ++ post))))) [
      | inl here ↦ (0, rw here, omega arith)
      | inr later ↦ (suc p, rw (later, found), omega arith)
    ]

pub c_string-append : (s t : List ℕ) → All (λ c. c ≢ 0) s → c_string (s ++ t) ≡ s ++ c_string t
unfolding c_string
c_string-append [] t h = refl
c_string-append (c ∷ s) t h = ground (arith, c_string-append s t h.1)

-- The buffer begins with what the pointer reads.
pub c_string_prefix : (s : List ℕ) → s ≡ c_string s ++ drop (length (c_string s)) s
unfolding c_string
c_string_prefix [] = refl
c_string_prefix (c ∷ s) = ground (arith, c_string_prefix s)
