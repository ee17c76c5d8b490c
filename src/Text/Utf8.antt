-- ===== src/Text/Utf8.antt =====
-- Well-formed UTF-8 passes through `String::from_utf8_lossy` unchanged.
use zet_mq.Prelude.{
  ℕ, zero, suc, ◌≤◌, ◌≡◌, refl, true, [], ◌∷◌, ◌++◌, length, take, drop, arith, ap, ◌∙◌, Bool-cases,
  inl, inr, take-append-drop, length-drop,
}
use zet_mq.Text.{Str, next_char, utf8_chars, is_utf8, lossy_chars, from_utf8_lossy}

next_char_pos : (a : ℕ) (rest : Str) → 1 ≤ (next_char a rest).0
unfolding next_char
next_char_pos a [] = ground arith
next_char_pos a (b ∷ []) = ground arith
next_char_pos a (b ∷ c ∷ []) = ground arith
next_char_pos a (b ∷ c ∷ d ∷ rest) = ground arith

lossy_chars_valid :
    (fuel : ℕ) (s : Str) → length s ≤ fuel → utf8_chars fuel s ≡ true → lossy_chars fuel s ≡ s
unfolding utf8_chars lossy_chars
lossy_chars_valid zero [] h v = refl
lossy_chars_valid zero (a ∷ rest) h v = elim h [ ]
lossy_chars_valid (suc fuel) [] h v = refl
lossy_chars_valid (suc fuel) (a ∷ rest) h v = elim (Bool-cases (next_char a rest).1) [
  | inl good ↦
      let n = (next_char a rest).0 in
      let shorter = length-drop n (a ∷ rest) in
      let tail_valid = lossy_chars_valid fuel (drop n (a ∷ rest)) in
      rw good (
        ap (λ (t : Str). take n (a ∷ rest) ++ t)
          (tail_valid (omega (arith, shorter, next_char_pos a rest)) (ground arith))
        ∙ take-append-drop n (a ∷ rest))
  | inr bad ↦ ground arith
]

-- A well-formed text survives the lossy conversion.
pub from_utf8_lossy-utf8 : (s : Str) → is_utf8 s ≡ true → from_utf8_lossy s ≡ s
unfolding is_utf8 from_utf8_lossy
from_utf8_lossy-utf8 s v = lossy_chars_valid (length s) s (omega arith) v
