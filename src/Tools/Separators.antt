-- ===== src/Tools/Separators.antt =====
-- Characters that a printed number does not have, and cutting a text at them.
use xevos.Base.{
  ℕ, zero, suc, ◌≡◌, ◌%◌, ◌/◌, ◌+◌, ◌<◌, refl, length, All, Option-cases, Bool, true, false, ◌||◌,
  Bool-cases, inl, inr, any, none, some, [], ◌∷◌, ◌++◌, Text, ltb, ◌==◌, nat_eq, arith, digits,
}
use xevos.Tools.Pieces.{strip, cut, split_on}

abbrev pub has : ℕ → Text → Bool
has s t = any (λ c. c == s) t

pub digits-has :
    (s fuel n : ℕ) (acc : Text)
    → (ltb 57 s || ltb s 48) ≡ true
    → has s acc ≡ false
    → has s (digits fuel n acc) ≡ false
unfolding digits
digits-has s zero n acc big h = h
digits-has s (suc fuel) n acc big h = elim (Bool-cases (ltb n 10)) [
  | inl e ↦ rw (e, digits) (ground (arith, e, big, h))
  | inr e ↦
      rw (e, digits) (digits-has s fuel (n / 10) ((48 + n % 10) ∷ acc) big (ground (arith, big, h)))
]

-- The first separator of a text is where the part without one ends.
pub cut-has : (s : ℕ) (p q : Text) → has s p ≡ false → cut (s ∷ []) (p ++ (s ∷ q)) ≡ some (p, q)
unfolding cut strip
cut-has s [] q h = ground arith
cut-has s (c ∷ p) q h = ground (arith, h, cut-has s p q)

pub cut-none : (s : ℕ) (p : Text) → has s p ≡ false → cut (s ∷ []) p ≡ none
unfolding cut strip
cut-none s [] h = refl
cut-none s (c ∷ p) h = ground (arith, h, cut-none s p)

cut_before :
    (s : ℕ) (t b a : Text)
    → cut (s ∷ []) t ≡ some (b, a)
    → (has s b ≡ false) × (length a < length t)
unfolding cut strip
cut_before s [] b a h = absurd (ground (arith, h))
cut_before s (c ∷ cs) [] a h = (refl, ground (arith, h, cut_before s cs [] a))
cut_before s (c ∷ cs) (x ∷ b) a h =
    (ground (arith, h, cut_before s cs b a), ground (arith, h, cut_before s cs b a))

cut_misses : (s : ℕ) (t : Text) → cut (s ∷ []) t ≡ none → has s t ≡ false
unfolding cut strip
cut_misses s [] h = refl
cut_misses s (c ∷ cs) h = ground (arith, h, cut_misses s cs)

-- No piece of a text has the separator.
pub split_on-has :
    (fuel s : ℕ) (t : Text)
    → length t < fuel
    → All (λ l. has s l ≡ false) (split_on fuel (s ∷ []) t)
unfolding split_on
split_on-has zero s t h = absurd (omega arith)
split_on-has (suc fuel) s t h = elim (Option-cases (cut (s ∷ []) t)) [
  | inl e ↦ rw (e, split_on) (cut_misses s t e, tt)
  | inr ((b, a), e) ↦
      let (clean, shorter) = cut_before s t b a e in
      rw (e, split_on) (clean, split_on-has fuel s a (omega arith))
]
