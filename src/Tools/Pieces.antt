-- ===== src/Tools/Pieces.antt =====
-- `indexOf`, `split`, `join` and `replace` of JavaScript strings, as the edit tools use them.
use xevos.Base.{
  ℕ, zero, suc, ◌≡◌, refl, sym, ap, ◌∙◌, Option, Option-cases, none, some, List, [], ◌∷◌, ◌++◌, map,
  length, ◌==◌, nat_eq, arith, inl, inr, if◌then◌else◌, Text, join,
}

-- What follows a prefix.
unfoldable pub strip : Text → Text → Option Text
strip [] t = some t
strip (c ∷ cs) [] = none
strip (c ∷ cs) (d ∷ ds) = let rest = strip cs ds in if c == d then rest else none

-- The text before and after the first occurrence of a separator.
unfoldable pub cut : Text → Text → Option (Text × Text)
unfolding strip
cut sep [] = elim (strip sep []) [ none ↦ none | some r ↦ some ([], r) ]
cut sep (c ∷ cs) =
    let rest = cut sep cs in
    elim (strip sep (c ∷ cs)) [
      | some r ↦ some ([], r)
      | none ↦ elim rest [ none ↦ none | some (b, a) ↦ some (c ∷ b, a) ]
    ]

-- `t.split(sep)` for a separator that is not empty; each step shortens the text, so its length is
-- enough fuel.
unfoldable pub split_on : ℕ → Text → Text → List Text
split_on zero sep t = t ∷ []
split_on (suc fuel) sep t = elim (cut sep t) [
  | none ↦ t ∷ []
  | some (b, a) ↦ b ∷ split_on fuel sep a
]

-- `t.split(sep)`
unfoldable pub split : Text → Text → List Text
split [] t = map (λ c. c ∷ []) t
split (c ∷ cs) t = split_on (suc (length t)) (c ∷ cs) t

-- The replacement of `replace`, in which `$$`, `$&`, `` $` `` and `$'` stand for a dollar, the match, and
-- what is before and after it.
unfoldable pub expand : Text → Text → Text → Text → Text
expand m b a [] = []
expand m b a (x ∷ []) = x ∷ []
expand m b a (x ∷ y ∷ rest) =
    let here = expand m b a rest in
    let next = expand m b a (y ∷ rest) in
    if x == 36
    then (if y == 36
        then 36 ∷ here
        else if y == 38
        then m ++ here
        else if y == 96
        then b ++ here
        else if y == 39
        then a ++ here
        else x ∷ next)
    else x ∷ next

-- `t.replace(old, new)` with strings: the first occurrence.
unfoldable pub replace : Text → Text → Text → Text
replace t old new = elim (cut old t) [ none ↦ t | some (b, a) ↦ b ++ (expand old b a new ++ a) ]

strip_sound : (p t r : Text) → strip p t ≡ some r → t ≡ p ++ r
unfolding strip
strip_sound [] t r h = ground (arith, h)
strip_sound (c ∷ cs) [] r h = absurd (cc h)
strip_sound (c ∷ cs) (d ∷ ds) r h = ground (arith, h, strip_sound cs ds r)

pub cut_sound : (sep t b a : Text) → cut sep t ≡ some (b, a) → t ≡ b ++ (sep ++ a)
unfolding cut
cut_sound sep [] b a h = ground (arith, h, strip_sound sep [] a)
cut_sound sep (c ∷ cs) [] a h = ground (arith, h, strip_sound sep (c ∷ cs) a)
cut_sound sep (c ∷ cs) (x ∷ b) a h = ground (arith, h, cut_sound sep cs b a)

abbrev NonEmpty : List Text → Type 0
NonEmpty ps = (p : Text) × (rest : List Text) × (ps ≡ p ∷ rest)

split_on-NonEmpty : (fuel : ℕ) (sep t : Text) → NonEmpty (split_on fuel sep t)
unfolding split_on
split_on-NonEmpty zero sep t = (t, [], refl)
split_on-NonEmpty (suc fuel) sep t = elim (Option-cases (cut sep t)) [
  | inl e ↦ rw (e, split_on) (t, [], refl)
  | inr ((b, a), e) ↦ rw (e, split_on) (b, split_on fuel sep a, refl)
]

join_cons :
    (sep b : Text) (ps : List Text) → NonEmpty ps → join sep (b ∷ ps) ≡ b ++ (sep ++ join sep ps)
join_cons sep b ps (p, rest, e) = rw e refl

-- Joining what was split gives the text back.
join-split_on : (fuel : ℕ) (sep t : Text) → join sep (split_on fuel sep t) ≡ t
unfolding split_on
join-split_on zero sep t = refl
join-split_on (suc fuel) sep t = elim (Option-cases (cut sep t)) [
  | inl e ↦ rw (e, split_on) refl
  | inr ((b, a), e) ↦
      rw (e, split_on)
        (join_cons sep b (split_on fuel sep a) (split_on-NonEmpty fuel sep a)
          ∙ (ap (λ x. b ++ (sep ++ x)) (join-split_on fuel sep a) ∙ sym (cut_sound sep t b a e)))
]

join_chars : (t : Text) → join [] (map (λ c. c ∷ []) t) ≡ t
join_chars [] = refl
join_chars (c ∷ []) = refl
join_chars (c ∷ d ∷ t) = ap (λ x. c ∷ x) (join_chars (d ∷ t))

-- `t.split(sep).join(sep) === t`, for every separator.
pub join-split : (sep t : Text) → join sep (split sep t) ≡ t
unfolding split
join-split [] t = join_chars t
join-split (c ∷ cs) t = join-split_on (suc (length t)) (c ∷ cs) t
