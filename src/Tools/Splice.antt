-- ===== src/Tools/Splice.antt =====
-- What the edit tools do to a text, and what they leave alone.
use xevos.Base.{
  ℕ, zero, suc, ◌+◌, ◌≡◌, ◌≤◌, refl, sym, ap, ◌∙◌, Bool, true, false, Bool-cases, Option-cases,
  none, some, List, [], ◌∷◌, ◌++◌, any, length, ◌==◌, nat_eq, arith, inl, inr, Text, join,
}
use xevos.Tools.Pieces.{cut, cut_sound, strip, split, split_on, expand, replace, join-split}
use xevos.Tools.Edit.{
  Sandbox, Replacement, EditError, failed, stopped, done, Edited-cases, edited, apply_edit, failure,
  Batch-cases, apply_edits, multi_edit,
}

abbrev pub has_dollar : Text → Bool
has_dollar t = any (λ c. c == 36) t

-- A replacement without a dollar sign is inserted as it is.
expand_plain : (m b a t : Text) → has_dollar t ≡ false → expand m b a t ≡ t
unfolding expand
expand_plain m b a [] h = refl
expand_plain m b a (x ∷ []) h = refl
expand_plain m b a (x ∷ y ∷ rest) h = ground (arith, h, expand_plain m b a (y ∷ rest))

split_on_pos : (fuel : ℕ) (sep t : Text) → 1 ≤ length (split_on fuel sep t)
unfolding split_on
split_on_pos zero sep t = omega arith
split_on_pos (suc fuel) sep t = elim (Option-cases (cut sep t)) [
  | inl e ↦ ground (arith, e)
  | inr ((b, a), e) ↦ ground (arith, e)
]

-- Two pieces mean one occurrence.
two_pieces :
    (fuel : ℕ) (sep t : Text)
    → length (split_on (suc (suc fuel)) sep t) ≡ 2
    → (b : Text) × (a : Text) × (cut sep t ≡ some (b, a)) × (cut sep a ≡ none)
unfolding split_on
two_pieces fuel sep t h = elim (Option-cases (cut sep t)) [
  | inl e ↦ absurd (ground (arith, e, h))
  | inr ((b, a), e) ↦ elim (Option-cases (cut sep a)) [
    | inl f ↦ (b, a, e, f)
    | inr ((b', a'), f) ↦ absurd (ground (arith, e, f, h, split_on_pos fuel sep a'))
  ]
]

once :
    (c : ℕ) (cs t : Text)
    → length (split (c ∷ cs) t) ≡ 2
    → (b : Text) × (a : Text) × (cut (c ∷ cs) t ≡ some (b, a)) × (cut (c ∷ cs) a ≡ none)
unfolding split split_on cut strip
once c cs [] h = absurd (ground (arith, h))
once c cs (d ∷ ds) h = two_pieces (length ds) (c ∷ cs) (d ∷ ds) h

-- A single edit that was made.
pub record Spliced (content : Text) (e : Replacement) (t : Text) : Type 0 where
  pub front : Text
  pub back : Text
  pub was : content ≡ front ++ (e.old_string ++ back)
  pub no_more : cut e.old_string back ≡ none
  pub is : t ≡ front ++ (e.new_string ++ back)

two_of :
    (content : Text) (e : Replacement) (t : Text)
    → e.replace_all ≡ false
    → apply_edit content e ≡ edited t
    → 1 ≤ length (split e.old_string content)
    → (length (split e.old_string content) ≡ 2) × (t ≡ replace content e.old_string e.new_string)
unfolding apply_edit
two_of content e t one h pos = (ground (arith, one, h, pos), ground (arith, one, h))

-- An edit of one occurrence, whose search string is not empty and whose replacement has no dollar
-- sign, was made only where the string occurs once; it put the replacement in the place of that
-- occurrence and left what is before and after it.
pub apply_edit-Spliced :
    (content : Text) (e : Replacement) (c : ℕ) (cs t : Text)
    → e.old_string ≡ c ∷ cs
    → e.replace_all ≡ false
    → has_dollar e.new_string ≡ false
    → apply_edit content e ≡ edited t
    → Spliced content e t
unfolding replace split
apply_edit-Spliced content e c cs t old one plain h =
    let pos : 1 ≤ length (split e.old_string content) =
      rw old (split_on_pos (suc (length content)) (c ∷ cs) content) in
    let (two, result) = two_of content e t one h pos in
    let (b, a, found, no_more) =
      once c cs content (ap (λ o. length (split o content)) (sym old) ∙ two) in
    record {
      front = b;
      back = a;
      was = rw old (cut_sound (c ∷ cs) content b a found);
      no_more = rw old no_more;
      is = result ∙ ground (arith, old, found, expand_plain e.old_string b a e.new_string plain);
    }

-- An edit of all occurrences put the replacement between the pieces that the search string separates
-- in the text.
apply_edit_all :
    (content : Text) (e : Replacement) (t : Text)
    → e.replace_all ≡ true
    → apply_edit content e ≡ edited t
    → (pieces : List Text) × (join e.old_string pieces ≡ content) × (join e.new_string pieces ≡ t)
unfolding apply_edit
apply_edit_all content e t every h =
    (split e.old_string content, join-split e.old_string content, ground (arith, every, h))

-- The edits before the one at which a batch stopped were made one after the other, and that one fails
-- on what they left.
pub record Stopped (n : ℕ) (content : Text) (edits : List Replacement) (i : ℕ) (why : EditError)
    : Type 0 where
  pub made : List Replacement
  pub bad : Replacement
  pub rest : List Replacement
  pub parts : edits ≡ made ++ (bad ∷ rest)
  pub position : i ≡ n + length made
  pub reached : Text
  pub through : apply_edits n content made ≡ done reached
  pub fails : apply_edit reached bad ≡ failed why

apply_edits-Stopped :
    (n : ℕ) (content : Text) (edits : List Replacement) (i : ℕ) (why : EditError)
    → apply_edits n content edits ≡ stopped i why
    → Stopped n content edits i why
unfolding apply_edits
apply_edits-Stopped n content [] i why h = absurd (cc h)
apply_edits-Stopped n content (e ∷ es) i why h = elim (Edited-cases (apply_edit content e)) [
  | inl (x, f) ↦ record {
    made = [];
    bad = e;
    rest = es;
    parts = refl;
    position = ground (arith, f, h);
    reached = content;
    through = refl;
    fails = f ∙ ap failed (ground (arith, f, h));
  }
  | inr (t, f) ↦
      let p = apply_edits-Stopped (suc n) t es i why (ground (arith, f, h)) in
      record {
        made = e ∷ p.made;
        bad = p.bad;
        rest = p.rest;
        parts = ap (◌∷◌ e) p.parts;
        position = omega (arith, p.position);
        reached = p.reached;
        through = ground (arith, f, p.through);
        fails = p.fails;
      }
]

module _ (box : Sandbox) where
  -- A batch of edits that reports a failure read the file; the edits before the one that it names were
  -- made in order on what it read, that one fails on what they left, and the files are as they were.
  pub multi_edit_failed :
      (files : box.Files) (path : Text) (edits : List Replacement) (i : ℕ) (why : EditError)
      → (multi_edit box files path edits).0 ≡ failure i why
      → ((multi_edit box files path edits).1 ≡ files)
        × ((content : Text) × (box.read_file files path ≡ some content)
            × Stopped 0 content edits i why)
  unfolding multi_edit
  multi_edit_failed files path edits i why h = elim (Option-cases (box.read_file files path)) [
    | inl e ↦ absurd (ground (arith, e, h))
    | inr (content, e) ↦ elim (Batch-cases (apply_edits 0 content edits)) [
      | inl (j, x, f) ↦ (
        ground (arith, e, f),
        (content, e, apply_edits-Stopped 0 content edits i why (ground (arith, e, f, h))),
      )
      | inr (t, f) ↦ elim (Bool-cases (box.write_file files path t).0) [
        | inl g ↦ absurd (ground (arith, e, f, g, h))
        | inr g ↦ absurd (ground (arith, e, f, g, h))
      ]
    ]
  ]
