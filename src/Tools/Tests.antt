-- ===== src/Tools/Tests.antt =====
-- The edit tools on short texts, and a sandbox of one file.
use xevos.Base.{◌≡◌, refl, true, false, some, [], ◌∷◌, Text, text, ℕ_discrete}
use xevos.Tools.Pieces.{strip, cut, split, split_on, expand, replace}
use xevos.Tools.Edit.{
  Sandbox, Replacement, edited, not_found, not_unique, failed, apply_edit, apply_edits, multi_edit,
}
use xevos.Tools.Splice.{Spliced, Stopped, apply_edit-Spliced, multi_edit_failed}

abbrev one_file : Sandbox
one_file = record {
  Files = Text;
  read_file = λ file path. some file;
  write_file = λ file path t. (true, t);
}

abbrev rename : Replacement
rename = record { old_string = text "cat"; new_string = text "dog"; replace_all = false }

apply_edit-Spliced_example : Spliced (text "a cat sat") rename (text "a dog sat")
unfolding apply_edit split split_on cut strip replace expand ℕ_discrete
apply_edit-Spliced_example =
    apply_edit-Spliced (text "a cat sat") rename 99 (text "at") (text "a dog sat") refl refl refl
      refl

multi_edit_failed_example :
    ((multi_edit one_file (text "a cat") (text "f") (rename ∷ rename ∷ [])).1 ≡ text "a cat")
    × ((content : Text) × (some (text "a cat") ≡ some content)
        × Stopped 0 content (rename ∷ rename ∷ []) 1 not_found)
unfolding multi_edit apply_edits apply_edit split split_on cut strip replace expand ℕ_discrete
multi_edit_failed_example =
    multi_edit_failed one_file (text "a cat") (text "f") (rename ∷ rename ∷ []) 1 not_found refl

-- A search string that occurs twice is refused.
twice : apply_edit (text "cat cat") rename ≡ failed (not_unique 2)
unfolding apply_edit split split_on cut strip replace expand ℕ_discrete
twice = refl

-- A dollar pattern in the replacement is expanded: `$$` puts one dollar, `$&` the match.
dollars :
    apply_edit
      (text "x")
      (record { old_string = text "x"; new_string = text "$$ $&"; replace_all = false })
    ≡ edited (text "$ x")
unfolding apply_edit split split_on cut strip replace expand ℕ_discrete
dollars = refl
