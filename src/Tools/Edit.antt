-- ===== src/Tools/Edit.antt =====
-- tool/definitions/code/edit-file.ts, multi-edit.ts, insert.ts and `clip` of zutils.ts. The sandbox runs
-- in docker: reading and writing a file are parameters, and either may throw.
use xevos.Base.{
  ◌≡◌, refl, ◌⊎◌, inl, inr, ℕ, suc, ◌-◌, Bool, true, false, not, ◌&&◌, Option, none, some, List, [],
  ◌∷◌, ◌++◌, length, take, ltb, ◌==◌, nat_eq, if◌then◌else◌, Text, text, join, show_number,
}
use xevos.Tools.Pieces.{split, replace}

-- `readFile` and `writeFile`; `none` is an exception, and a write that throws may have changed the files.
pub record Sandbox : Type 1 where
  pub Files : Type 0
  pub read_file : Files → Text → Option Text
  pub write_file : Files → Text → Text → Bool × Files

pub record Replacement : Type 0 where
  pub old_string : Text
  pub new_string : Text
  pub replace_all : Bool

pub data EditError : Type 0 where
  not_found : EditError
  -- with the number of matches
  not_unique : ℕ → EditError

pub data Edited : Type 0 where
  failed : EditError → Edited
  edited : Text → Edited

-- `matches` is one less than the number of pieces.
abbrev pub edit_pieces : List Text → Text → Replacement → Edited
edit_pieces pieces content e =
    if length pieces == 1
    then failed not_found
    else if ltb 2 (length pieces) && not e.replace_all
    then failed (not_unique (length pieces - 1))
    else edited (
        if e.replace_all
        then join e.new_string pieces
        else replace content e.old_string e.new_string)

-- The check and the replacement that `edit_file` and each turn of `multi_edit` make.
unfoldable pub apply_edit : Text → Replacement → Edited
apply_edit content e = edit_pieces (split e.old_string content) content e

-- How a tool ends: `{ success: true }`, `{ success: false, error }` with the index of the edit, or an
-- exception.
pub data Outcome : Type 0 where
  success thrown : Outcome
  failure : ℕ → EditError → Outcome

pub data Batch : Type 0 where
  stopped : ℕ → EditError → Batch
  done : Text → Batch

-- To split on a batch and keep the equation.
pub Batch-cases :
    (r : Batch) → ((i : ℕ) × (why : EditError) × (r ≡ stopped i why)) ⊎ ((t : Text) × (r ≡ done t))
Batch-cases (stopped i why) = inl (i, why, refl)
Batch-cases (done t) = inr (t, refl)

-- To split on an edit and keep the equation.
pub Edited-cases :
    (r : Edited) → ((why : EditError) × (r ≡ failed why)) ⊎ ((t : Text) × (r ≡ edited t))
Edited-cases (failed why) = inl (why, refl)
Edited-cases (edited t) = inr (t, refl)

-- The loop of `multi_edit`, in memory.
unfoldable pub apply_edits : ℕ → Text → List Replacement → Batch
apply_edits i content [] = done content
apply_edits i content (e ∷ es) = elim (apply_edit content e) [
  | failed why ↦ stopped i why
  | edited content' ↦ apply_edits (suc i) content' es
]

pub data Position : Type 0 where
  before after : Position

-- The new text of the file, for `insert`.
unfoldable pub insert_at : Text → Text → Text → Position → Edited
insert_at file content [] before = edited (content ++ file)
insert_at file content [] after = edited (file ++ content)
insert_at file content (c ∷ cs) position =
    let anchor = c ∷ cs in
    let pieces = split anchor file in
    if length pieces == 1
    then failed not_found
    else if ltb 2 (length pieces)
    then failed (not_unique (length pieces - 1))
    else edited (
        replace file anchor
          (elim position [ after ↦ anchor ++ content | before ↦ content ++ anchor ]))

abbrev pub max_output : ℕ
max_output = 30000

-- `clip`
unfoldable pub clip : Text → Text
clip t =
    if ltb max_output (length t)
    then take max_output t
      ++ ((10 ∷ text "…[truncated ") ++ (show_number (length t - max_output) ++ text " chars]"))
    else t

module _ (box : Sandbox) where
  abbrev finish : Bool × box.Files → Outcome × box.Files
  finish (true, files) = (success, files)
  finish (false, files) = (thrown, files)

  -- The handler of `edit_file`
  unfoldable pub edit_file : box.Files → Text → Replacement → Outcome × box.Files
  edit_file files path e = elim (box.read_file files path) [
    | none ↦ (thrown, files)
    | some content ↦ elim (apply_edit content e) [
      | failed why ↦ (failure 0 why, files)
      | edited updated ↦ finish (box.write_file files path updated)
    ]
  ]

  -- The handler of `multi_edit`
  unfoldable pub multi_edit : box.Files → Text → List Replacement → Outcome × box.Files
  multi_edit files path edits = elim (box.read_file files path) [
    | none ↦ (thrown, files)
    | some content ↦ elim (apply_edits 0 content edits) [
      | stopped i why ↦ (failure i why, files)
      | done updated ↦ finish (box.write_file files path updated)
    ]
  ]

  -- The handler of `insert`
  unfoldable pub insert : box.Files → Text → Text → Text → Position → Outcome × box.Files
  insert files path content anchor position = elim (box.read_file files path) [
    | none ↦ (thrown, files)
    | some file ↦ elim (insert_at file content anchor position) [
      | failed why ↦ (failure 0 why, files)
      | edited updated ↦ finish (box.write_file files path updated)
    ]
  ]
