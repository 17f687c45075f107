-- ===== src/Sandbox/Files.antt =====
-- The tools write_file and read_file on the class DockerSandbox: what is written is what is listed.
use xevos.Base.{
  ℕ, suc, ◌≡◌, ◌-◌, ◌++◌, ◌⊎◌, Bool, true, false, Option, none, some, List, [], ◌∷◌, map, length,
  take, ltb, All, Text, text, join, show_number, if◌then◌else◌,
}
use xevos.Memory.Transcript.{newline}
use xevos.Tools.Pieces.{cut}
use xevos.Tools.Separators.{has}
use xevos.Tools.Commands.{
  ExecResult, Answer, answered, declined, raised, quoted, exists_command, says_yes,
}
use xevos.Tools.Commands as Tools
use xevos.Sandbox.Container.{Docker, SandboxConfig, failed, sh, exec, read_file, shell}

-- What is before and after the first tab of a line.
abbrev pub before_tab : Text → Text
before_tab l = elim (cut (9 ∷ []) l) [ none ↦ [] | some (b, a) ↦ b ]

abbrev pub after_tab : Text → Text
after_tab l = elim (cut (9 ∷ []) l) [ none ↦ l | some (b, a) ↦ a ]

-- Printed numbers from one on, one for each line.
abbrev pub ordinals : ℕ → List Text → List Text
ordinals n [] = []
ordinals n (l ∷ ls) = show_number n ∷ ordinals (suc n) ls

-- A listing of a text: its lines, none of which has a newline, behind their numbers and a tab; of a
-- listing of more than 30000 characters the first 30000 and how many are left out.
pub record Listed (content : Text) (answer : Answer) : Type 0 where
  pub lines : List Text
  pub rows : List Text
  pub whole : join newline lines ≡ content
  pub single : All (λ l. has 10 l ≡ false) lines
  pub numbers : map before_tab rows ≡ ordinals 1 lines
  pub kept : map after_tab rows ≡ lines
  pub is :
      answer
      ≡ answered (
          if ltb 30000 (length (join newline rows))
          then take 30000 (join newline rows)
            ++ (text "\n…[truncated "
                ++ (show_number (length (join newline rows) - 30000) ++ text " chars]"))
          else join newline rows)

abbrev pub is_there : Option Text → Bool
is_there none = false
is_there (some t) = true

-- What the commands do in a container whose files are `file`, on a path that the shell reads as it is:
-- the docker client can be run, `test -e` changes no file and says whether the path is there, `cat`
-- prints a file, and `cat >` stores its input where it succeeds.
pub record Stores (d : Docker) (c : SandboxConfig) (file : d.State → Text → Option Text)
    (path : Text) : Type 0 where
  pub runs :
      (s : d.State) (args : List Text) (stdin : Option Text)
      → (r : ExecResult) × ((d.run s args stdin).0 ≡ some r)
  pub looked :
      (s : d.State) (q : Text)
      → file (exec d c s (exists_command (shell d c) path) none).1 q ≡ file s q
  pub tested :
      (s : d.State) (r : ExecResult)
      → (exec d c s (exists_command (shell d c) path) none).0 ≡ some r
      → says_yes (shell d c) r ≡ is_there (file s path)
  pub printed :
      (s : d.State) (content : Text)
      → file s path ≡ some content
      → (r : ExecResult) × ((sh d c s (text "cat -- " ++ quoted path) none none).0 ≡ some r)
        × (failed r ≡ false)
        × (r.stdout ≡ content)
  pub stored :
      (s : d.State) (content : Text) (r : ExecResult)
      → (sh d c s (text "cat > " ++ quoted path) (some content) none).0 ≡ some r
      → failed r ≡ false
      → file (sh d c s (text "cat > " ++ quoted path) (some content) none).1 path ≡ some content

module _ (d : Docker) (c : SandboxConfig) (file : d.State → Text → Option Text) (path : Text)
    (laws : Stores d c file path) where
  -- The outcome of write_file.
  abbrev pub Written : d.State → Text → Bool → Answer × d.State → Type 0
  Written s content overwrite (answered t, s') =
      ((overwrite ≡ true) ⊎ (file s path ≡ none))
      × Listed content (Tools.read_file (shell d c) s' path).0
  Written s content overwrite (declined t, s') =
      (overwrite ≡ false) × (is_there (file s path) ≡ true) × ((q : Text) → file s' q ≡ file s q)
  Written s content overwrite (raised, s') =
      (before : d.State) × (r : ExecResult) × ((sh d c before (text "cat > " ++ quoted path)
          (some content) none).0
        ≡ some r)
      × (failed r ≡ true)
