-- ===== src/Tools/Commands.antt =====
-- core/services/tool/definitions/code: bash.ts, read-file.ts, write-file.ts,
-- list-dir.ts, glob.ts and grep.ts.
-- What the container answers to a command or a file access is a parameter.
use xevos.Base.{
  ℕ, suc, Bool, not, ◌&&◌, Option, none, some, List, [], ◌∷◌, ◌++◌, length, Text, text, text_eq,
  join, show_number, ◌==◌, nat_eq, or_else, if◌then◌else◌,
}
use xevos.Memory.Transcript.{newline, trim}
use xevos.Tools.Pieces.{split}
use xevos.Tools.Edit.{clip}

-- The exit code -1, which docker-sandbox.ts gives to a killed process, is left out.
pub record ExecResult : Type 0 where
  pub exit_code : ℕ
  pub stdout : Text
  pub stderr : Text

-- `exec` with the command and the directory, `readFile` and `writeFile`; `none` is an exception. This is
-- what the tools see of a sandbox; Sandbox.Container fills it with the class DockerSandbox.
pub record Shell : Type 1 where
  pub State : Type 0
  pub exec : State → Text → Option Text → Option ExecResult × State
  pub read_file : State → Text → Option Text × State
  pub write_file : State → Text → Text → Bool × State

-- `{ success, result | error }`, or the exception that the handler throws
pub data Answer : Type 0 where
  answered : Text → Answer
  declined : Text → Answer
  raised : Answer

-- `x || fallback`
abbrev pub or_text : Text → Text → Text
or_text [] fallback = fallback
or_text (c ∷ t) fallback = c ∷ t

-- `.map((line, i) => …)` from the line number on
unfoldable pub numbered : ℕ → List Text → List Text
numbered n [] = []
numbered n (l ∷ ls) = (show_number (suc n) ++ (9 ∷ l)) ∷ numbered (suc n) ls

-- `pattern.replace(/"/g, '\\"')`
unfoldable pub escape_quotes : Text → Text
escape_quotes [] = []
escape_quotes (c ∷ t) = let rest = escape_quotes t in if c == 34 then 92 ∷ 34 ∷ rest else c ∷ rest

abbrev pub quoted : Text → Text
quoted t = text "\"" ++ (t ++ text "\"")

module _ (sh : Shell) where
  -- The handler of a tool that runs one command and answers with a text of what it printed.
  abbrev pub run_command : sh.State → Text → Option Text → (ExecResult → Text) → Answer × sh.State
  run_command s command cwd render =
      let (result, s') = sh.exec s command cwd in
      elim result [ none ↦ (raised, s') | some r ↦ (answered (clip (render r)), s') ]

  abbrev pub exec_text : ExecResult → Text
  exec_text r =
      text "exit="
      ++ (show_number r.exit_code
          ++ (newline
              ++ (text "[stdout]"
                  ++ (newline
                      ++ (r.stdout ++ (newline ++ (text "[stderr]" ++ (newline ++ r.stderr))))))))

  -- `bash`
  abbrev pub bash : sh.State → Text → Option Text → Answer × sh.State
  bash s command cwd = run_command s command cwd exec_text

  -- `readFile`
  unfoldable pub read_file : sh.State → Text → Answer × sh.State
  read_file s path =
      let (result, s') = sh.read_file s path in
      elim result [
        | none ↦ (raised, s')
        | some content ↦ (answered (clip (join newline (numbered 0 (split newline content)))), s')
      ]

  -- `listDir`
  abbrev pub list_dir : sh.State → Option Text → Answer × sh.State
  list_dir s path =
      run_command s (text "ls -la " ++ quoted (or_else path (text "."))) none
        (λ r. or_text r.stdout (or_text r.stderr (text "(empty)")))

  -- `glob`
  abbrev pub glob : sh.State → Text → Option Text → Answer × sh.State
  glob s pattern path =
      run_command s (text "shopt -s globstar nullglob; printf '%s\\n' " ++ pattern) path
        (λ r. or_text (trim r.stdout) (text "(no matches)"))

  -- `grep`
  abbrev pub grep : sh.State → Text → Option Text → Answer × sh.State
  grep s pattern path =
      run_command s
        (text "grep -rnE -- "
          ++ (quoted (escape_quotes pattern)
              ++ (text " "
                  ++ (quoted (or_else path (text ".")) ++ text " 2>/dev/null | head -200"))))
        none (λ r. or_text (trim r.stdout) (text "(no matches)"))

  abbrev pub exists_command : Text → Text
  exists_command path = text "test -e " ++ (quoted path ++ text " && echo 1 || echo 0")

  abbrev pub says_yes : ExecResult → Bool
  says_yes r = trim r.stdout == text "1"

  abbrev pub written_text : Bool → Text → Text → Text
  written_text exists path content =
      (if exists then text "overwrote" else text "created")
      ++ (text " " ++ (path ++ (text " (" ++ (show_number (length content) ++ text " bytes)"))))

  -- The write of `writeFile`, once it is allowed.
  abbrev pub store : sh.State → Text → Text → Bool → Answer × sh.State
  store s path content exists =
      let (written, s') = sh.write_file s path content in
      if written then (answered (written_text exists path content), s') else (raised, s')

  -- `writeFile`; an absent `overwrite` is false.
  unfoldable pub write_file : sh.State → Text → Text → Bool → Answer × sh.State
  write_file s path content overwrite =
      let (result, s') = sh.exec s (exists_command path) none in
      elim result [
        | none ↦ (raised, s')
        | some r ↦
            if says_yes r && not overwrite
            then (
              declined (
                  path
                  ++ text
                      " already exists. Use edit_file/multi_edit to modify it, or set overwrite:true to replace the whole file."),
              s',
            )
            else store s' path content (says_yes r)
      ]
