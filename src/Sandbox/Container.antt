-- ===== src/Sandbox/Container.antt =====
-- The class DockerSandbox of docker-sandbox.ts, and the shell that the tools have of it.
use xevos.Base.{
  Bool, true, false, ◌||◌, Option, none, some, List, [], ◌∷◌, ◌++◌, Text, text, text_eq, ◌==◌,
  nat_eq, or_else, if◌then◌else◌,
}
use xevos.Memory.Transcript.{trim}
use xevos.Tools.Commands.{Shell, ExecResult, or_text, quoted}

-- `dockerRun` with the arguments and the standard input; `none` is a client that could not be run.
pub record Docker : Type 1 where
  pub State : Type 0
  pub run : State → List Text → Option Text → Option ExecResult × State

pub record SandboxConfig : Type 0 where
  pub name : Text
  pub image : Option Text
  pub workdir : Option Text

abbrev image_of : SandboxConfig → Text
image_of c = or_else c.image (text "node:24-slim")

abbrev pub workdir_of : SandboxConfig → Text
workdir_of c = or_else c.workdir (text "/workspace")

-- How an operation ends: it returns, throws an error of its own, or docker could not be run.
pub data Ending : Type 0 where
  returned : Ending
  threw : Text → Ending
  rejected : Ending

-- `path.slice(0, path.lastIndexOf("/"))` where there is one
unfoldable pub before_last : Text → Option Text
before_last [] = none
before_last (c ∷ t) =
    let rest = before_last t in
    elim rest [ some b ↦ some (c ∷ b) | none ↦ if c == 47 then some [] else none ]

abbrev pub dir_of : Text → Text
dir_of path = elim (before_last path) [ none ↦ text "." | some b ↦ or_text b (text "/") ]

abbrev pub failed : ExecResult → Bool
failed r = if r.exit_code == 0 then false else true

module _ (d : Docker) (c : SandboxConfig) where
  abbrev pub inspect_args : List Text
  inspect_args =
      text "ps"
      ∷ text "-a"
      ∷ text "--filter"
      ∷ (text "name=^/" ++ (c.name ++ text "$"))
      ∷ text "--format"
      ∷ text "{{.State}}"
      ∷ []

  abbrev pub start_args : List Text
  start_args = text "start" ∷ c.name ∷ []

  abbrev pub run_args : List Text
  run_args =
      text "run"
      ∷ text "-d"
      ∷ text "--name"
      ∷ c.name
      ∷ text "-w"
      ∷ workdir_of c
      ∷ image_of c
      ∷ text "sleep"
      ∷ text "infinity"
      ∷ []

  abbrev pub sh_args : Text → Option Text → Text → List Text
  sh_args command none cwd =
      text "exec" ∷ text "-w" ∷ cwd ∷ c.name ∷ text "bash" ∷ text "-lc" ∷ command ∷ []
  sh_args command (some stdin) cwd =
      text "exec" ∷ text "-i" ∷ text "-w" ∷ cwd ∷ c.name ∷ text "bash" ∷ text "-lc" ∷ command ∷ []

  -- `sh`
  abbrev pub sh : d.State → Text → Option Text → Option Text → Option ExecResult × d.State
  sh s command stdin cwd = d.run s (sh_args command stdin (or_else cwd (workdir_of c))) stdin

  -- `exec`
  abbrev pub exec : d.State → Text → Option Text → Option ExecResult × d.State
  exec s command cwd = sh s command none cwd

  -- A command of the docker client that must succeed.
  abbrev pub must_succeed : d.State → List Text → Text → Ending × d.State
  must_succeed s args message =
      let (result, s') = d.run s args none in
      elim result [
        | none ↦ (rejected, s')
        | some r ↦ if failed r then (threw (message ++ r.stderr), s') else (returned, s')
      ]

  abbrev pub make_workdir : d.State → Ending × d.State
  make_workdir s =
      let (result, s') = exec s (text "mkdir -p " ++ quoted (workdir_of c)) none in
      elim result [ none ↦ (rejected, s') | some r ↦ (returned, s') ]

  abbrev pub create : d.State → Ending × d.State
  create s =
      let (created, s') = must_succeed s run_args (text "failed to start sandbox: ") in
      elim created [
        | returned ↦ make_workdir s'
        | threw t ↦ (threw t, s')
        | rejected ↦ (rejected, s')
      ]

  abbrev pub start_from : d.State → Text → Ending × d.State
  start_from s state =
      if state == text "running"
      then (returned, s)
      else if state == text "exited" || state == text "created" || state == text "paused"
      then must_succeed s start_args (text "failed to resume sandbox: ")
      else create s

  -- `start`
  unfoldable pub start : d.State → Ending × d.State
  start s =
      let (inspect, s') = d.run s inspect_args none in
      elim inspect [ none ↦ (rejected, s') | some r ↦ start_from s' (trim r.stdout) ]

  -- `readFile` changes the state only by what `cat` does; `none` is an exception.
  unfoldable pub read_file : d.State → Text → Option Text × d.State
  read_file s path =
      let (result, s') = sh s (text "cat -- " ++ quoted path) none none in
      elim result [
        | none ↦ (none, s')
        | some r ↦ if failed r then (none, s') else (some r.stdout, s')
      ]

  -- `writeFile`; false is an exception. What `mkdir` answers is not read.
  unfoldable pub write_file : d.State → Text → Text → Bool × d.State
  write_file s path content =
      let (made, s') = exec s (text "mkdir -p " ++ quoted (dir_of path)) none in
      elim made [
        | none ↦ (false, s')
        | some _ ↦
            let (written, s'') = sh s' (text "cat > " ++ quoted path) (some content) none in
            elim written [
              | none ↦ (false, s'')
              | some r ↦ if failed r then (false, s'') else (true, s'')
            ]
      ]

  -- `stop` and `remove`; their exit codes are not read.
  abbrev pub stop : d.State → d.State
  stop s = (d.run s (text "stop" ∷ c.name ∷ []) none).1

  abbrev pub remove : d.State → d.State
  remove s = (d.run s (text "rm" ∷ text "-f" ∷ c.name ∷ []) none).1

  -- The sandbox as the tools are given it.
  abbrev pub shell : Shell
  shell = record { State = d.State; exec = exec; read_file = read_file; write_file = write_file }
