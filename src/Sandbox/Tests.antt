-- ===== src/Sandbox/Tests.antt =====
-- A docker with one container, which is there or not and running or not.
use xevos.Base.{
  ℕ, ◌≡◌, refl, Option, none, some, List, [], ◌∷◌, Text, text, text_eq, ◌==◌, nat_eq, ℕ_discrete,
  Text-discrete, if◌then◌else◌,
}
use xevos.Memory.Transcript.{trim, trim_start}
use xevos.Tools.Commands.{ExecResult}
use xevos.Sandbox.Container.{Docker, SandboxConfig, returned, start}
use xevos.Sandbox.Running.{Honest, IsRunning, start_twice}

data Status : Type 0 where
  absent : Status
  stopped : Status
  running : Status

abbrev printed : Status → Text
printed absent = []
printed stopped = text "exited\n"
printed running = text "running\n"

abbrev answer : ℕ → Text → ExecResult
answer code out = record { exit_code = code; stdout = out; stderr = [] }

-- `docker` with the arguments
abbrev obey : Status → List Text → Option ExecResult × Status
obey s [] = (some (answer 1 []), s)
obey s (command ∷ args) =
    if command == text "ps"
    then (some (answer 0 (printed s)), s)
    else if command == text "exec"
    then (some (answer 0 []), s)
    else (some (answer 0 []), running)

abbrev docker : Docker
docker = record { State = Status; run = λ s args stdin. obey s args }

abbrev config : SandboxConfig
config = record { name = text "box"; image = none; workdir = none }

docker-Honest : Honest docker config
unfolding Text-discrete ℕ_discrete trim trim_start
docker-Honest = record {
  looks = λ s. refl;
  starts = λ s r e good. (answer 0 (printed running), refl, refl);
  runs = λ s r e good. (answer 0 (printed running), refl, refl);
  stays = λ s command up. up;
}

start_twice_example :
    IsRunning docker config running × (start docker config running ≡ (returned, running))
unfolding Text-discrete ℕ_discrete trim trim_start start
start_twice_example = start_twice docker config stopped running docker-Honest refl

-- A docker whose container has one file, whatever its name: `cat` prints it, and what is given a standard
-- input stores it.
abbrev last_of : List Text → Text
last_of [] = []
last_of (a ∷ []) = a
last_of (a ∷ b ∷ args) = last_of (b ∷ args)

abbrev printed_by : Option Text → Text → Text
printed_by s [] = []
printed_by none (c ∷ t) = text "0\n"
printed_by (some content) (c ∷ t) = if c == 99 then content else text "1\n"

abbrev keep_file : Option Text → List Text → Option Text → Option ExecResult × Option Text
keep_file s args none = (some (answer 0 (printed_by s (last_of args))), s)
keep_file s args (some t) = (some (answer 0 []), some t)

abbrev store_docker : Docker
store_docker = record { State = Option Text; run = keep_file }
