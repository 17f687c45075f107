-- ===== src/Sandbox/Running.antt =====
-- `start` of docker-sandbox.ts: "Create or resume the container. Idempotent."
use xevos.Base.{
  ◌≡◌, refl, subst, Bool, true, false, Bool-cases, ℕ_discrete, Text-discrete, Option-cases, none,
  some, inl, inr, List, ◌++◌, Text, text, text_eq, ◌==◌, ◌||◌, nat_eq, arith, if◌then◌else◌,
}
use xevos.Memory.Transcript.{trim}
use xevos.Tools.Commands.{ExecResult, quoted}
use xevos.Sandbox.Container.{
  Docker, SandboxConfig, Ending, returned, threw, rejected, failed, inspect_args, start_args,
  run_args, workdir_of, exec, must_succeed, make_workdir, create, start_from, start,
}

module _ (d : Docker) (c : SandboxConfig) where
  -- `docker ps` reports the container as running.
  abbrev pub IsRunning : d.State → Type 0
  IsRunning s =
      (r : ExecResult) × ((d.run s (inspect_args d c) none).0 ≡ some r)
      × (trim r.stdout ≡ text "running")

  -- What docker promises of the commands of `start`: a look changes nothing, a container that it started
  -- or ran is running, and a command in a running container leaves it running.
  pub record Honest : Type 0 where
    pub looks : (s : d.State) → (d.run s (inspect_args d c) none).1 ≡ s
    pub starts :
        (s : d.State) (r : ExecResult)
        → (d.run s (start_args d c) none).0 ≡ some r
        → failed r ≡ false
        → IsRunning (d.run s (start_args d c) none).1
    pub runs :
        (s : d.State) (r : ExecResult)
        → (d.run s (run_args d c) none).0 ≡ some r
        → failed r ≡ false
        → IsRunning (d.run s (run_args d c) none).1
    pub stays : (s : d.State) (command : Text) → IsRunning s → IsRunning (exec d c s command none).1

  running-start : (s : d.State) → Honest → IsRunning s → start d c s ≡ (returned, s)
  unfolding start Text-discrete ℕ_discrete
  running-start s honest (r, e, up) = rw (e, up, honest.looks s, start) refl

  -- What returned left the container running.
  abbrev Up : Ending × d.State → Type 0
  Up (returned, s) = IsRunning s
  Up (threw t, s) = Unit
  Up (rejected, s) = Unit

  must_succeed-Up :
      (s : d.State) (args : List Text) (message : Text)
      → ((r : ExecResult)
          → (d.run s args none).0 ≡ some r
          → failed r ≡ false
          → IsRunning (d.run s args none).1)
      → Up (must_succeed d c s args message)
  must_succeed-Up s args message law = elim (Option-cases (d.run s args none).0) [
    | inl e ↦ rw (e, must_succeed, Up) tt
    | inr (r, e) ↦ elim (Bool-cases (failed r)) [
      | inl bad ↦ rw (e, bad, must_succeed, Up) tt
      | inr good ↦ rw (e, good, must_succeed, Up) (law r e good)
    ]
  ]

  make_workdir-Up : (s : d.State) → Honest → IsRunning s → Up (make_workdir d c s)
  make_workdir-Up s honest up =
      elim (Option-cases (exec d c s (text "mkdir -p " ++ quoted (workdir_of c)) none).0) [
        | inl e ↦ rw (e, make_workdir, Up) tt
        | inr (r, e) ↦ rw (e, make_workdir, Up) (honest.stays s _ up)
      ]

  after_run :
      (p : Ending × d.State)
      → Honest
      → Up p
      → Up (elim p.0 [
        | returned ↦ make_workdir d c p.1
        | threw t ↦ (threw t, p.1)
        | rejected ↦ (rejected, p.1)
      ])
  after_run (returned, s) honest up = make_workdir-Up s honest up
  after_run (threw t, s) honest up = tt
  after_run (rejected, s) honest up = tt

  if-Up :
      (b : Bool) (x y : Ending × d.State)
      → (b ≡ true → Up x)
      → (b ≡ false → Up y)
      → Up (if b then x else y)
  if-Up true x y f g = f refl
  if-Up false x y f g = g refl

  start_from-Up :
      (s : d.State) (r : ExecResult)
      → Honest
      → (d.run s (inspect_args d c) none).0 ≡ some r
      → Up (start_from d c s (trim r.stdout))
  start_from-Up s r honest e =
      let state = trim r.stdout in
      let resumed = must_succeed d c s (start_args d c) (text "failed to resume sandbox: ") in
      let created = must_succeed d c s (run_args d c) (text "failed to start sandbox: ") in
      let stopped = state == text "exited" || state == text "created" || state == text "paused" in
      if-Up (state == text "running") (returned, s) (if stopped then resumed else create d c s)
        (λ h. (r, e, ground (arith, h)))
        (λ _.
          if-Up stopped resumed (create d c s)
            (λ _.
              must_succeed-Up s (start_args d c) (text "failed to resume sandbox: ")
                (honest.starts s))
            (λ _. after_run created honest (
              must_succeed-Up s (run_args d c) (text "failed to start sandbox: ") (honest.runs s))))

  start-Up : (s : d.State) → Honest → Up (start d c s)
  unfolding start
  start-Up s honest = elim (Option-cases (d.run s (inspect_args d c) none).0) [
    | inl e ↦ rw (e, start, Up) tt
    | inr (r, e) ↦ rw (e, honest.looks s, start) (start_from-Up s r honest e)
  ]

  -- With a docker client that keeps these promises: where `start` returned, the container runs, and
  -- starting it again returns and changes nothing.
  pub start_twice :
      (s s' : d.State)
      → Honest
      → start d c s ≡ (returned, s')
      → IsRunning s' × (start d c s' ≡ (returned, s'))
  start_twice s s' honest h =
      let up : IsRunning s' = subst Up h (start-Up s honest) in (up, running-start s' honest up)
