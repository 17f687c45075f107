-- ===== src/Audit/Verdicts.antt =====
-- `review` of core/services/audit.ts: who is told what, and what a review leaves alone.
use xevos.Base.{
  ℕ, suc, ◌≡◌, refl, sym, Bool, true, false, ◌&&◌, Option, none, some, subst, List, [], ◌∷◌, ◌++◌,
  Text, text, arith, or_else, if◌then◌else◌,
}
use xevos.Schema.Task.{Task, TaskId, ReviewVerdict, approved, changes_requested}
use xevos.Schema.Event.{Event, review_presentation_response}
use xevos.Schema.Memory.{ModelMessage}
use xevos.Schema.Print.{endpoint_text}
use xevos.Schema.Org.{EndpointId, service, auditor_service}
use xevos.Sql.{Sql}
use xevos.Db.{Database}
use xevos.Tasks.Service.{manager_of}
use xevos.Bus.Core.{World}
use xevos.Bus.Store.{event_row}
use xevos.Bus.Durable.{Inv}
use xevos.Bus.Frame.{publish-tables}
use xevos.Bus.Publish.{publish_lem}
use xevos.Audit.Report.{build_review_prompt}
use xevos.Audit.Ids.{is_worker_of, is_engineering_worker_lem}
use xevos.Audit.Service.{
  Containers, Assessment, Judged, empty_assessment, no_assessment, verdict_text, threw, silent,
  recorded, assessment_of, is_empty_workspace, inspect, decide, recipient_of, task_of, id_of,
  verdict_event, deliver_verdict, load_action_log, review,
}

module _ ⦃sql : Sql⦄ (c : Containers) where
  -- The manager of the task's assignee, as the task service finds it, or the submitter where there is
  -- none.
  abbrev pub addressee_of : Database → EndpointId → Option Task → EndpointId
  addressee_of db submitter none = submitter
  addressee_of db submitter (some t) = or_else (manager_of db t) submitter

  recipient_of-addressee :
      (db : Database) (submitter : EndpointId) (task : Option Task)
      → recipient_of c db submitter task ≡ addressee_of db submitter task
  unfolding recipient_of manager_of
  recipient_of-addressee db submitter none = refl
  recipient_of-addressee db submitter (some t) = ground arith

module _ ⦃sql : Sql⦄ (c : Containers) (w : World) (d : c.Docker) (now : ℕ) (e : Event)
    (summary : Text) (id : Option TaskId) (reads : ℕ → List ModelMessage) where
  abbrev pub subject : Option Task
  subject = task_of c w.db id

  abbrev pub looked : Bool × Text × c.Docker
  looked = inspect c (is_worker_of e.source) d (endpoint_text e.source)

  abbrev pub asked : Text
  asked =
      build_review_prompt e.source summary subject (is_worker_of e.source) looked.1
        (load_action_log reads)

  abbrev pub decided : Option Assessment × c.Docker
  decided = decide c looked.2 (is_worker_of e.source) looked.1 looked.0 asked

  review-eq :
      review c w d now e summary id reads
      ≡ deliver_verdict c w now e.source subject looked.0 decided.0 decided.1
  unfolding review
  review-eq = rw (is_engineering_worker_lem e.source, review) refl

  -- The log with one response of the auditor to the addressee.
  abbrev pub Told : Text → World × c.Docker → Type 0
  Told t out =
      sql.rows out.0.db.events
      ≡ sql.rows w.db.events
        ++ (event_row now (suc w.bus.seq) (record {
          id = suc w.bus.seq;
          source = service auditor_service;
          target = addressee_of c w.db e.source subject;
          correlation_id = none;
          body = review_presentation_response t (id_of subject);
        })
            ∷ [])

  abbrev pub Passed : ReviewVerdict → Text → World × c.Docker → Type 0
  Passed approved notes out = Told (text "PASS: " ++ notes) out
  Passed changes_requested notes out = Told (text "CHANGES REQUESTED: " ++ notes) out

  -- What comes of a review, by whether the workspace of an engineering worker is empty, and by how the
  -- model ended.
  abbrev pub Outcome : Bool → Judged → World × c.Docker → Type 0
  Outcome true judged out = Told (text "CHANGES REQUESTED: " ++ empty_assessment.notes) out
  Outcome false threw out = out.0 ≡ w
  Outcome false silent out = Told (text "CHANGES REQUESTED: " ++ no_assessment.notes) out
  Outcome false (recorded a) out = Passed a.verdict a.notes out

  pub record Reviewed (out : World × c.Docker) : Type 0 where
    pub tasks : out.0.db.tasks ≡ w.db.tasks
    pub agents : out.0.db.agents ≡ w.db.agents
    pub outcome :
        Outcome
          (is_worker_of e.source && is_empty_workspace looked.1)
          (c.judge looked.2 asked looked.0).0
          out

  -- The end of a review with its verdict.
  abbrev ended : Option Assessment → c.Docker → World × c.Docker
  ended verdict d' = deliver_verdict c w now e.source subject looked.0 verdict d'

  ended-tables :
      (verdict : Option Assessment) (d' : c.Docker)
      → ((ended verdict d').0.db.tasks ≡ w.db.tasks)
        × ((ended verdict d').0.db.agents ≡ w.db.agents)
  unfolding deliver_verdict
  ended-tables none d' = (refl, refl)
  ended-tables (some a) d' =
      let kept =
        publish-tables w now
          (verdict_event (recipient_of c w.db e.source subject) a (id_of subject)) in
      (kept.0, kept.1)

  ended-Told :
      (a : Assessment) (d' : c.Docker)
      → Inv w
      → Told (verdict_text a.verdict ++ (text ": " ++ a.notes)) (ended (some a) d')
  unfolding deliver_verdict
  ended-Told a d' v =
      rw (← recipient_of-addressee c w.db e.source subject)
        (publish_lem w now (verdict_event (recipient_of c w.db e.source subject) a (id_of subject))
          v).logged

  Told-Passed :
      (v : ReviewVerdict) (notes : Text) (out : World × c.Docker)
      → Told (verdict_text v ++ (text ": " ++ notes)) out
      → Passed v notes out
  Told-Passed approved notes out h = h
  Told-Passed changes_requested notes out h = h

  ended-Outcome :
      (empty : Bool) (judged : Judged) (d' : c.Docker)
      → Inv w
      → Outcome empty judged
          (ended (if empty then some empty_assessment else assessment_of judged) d')
  unfolding deliver_verdict
  ended-Outcome true judged d' v = ended-Told empty_assessment d' v
  ended-Outcome false threw d' v = refl
  ended-Outcome false silent d' v = ended-Told no_assessment d' v
  ended-Outcome false (recorded a) d' v = Told-Passed a.verdict a.notes _ (ended-Told a d' v)

  decided-eq : decided.0 ≡ (
      if is_worker_of e.source && is_empty_workspace looked.1
      then some empty_assessment
      else assessment_of (c.judge looked.2 asked looked.0).0)
  unfolding decide
  decided-eq = ground arith

  -- On a durable bus in order, a review changes no task and no agent. If the submitter is an engineering
  -- worker and its workspace is empty, one response is logged, "CHANGES REQUESTED: " with the auditor's
  -- own notes. Otherwise, if the model threw, nothing changes; if it recorded nothing, one response is
  -- logged, again of changes requested; and if it recorded an assessment, one response is logged with
  -- its notes, behind "PASS: " if it approved and behind "CHANGES REQUESTED: " if not. Each response
  -- names the task and goes to the manager of the task's assignee, as the task service finds it, or to
  -- the submitter where there is none.
  pub review-Reviewed : Inv w → Reviewed (review c w d now e summary id reads)
  review-Reviewed v =
      let kept = ended-tables decided.0 decided.1 in
      subst Reviewed (sym review-eq) (record {
        tasks = kept.0;
        agents = kept.1;
        outcome = rw decided-eq (ended-Outcome _ _ decided.1 v);
      })
