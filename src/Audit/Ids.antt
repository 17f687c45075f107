-- ===== src/Audit/Ids.antt =====
-- The id of an agent, printed and split again: `isEngineeringWorker` of core/services/audit.ts.
use xevos.Base.{
  ℕ, suc, ◌≡◌, ◌+◌, refl, ◌∙◌, ap, Bool, false, ◌&&◌, [], ◌∷◌, ◌++◌, length, length-append, Text,
  text, ◌==◌, nat_eq, arith, show_number, Text-discrete, text_eq, ℕ_discrete,
}
use xevos.Schema.Org.{
  Role, executive, head, manager, worker, role_eq, Role-discrete, Department, organization,
  engineering, research, marketing, support, sales, legal, department_eq, Department-discrete,
  agent_id, EndpointId, agent, service, principal, tasks_service, agent_service, auditor_service,
  memory_service, prompts_service, tool_service, observer_service,
}
use xevos.Schema.Print.{role_text, department_text, agent_text, endpoint_text}
use xevos.Tools.Pieces.{strip, cut, split_on, split}
use xevos.Tools.Separators.{has, digits-has, cut-has, cut-none}
use xevos.Audit.Report.{is_worker_parts, is_engineering_worker}

split_three :
    (fuel s : ℕ) (p q r : Text)
    → has s p ≡ false
    → has s q ≡ false
    → has s r ≡ false
    → split_on (suc (suc (suc fuel))) (s ∷ []) (p ++ (s ∷ (q ++ (s ∷ r)))) ≡ p ∷ q ∷ r ∷ []
unfolding split_on
split_three fuel s p q r hp hq hr =
    rw (cut-has s p (q ++ (s ∷ r)) hp, cut-has s q r hq, cut-none s r hr, split_on) refl

split_parts :
    (s : ℕ) (p q r : Text)
    → has s p ≡ false
    → has s q ≡ false
    → has s r ≡ false
    → split (s ∷ []) (p ++ (s ∷ (q ++ (s ∷ r)))) ≡ p ∷ q ∷ r ∷ []
unfolding split
split_parts s p q r hp hq hr =
    let t = p ++ (s ∷ (q ++ (s ∷ r))) in
    let measured : suc (length t) ≡ suc (suc (suc (length p + (length q + length r)))) =
      omega (arith, length-append p (s ∷ (q ++ (s ∷ r))), length-append q (s ∷ r)) in
    ap (λ k. split_on k (s ∷ []) t) measured
    ∙ split_three (length p + (length q + length r)) s p q r hp hq hr

role-has : (r : Role) → has 95 (role_text r) ≡ false
unfolding ℕ_discrete
role-has executive = refl
role-has head = refl
role-has manager = refl
role-has worker = refl

department-has : (d : Department) → has 95 (department_text d) ≡ false
unfolding ℕ_discrete
department-has organization = refl
department-has engineering = refl
department-has research = refl
department-has marketing = refl
department-has support = refl
department-has sales = refl
department-has legal = refl

-- The parts of a printed id.
pub split-agent_text :
    (r : Role) (d : Department) (n : ℕ)
    → split (text "_") (agent_text (agent_id r d n))
      ≡ role_text r ∷ department_text d ∷ show_number n ∷ []
unfolding agent_text show_number
split-agent_text r d n =
    split_parts 95 (role_text r) (department_text d) (show_number n) (role-has r) (department-has d)
      (digits-has 95 (suc n) n [] refl refl)

abbrev pub is_worker_of : EndpointId → Bool
is_worker_of (agent (agent_id r d n)) = r == worker && d == engineering
is_worker_of e = false

parts-eq :
    (r : Role) (d : Department) (t : Text)
    → is_worker_parts (role_text r ∷ department_text d ∷ t ∷ []) ≡ (r == worker && d == engineering)
unfolding Text-discrete Role-discrete Department-discrete ℕ_discrete
parts-eq executive d t = refl
parts-eq head d t = refl
parts-eq manager d t = refl
parts-eq worker organization t = refl
parts-eq worker engineering t = refl
parts-eq worker research t = refl
parts-eq worker marketing t = refl
parts-eq worker support t = refl
parts-eq worker sales t = refl
parts-eq worker legal t = refl

-- `isEngineeringWorker` on the text of an endpoint holds exactly of the agents that are workers of
-- engineering, whatever their number.
pub is_engineering_worker_lem :
    (e : EndpointId) → is_engineering_worker (endpoint_text e) ≡ is_worker_of e
unfolding is_engineering_worker endpoint_text split split_on cut strip Text-discrete ℕ_discrete
is_engineering_worker_lem (agent (agent_id r d n)) =
    ap is_worker_parts (split-agent_text r d n) ∙ parts-eq r d (show_number n)
is_engineering_worker_lem principal = refl
is_engineering_worker_lem (service tasks_service) = refl
is_engineering_worker_lem (service agent_service) = refl
is_engineering_worker_lem (service auditor_service) = refl
is_engineering_worker_lem (service memory_service) = refl
is_engineering_worker_lem (service prompts_service) = refl
is_engineering_worker_lem (service tool_service) = refl
is_engineering_worker_lem (service observer_service) = refl
