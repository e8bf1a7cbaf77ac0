-- ===== src/Tasks/Types/Names.antt =====
-- The names and tables of runtime/tasks.py: types, statuses, kinds, priorities and transitions.
use deterministic_audit_runt.Prelude.{
  ℕ, String, Bool, true, false, Option, none, some, List, [], ◌∷◌, ◌==◌, if◌then◌else◌,
}

pub data TaskType : Type 0 where
  module_scan verify_claim compose_issue generate_candidates : TaskType

pub data TaskStatus : Type 0 where
  pending running done failed : TaskStatus

abbrev pub type_name : TaskType → String
type_name module_scan = "module_scan"
type_name verify_claim = "verify_claim"
type_name compose_issue = "compose_issue"
type_name generate_candidates = "generate_candidates"

-- `value in TASK_TYPES`
abbrev pub type_named : String → Option TaskType
type_named s =
    if s == "module_scan"
    then some module_scan
    else if s == "verify_claim"
    then some verify_claim
    else if s == "compose_issue"
    then some compose_issue
    else if s == "generate_candidates"
    then some generate_candidates
    else none

abbrev pub status_name : TaskStatus → String
status_name pending = "pending"
status_name running = "running"
status_name done = "done"
status_name failed = "failed"

-- `value in TASK_STATUSES`
abbrev pub status_named : String → Option TaskStatus
status_named s =
    if s == "pending"
    then some pending
    else if s == "running"
    then some running
    else if s == "done"
    then some done
    else if s == "failed"
    then some failed
    else none

abbrev pub target_kinds : List String
target_kinds =
    "path" ∷ "module" ∷ "observation" ∷ "hypothesis" ∷ "issue" ∷ "question" ∷ "contradiction"
    ∷ "audit" ∷ "candidate" ∷ []

-- TASK_PRIORITY
abbrev pub priority : TaskType → ℕ
priority verify_claim = 0
priority compose_issue = 1
priority generate_candidates = 2
priority module_scan = 3

-- TASK_TRANSITIONS
abbrev pub may_become : TaskStatus → TaskStatus → Bool
may_become pending running = true
may_become pending failed = true
may_become running done = true
may_become running failed = true
may_become failed pending = true
may_become _ _ = false
