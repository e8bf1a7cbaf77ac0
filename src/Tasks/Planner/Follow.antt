-- ===== src/Tasks/Planner/Follow.antt =====
-- TaskPlanner of runtime/tasks.py: enqueue_initial_scan_tasks and enqueue_follow_up_tasks.
use deterministic_audit_runt.Errors.{
  Result, ok, err, ◌>>=◌, task_planning_error, value_error, type_error,
}
use deterministic_audit_runt.Prelude.{
  String, Bool, true, false, not, ◌&&◌, ◌||◌, Option, none, some, List, [], ◌∷◌, ◌++◌, ◌==◌,
  if◌then◌else◌, text_le,
}
use deterministic_audit_runt.Tasks.Queue.{
  QueueFile, holds, missing, enqueue_many, undecodable, EnqueueResult, unparsable,
}
use deterministic_audit_runt.Tasks.Planner.Refs.{source_refs_of}
use deterministic_audit_runt.RunLedger.{issue_texts, hashable, json_in, iterate}
use deterministic_audit_runt.Json.{
  get, Json, item, Fields, field, str, get_default, is_obj, end, null, obj, arr, nil, bool, int,
  float,
}
use deterministic_audit_runt.Tasks.Types.{
  new_target, create_task, Host, TaskType, AuditTask, verify_claim, compose_issue, module_scan,
}
use deterministic_audit_runt.Json.Canonical.{equals}
use deterministic_audit_runt.Prelude.Sort.{sort}
use deterministic_audit_runt.Tasks.Text.{no_text}

unfoldable pub planning_check : Bool → Result (Unit {0})
planning_check true = ok tt
planning_check false = err task_planning_error

-- The tasks of the initial scan, of one target each.
unfoldable pub scan_tasks :
    Host → String → String → String → Option String → List String → Result (List AuditTask)
unfolding new_target create_task
scan_tasks host audit_id target_kind snapshot_ref created_at [] = ok []
scan_tasks host audit_id target_kind snapshot_ref created_at (value ∷ values) = do
  target ← new_target (str target_kind) (str value) (str snapshot_ref) null
  task ← create_task host audit_id module_scan target created_at
  tasks ← scan_tasks host audit_id target_kind snapshot_ref created_at values
  ok (task ∷ tasks)

-- `enqueue_initial_scan_tasks`
unfoldable pub enqueue_initial_scan_tasks :
    Host
    → String
    → List Json
    → String
    → String
    → Option String
    → QueueFile
    → Result (List EnqueueResult × QueueFile)
unfolding planning_check issue_texts sort text_le scan_tasks enqueue_many
enqueue_initial_scan_tasks host audit_id targets snapshot_ref target_kind created_at file = do
  _ ← planning_check (target_kind == "path" || target_kind == "module")
  tasks ←
      scan_tasks host audit_id target_kind snapshot_ref created_at
        (sort text_le (issue_texts targets))
  enqueue_many host tasks file

-- `_load_canonical_state`, from a file like that of the queue.
unfoldable pub load_canonical_state : QueueFile → Result Json
load_canonical_state missing = err task_planning_error
load_canonical_state undecodable = err value_error
load_canonical_state unparsable = err task_planning_error
load_canonical_state (holds state) = ok state

-- A value that is a text with a character.
abbrev pub non_empty : Json → Option String
non_empty (str s) = if no_text s then none else some s
non_empty v = none

-- `_audit_snapshot_ref`
unfoldable pub audit_snapshot_ref : Json → String → Result (Option String)
unfolding get equals
audit_snapshot_ref state audit_id = do
  audit ← get "audit" state
  if not (is_obj audit) then ok none else (do
    id ← get "id" audit
    snapshot_ref ← get "current_snapshot_ref" audit
    ok (if equals id (str audit_id) then non_empty snapshot_ref else none))

unfoldable pub values_of : Fields → List Json
values_of end = []
values_of (field k v fs) = v ∷ values_of fs

unfoldable pub all_hashable : List Json → Result (List Json)
unfolding hashable
all_hashable [] = ok []
all_hashable (v ∷ vs) = do w ← hashable v; ws ← all_hashable vs; ok (w ∷ ws)

-- `_issue_backed_observation_ids`, over the values of the issues.
unfoldable pub issue_backed_observation_ids : String → List Json → Result (List Json)
unfolding get get_default equals iterate all_hashable
issue_backed_observation_ids audit_id [] = ok []
issue_backed_observation_ids audit_id (issue ∷ issues) = do
  id ← get "audit_id" issue
  here ←
      if equals id (str audit_id)
      then (do
        evidence ← get_default "evidence" (obj end) issue
        ids ← get_default "observation_ids" (arr nil) evidence
        values ← iterate ids
        all_hashable values)
      else ok []
  others ← issue_backed_observation_ids audit_id issues
  ok (here ++ others)

-- The first snapshot in refs.
unfoldable pub first_snapshot : List Json → Result (Option String)
unfolding get
first_snapshot [] = ok none
first_snapshot (ref ∷ refs) = do
  snapshot_ref ← get "snapshot_ref" ref
  let later = first_snapshot refs
  elim (non_empty snapshot_ref) [ none ↦ later | some s ↦ ok (some s) ]

-- `_observation_snapshot_ref`
unfoldable pub observation_snapshot_ref : Json → Option String → Result String
unfolding source_refs_of first_snapshot
observation_snapshot_ref observation fallback = do
  refs ← source_refs_of observation
  found ← first_snapshot refs
  elim found [
    | some s ↦ ok s
    | none ↦ elim fallback [ none ↦ err task_planning_error | some s ↦ ok s ]
  ]

-- The id of an observation beside it, which `sorted` compares.
unfoldable pub paired_ids : List Json → Result (List (Json × Json))
unfolding item
paired_ids [] = ok []
paired_ids (v ∷ vs) = do id ← item "id" v; others ← paired_ids vs; ok ((id, v) ∷ others)

abbrev pub is_text_id : Json × Json → Bool
is_text_id (str s, v) = true
is_text_id _ = false

abbrev pub is_number_id : Json × Json → Bool
is_number_id (bool b, v) = true
is_number_id (int n, v) = true
is_number_id (float s, v) = true
is_number_id _ = false

unfoldable pub all_pass : (Json × Json → Bool) → List (Json × Json) → Bool
all_pass test [] = true
all_pass test (one ∷ more) = let rest = all_pass test more in test one && rest

-- Two ids or more are compared, and only texts with texts and numbers with numbers: ids that are
-- lists are taken for ids that do not compare.
unfoldable pub comparable : List (Json × Json) → Result (List (Json × Json))
unfolding all_pass
comparable [] = ok []
comparable (one ∷ []) = ok (one ∷ [])
comparable (one ∷ two ∷ more) =
    if all_pass is_text_id (one ∷ two ∷ more) || all_pass is_number_id (one ∷ two ∷ more)
    then ok (one ∷ two ∷ more)
    else err type_error

-- Ids that are numbers are left in their order, since none of them can be the target of a task.
unfoldable pub id_before : Json × Json → Json × Json → Bool
unfolding text_le
id_before (str s, v) (str t, w) = text_le s t
id_before _ _ = true

unfoldable pub with_ids : List Json → Result (List (Json × Json))
unfolding paired_ids comparable sort id_before
with_ids vs = do pairs ← paired_ids vs; sound ← comparable pairs; ok (sort id_before sound)

-- The type of the task that an observation asks for.
unfoldable pub follow_up_type : List Json → Json → Json → Option TaskType
unfolding equals json_in
follow_up_type backed id status =
    if equals status (str "proposed")
    then some verify_claim
    else if equals status (str "verified") && not (json_in id backed)
    then some compose_issue
    else none

-- The body of the loop for an observation of the audit: its task, if it has one.
unfoldable pub follow_up_task :
    Host
    → String
    → List Json
    → Option String
    → Option String
    → Json × Json
    → Result (List AuditTask)
unfolding observation_snapshot_ref new_target item follow_up_type create_task
follow_up_task host audit_id backed fallback created_at (id, observation) = do
  snapshot_ref ← observation_snapshot_ref observation fallback
  target ← new_target (str "observation") id (str snapshot_ref) null
  status ← item "status" observation
  elim (follow_up_type backed id status) [
    | none ↦ ok []
    | some task_type ↦ do
      task ← create_task host audit_id task_type target created_at
      ok (task ∷ [])
  ]

unfoldable pub candidate_tasks :
    Host
    → String
    → List Json
    → Option String
    → Option String
    → List (Json × Json)
    → Result (List AuditTask)
unfolding get equals follow_up_task
candidate_tasks host audit_id backed fallback created_at [] = ok []
candidate_tasks host audit_id backed fallback created_at ((id, v) ∷ rest) = do
  audit ← get "audit_id" v
  here ←
      if equals audit (str audit_id)
      then follow_up_task host audit_id backed fallback created_at (id, v)
      else ok []
  others ← candidate_tasks host audit_id backed fallback created_at rest
  ok (here ++ others)
