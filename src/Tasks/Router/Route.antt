-- ===== src/Tasks/Router/Route.antt =====
-- The tasks of a candidate, from _route_by_candidate_type of CandidateRouter in runtime/tasks.py.
use deterministic_audit_runt.Prelude.{
  ℕ, suc, ◌-◌, String, Bool, not, ◌&&◌, Option, none, some, List, [], ◌∷◌, ◌++◌, length,
  if◌then◌else◌, elem, zero,
}
use deterministic_audit_runt.Errors.{◌>>=◌, type_error, Result, err, ok}
use deterministic_audit_runt.Prelude.Int.{ℤ, pos, negsuc}
use deterministic_audit_runt.Tasks.Types.{
  Host, AuditTask, verify_claim, module_scan, new_target, create_task, TaskType,
}
use deterministic_audit_runt.Json.{
  is_falsy, Json, arr, str, get_default, get, items, null, nil, obj, end,
}
use deterministic_audit_runt.Policies.{CandidateRoutingPolicy}
use deterministic_audit_runt.RunLedger.{iterate}
use deterministic_audit_runt.Tasks.Router.Candidate.{
  extract_primary_file, CandidateType, truthy_text, risk_candidate, policy_candidate,
  cross_file_correlation, verification_target,
}
use deterministic_audit_runt.Tasks.Planner.{given_statement}
use deterministic_audit_runt.Tasks.Text.{normalize_target_value}
use deterministic_audit_runt.Json.Canonical.{equals}

-- `values[:limit]`; a negative limit leaves out values at the end.
unfoldable pub first_of {ℓ} : {A : Type ℓ} → ℕ → List A → List A
first_of zero vs = []
first_of (suc n) [] = []
first_of (suc n) (v ∷ vs) = v ∷ first_of n vs

unfoldable pub sliced {ℓ} : {A : Type ℓ} → ℤ → List A → List A
unfolding first_of
sliced (pos n) vs = first_of n vs
sliced (negsuc n) vs = first_of (length vs - suc n) vs

-- `involved_files[:max_files] if involved_files else []`
unfoldable pub files_to_scan : ℤ → Json → Result (List Json)
unfolding is_falsy sliced iterate
files_to_scan limit (arr vs) = ok (sliced limit (items vs))
files_to_scan limit (str s) = iterate (str s) >>= λ chars. ok (sliced limit chars)
files_to_scan limit v = if is_falsy v then ok [] else err type_error

-- The tasks of a candidate, and the files that were seen in the run.
abbrev pub Routed : Type 0
Routed = List AuditTask × List String

module _ (host : Host) (p : CandidateRoutingPolicy) (audit_id snapshot_ref : String)
    (created_at : Option String) where
  unfoldable pub task_on : TaskType → String → Json → Result AuditTask
  unfolding new_target create_task
  task_on task_type kind value = do
    target ← new_target (str kind) value (str snapshot_ref) null
    create_task host audit_id task_type target created_at

  -- `suppress_near_duplicates and file in files_seen`
  unfoldable pub is_repeated : String → List String → Bool
  unfolding elem
  is_repeated path files_seen = p.suppress_near_duplicate_files && elem path files_seen

  -- A task on a file, if there is one that was not seen.
  unfoldable pub route_file : TaskType → Option String → List String → Result Routed
  unfolding is_repeated task_on
  route_file task_type none files_seen = ok ([], files_seen)
  route_file task_type (some path) files_seen =
      if is_repeated path files_seen
      then ok ([], files_seen)
      else (do task ← task_on task_type "path" (str path); ok (task ∷ [], path ∷ files_seen))

  unfoldable pub scan_files : List Json → List String → Result Routed
  unfolding given_statement normalize_target_value route_file
  scan_files [] files_seen = ok ([], files_seen)
  scan_files (v ∷ vs) files_seen = do
    (tasks, seen) ←
        route_file module_scan
          (elim (given_statement v) [
            | none ↦ none
            | some path ↦ some (normalize_target_value "path" path)
          ])
          files_seen
    (others, all_seen) ← scan_files vs seen
    ok (tasks ++ others, all_seen)

  -- `_route_by_candidate_type`
  unfoldable pub route_by_candidate_type : CandidateType → Json → List String → Result Routed
  unfolding extract_primary_file route_file get_default files_to_scan scan_files get equals is_falsy
      task_on
  route_by_candidate_type risk_candidate candidate files_seen = do
    primary_file ← extract_primary_file candidate
    route_file verify_claim (truthy_text primary_file) files_seen
  route_by_candidate_type policy_candidate candidate files_seen = do
    primary_file ← extract_primary_file candidate
    route_file verify_claim (truthy_text primary_file) files_seen
  route_by_candidate_type cross_file_correlation candidate files_seen = do
    involved_files ← get_default "involved_file_paths" (arr nil) candidate
    files ← files_to_scan p.max_module_scan_per_cross_file involved_files
    scan_files files files_seen
  route_by_candidate_type verification_target candidate files_seen = do
    target ← get_default "verification_target" (obj end) candidate
    target_type ← get "target_type" target
    target_id ← get "target_id" target
    if equals target_type (str "observation") && not (is_falsy target_id)
        then (do task ← task_on verify_claim "observation" target_id; ok (task ∷ [], files_seen))
        else ok ([], files_seen)
