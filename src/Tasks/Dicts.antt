-- ===== src/Tasks/Dicts.antt =====
-- A task is read back from its dict.
use deterministic_audit_runt.Prelude.{
  ◌≡◌, refl, true, false, some, none, String, Option, ℕ, first, elem,
}
use deterministic_audit_runt.Errors.{ok}
use deterministic_audit_runt.Tasks.Text.{strip, normalize_target_value}
use deterministic_audit_runt.Tasks.Types.{
  module_scan, verify_claim, compose_issue, generate_candidates, pending, running, done, failed,
  option_arg, TaskTarget, AuditTask, Host, target_dict, target_from_dict, is_valid_task, is_blank,
  ordered_range, target_kinds, new_target, read_kind, queue_check, read_range, has_keys, exact_keys,
  keys_of, all_among, or_queue_error, TaskType, task_from_dict, TaskStatus, type_named, task_dict,
  status_named, type_name, new_task, status_name, option_json,
}
use deterministic_audit_runt.Json.{item, get, lookup}

-- What the constructor of TaskTarget leaves as it is.
pub record IsNormalTarget (t : TaskTarget) : Type 0 where
  pub known : elem t.kind target_kinds ≡ true
  pub normal : normalize_target_value t.kind t.value ≡ t.value
  pub value_given : is_blank t.value ≡ false
  pub stripped : strip t.snapshot_ref ≡ t.snapshot_ref
  pub ref_given : is_blank t.snapshot_ref ≡ false
  pub ordered : ordered_range t.line_range ≡ true

-- What the constructor of AuditTask accepts, with such a target.
pub record IsStorable (host : Host) (t : AuditTask) : Type 0 where
  pub valid : is_valid_task host t ≡ true
  pub target : IsNormalTarget t.target

target_from_dict-target_dict :
    (k v r : String) (range : Option (ℕ × ℕ))
    → let t : TaskTarget = record { kind = k; value = v; snapshot_ref = r; line_range = range } in
      IsNormalTarget t → target_from_dict (target_dict t) ≡ ok t
unfolding target_from_dict target_dict new_target read_kind queue_check read_range has_keys elem
    item get exact_keys keys_of all_among lookup or_queue_error
target_from_dict-target_dict k v r none h =
    rw (h.known, h.normal, h.value_given, h.stripped, h.ref_given) refl
target_from_dict-target_dict k v r (some (first, final)) h =
    rw (h.known, h.normal, h.value_given, h.stripped, h.ref_given, h.ordered) refl

type_named-type_name : (t : TaskType) → type_named (type_name t) ≡ some t
type_named-type_name module_scan = refl
type_named-type_name verify_claim = refl
type_named-type_name compose_issue = refl
type_named-type_name generate_candidates = refl

pub status_named-status_name : (s : TaskStatus) → status_named (status_name s) ≡ some s
status_named-status_name pending = refl
status_named-status_name running = refl
status_named-status_name done = refl
status_named-status_name failed = refl

option_arg-option_json : (e : Option String) → option_arg (option_json e) ≡ ok e
option_arg-option_json none = refl
option_arg-option_json (some s) = refl

-- A task that its constructor accepts, with a target that its own leaves as it is, is read back
-- from its dict.
pub task_from_dict-task_dict :
    (host : Host) (t : AuditTask) → IsStorable host t → task_from_dict host (task_dict t) ≡ ok t
unfolding task_from_dict task_dict exact_keys keys_of all_among elem queue_check item lookup
    or_queue_error new_task
task_from_dict-task_dict host t h =
    rw
      (
        target_from_dict-target_dict t.target.kind t.target.value t.target.snapshot_ref
            t.target.line_range h.target,
        type_named-type_name t.task_type,
        status_named-status_name t.status,
        option_arg-option_json t.last_error,
        h.valid,
      )
      refl
