-- ===== src/Tasks/Types/Task.antt =====
-- AuditTask of runtime/tasks.py: its checks, its dict, and AuditTask.create.
use Prim.Native.String.{◌++◌}
use deterministic_audit_runt.Tasks.Types.Names.{
  pending, TaskType, type_name, TaskStatus, status_name, type_named, status_named,
}
use deterministic_audit_runt.Prelude.{
  ℕ, String, Bool, true, not, ◌&&◌, Option, none, some, List, [], ◌∷◌, if◌then◌else◌,
}
use deterministic_audit_runt.Prelude.Int.{pos}
use deterministic_audit_runt.Prelude.Codes.{starts, codes}
use deterministic_audit_runt.Errors.{Result, ok, err, ◌>>=◌, task_queue_error}
use deterministic_audit_runt.Json.{Json, null, int, str, obj, field, end, item}
use deterministic_audit_runt.Tasks.Text.{no_text}
use deterministic_audit_runt.Tasks.Types.Target.{
  queue_check, is_blank, target_from_dict, target_dict, or_queue_error, TaskTarget, exact_keys,
  int_of,
}

pub record AuditTask : Type 0 where
  pub id : String
  pub audit_id : String
  pub task_type : TaskType
  pub status : TaskStatus
  pub target : TaskTarget
  pub attempt_count : ℕ
  pub last_error : Option String
  pub created_at : String
  pub updated_at : String

-- The clock, whether `datetime.fromisoformat` reads a text after `replace("Z", "+00:00")`, and the
-- first 16 digits of the SHA-256 of a value's canonical JSON.
pub record Host : Type 0 where
  pub now : String
  pub is_iso : String → Bool
  pub digest : Json → String

-- `_validate_timestamp`
abbrev pub is_timestamp : Host → String → Bool
is_timestamp host s = not (no_text s) && host.is_iso s

unfoldable pub error_is_valid : Option String → Bool
unfolding is_blank
error_is_valid none = true
error_is_valid (some e) = not (is_blank e)

-- The checks of `AuditTask.__post_init__` on arguments of the declared types.
unfoldable pub is_valid_task : Host → AuditTask → Bool
unfolding is_blank starts error_is_valid
is_valid_task host t =
    not (is_blank t.id)
    && starts (codes "task_") (codes t.id)
    && not (is_blank t.audit_id)
    && starts (codes "audit_") (codes t.audit_id)
    && error_is_valid t.last_error
    && is_timestamp host t.created_at
    && is_timestamp host t.updated_at

-- `AuditTask(...)`
unfoldable pub new_task : Host → AuditTask → Result AuditTask
unfolding queue_check is_valid_task
new_task host t = do _ ← queue_check (is_valid_task host t); ok t

abbrev pub option_json : Option String → Json
option_json none = null
option_json (some s) = str s

-- `AuditTask.to_dict`
unfoldable pub task_dict : AuditTask → Json
unfolding target_dict
task_dict t = obj (
    field "id" (str t.id) (
      field "audit_id" (str t.audit_id) (
        field "type" (str (type_name t.task_type)) (
          field "status" (str (status_name t.status)) (
            field "target" (target_dict t.target) (
              field "attempt_count" (int (pos t.attempt_count)) (
                field "last_error" (option_json t.last_error) (
                  field "created_at" (str t.created_at)
                    (field "updated_at" (str t.updated_at) end)))))))))

abbrev pub task_keys : List String
task_keys =
    "id" ∷ "audit_id" ∷ "type" ∷ "status" ∷ "target" ∷ "attempt_count" ∷ "last_error" ∷ "created_at"
    ∷ "updated_at" ∷ []

-- A type that fails its check raises the same error as a value that does.
abbrev pub text_arg : Json → Result String
text_arg (str s) = ok s
text_arg _ = err task_queue_error

abbrev pub option_arg : Json → Result (Option String)
option_arg null = ok none
option_arg (str s) = ok (some s)
option_arg _ = err task_queue_error

-- `AuditTask.from_dict`
unfoldable pub task_from_dict : Host → Json → Result AuditTask
unfolding target_from_dict new_task queue_check or_queue_error exact_keys item
task_from_dict host (obj fs) = do
  _ ← queue_check (exact_keys task_keys fs)
  target_value ← item "target" (obj fs)
  target ← target_from_dict target_value
  id ← item "id" (obj fs) >>= text_arg
  audit_id ← item "audit_id" (obj fs) >>= text_arg
  type_text ← item "type" (obj fs) >>= text_arg
  task_type ← or_queue_error (type_named type_text)
  status_text ← item "status" (obj fs) >>= text_arg
  status ← or_queue_error (status_named status_text)
  count ← item "attempt_count" (obj fs)
  attempt_count ← or_queue_error (int_of count)
  last_error ← item "last_error" (obj fs) >>= option_arg
  created_at ← item "created_at" (obj fs) >>= text_arg
  updated_at ← item "updated_at" (obj fs) >>= text_arg
  new_task host (record {
    id = id;
    audit_id = audit_id;
    task_type = task_type;
    status = status;
    target = target;
    attempt_count = attempt_count;
    last_error = last_error;
    created_at = created_at;
    updated_at = updated_at;
  })
task_from_dict host _ = err task_queue_error

-- `build_task_id`: "task_" and 16 digits of the hash of what the task is about.
unfoldable pub build_task_id : Host → String → TaskType → TaskTarget → String
unfolding target_dict
build_task_id host audit_id task_type target =
    "task_"
    ++ host.digest (
        obj (
          field "audit_id" (str audit_id)
            (field "type" (str (type_name task_type)) (field "target" (target_dict target) end))))

-- `value or default`, for a text that may be None.
abbrev pub or_text : Option String → String → String
or_text none default = default
or_text (some s) default = if no_text s then default else s

abbrev pub fresh_task : Host → String → TaskType → TaskTarget → String → AuditTask
fresh_task host audit_id task_type target timestamp = record {
  id = build_task_id host audit_id task_type target;
  audit_id = audit_id;
  task_type = task_type;
  status = pending;
  target = target;
  attempt_count = 0;
  last_error = none;
  created_at = timestamp;
  updated_at = timestamp;
}

-- `AuditTask.create`
unfoldable pub create_task :
    Host → String → TaskType → TaskTarget → Option String → Result AuditTask
unfolding build_task_id new_task
create_task host audit_id task_type target created_at =
    new_task host (fresh_task host audit_id task_type target (or_text created_at host.now))
