-- ===== src/Tasks/Queue/Storage.antt =====
-- The file of TaskQueueStore of runtime/tasks.py and the tasks in it. The file is what `json.load`
-- makes of it; a write replaces it as a whole.
use deterministic_audit_runt.Prelude.{
  String, Bool, Option, none, some, List, [], ◌∷◌, ◌==◌, if◌then◌else◌, text_le,
}
use deterministic_audit_runt.Prelude.Sort.{sort}
use deterministic_audit_runt.Errors.{Result, ok, err, ◌>>=◌, task_queue_error, value_error}
use deterministic_audit_runt.Json.{Json, str, obj, Fields, field, end, item}
use deterministic_audit_runt.Json.Canonical.{same}
use deterministic_audit_runt.Tasks.Types.{
  AuditTask, Host, task_dict, task_from_dict, exact_keys, queue_check,
}

-- No file, bytes that are not UTF-8, a text that is not JSON, or a JSON value.
pub data QueueFile : Type 0 where
  missing undecodable unparsable : QueueFile
  holds : Json → QueueFile

-- The dict from ids to tasks, by its values: a task stands under its own id.
unfoldable pub find_task : String → List AuditTask → Option AuditTask
find_task id [] = none
find_task id (t ∷ ts) = let later = find_task id ts in if t.id == id then some t else later

-- `stored[task.id] = task`
unfoldable pub store_task : AuditTask → List AuditTask → List AuditTask
store_task u [] = u ∷ []
store_task u (t ∷ ts) = let rest = store_task u ts in if t.id == u.id then u ∷ ts else t ∷ rest

unfoldable pub id_le : AuditTask → AuditTask → Bool
unfolding text_le
id_le t u = text_le t.id u.id

unfoldable pub entries : Fields → List (String × Json)
entries end = []
entries (field k v fs) = (k, v) ∷ entries fs

unfoldable pub entry_le : String × Json → String × Json → Bool
unfolding text_le
entry_le a b = text_le a.0 b.0

-- The loop of `_load_tasks`.
unfoldable pub load_entries : Host → List (String × Json) → Result (List AuditTask)
unfolding task_from_dict queue_check
load_entries host [] = ok []
load_entries host ((key, v) ∷ rest) = do
  task ← task_from_dict host v
  _ ← queue_check (task.id == key)
  tasks ← load_entries host rest
  ok (task ∷ tasks)

unfoldable pub load_value : Host → Json → Result (List AuditTask)
unfolding load_entries entries entry_le sort
load_value host (obj fs) = load_entries host (sort entry_le (entries fs))
load_value host _ = err task_queue_error

unfoldable pub load_payload : Host → Json → Result (List AuditTask)
unfolding load_value exact_keys queue_check item same
load_payload host (obj fs) = do
  _ ← queue_check (exact_keys ("schema_version" ∷ "tasks" ∷ []) fs)
  version ← item "schema_version" (obj fs)
  _ ← queue_check (same version (str "1.0.0"))
  tasks ← item "tasks" (obj fs)
  load_value host tasks
load_payload host _ = err task_queue_error

-- `_load_tasks`
unfoldable pub load_tasks : Host → QueueFile → Result (List AuditTask)
unfolding load_payload
load_tasks host missing = ok []
load_tasks host undecodable = err value_error
load_tasks host unparsable = err task_queue_error
load_tasks host (holds payload) = load_payload host payload

unfoldable pub task_fields : List AuditTask → Fields
unfolding task_dict
task_fields [] = end
task_fields (t ∷ ts) = field t.id (task_dict t) (task_fields ts)

-- The payload of `_write_tasks`, which `read_queue` returns too.
unfoldable pub queue_payload : List AuditTask → Json
unfolding task_fields sort id_le
queue_payload tasks = obj (
    field "schema_version" (str "1.0.0") (field "tasks" (obj (task_fields (sort id_le tasks))) end))

-- `_write_tasks`
unfoldable pub write_tasks : List AuditTask → QueueFile
unfolding queue_payload
write_tasks tasks = holds (queue_payload tasks)

-- `read_queue`
unfoldable pub read_queue : Host → QueueFile → Result Json
unfolding load_tasks queue_payload
read_queue host file = do tasks ← load_tasks host file; ok (queue_payload tasks)
