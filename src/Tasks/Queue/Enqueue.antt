-- ===== src/Tasks/Queue/Enqueue.antt =====
-- Adding tasks to TaskQueueStore of runtime/tasks.py, and the recovery of its file.
use deterministic_audit_runt.Prelude.{
  ℕ, Bool, true, false, ◌||◌, none, some, List, [], ◌∷◌, if◌then◌else◌, length, Option,
}
use deterministic_audit_runt.Prelude.Sort.{sort}
use deterministic_audit_runt.Errors.{Result, ok, err, ◌>>=◌, is_queue_error}
use deterministic_audit_runt.Tasks.Types.{AuditTask, Host, queue_check}
use deterministic_audit_runt.Tasks.Keys.{task_le, task_semantic_key, key_eq}
use deterministic_audit_runt.Tasks.Queue.Storage.{
  missing, load_tasks, find_task, write_tasks, QueueFile, store_task,
}

pub data EnqueueOutcome : Type 0 where
  enqueued duplicate : EnqueueOutcome

pub record EnqueueResult : Type 0 where
  pub outcome : EnqueueOutcome
  pub task : AuditTask

-- A turn of the loop of `enqueue_many`, by what is stored under the id of the task.
unfoldable pub enqueue_found :
    AuditTask → List AuditTask → Option AuditTask → Result (EnqueueResult × List AuditTask)
unfolding store_task key_eq task_semantic_key queue_check
enqueue_found task stored none =
    ok (record { outcome = enqueued; task = task }, store_task task stored)
enqueue_found task stored (some existing) = do
  _ ← queue_check (key_eq (task_semantic_key existing) (task_semantic_key task))
  ok (record { outcome = duplicate; task = existing }, stored)

unfoldable pub enqueue_one : AuditTask → List AuditTask → Result (EnqueueResult × List AuditTask)
unfolding find_task enqueue_found
enqueue_one task stored = enqueue_found task stored (find_task task.id stored)

abbrev pub is_enqueued : EnqueueResult → Bool
is_enqueued r = elim r.outcome [ enqueued ↦ true | duplicate ↦ false ]

-- The loop: its results, and the stored tasks behind it.
unfoldable pub enqueue_loop :
    List AuditTask → List AuditTask → Result (List EnqueueResult × List AuditTask)
unfolding enqueue_one
enqueue_loop [] stored = ok ([], stored)
enqueue_loop (t ∷ ts) stored = do
  (result, grown) ← enqueue_one t stored
  (results, final) ← enqueue_loop ts grown
  ok (result ∷ results, final)

-- `changed`
unfoldable pub any_enqueued : List EnqueueResult → Bool
any_enqueued [] = false
any_enqueued (r ∷ rs) = is_enqueued r || any_enqueued rs

-- `enqueue_many`
unfoldable pub enqueue_many :
    Host → List AuditTask → QueueFile → Result (List EnqueueResult × QueueFile)
unfolding load_tasks enqueue_loop sort task_le any_enqueued write_tasks
enqueue_many host tasks file = do
  stored ← load_tasks host file
  (results, final) ← enqueue_loop (sort task_le tasks) stored
  ok (results, if any_enqueued results then write_tasks final else file)

pub record Recovery : Type 0 where
  pub valid : Bool
  pub repaired : Bool
  pub task_count : ℕ

-- `recover_queue`: only a TaskQueueError resets the file.
unfoldable pub recover_loaded : QueueFile → Result (List AuditTask) → Result (Recovery × QueueFile)
unfolding write_tasks
recover_loaded file (ok tasks) =
    ok (record { valid = true; repaired = false; task_count = length tasks }, file)
recover_loaded file (err e) =
    if is_queue_error e
    then ok (record { valid = false; repaired = true; task_count = 0 }, write_tasks [])
    else err e

unfoldable pub recover_queue : Host → QueueFile → Result (Recovery × QueueFile)
unfolding recover_loaded load_tasks
recover_queue host missing = ok (record { valid = true; repaired = false; task_count = 0 }, missing)
recover_queue host file = recover_loaded file (load_tasks host file)

-- `ensure_queue_file`, which the constructor calls.
unfoldable pub ensure_queue_file : Host → QueueFile → Result QueueFile
unfolding recover_queue write_tasks
ensure_queue_file host missing = ok (write_tasks [])
ensure_queue_file host file = do (recovery, written) ← recover_queue host file; ok written
