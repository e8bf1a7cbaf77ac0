-- ===== src/Tasks/Queue/Moves.antt =====
-- Reading, claiming and moving tasks in TaskQueueStore of runtime/tasks.py. A call that raises has
-- written nothing, so that its answer is the error alone.
use deterministic_audit_runt.Prelude.{
  ℕ, suc, String, Bool, true, false, not, ◌&&◌, Option, none, some, List, [], ◌∷◌, ◌==◌,
  if◌then◌else◌,
}
use deterministic_audit_runt.Prelude.Sort.{sort}
use deterministic_audit_runt.Errors.{Result, ok, err, ◌>>=◌, task_transition_error}
use deterministic_audit_runt.Tasks.Text.{strip}
use deterministic_audit_runt.Tasks.Types.{
  AuditTask, TaskStatus, pending, running, done, failed, TaskType, Host, new_task, or_text,
  status_named, may_become, queue_check, is_blank, type_name, or_queue_error,
}
use deterministic_audit_runt.Tasks.Keys.{task_le}
use deterministic_audit_runt.Tasks.Queue.Storage.{
  QueueFile, load_tasks, find_task, write_tasks, store_task,
}

-- The filters of `list_tasks`, where None selects all.
pub record Selection : Type 0 where
  pub audit_id : Option String
  pub task_type : Option TaskType
  pub status : Option TaskStatus

abbrev pub agrees {ℓ} : {A : Type ℓ} → (A → A → Bool) → Option A → A → Bool
agrees eq none a = true
agrees eq (some b) a = eq a b

abbrev pub status_eq : TaskStatus → TaskStatus → Bool
status_eq pending pending = true
status_eq running running = true
status_eq done done = true
status_eq failed failed = true
status_eq _ _ = false

abbrev pub is_selected : Selection → AuditTask → Bool
is_selected s t =
    agrees (λ a b. a == b) s.audit_id t.audit_id
    && agrees (λ a b. type_name a == type_name b) s.task_type t.task_type
    && agrees status_eq s.status t.status

unfoldable pub select {ℓ} : {A : Type ℓ} → (A → Bool) → List A → List A
select p [] = []
select p (t ∷ ts) = let rest = select p ts in if p t then t ∷ rest else rest

-- `list_tasks`
unfoldable pub list_tasks : Host → Selection → QueueFile → Result (List AuditTask)
unfolding load_tasks select sort task_le
list_tasks host selection file = do
  tasks ← load_tasks host file
  ok (sort task_le (select (is_selected selection) tasks))

-- `get_task`
unfoldable pub get_task : Host → String → QueueFile → Result (Option AuditTask)
unfolding load_tasks find_task
get_task host id file = do tasks ← load_tasks host file; ok (find_task id tasks)

-- The error text of a task that becomes `status`.
abbrev pub next_error : TaskStatus → Option String → Option String → Option String
next_error failed (some error) old = some (strip error)
next_error failed none old = none
next_error running error old = none
next_error done error old = none
next_error pending error old = old

abbrev pub next_count : TaskStatus → ℕ → ℕ
next_count running count = suc count
next_count _ count = count

-- `if new_status == "failed": _validate_non_empty("error", error or "")`
unfoldable pub error_given : TaskStatus → Option String → Bool
unfolding is_blank
error_given failed (some error) = not (is_blank error)
error_given failed none = false
error_given _ error = true

abbrev pub moved : AuditTask → TaskStatus → Option String → String → AuditTask
moved t status error updated_at = record t {
  status = status;
  attempt_count = next_count status t.attempt_count;
  last_error = next_error status error t.last_error;
  updated_at = updated_at;
}

unfoldable pub transition_check : Bool → Result (Unit {0})
transition_check true = ok tt
transition_check false = err task_transition_error

-- `if new_status not in TASK_STATUSES`
unfoldable pub known_status : Option TaskStatus → Result TaskStatus
known_status none = err task_transition_error
known_status (some status) = ok status

-- `transition_task`: the new task and the file.
unfoldable pub transition_task :
    Host
    → String
    → String
    → Option String
    → Option String
    → QueueFile
    → Result (AuditTask × QueueFile)
unfolding known_status load_tasks find_task or_queue_error transition_check queue_check error_given
    new_task write_tasks store_task strip
transition_task host id new_status error updated_at file = do
  status ← known_status (status_named new_status)
  stored ← load_tasks host file
  current ← or_queue_error (find_task id stored)
  _ ← transition_check (may_become current.status status)
  _ ← queue_check (error_given status error)
  updated ← new_task host (moved current status error (or_text updated_at host.now))
  ok (updated, write_tasks (store_task updated stored))

unfoldable pub claim_first :
    Host → Option String → QueueFile → List AuditTask → Result (Option AuditTask × QueueFile)
unfolding transition_task
claim_first host updated_at file [] = ok (none, file)
claim_first host updated_at file (t ∷ ts) = do
  (claimed, written) ← transition_task host t.id "running" none updated_at file
  ok (some claimed, written)

-- `claim_next_task`
unfoldable pub claim_next_task :
    Host
    → Option String
    → Option TaskType
    → Option String
    → QueueFile
    → Result (Option AuditTask × QueueFile)
unfolding list_tasks claim_first
claim_next_task host audit_id task_type updated_at file = do
  tasks ←
      list_tasks host (record { audit_id = audit_id; task_type = task_type; status = some pending })
        file
  claim_first host updated_at file tasks
