-- ===== src/Examples/Queue.antt =====
-- A queue with two tasks, on which the theorems about runtime/tasks.py are applied.
use deterministic_audit_runt.Prelude.{
  ◌≡◌, refl, true, some, none, String, Option, List, [], ◌∷◌, ◌==◌, if◌then◌else◌, All, elem,
}
use deterministic_audit_runt.Errors.{ok, err, key_error}
use deterministic_audit_runt.Json.{Json, null, int, obj, field, end}
use deterministic_audit_runt.Prelude.Int.{pos}
use deterministic_audit_runt.Examples.Data.{text_field}
use deterministic_audit_runt.Tasks.Queue.{missing, holds, recover_queue, get_task, id_le}
use deterministic_audit_runt.Tasks.Reach.{start, step, enqueues, Reachable-IsLiveQueue}
use deterministic_audit_runt.Tasks.Types.{
  fresh_task, may_become, or_text, create_task, is_blank, is_valid_task,
}
use deterministic_audit_runt.Tasks.Types.{
  AuditTask, TaskTarget, Host, verify_claim, module_scan, pending, running, fresh_task,
}
use deterministic_audit_runt.Tasks.Dicts.{IsStorable, IsNormalTarget}
use deterministic_audit_runt.Tasks.Queue.{
  QueueFile, write_tasks, load_tasks, transition_task, enqueue_many, EnqueueResult, enqueued, moved,
  claim_next_task, find_task, missing,
}
use deterministic_audit_runt.Tasks.Reach.{IsCreated}
use deterministic_audit_runt.Tasks.Lifecycle.{IsLiveQueue, transition_task-updates, FitsStatus}
use deterministic_audit_runt.Tasks.Resubmit.{BatchAnswer, enqueue_many-BatchAnswer}
use deterministic_audit_runt.Tasks.Moved.{IsQueue}
use deterministic_audit_runt.Tasks.RoundTrip.{load_tasks-write_tasks}
use deterministic_audit_runt.Tasks.Recovery.{RecoveryAnswer, recover_queue-Answer}
use deterministic_audit_runt.Tasks.Text.{normalize_target_value}
use deterministic_audit_runt.Tasks.Claim.{ClaimAnswer, claim_next_task-Answer}
use deterministic_audit_runt.Prelude.Sort.{sort}
use deterministic_audit_runt.Tasks.Lookup.{IsDistinct}

abbrev pub host : Host
host = record {
  now = "2024-05-01T10:00:00Z";
  is_iso = λ s. s == "2024-05-01T10:00:00Z";
  digest = λ v. "0123456789abcdef";
}

abbrev target_1 : TaskTarget
target_1 = record {
  kind = "path";
  value = "src/a.py";
  snapshot_ref = "snap_1";
  line_range = some (3, 9);
}

abbrev scan_task : AuditTask
scan_task = record {
  id = "task_1";
  audit_id = "audit_1";
  task_type = module_scan;
  status = pending;
  target = target_1;
  attempt_count = 0;
  last_error = none;
  created_at = "2024-05-01T10:00:00Z";
  updated_at = "2024-05-01T10:00:00Z";
}

abbrev verify_task : AuditTask
verify_task = record scan_task { id = "task_2"; task_type = verify_claim }

target_1-IsNormalTarget : IsNormalTarget target_1
unfolding elem normalize_target_value is_blank
target_1-IsNormalTarget = record {
  known = refl;
  normal = refl;
  value_given = refl;
  stripped = refl;
  ref_given = refl;
  ordered = refl;
}

scan_task-IsStorable : IsStorable host scan_task
unfolding is_valid_task
scan_task-IsStorable = record { valid = refl; target = target_1-IsNormalTarget }

verify_task-IsStorable : IsStorable host verify_task
unfolding is_valid_task
verify_task-IsStorable = record { valid = refl; target = target_1-IsNormalTarget }

abbrev pub two_tasks : List AuditTask
two_tasks = scan_task ∷ verify_task ∷ []

abbrev pub queue_file : QueueFile
queue_file = write_tasks two_tasks

queue_file-IsLiveQueue : IsLiveQueue host queue_file two_tasks
unfolding load_tasks write_tasks IsDistinct find_task FitsStatus
queue_file-IsLiveQueue = record {
  queue = record {
    loads = refl;
    storable = (scan_task-IsStorable, (verify_task-IsStorable, tt));
    distinct = (refl, (refl, tt));
  };
  live = (tt, (tt, tt));
}

normalized : normalize_target_value "path" " ./src//.//lib/./a.py/ " ≡ "src/lib/a.py"
unfolding normalize_target_value
normalized = refl

load_tasks-write_tasks_example : load_tasks host queue_file ≡ ok two_tasks
unfolding sort id_le
load_tasks-write_tasks_example =
    load_tasks-write_tasks host two_tasks (scan_task-IsStorable, (verify_task-IsStorable, tt))

abbrev claimed : AuditTask
claimed = moved verify_task running none "2024-05-01T10:00:00Z"

abbrev claimed_file : QueueFile
claimed_file = write_tasks (scan_task ∷ claimed ∷ [])

claim_1 : transition_task host "task_2" "running" none none queue_file ≡ ok (claimed, claimed_file)
unfolding transition_task
claim_1 = refl

transition_task-updates_example :
    (current : AuditTask) × (find_task "task_2" two_tasks ≡ some current)
    × (may_become current.status running ≡ true)
    × (claimed ≡ moved current running none (or_text none host.now))
    × ((j : String)
        → get_task host j claimed_file
          ≡ ok (if "task_2" == j then some claimed else find_task j two_tasks))
transition_task-updates_example =
    transition_task-updates host queue_file two_tasks "task_2" running none none claimed
      claimed_file queue_file-IsLiveQueue claim_1

claim_next_task-Answer_example :
    (answer : Option AuditTask) × (written : QueueFile) × (claim_next_task host none none none
        queue_file
      ≡ ok (answer, written))
    × ClaimAnswer host
        (record { audit_id = none; task_type = none; status = some pending })
        none
        queue_file
        two_tasks
        answer
        written
claim_next_task-Answer_example =
    claim_next_task-Answer host none none none queue_file two_tasks queue_file-IsLiveQueue.queue
      refl

-- The claim takes the task with the higher priority.
claim_2 : claim_next_task host none none none queue_file ≡ ok (some claimed, claimed_file)
unfolding claim_next_task
claim_2 = refl

abbrev batch : List AuditTask
batch = verify_task ∷ scan_task ∷ []

abbrev batch_results : List EnqueueResult
batch_results =
    record { outcome = enqueued; task = verify_task }
    ∷ record { outcome = enqueued; task = scan_task }
    ∷ []

abbrev batch_fits : All (IsStorable host) batch
batch_fits = (verify_task-IsStorable, (scan_task-IsStorable, tt))

empty_file-IsQueue : IsQueue host missing []
unfolding load_tasks IsDistinct
empty_file-IsQueue = record { loads = refl; storable = tt; distinct = tt }

batch_1 : enqueue_many host batch missing ≡ ok (batch_results, queue_file)
unfolding enqueue_many
batch_1 = refl

enqueue_many-BatchAnswer_example : BatchAnswer host [] batch batch_results queue_file
enqueue_many-BatchAnswer_example =
    enqueue_many-BatchAnswer host batch [] missing batch_results queue_file empty_file-IsQueue
      batch_fits batch_1

abbrev created : AuditTask
created = fresh_task host "audit_1" verify_claim target_1 host.now

created-IsCreated : IsCreated host created
unfolding create_task
created-IsCreated = record {
  audit_id = "audit_1";
  task_type = verify_claim;
  target = target_1;
  created_at = none;
  created = refl;
  normal = target_1-IsNormalTarget;
}

created_1 :
    enqueue_many host (created ∷ []) missing
    ≡ ok (record { outcome = enqueued; task = created } ∷ [], write_tasks (created ∷ []))
unfolding enqueue_many
created_1 = refl

Reachable-IsLiveQueue_example :
    (ts : List AuditTask) × IsLiveQueue host (write_tasks (created ∷ [])) ts
Reachable-IsLiveQueue_example = Reachable-IsLiveQueue host (write_tasks (created ∷ [])) (
    step start (
      enqueues (created ∷ []) (record { outcome = enqueued; task = created } ∷ [])
        (created-IsCreated, tt) created_1))

-- A target without a kind.
abbrev no_kind_task : Json
no_kind_task = obj (
    text_field "id" "task_1" (
      text_field "audit_id" "audit_1" (
        text_field "type" "module_scan" (
          text_field "status" "pending" (
            field "target"
              (obj (text_field "value" "src/a.py" (text_field "snapshot_ref" "snap_1" end)))
              (field "attempt_count" (int (pos 0)) (
                field "last_error" null (
                  text_field "created_at" "2024-05-01T10:00:00Z"
                    (text_field "updated_at" "2024-05-01T10:00:00Z" end)))))))))

abbrev no_kind_file : QueueFile
no_kind_file = holds (
    obj (
      text_field "schema_version" "1.0.0"
        (field "tasks" (obj (field "task_1" no_kind_task end)) end)))

no_kind_raises : recover_queue host no_kind_file ≡ err (key_error "kind")
unfolding recover_queue
no_kind_raises = refl

recover_queue-Answer_example : RecoveryAnswer host no_kind_file (recover_queue host no_kind_file)
recover_queue-Answer_example = recover_queue-Answer host no_kind_file
