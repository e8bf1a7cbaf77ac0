-- ===== src/Tasks/Reach.antt =====
-- The queue files that the store makes, from the constructor on.
use deterministic_audit_runt.Prelude.{◌≡◌, refl, true, String, Option, List, [], All, All-map}
use deterministic_audit_runt.Errors.{ok, ok_inj, err_ne_ok}
use deterministic_audit_runt.Tasks.Types.{
  AuditTask, TaskType, TaskTarget, Host, create_task, is_valid_task, fresh_task, or_text,
}
use deterministic_audit_runt.Tasks.Dicts.{IsStorable, IsNormalTarget}
use deterministic_audit_runt.Tasks.Lifecycle.{
  IsLive, IsLiveQueue, move-IsLiveQueue, FitsStatus, write_tasks-IsLiveQueue,
}
use deterministic_audit_runt.Tasks.Moved.{transition_task-IsMove, new_task-ok}
use deterministic_audit_runt.Tasks.Queue.{
  QueueFile, missing, undecodable, unparsable, holds, ensure_queue_file, enqueue_many,
  transition_task, EnqueueResult, recover_queue, load_tasks, recover_loaded, id_le, store_task,
}
use mathlib.Core.Path.{subst}
use deterministic_audit_runt.Tasks.Resubmit.{enqueue_many-BatchAnswer}
use deterministic_audit_runt.Tasks.Lookup.{IsDistinct}
use deterministic_audit_runt.Prelude.Sort.{sort}

-- A task that AuditTask.create makes, about a target that normalization leaves as it is.
pub record IsCreated (host : Host) (t : AuditTask) : Type 0 where
  pub audit_id : String
  pub task_type : TaskType
  pub target : TaskTarget
  pub created_at : Option String
  pub created : create_task host audit_id task_type target created_at ≡ ok t
  pub normal : IsNormalTarget target

-- One call on the store: of the constructor, of enqueue_many, or of transition_task.
pub data Step (host : Host) : QueueFile → QueueFile → Type 0 where
  opens :
      {before after : QueueFile} → ensure_queue_file host before ≡ ok after → Step host before after
  enqueues :
      (batch : List AuditTask) (rs : List EnqueueResult) {before after : QueueFile}
      → All (IsCreated host) batch
      → enqueue_many host batch before ≡ ok (rs, after)
      → Step host before after
  moves :
      (id name : String) (error at : Option String) (updated : AuditTask) {before after : QueueFile}
      → transition_task host id name error at before ≡ ok (updated, after)
      → Step host before after

pub data Reachable (host : Host) : QueueFile → Type 0 where
  start : Reachable host missing
  step :
      {before after : QueueFile}
      → Reachable host before
      → Step host before after
      → Reachable host after

created-IsStorable : (host : Host) (t : AuditTask) → IsCreated host t → IsStorable host t × IsLive t
unfolding create_task FitsStatus
created-IsStorable host t c =
    let fresh = fresh_task host c.audit_id c.task_type c.target (or_text c.created_at host.now) in
    let (e, valid) = new_task-ok host fresh c.created in
    (
      record {
        valid = subst (λ u. is_valid_task host u ≡ true) e valid;
        target = subst (λ u. IsNormalTarget u.target) e c.normal;
      },
      subst IsLive e (tt {0}),
    )

opened-IsLiveQueue :
    (host : Host) (file : QueueFile) (ts : List AuditTask) {after : QueueFile}
    → IsLiveQueue host file ts
    → ensure_queue_file host file ≡ ok after
    → (us : List AuditTask) × IsLiveQueue host after us
unfolding ensure_queue_file recover_queue recover_loaded IsDistinct load_tasks
opened-IsLiveQueue host missing ts q h = (
  [],
  subst (λ f. IsLiveQueue host f []) (ok_inj h)
      (write_tasks-IsLiveQueue host [] (tt {0}) (tt {0}) (tt {0})),
)
opened-IsLiveQueue host undecodable ts q h = absurd (err_ne_ok q.queue.loads)
opened-IsLiveQueue host unparsable ts q h = absurd (err_ne_ok q.queue.loads)
opened-IsLiveQueue host (holds v) ts q h =
    (ts, subst (λ f. IsLiveQueue host f ts) (ok_inj (rw q.queue.loads at h)) q)

Step-IsLiveQueue :
    (host : Host) (before after : QueueFile) (ts : List AuditTask)
    → IsLiveQueue host before ts
    → Step host before after
    → (us : List AuditTask) × IsLiveQueue host after us
Step-IsLiveQueue host before after ts q (opens h) = opened-IsLiveQueue host before ts q h
Step-IsLiveQueue host before after ts q (enqueues batch rs created h) =
    let fits = All-map (λ t c. (created-IsStorable host t c).0) batch created in
    let answer = enqueue_many-BatchAnswer host batch ts before rs after q.queue fits h in
    (
      answer.final,
      record {
        queue = answer.queue;
        live =
            answer.inherited IsLive q.live
              (All-map (λ t c. (created-IsStorable host t c).1) batch created);
      },
    )
Step-IsLiveQueue host before after ts q (moves id name error at updated h) =
    let m = transition_task-IsMove host id name error at before ts updated after q.queue.loads h in
    (
      sort id_le (store_task updated ts),
      move-IsLiveQueue host before ts id name error at updated after q m,
    )

-- Each file that the store makes from no file at all, by opening it, by batches of tasks from
-- AuditTask.create, and by transitions in any order, loads without an error, as long as the targets
-- of the batches are ones that TaskTarget would leave as they are if it normalized them again. In it
-- each id has one task, which AuditTask accepts; a running task and a done one have been claimed at
-- least once and carry no error, and a failed one carries an error text that is not blank.
pub Reachable-IsLiveQueue :
    (host : Host) (file : QueueFile)
    → Reachable host file
    → (ts : List AuditTask) × IsLiveQueue host file ts
unfolding load_tasks IsDistinct
Reachable-IsLiveQueue host missing start =
    ([], record { queue = record { loads = refl; storable = tt; distinct = tt }; live = tt })
Reachable-IsLiveQueue host after (step {before} reached next) =
    let (ts, q) = Reachable-IsLiveQueue host before reached in
    Step-IsLiveQueue host before after ts q next
