-- ===== src/Tasks/Lifecycle.antt =====
-- The life of the tasks in a queue: what transition_task changes.
use deterministic_audit_runt.Prelude.{
  ◌≡◌, refl, true, false, some, none, String, Option, Bool, List, All, if◌then◌else◌, ◌==◌, ◌≤◌, ℕ,
  arith, sym, ◌∙◌, some_inj, eq_refl, not, ◌&&◌,
}
use deterministic_audit_runt.Errors.{ok, err, task_transition_error}
use deterministic_audit_runt.Tasks.Types.{
  AuditTask, TaskStatus, pending, running, done, failed, Host, may_become, or_text, is_blank,
  is_valid_task, status_name, error_is_valid, is_timestamp,
}
use deterministic_audit_runt.Tasks.Dicts.{IsStorable, IsNormalTarget, status_named-status_name}
use deterministic_audit_runt.Tasks.Lookup.{
  IsDistinct, find_task-found, store_task-All, store_task-IsDistinct, find_task-sort,
  find_task-store_task,
}
use deterministic_audit_runt.Tasks.Moved.{
  IsQueue, IsMove, transition_task-IsMove, write_tasks-IsQueue, get_task-IsQueue,
}
use deterministic_audit_runt.Tasks.Queue.{
  QueueFile, find_task, store_task, write_tasks, id_le, get_task, moved, transition_task,
  error_given, next_error, next_count,
}
use mathlib.Core.Path.{ap, subst}
use deterministic_audit_runt.Prelude.Sort.{sort, sort-All}
use deterministic_audit_runt.Tasks.Text.{strip}
use deterministic_audit_runt.Prelude.Codes.{codes, starts}

-- What a status says of a task: a running task and a done one were claimed and carry no error, a
-- failed task carries its error.
unfoldable pub FitsStatus : TaskStatus → ℕ → Option String → Type 0
FitsStatus pending count error = Unit
FitsStatus running count error = (1 ≤ count) × (error ≡ none)
FitsStatus done count error = (1 ≤ count) × (error ≡ none)
FitsStatus failed count error = (e : String) × (error ≡ some e) × (is_blank e ≡ false)

abbrev pub IsLive : AuditTask → Type 0
IsLive t = FitsStatus t.status t.attempt_count t.last_error

next-FitsStatus :
    (old new : TaskStatus) (count : ℕ) (last error : Option String)
    → may_become old new ≡ true
    → error_given new error ≡ true
    → error_is_valid (next_error new error last) ≡ true
    → FitsStatus old count last
    → FitsStatus new (next_count new count) (next_error new error last)
unfolding FitsStatus error_is_valid error_given
next-FitsStatus old pending count last error h k v f = tt
next-FitsStatus old running count last error h k v f = (omega arith, refl)
next-FitsStatus running done count last error h k v f = (f.0, refl)
next-FitsStatus pending done count last error h k v f = cc
next-FitsStatus done done count last error h k v f = cc
next-FitsStatus failed done count last error h k v f = cc
next-FitsStatus old failed count last none h k v f = cc
next-FitsStatus old failed count last (some e) h k v f = (strip e, refl, ground arith)

error_part : (a e f g : Bool) → (a && e && f && g) ≡ true → e ≡ true
error_part true true f g h = refl
error_part true false f g h = cc
error_part false e f g h = cc

valid_error :
    (host : Host) (t : AuditTask) → is_valid_task host t ≡ true → error_is_valid t.last_error ≡ true
unfolding is_valid_task
valid_error host t h =
    error_part
      (not (is_blank t.id)
        && starts (codes "task_") (codes t.id)
        && not (is_blank t.audit_id)
        && starts (codes "audit_") (codes t.audit_id))
      (error_is_valid t.last_error) (is_timestamp host t.created_at)
      (is_timestamp host t.updated_at) h

pub moved-IsLive :
    (host : Host) (t : AuditTask) (new : TaskStatus) (error : Option String) (at : String)
    → may_become t.status new ≡ true
    → error_given new error ≡ true
    → is_valid_task host (moved t new error at) ≡ true
    → IsLive t
    → IsLive (moved t new error at)
moved-IsLive host t new error at h k v f =
    next-FitsStatus t.status new t.attempt_count t.last_error error h k
      (valid_error host (moved t new error at) v) f

-- A queue of live tasks.
pub record IsLiveQueue (host : Host) (file : QueueFile) (ts : List AuditTask) : Type 0 where
  pub queue : IsQueue host file ts
  pub live : All IsLive ts

pub write_tasks-IsLiveQueue :
    (host : Host) (ts : List AuditTask)
    → All (IsStorable host) ts
    → IsDistinct ts
    → All IsLive ts
    → IsLiveQueue host (write_tasks ts) (sort id_le ts)
write_tasks-IsLiveQueue host ts h k l = record {
  queue = write_tasks-IsQueue host ts h k;
  live = sort-All id_le IsLive ts l;
}

move-IsStorable :
    (host : Host) (file : QueueFile) (ts : List AuditTask) (id name : String)
    (error at : Option String) (updated : AuditTask) (written : QueueFile)
    → IsQueue host file ts
    → (m : IsMove host ts id name error at updated written)
    → IsStorable host updated × (updated.id ≡ id)
move-IsStorable host file ts id name error at updated written q m =
    let (same_id, current) = find_task-found (IsStorable host) id ts q.storable m.found in
    (
      record {
        valid = m.valid;
        target = subst (λ t. IsNormalTarget t.target) m.made current.target;
      },
      subst (λ t. t.id ≡ id) m.made same_id,
    )

move-IsLive :
    (host : Host) (file : QueueFile) (ts : List AuditTask) (id name : String)
    (error at : Option String) (updated : AuditTask) (written : QueueFile)
    → IsLiveQueue host file ts
    → (m : IsMove host ts id name error at updated written) → IsLive updated
move-IsLive host file ts id name error at updated written q m =
    let (_, current) = find_task-found IsLive id ts q.live m.found in
    subst IsLive m.made (
      moved-IsLive host m.current m.status error (or_text at host.now) m.allowed m.explained
        (subst (λ t. is_valid_task host t ≡ true) (sym m.made) m.valid) current)

-- A move of a live queue leaves a live queue.
pub move-IsLiveQueue :
    (host : Host) (file : QueueFile) (ts : List AuditTask) (id name : String)
    (error at : Option String) (updated : AuditTask) (written : QueueFile)
    → IsLiveQueue host file ts
    → (m : IsMove host ts id name error at updated written)
    → IsLiveQueue host written (sort id_le (store_task updated ts))
move-IsLiveQueue host file ts id name error at updated written q m =
    let (fits, _) = move-IsStorable host file ts id name error at updated written q.queue m in
    subst (λ f. IsLiveQueue host f (sort id_le (store_task updated ts))) m.stored
      (write_tasks-IsLiveQueue host (store_task updated ts)
        (store_task-All (IsStorable host) updated ts fits q.queue.storable)
        (store_task-IsDistinct updated ts q.queue.distinct)
        (store_task-All IsLive updated ts
          (move-IsLive host file ts id name error at updated written q m) q.live))

-- On a queue file whose tasks have different ids, targets that TaskTarget would leave as they are if
-- it normalized them again, and counts and errors that fit their statuses: a transition that returns
-- has found the task under its id, in a status from which TASK_TRANSITIONS allows the new one.
-- Afterwards the task under this id is the one that the call returns, and every other id reads as
-- before.
pub transition_task-updates :
    (host : Host) (file : QueueFile) (ts : List AuditTask) (id : String) (status : TaskStatus)
    (error at : Option String) (updated : AuditTask) (written : QueueFile)
    → IsLiveQueue host file ts
    → transition_task host id (status_name status) error at file ≡ ok (updated, written)
    → (current : AuditTask) × (find_task id ts ≡ some current)
      × (may_become current.status status ≡ true)
      × (updated ≡ moved current status error (or_text at host.now))
      × ((j : String)
          → get_task host j written ≡ ok (if id == j then some updated else find_task j ts))
transition_task-updates host file ts id status error at updated written q h =
    let m =
      transition_task-IsMove host id (status_name status) error at file ts updated written
        q.queue.loads h in
    let same_status : m.status ≡ status =
      some_inj (sym m.named ∙ status_named-status_name status) in
    let (_, same_id) =
      move-IsStorable host file ts id (status_name status) error at updated written q.queue m in
    let after =
      move-IsLiveQueue host file ts id (status_name status) error at updated written q m in
    (
      m.current,
      m.found,
      subst (λ s. may_become m.current.status s ≡ true) same_status m.allowed,
      subst (λ s. updated ≡ moved m.current s error (or_text at host.now)) same_status (sym m.made),
      λ j.
          get_task-IsQueue host written (sort id_le (store_task updated ts)) j after.queue
          ∙ ap ok (
              find_task-sort j (store_task updated ts)
              ∙ find_task-store_task j updated ts
              ∙ ap (λ i. if i == j then some updated else find_task j ts) same_id),
    )

not_again : (s : TaskStatus) → may_become s s ≡ false
not_again pending = refl
not_again running = refl
not_again done = refl
not_again failed = refl

-- Once a task has moved to a status, the same move does not go through again: of two claims of one
-- task, one after the other, the second raises TaskTransitionError.
pub transition_task-again :
    (host : Host) (file : QueueFile) (ts : List AuditTask) (id : String) (status : TaskStatus)
    (error at again_error again_at : Option String) (updated : AuditTask) (written : QueueFile)
    → IsLiveQueue host file ts
    → transition_task host id (status_name status) error at file ≡ ok (updated, written)
    → transition_task host id (status_name status) again_error again_at written
      ≡ err task_transition_error
unfolding transition_task
transition_task-again host file ts id status error at again_error again_at updated written q h =
    let m =
      transition_task-IsMove host id (status_name status) error at file ts updated written
        q.queue.loads h in
    let after =
      move-IsLiveQueue host file ts id (status_name status) error at updated written q m in
    let (_, same_id) =
      move-IsStorable host file ts id (status_name status) error at updated written q.queue m in
    let found : find_task id (sort id_le (store_task updated ts)) ≡ some updated =
      find_task-sort id (store_task updated ts)
      ∙ find_task-store_task id updated ts
      ∙ rw (sym same_id, eq_refl updated.id) refl in
    let same_status : updated.status ≡ status =
      sym (ap (λ t. t.status) m.made) ∙ some_inj (sym m.named ∙ status_named-status_name status) in
    let refused : may_become updated.status status ≡ false =
      subst (λ s. may_become s status ≡ false) (sym same_status) (not_again status) in
    rw (status_named-status_name status, after.queue.loads, found, refused) refl
