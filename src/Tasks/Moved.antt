-- ===== src/Tasks/Moved.antt =====
-- What a successful transition_task did: the task it found, and the file it wrote.
use deterministic_audit_runt.Prelude.{
  ◌≡◌, refl, true, false, some, none, String, Option, Bool, List, All, ◌∙◌, ap,
}
use deterministic_audit_runt.Prelude.Sort.{sort, sort-All}
use deterministic_audit_runt.Errors.{ok, >>=-eq-ok, ok_inj}
use deterministic_audit_runt.Tasks.Types.{
  AuditTask, TaskStatus, Host, new_task, queue_check, or_queue_error, is_valid_task, status_named,
  may_become, or_text,
}
use deterministic_audit_runt.Tasks.Dicts.{IsStorable}
use deterministic_audit_runt.Tasks.RoundTrip.{load_tasks-write_tasks}
use deterministic_audit_runt.Tasks.Lookup.{IsDistinct, sort-IsDistinct}
use deterministic_audit_runt.Tasks.Queue.{
  QueueFile, load_tasks, find_task, store_task, write_tasks, id_le, get_task, moved, known_status,
  transition_check, transition_task, error_given,
}
use mathlib.Core.Path.{subst}

-- A file that reads as these tasks, each under an id of its own and fit to be written again.
pub record IsQueue (host : Host) (file : QueueFile) (ts : List AuditTask) : Type 0 where
  pub loads : load_tasks host file ≡ ok ts
  pub storable : All (IsStorable host) ts
  pub distinct : IsDistinct ts

pub write_tasks-IsQueue :
    (host : Host) (ts : List AuditTask)
    → All (IsStorable host) ts
    → IsDistinct ts
    → IsQueue host (write_tasks ts) (sort id_le ts)
write_tasks-IsQueue host ts h k = record {
  loads = load_tasks-write_tasks host ts h;
  storable = sort-All id_le (IsStorable host) ts h;
  distinct = sort-IsDistinct ts k;
}

pub get_task-IsQueue :
    (host : Host) (file : QueueFile) (ts : List AuditTask) (j : String)
    → IsQueue host file ts
    → get_task host j file ≡ ok (find_task j ts)
unfolding get_task
get_task-IsQueue host file ts j q = rw q.loads refl

pub queue_check-ok : (b : Bool) {x : Unit {0}} → queue_check b ≡ ok x → b ≡ true
unfolding queue_check
queue_check-ok true h = refl
queue_check-ok false h = cc

transition_check-ok : (b : Bool) {x : Unit {0}} → transition_check b ≡ ok x → b ≡ true
unfolding transition_check
transition_check-ok true h = refl
transition_check-ok false h = cc

or_queue_error-ok {ℓ} : {A : Type ℓ} (o : Option A) {a : A} → or_queue_error o ≡ ok a → o ≡ some a
unfolding or_queue_error
or_queue_error-ok none h = cc
or_queue_error-ok (some a) h = ap some (ok_inj h)

known_status-ok :
    (o : Option TaskStatus) {status : TaskStatus} → known_status o ≡ ok status → o ≡ some status
unfolding known_status
known_status-ok none h = cc
known_status-ok (some status) h = ap some (ok_inj h)

pub new_task-ok :
    (host : Host) (t : AuditTask) {u : AuditTask}
    → new_task host t ≡ ok u
    → (t ≡ u) × (is_valid_task host t ≡ true)
unfolding new_task
new_task-ok host t h =
    let (_, checked, built) = >>=-eq-ok (queue_check (is_valid_task host t)) _ h in
    (ok_inj built, queue_check-ok (is_valid_task host t) checked)

-- The task that the transition found, and what it made of it.
pub record IsMove (host : Host) (ts : List AuditTask) (id name : String) (error at : Option String)
    (updated : AuditTask) (written : QueueFile) : Type 0 where
  pub current : AuditTask
  pub status : TaskStatus
  pub named : status_named name ≡ some status
  pub found : find_task id ts ≡ some current
  pub allowed : may_become current.status status ≡ true
  pub explained : error_given status error ≡ true
  pub made : moved current status error (or_text at host.now) ≡ updated
  pub valid : is_valid_task host updated ≡ true
  pub stored : write_tasks (store_task updated ts) ≡ written

pub transition_task-IsMove :
    (host : Host) (id name : String) (error at : Option String) (file : QueueFile)
    (ts : List AuditTask) (updated : AuditTask) (written : QueueFile)
    → load_tasks host file ≡ ok ts
    → transition_task host id name error at file ≡ ok (updated, written)
    → IsMove host ts id name error at updated written
unfolding transition_task
transition_task-IsMove host id name error at file ts updated written loads h =
    let (status, e1, h1) = >>=-eq-ok (known_status (status_named name)) _ h in
    let (current, e3, h3) = >>=-eq-ok (or_queue_error (find_task id ts)) _ (rw loads at h1) in
    let (_, e4, h4) = >>=-eq-ok (transition_check (may_become current.status status)) _ h3 in
    let (_, e5, h5) = >>=-eq-ok (queue_check (error_given status error)) _ h4 in
    let (built, e6, h6) =
      >>=-eq-ok (new_task host (moved current status error (or_text at host.now))) _ h5 in
    let (made, valid) = new_task-ok host _ e6 in
    let answer = ok_inj h6 in
    let same_task : built ≡ updated = ap (λ p. p.0) answer in
    record {
      current = current;
      status = status;
      named = known_status-ok (status_named name) e1;
      found = or_queue_error-ok (find_task id ts) e3;
      allowed = transition_check-ok _ e4;
      explained = queue_check-ok _ e5;
      made = made ∙ same_task;
      valid = subst (λ t. is_valid_task host t ≡ true) (made ∙ same_task) valid;
      stored =
          subst (λ t. write_tasks (store_task t ts) ≡ written) same_task (ap (λ p. p.1) answer);
    }
