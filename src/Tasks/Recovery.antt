-- ===== src/Tasks/Recovery.antt =====
-- recover_queue: which files it resets, and which errors it lets through.
use deterministic_audit_runt.Prelude.{
  ◌≡◌, refl, true, false, Bool-cases, List, [], length, inl, inr,
}
use deterministic_audit_runt.Errors.{ok, err, Error, Result, is_queue_error}
use deterministic_audit_runt.Tasks.Types.{AuditTask, Host}
use deterministic_audit_runt.Tasks.RoundTrip.{load_tasks-write_tasks}
use deterministic_audit_runt.Tasks.Queue.{
  QueueFile, missing, undecodable, unparsable, holds, load_tasks, write_tasks, recover_queue,
  recover_loaded, Recovery,
}
use deterministic_audit_runt.Prelude.Sort.{sort}

-- How a recovery ends: the file loads and stays, it raises a TaskQueueError and is made an empty
-- queue, or it raises another error, which recover_queue does not catch.
pub data RecoveryAnswer (host : Host) (file : QueueFile)
    : Result (Recovery × QueueFile) → Type 0 where
  sound :
      (ts : List AuditTask)
      → load_tasks host file ≡ ok ts
      → RecoveryAnswer host file
          (ok (record { valid = true; repaired = false; task_count = length ts }, file))
  reset :
      (e : Error) (written : QueueFile)
      → load_tasks host file ≡ err e
      → is_queue_error e ≡ true
      → load_tasks host written ≡ ok []
      → RecoveryAnswer host file
          (ok (record { valid = false; repaired = true; task_count = 0 }, written))
  escapes :
      (e : Error)
      → load_tasks host file ≡ err e
      → is_queue_error e ≡ false
      → RecoveryAnswer host file (err e)

empty_queue_loads : (host : Host) → load_tasks host (write_tasks []) ≡ ok []
unfolding sort
empty_queue_loads host = load_tasks-write_tasks host [] (tt {0})

loaded-Answer :
    (host : Host) (file : QueueFile) (loaded : Result (List AuditTask))
    → load_tasks host file ≡ loaded
    → RecoveryAnswer host file (recover_loaded file loaded)
unfolding recover_loaded
loaded-Answer host file (ok ts) h = sound ts h
loaded-Answer host file (err e) h = elim (Bool-cases (is_queue_error e)) [
  | inl q ↦ rw q (reset e (write_tasks []) h q (empty_queue_loads host))
  | inr q ↦ rw q (escapes e h q)
]

-- A recovery keeps a file that loads, reports the number of its tasks, and resets a file whose
-- loading raises a TaskQueueError to one that loads as empty. Any other error of the loading, such
-- as the KeyError of a target without a kind, leaves recover_queue as it came, and the file is not
-- repaired.
pub recover_queue-Answer :
    (host : Host) (file : QueueFile) → RecoveryAnswer host file (recover_queue host file)
unfolding recover_queue load_tasks
recover_queue-Answer host missing = sound [] refl
recover_queue-Answer host undecodable =
    loaded-Answer host undecodable (load_tasks host undecodable) refl
recover_queue-Answer host unparsable =
    loaded-Answer host unparsable (load_tasks host unparsable) refl
recover_queue-Answer host (holds v) = loaded-Answer host (holds v) (load_tasks host (holds v)) refl
