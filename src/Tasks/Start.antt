-- ===== src/Tasks/Start.antt =====
-- The constructors of TaskPlanner and CandidateRouter of runtime/tasks.py: the queue file is made or
use deterministic_audit_runt.Prelude.{Option, none, some}
use deterministic_audit_runt.Errors.{Result, err, ok}
use deterministic_audit_runt.Policies.Read.{Casts}
use deterministic_audit_runt.Tasks.Queue.{ensure_queue_file, QueueFile}
use deterministic_audit_runt.Policies.{AuditPolicy}
use deterministic_audit_runt.Policies.Store.{get_policy, PolicyFile, new_store}
use deterministic_audit_runt.Tasks.Types.{Host}

-- repaired, then the policy is read, if none is given.
abbrev pub policy_of : Casts → Option AuditPolicy → PolicyFile → Result AuditPolicy
policy_of c (some policy) policies = ok policy
policy_of c none policies = (get_policy c none policies new_store).0

abbrev pub with_policy :
    Casts
    → Option AuditPolicy
    → PolicyFile
    → Result QueueFile
    → QueueFile
    → Result AuditPolicy × QueueFile
with_policy c given policies (err e) file = (err e, file)
with_policy c given policies (ok written) file = (policy_of c given policies, written)

-- `TaskPlanner(...)` and `CandidateRouter(...)`
unfoldable pub start_planning :
    Casts → Host → Option AuditPolicy → PolicyFile → QueueFile → Result AuditPolicy × QueueFile
unfolding ensure_queue_file get_policy
start_planning c host given policies file =
    with_policy c given policies (ensure_queue_file host file) file
