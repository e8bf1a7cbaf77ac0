-- ===== src/Examples/Lock.antt =====
-- The lock of a process with the number 7, on a host where only that process and process 9 are alive.
use deterministic_audit_runt.Prelude.{true, none, some, Option, num_eq, if◌then◌else◌}
use deterministic_audit_runt.Prelude.Int.{pos, int_eq}
use deterministic_audit_runt.Errors.{ok}
use deterministic_audit_runt.Json.{obj, field, end, int}
use deterministic_audit_runt.EventStore.Lock.{
  LockHost, LockFile, is_live, payload, metadata_of, read_lock_payload,
}
use deterministic_audit_runt.Examples.Data.{text_field}
use deterministic_audit_runt.EventStore.Lock.Exclusion.{acquire-cases, Acquired}

abbrev host_7 : LockHost
host_7 = record {
  alive = λ pid. ok (if int_eq pid (pos 7) then true else int_eq pid (pos 9));
  pid = pos 7;
  owner = "processing";
  hostname = "host";
  created_at = "2026-01-01T00:00:00Z";
  tokens = λ n. if num_eq n 0 then "7:1:processing" else "7:0:processing";
}

-- The lock file of process 9.
abbrev taken : Option LockFile
taken = some (payload (obj (text_field "token" "9:0:other" (field "pid" (int (pos 9)) end))))

acquire-cases_example :
    Acquired host_7
      (record { file = taken; held = none })
      (is_live host_7 (metadata_of (read_lock_payload taken)))
acquire-cases_example = acquire-cases host_7 taken
