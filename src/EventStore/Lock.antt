-- ===== src/EventStore/Lock.antt =====
-- FilesystemLock of runtime/event_store.py, seen from one process. The lock file and the table of the
-- locks that the process holds are the state; each operation runs without another process between
-- its steps. Writing the lock file never fails here.
pub mod Exclusion
pub mod Reentrancy
use deterministic_audit_runt.Prelude.{
  ℕ, zero, suc, ◌+◌, ◌-◌, String, Bool, true, false, not, Option, none, some, ltb, if◌then◌else◌,
}
use deterministic_audit_runt.Prelude.Int.{ℤ, pos, ltb_ℤ}
use deterministic_audit_runt.Errors.{Result, ok, err, store_error, lock_error}
use deterministic_audit_runt.Json.{Json, Fields, null, bool, int, str, obj, field, end, lookup}
use deterministic_audit_runt.Json.Canonical.{equals}

-- What the lock file holds: a JSON value, or bytes that are none.
pub data LockFile : Type 0 where
  unreadable : LockFile
  payload : Json → LockFile

-- An entry of `_HELD_LOCKS`.
pub record Held : Type 0 where
  pub count : ℕ
  pub token : String

pub record LockWorld : Type 0 where
  pub file : Option LockFile
  pub held : Option Held

-- The fields of a FilesystemLock that change.
pub record LockObject : Type 0 where
  pub token : Option String
  pub acquired : Bool

-- `_read_lock_payload`
unfoldable pub read_lock_payload : Option LockFile → Result (Option Fields)
read_lock_payload none = ok none
read_lock_payload (some (payload (obj fs))) = ok (some fs)
read_lock_payload (some _) = err store_error

abbrev pub metadata_of : Result (Option Fields) → Option Fields
metadata_of (ok metadata) = metadata
metadata_of (err e) = none

-- `isinstance(pid, int)`, which a bool satisfies.
abbrev pub pid_of : Option Json → Option ℤ
pid_of (some (int n)) = some n
pid_of (some (bool b)) = some (if b then pos 1 else pos 0)
pid_of _ = none

-- `metadata.get("token") == self._token`
abbrev pub token_json : Option String → Json
token_json none = null
token_json (some s) = str s

abbrev pub value_or_null : Option Json → Json
value_or_null none = null
value_or_null (some v) = v

-- The answer of the operating system about a process, which may raise, as os.kill does for a number
-- that is no pid; and what the process writes of itself.
pub record LockHost : Type 0 where
  pub alive : ℤ → Result Bool
  pub pid : ℤ
  pub owner : String
  pub hostname : String
  pub created_at : String
  pub tokens : ℕ → String

module _ (host : LockHost) where
  -- `_process_is_alive`
  unfoldable pub process_is_alive : ℤ → Result Bool
  process_is_alive pid = if ltb_ℤ (pos 0) pid then host.alive pid else ok false

  abbrev pub alive_pid : Option ℤ → Result Bool
  alive_pid none = ok false
  alive_pid (some pid) = process_is_alive pid

  -- The file names a process that is alive.
  unfoldable pub is_live : Option Fields → Result Bool
  unfolding process_is_alive lookup
  is_live none = ok false
  is_live (some fs) = alive_pid (pid_of (lookup "pid" fs))

  abbrev pub cleared_unless : Result Bool → Option LockFile → Result Bool × Option LockFile
  cleared_unless (err e) file = (err e, file)
  cleared_unless (ok true) file = (ok false, file)
  cleared_unless (ok false) file = (ok true, none)

  -- `_clear_stale_lock`: whether the file was cleared, and the file behind it.
  unfoldable pub clear_stale_lock : Option LockFile → Result Bool × Option LockFile
  unfolding read_lock_payload is_live
  clear_stale_lock file = cleared_unless (is_live (metadata_of (read_lock_payload file))) file

  -- `_lock_payload`
  unfoldable pub lock_payload : String → Json
  lock_payload token = obj (
      field "schema_version" (str "1.0.0") (
        field "token" (str token) (
          field "owner" (str host.owner) (
            field "pid" (int host.pid) (
              field "hostname" (str host.hostname)
                (field "created_at" (str host.created_at) end))))))

  abbrev pub created : ℕ → Result LockObject × LockWorld
  created n = (
    ok (record { token = some (host.tokens n); acquired = true }),
    record {
      file = some (payload (lock_payload (host.tokens n)));
      held = some (record { count = 1; token = host.tokens n });
    },
  )

  -- Behind `_clear_stale_lock`: the next attempt, or a lock that another process holds.
  abbrev pub after_clearing :
      LockWorld
      → (Option LockFile → Result LockObject × LockWorld)
      → Result Bool × Option LockFile
      → Result LockObject × LockWorld
  after_clearing w again (err e, rest) = (err e, record w { file = rest })
  after_clearing w again (ok true, rest) = again rest
  after_clearing w again (ok false, rest) = (err lock_error, record w { file = rest })

  -- The loop, with the number of attempts that are left. Each attempt builds a token.
  unfoldable pub attempt : ℕ → LockWorld → Option LockFile → Result LockObject × LockWorld
  unfolding clear_stale_lock lock_payload
  attempt zero w file = (err lock_error, record w { file = file })
  attempt (suc n) w none = created n
  attempt (suc n) w (some file) = after_clearing w (attempt n w) (clear_stale_lock (some file))

  -- A path that the process holds already is only counted.
  unfoldable pub acquire_with : LockWorld → Option Held → Result LockObject × LockWorld
  unfolding attempt
  acquire_with w (some h) = (
    ok (record { token = some h.token; acquired = true }),
    record w { held = some (record h { count = h.count + 1 }) },
  )
  acquire_with w none = attempt 2 w w.file

  unfoldable pub acquire : LockWorld → Result LockObject × LockWorld
  unfolding acquire_with
  acquire w = acquire_with w w.held

abbrev pub let_go : LockObject → LockObject
let_go o = record o { acquired = false }

-- The file is removed if it is unreadable or is this lock's own.
unfoldable pub remove_own : LockObject → Option LockFile → Option LockFile
unfolding read_lock_payload lookup
remove_own o file = elim (metadata_of (read_lock_payload file)) [
  | none ↦ none
  | some fs ↦ if equals (value_or_null (lookup "token" fs)) (token_json o.token) then none else file
]

unfoldable pub release_held : LockObject → LockWorld → Option Held → LockObject × LockWorld
unfolding remove_own
release_held o w none = (let_go o, w)
release_held o w (some h) =
    if ltb 0 (h.count - 1)
    then (let_go o, record w { held = some (record h { count = h.count - 1 }) })
    else (let_go o, record { file = remove_own o w.file; held = none })

unfoldable pub release : LockObject → LockWorld → LockObject × LockWorld
unfolding release_held
release o w = if o.acquired then release_held o w w.held else (o, w)
