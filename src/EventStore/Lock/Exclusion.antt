-- ===== src/EventStore/Lock/Exclusion.antt =====
-- Who gets the lock of runtime/event_store.py.
use deterministic_audit_runt.Prelude.{◌≡◌, refl, ℕ, true, false, Option, none, some, Bool}
use deterministic_audit_runt.Errors.{err, lock_error, Result, ok}
use deterministic_audit_runt.EventStore.Lock.{
  LockFile, LockWorld, LockHost, is_live, clear_stale_lock, attempt, acquire, created, metadata_of,
  read_lock_payload,
}

module _ (host : LockHost) where
  -- By what is known of the process that the file names.
  abbrev pub EndOfAttempt : LockWorld → Option LockFile → Result Bool → Type 0
  EndOfAttempt w file (err e) = attempt host 2 w file ≡ (err e, record w { file = file })
  EndOfAttempt w file (ok true) = attempt host 2 w file ≡ (err lock_error, record w { file = file })
  EndOfAttempt w file (ok false) = (n : ℕ) × (attempt host 2 w file ≡ created host n)

  attempt-cases :
      (w : LockWorld) (file : LockFile) (live : Result Bool)
      → is_live host (metadata_of (read_lock_payload (some file))) ≡ live
      → EndOfAttempt w (some file) live
  unfolding attempt clear_stale_lock
  attempt-cases w file (err e) h = rw (attempt, clear_stale_lock, h) refl
  attempt-cases w file (ok true) h = rw (attempt, clear_stale_lock, h) refl
  attempt-cases w file (ok false) h = (0, rw (attempt, clear_stale_lock, h) refl)

  attempt-any :
      (w : LockWorld) (file : Option LockFile)
      → EndOfAttempt w file (is_live host (metadata_of (read_lock_payload file)))
  unfolding attempt is_live read_lock_payload
  attempt-any w none = (1, refl)
  attempt-any w (some file) =
      attempt-cases w file (is_live host (metadata_of (read_lock_payload (some file)))) refl

  -- What a process that does not hold the lock gets.
  abbrev pub Acquired : LockWorld → Result Bool → Type 0
  Acquired w (err e) = acquire host w ≡ (err e, w)
  Acquired w (ok true) = acquire host w ≡ (err lock_error, w)
  Acquired w (ok false) = (n : ℕ) × (acquire host w ≡ created host n)

  of_attempt :
      (file : Option LockFile) (live : Result Bool)
      → EndOfAttempt (record { file = file; held = none }) file live
      → Acquired (record { file = file; held = none }) live
  unfolding acquire
  of_attempt file (err e) h = h
  of_attempt file (ok true) h = h
  of_attempt file (ok false) h = h

  -- What a process gets that does not hold the lock, by what becomes of the question whether the lock
  -- file names a live process. If it does, the call raises a lock error, and if the question raises,
  -- the call raises the same; in both cases nothing has changed. If it does not, the process holds the
  -- lock once, under the token that is then in the file: two attempts are enough.
  pub acquire-cases :
      (file : Option LockFile)
      → Acquired
          (record { file = file; held = none })
          (is_live host (metadata_of (read_lock_payload file)))
  acquire-cases file =
      of_attempt file (is_live host (metadata_of (read_lock_payload file)))
        (attempt-any (record { file = file; held = none }) file)
