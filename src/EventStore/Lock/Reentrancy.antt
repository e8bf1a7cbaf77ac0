-- ===== src/EventStore/Lock/Reentrancy.antt =====
-- Nested uses of the lock of runtime/event_store.py in one process.
use deterministic_audit_runt.Prelude.{
  ◌≡◌, refl, ℕ, suc, ◌+◌, String, true, Option, none, some, arith, ◌-◌, ltb,
}
use deterministic_audit_runt.Errors.{ok}
use deterministic_audit_runt.Json.{str}
use deterministic_audit_runt.Json.Canonical.{equals_refl}
use deterministic_audit_runt.EventStore.Lock.{
  LockFile, LockWorld, LockHost, LockObject, acquire, release, created, let_go, lock_payload, str,
}

module _ (host : LockHost) where
  -- A second lock object on a path that the process holds already: it gets the token of the first,
  -- and after its release the file and the table are as they were before.
  pub release-acquire_nested :
      (file : Option LockFile) (n : ℕ) (token : String)
      → let w : LockWorld = record {
        file = file;
        held = some (record { count = suc n; token = token });
      } in
        let o : LockObject = record { token = some token; acquired = true } in
        ((acquire host w).0 ≡ ok o) × (release o (acquire host w).1 ≡ (let_go o, w))
  unfolding acquire release
  release-acquire_nested file n token =
      let back : suc n + 1 - 1 ≡ suc n = omega arith in
      let positive : ltb 0 (suc n) ≡ true = ground arith in (refl, rw (back, positive) refl)

  -- The release of a lock that was created on a free or stale path removes its file, and leaves the
  -- path free.
  pub release-created :
      (n : ℕ)
      → let o : LockObject = record { token = some (host.tokens n); acquired = true } in
        ((created host n).0 ≡ ok o)
        × (release o (created host n).1 ≡ (let_go o, record { file = none; held = none }))
  unfolding lock_payload release
  release-created n = (refl, rw (equals_refl (str (host.tokens n))) refl)

  -- One object that is entered a second time on the path that it has just locked: after both exits
  -- the file is still there and the process still holds the lock, as after the first entry.
  pub same_object_twice :
      (n : ℕ)
      → let w = (created host n).1 in
        let o : LockObject = record { token = some (host.tokens n); acquired = true } in
        let once = release o (acquire host w).1 in
        ((acquire host w).0 ≡ ok o) × (release once.0 once.1 ≡ (let_go o, w))
  unfolding acquire release
  same_object_twice n = (refl, refl)
