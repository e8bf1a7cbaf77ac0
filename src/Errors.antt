-- ===== src/Errors.antt =====
-- Python's exceptions as values, for the code of runtime/ that raises.
use deterministic_audit_runt.Prelude.{◌≡◌, ◌≢◌, refl, Bool, true, false, String}

-- The classes that runtime/ raises or catches; `message` texts are left out where no code reads them.
pub data Error : Type 0 where
  key_error : String → Error
  attribute_error type_error value_error : Error
  store_error invalid_event event_id_conflict idempotency_conflict lock_error : Error
  projection_error processing_error ledger_error rejection_invariant_violation : Error
  task_queue_error task_transition_error task_planning_error index_error : Error
  policy_error : Error

-- The subclasses of EventStoreError, in event_store.py.
abbrev pub is_store_error : Error → Bool
is_store_error store_error = true
is_store_error invalid_event = true
is_store_error event_id_conflict = true
is_store_error idempotency_conflict = true
is_store_error lock_error = true
is_store_error _ = false

-- The subclasses of TaskQueueError, in tasks.py.
abbrev pub is_queue_error : Error → Bool
is_queue_error task_queue_error = true
is_queue_error task_transition_error = true
is_queue_error task_planning_error = true
is_queue_error _ = false

-- What a call answers: the exception that it raises, or its value.
pub data Result {ℓ} (V : Type ℓ) : Type ℓ where
  err : Error → Result V
  ok : V → Result V

module _ {ℓ κ} {V : Type ℓ} {W : Type κ} where
  infixl 5 ◌>>=◌
  -- The statements after a call, which an exception skips.
  abbrev pub ◌>>=◌ : Result V → (V → Result W) → Result W
  err raised >>= rest = err raised
  ok value >>= rest = rest value

  -- If a call and the statements after it return, both do: proofs take a block apart by it.
  pub >>=-eq-ok :
      (call : Result V) (rest : V → Result W) {answer : W}
      → (call >>= rest) ≡ ok answer
      → (value : V) × (call ≡ ok value) × (rest value ≡ ok answer)
  >>=-eq-ok (err raised) rest returns = cc
  >>=-eq-ok (ok value) rest returns = (value, refl, returns)

-- One value is returned at most.
pub ok_inj {ℓ} : {V : Type ℓ} {a b : V} → ok a ≡ ok b → a ≡ b
ok_inj same = cc

pub err_ne_ok {ℓ} : {V : Type ℓ} {raised : Error} {value : V} → err raised ≢ ok value
err_ne_ok same = cc
