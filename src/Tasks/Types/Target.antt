-- ===== src/Tasks/Types/Target.antt =====
-- TaskTarget of runtime/tasks.py. `true` and `false` are ints to `isinstance`, and read as 1 and 0.
use deterministic_audit_runt.Prelude.{
  ℕ, String, Bool, true, false, not, ◌&&◌, Option, none, some, List, [], ◌∷◌, elem, leb, first,
}
use deterministic_audit_runt.Prelude.Int.{pos}
use deterministic_audit_runt.Errors.{Result, ok, err, ◌>>=◌, task_queue_error, attribute_error}
use deterministic_audit_runt.Json.{Json, null, bool, int, str, obj, Fields, field, end, item, get}
use deterministic_audit_runt.Tasks.Text.{strip, normalize_target_value, no_text}
use deterministic_audit_runt.Tasks.Types.Names.{target_kinds}

pub record TaskTarget : Type 0 where
  pub kind : String
  pub value : String
  pub snapshot_ref : String
  pub line_range : Option (ℕ × ℕ)

-- `_validate_non_empty`
unfoldable pub is_blank : String → Bool
unfolding strip
is_blank s = no_text (strip s)

abbrev pub ordered_range : Option (ℕ × ℕ) → Bool
ordered_range none = true
ordered_range (some (first, last)) = leb 1 first && leb first last

-- The values of a `line_range` that passes `_validate_line_range`, but for their order.
abbrev pub int_of : Json → Option ℕ
int_of (int (pos n)) = some n
int_of (bool true) = some 1
int_of (bool false) = some 0
int_of _ = none

unfoldable pub has_keys : List String → Fields → Bool
unfolding elem
has_keys names end = true
has_keys names (field k v fs) = elem k names && has_keys names fs

unfoldable pub keys_of : Fields → List String
keys_of end = []
keys_of (field k v fs) = k ∷ keys_of fs

unfoldable pub all_among : List String → List String → Bool
unfolding elem
all_among [] names = true
all_among (k ∷ ks) names = elem k names && all_among ks names

-- `set(payload.keys()) == {...}`
unfoldable pub exact_keys : List String → Fields → Bool
unfolding all_among keys_of
exact_keys names fs = all_among (keys_of fs) names && all_among names (keys_of fs)

unfoldable pub queue_check : Bool → Result (Unit {0})
queue_check true = ok tt
queue_check false = err task_queue_error

unfoldable pub or_queue_error {ℓ} : {A : Type ℓ} → Option A → Result A
or_queue_error none = err task_queue_error
or_queue_error (some a) = ok a

-- A negative int fails the order below as it fails the source's.
unfoldable pub read_range : Json → Result (Option (ℕ × ℕ))
unfolding exact_keys queue_check or_queue_error item
read_range null = ok none
read_range (obj fs) = do
  _ ← queue_check (exact_keys ("start" ∷ "end" ∷ []) fs)
  start ← item "start" (obj fs)
  last ← item "end" (obj fs)
  first ← or_queue_error (int_of start)
  final ← or_queue_error (int_of last)
  ok (some (first, final))
read_range _ = err task_queue_error

abbrev pub text_of : Json → Option String
text_of (str s) = some s
text_of _ = none

-- `value.strip()`, on a value of any type.
abbrev pub strippable : Json → Result String
strippable (str s) = ok s
strippable _ = err attribute_error

-- `kind not in TARGET_KINDS`, on a value of any type.
unfoldable pub read_kind : Json → Result String
unfolding elem queue_check
read_kind (str s) = do _ ← queue_check (elem s target_kinds); ok s
read_kind _ = err task_queue_error

-- `TaskTarget(...)` with its __post_init__, on arguments of any types.
unfoldable pub new_target : Json → Json → Json → Json → Result TaskTarget
unfolding read_kind normalize_target_value queue_check is_blank strip read_range
new_target kind value snapshot_ref line_range = do
  k ← read_kind kind
  raw ← strippable value
  let v = normalize_target_value k raw
  _ ← queue_check (not (is_blank v))
  ref ← strippable snapshot_ref
  let r = strip ref
  _ ← queue_check (not (is_blank r))
  range ← read_range line_range
  _ ← queue_check (ordered_range range)
  ok (record { kind = k; value = v; snapshot_ref = r; line_range = range })

abbrev range_json : ℕ × ℕ → Json
range_json (first, final) =
    obj (field "start" (int (pos first)) (field "end" (int (pos final)) end))

abbrev range_fields : Option (ℕ × ℕ) → Fields
range_fields none = end
range_fields (some range) = field "line_range" (range_json range) end

-- `TaskTarget.to_dict`
unfoldable pub target_dict : TaskTarget → Json
target_dict t = obj (
    field "kind" (str t.kind) (
      field "value" (str t.value)
        (field "snapshot_ref" (str t.snapshot_ref) (range_fields t.line_range))))

-- `TaskTarget.from_dict`
unfoldable pub target_from_dict : Json → Result TaskTarget
unfolding new_target queue_check item get has_keys
target_from_dict (obj fs) = do
  _ ← queue_check (has_keys ("kind" ∷ "value" ∷ "snapshot_ref" ∷ "line_range" ∷ []) fs)
  kind ← item "kind" (obj fs)
  value ← item "value" (obj fs)
  snapshot_ref ← item "snapshot_ref" (obj fs)
  line_range ← get "line_range" (obj fs)
  new_target kind value snapshot_ref line_range
target_from_dict _ = err task_queue_error
