-- ===== src/Tasks/Keys.antt =====
-- The keys by which runtime/tasks.py sorts and compares tasks: tuples of numbers and texts.
use deterministic_audit_runt.Prelude.{
  ℕ, ◌≡◌, refl, String, Bool, true, false, ◌&&◌, Option, none, some, List, [], ◌∷◌, ◌==◌,
  if◌then◌else◌, leb, text_le, num_eq, arith, eq_iff, text_le_total, ◌++◌, eq_refl, first,
}
use deterministic_audit_runt.Prelude.Order.{text_le_trans, text_le_antisym}
use deterministic_audit_runt.Tasks.Text.{normalize_target_value}
use deterministic_audit_runt.Tasks.Types.{AuditTask, priority, type_name}

pub data Part : Type 0 where
  number : ℕ → Part
  text : String → Part

-- Keys have numbers and texts at the same places; a number is put before a text.
unfoldable pub part_le : Part → Part → Bool
unfolding text_le
part_le (number a) (number b) = leb a b
part_le (number a) (text t) = true
part_le (text s) (number b) = false
part_le (text s) (text t) = text_le s t

unfoldable pub part_eq : Part → Part → Bool
part_eq (number a) (number b) = num_eq a b
part_eq (text s) (text t) = s == t
part_eq _ _ = false

-- The order of tuples.
unfoldable pub key_le : List Part → List Part → Bool
unfolding part_le part_eq
key_le [] key = true
key_le (p ∷ ps) [] = false
key_le (p ∷ ps) (q ∷ qs) = if part_eq p q then key_le ps qs else part_le p q

unfoldable pub key_eq : List Part → List Part → Bool
unfolding part_eq
key_eq [] [] = true
key_eq (p ∷ ps) (q ∷ qs) = part_eq p q && key_eq ps qs
key_eq _ _ = false

-- `_line_range_key`
abbrev pub line_range_key : Option (ℕ × ℕ) → List Part
line_range_key none = number 0 ∷ number 0 ∷ []
line_range_key (some (first, final)) = number first ∷ number final ∷ []

-- `_task_semantic_key`
unfoldable pub task_semantic_key : AuditTask → List Part
unfolding normalize_target_value
task_semantic_key t =
    text t.audit_id
    ∷ text (type_name t.task_type)
    ∷ text t.target.kind
    ∷ text (normalize_target_value t.target.kind t.target.value)
    ∷ text t.target.snapshot_ref
    ∷ line_range_key t.target.line_range

-- `_task_sort_key`
unfoldable pub task_sort_key : AuditTask → List Part
unfolding normalize_target_value
task_sort_key t =
    number (priority t.task_type)
      ∷ text t.created_at
      ∷ text t.target.kind
      ∷ text (normalize_target_value t.target.kind t.target.value)
      ∷ text t.target.snapshot_ref
      ∷ line_range_key t.target.line_range
    ++ text t.id ∷ []

unfoldable pub task_le : AuditTask → AuditTask → Bool
unfolding key_le task_sort_key
task_le t u = key_le (task_sort_key t) (task_sort_key u)

part_eq_iff : (p q : Part) → part_eq p q ≡ true → p ≡ q
unfolding part_eq
part_eq_iff (number a) (number b) h = ground arith
part_eq_iff (text s) (text t) h = ground (arith, eq_iff s t)
part_eq_iff (number a) (text t) h = cc
part_eq_iff (text s) (number b) h = cc

part_eq_refl : (p : Part) → part_eq p p ≡ true
unfolding part_eq
part_eq_refl (number a) = ground arith
part_eq_refl (text s) = eq_refl s

part_le_total : (p q : Part) → part_le p q ≡ false → part_le q p ≡ true
unfolding part_le
part_le_total (number a) (number b) h = ground arith
part_le_total (number a) (text t) h = cc
part_le_total (text s) (number b) h = refl
part_le_total (text s) (text t) h = text_le_total s t h

part_le_trans : (p q r : Part) → part_le p q ≡ true → part_le q r ≡ true → part_le p r ≡ true
unfolding part_le
part_le_trans (number a) (number b) (number c) h k = ground arith
part_le_trans (number a) (number b) (text c) h k = refl
part_le_trans (number a) (text b) (number c) h k = cc
part_le_trans (number a) (text b) (text c) h k = refl
part_le_trans (text a) (number b) r h k = cc
part_le_trans (text a) (text b) (number c) h k = cc
part_le_trans (text a) (text b) (text c) h k = text_le_trans a b c h k

part_le_antisym : (p q : Part) → part_le p q ≡ true → part_le q p ≡ true → part_eq p q ≡ true
unfolding part_le part_eq
part_le_antisym (number a) (number b) h k = ground arith
part_le_antisym (number a) (text t) h k = cc
part_le_antisym (text s) (number b) h k = cc
part_le_antisym (text s) (text t) h k = (eq_iff s t).1 (text_le_antisym s t h k)

key_le_total : (ps qs : List Part) → key_le ps qs ≡ false → key_le qs ps ≡ true
unfolding key_le
key_le_total [] qs h = cc
key_le_total (p ∷ ps) [] h = refl
key_le_total (p ∷ ps) (q ∷ qs) h = ground (
  arith,
  key_le_total ps qs,
  part_le_total p q,
  part_eq_iff p q,
  part_eq_iff q p,
  part_eq_refl p,
  part_eq_refl q,
)

key_le_trans :
    (ps qs rs : List Part) → key_le ps qs ≡ true → key_le qs rs ≡ true → key_le ps rs ≡ true
unfolding key_le
key_le_trans [] qs rs h k = refl
key_le_trans (p ∷ ps) [] rs h k = cc
key_le_trans (p ∷ ps) (q ∷ qs) [] h k = cc
key_le_trans (p ∷ ps) (q ∷ qs) (r ∷ rs) h k = ground (
  arith,
  key_le_trans ps qs rs,
  part_le_trans p q r,
  part_le_antisym p q,
  part_eq_iff p q,
  part_eq_iff q r,
  part_eq_iff p r,
  part_eq_refl q,
)

pub task_le_total : (t u : AuditTask) → task_le t u ≡ false → task_le u t ≡ true
unfolding task_le
task_le_total t u = key_le_total (task_sort_key t) (task_sort_key u)

pub task_le_trans :
    (t u v : AuditTask) → task_le t u ≡ true → task_le u v ≡ true → task_le t v ≡ true
unfolding task_le
task_le_trans t u v = key_le_trans (task_sort_key t) (task_sort_key u) (task_sort_key v)

key_le_refl : (ps : List Part) → key_le ps ps ≡ true
unfolding key_le
key_le_refl [] = refl
key_le_refl (p ∷ ps) = rw (part_eq_refl p) (key_le_refl ps)

pub task_le_refl : (t : AuditTask) → task_le t t ≡ true
unfolding task_le
task_le_refl t = key_le_refl (task_sort_key t)

pub key_eq_refl : (ps : List Part) → key_eq ps ps ≡ true
unfolding key_eq
key_eq_refl [] = refl
key_eq_refl (p ∷ ps) = rw (part_eq_refl p, key_eq_refl ps) refl
