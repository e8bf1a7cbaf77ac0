-- ===== src/Tasks/Lookup.antt =====
-- Looking a task up by its id, behind a store and a sort.
use mathlib.Core.List.{Memᴰ}
use mathlib.Core.Path.{subst}
use deterministic_audit_runt.Prelude.Order.{text_le_refl}
use deterministic_audit_runt.Prelude.{
  some_inj, ◌≡◌, refl, true, some, none, String, arith, eq_refl, eq_iff, List, [], ◌∷◌, All,
  Bool-cases, inl, inr, sym, ◌∙◌, if◌then◌else◌, ◌==◌,
}
use deterministic_audit_runt.Prelude.Sort.{sort, insert}
use deterministic_audit_runt.Tasks.Types.{AuditTask}
use deterministic_audit_runt.Tasks.Queue.{find_task, store_task, id_le}
use mathlib.Core.Path.{subst}

-- A dict has one entry for an id.
unfoldable pub IsDistinct : List AuditTask → Type 0
IsDistinct [] = Unit
IsDistinct (t ∷ ts) = (find_task t.id ts ≡ none) × IsDistinct ts

pub find_task-store_task :
    (j : String) (u : AuditTask) (ts : List AuditTask)
    → find_task j (store_task u ts) ≡ (if u.id == j then some u else find_task j ts)
unfolding find_task store_task
find_task-store_task j u [] = refl
find_task-store_task j u (t ∷ ts) =
    ground (arith, eq_iff t.id u.id, eq_iff t.id j, eq_iff u.id j, find_task-store_task j u ts)

id_le_eq : (t u : AuditTask) → (t.id == u.id) ≡ true → id_le t u ≡ true
unfolding id_le
id_le_eq t u h = rw ((eq_iff t.id u.id).0 h) (text_le_refl u.id)

find_task-insert :
    (j : String) (u : AuditTask) (ts : List AuditTask)
    → find_task j (insert id_le u ts) ≡ (if u.id == j then some u else find_task j ts)
unfolding find_task insert
find_task-insert j u [] = refl
find_task-insert j u (t ∷ ts) =
    ground
      (arith, id_le_eq u t, eq_iff u.id t.id, eq_iff t.id j, eq_iff u.id j, find_task-insert j u ts)

pub find_task-sort :
    (j : String) (ts : List AuditTask) → find_task j (sort id_le ts) ≡ find_task j ts
unfolding find_task sort
find_task-sort j [] = refl
find_task-sort j (t ∷ ts) = rw (find_task-insert j t (sort id_le ts), find_task-sort j ts) refl

pub store_task-IsDistinct :
    (u : AuditTask) (ts : List AuditTask) → IsDistinct ts → IsDistinct (store_task u ts)
unfolding store_task find_task IsDistinct
store_task-IsDistinct u [] h = (refl, tt)
store_task-IsDistinct u (t ∷ ts) (h, hs) = elim (Bool-cases (t.id == u.id)) [
  | inl q ↦ rw q (rw (sym ((eq_iff t.id u.id).0 q)) h, hs)
  | inr q ↦ rw q (
    ground (arith, find_task-store_task t.id u ts, eq_iff t.id u.id, eq_iff u.id t.id),
    store_task-IsDistinct u ts hs,
  )
]

insert-IsDistinct :
    (u : AuditTask) (ts : List AuditTask)
    → find_task u.id ts ≡ none
    → IsDistinct ts
    → IsDistinct (insert id_le u ts)
unfolding insert find_task IsDistinct
insert-IsDistinct u [] k h = (refl, tt)
insert-IsDistinct u (t ∷ ts) k (h, hs) = elim (Bool-cases (id_le u t)) [
  | inl q ↦ rw q (k, (h, hs))
  | inr q ↦ rw q (
    ground (arith, find_task-insert t.id u ts, eq_iff t.id u.id, eq_iff u.id t.id),
    insert-IsDistinct u ts (ground arith) hs,
  )
]

pub sort-IsDistinct : (ts : List AuditTask) → IsDistinct ts → IsDistinct (sort id_le ts)
unfolding sort IsDistinct
sort-IsDistinct [] h = tt
sort-IsDistinct (t ∷ ts) (h, hs) =
    insert-IsDistinct t (sort id_le ts) (find_task-sort t.id ts ∙ h) (sort-IsDistinct ts hs)

pub store_task-All :
    (P : AuditTask → Type 0) (u : AuditTask) (ts : List AuditTask)
    → P u
    → All P ts
    → All P (store_task u ts)
unfolding store_task
store_task-All P u [] h k = (h, tt)
store_task-All P u (t ∷ ts) h (k, ks) = elim (Bool-cases (t.id == u.id)) [
  | inl q ↦ rw q (h, ks)
  | inr q ↦ rw q (k, store_task-All P u ts h ks)
]

pub find_task-found :
    (P : AuditTask → Type 0) (j : String) (ts : List AuditTask) {t : AuditTask}
    → All P ts
    → find_task j ts ≡ some t
    → (t.id ≡ j) × P t
unfolding find_task
find_task-found P j [] h e = cc
find_task-found P j (u ∷ us) (h, hs) e = elim (Bool-cases (u.id == j)) [
  | inl q ↦
      let found = some_inj (rw q at e) in
      (subst (λ v. v.id ≡ j) found ((eq_iff u.id j).0 q), subst P found h)
  | inr q ↦ find_task-found P j us hs (rw q at e)
]

pub find_task-Memᴰ :
    (t : AuditTask) (ts : List AuditTask) → IsDistinct ts → Memᴰ t ts → find_task t.id ts ≡ some t
unfolding find_task IsDistinct
find_task-Memᴰ t [] h m = elim m [ ]
find_task-Memᴰ t (u ∷ us) h (Memᴰ.head e) = rw (sym e, eq_refl t.id) refl
find_task-Memᴰ t (u ∷ us) (h, hs) (Memᴰ.tail m) =
    ground (arith, find_task-Memᴰ t us hs m, eq_iff u.id t.id, h)
