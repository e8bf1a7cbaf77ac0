-- ===== src/Tasks/Enqueued.antt =====
-- enqueue_many: nothing is lost or replaced, and each task is there afterwards.
use mathlib.Core.Path.{subst}
use deterministic_audit_runt.Prelude.{
  ◌≡◌, refl, true, some, none, String, Option, List, [], ◌∷◌, All, ap, sym, ◌∙◌, length, suc, inl,
  inr, arith, eq_iff, eq_refl, ◌⊎◌,
}
use deterministic_audit_runt.Errors.{ok, >>=-eq-ok, ok_inj}
use deterministic_audit_runt.Tasks.Types.{AuditTask, queue_check}
use deterministic_audit_runt.Tasks.Keys.{key_eq_refl, key_eq, task_semantic_key}
use deterministic_audit_runt.Tasks.Lookup.{find_task-store_task, store_task-All}
use deterministic_audit_runt.Tasks.Moved.{queue_check-ok}
use deterministic_audit_runt.Tasks.Queue.{
  find_task, store_task, EnqueueResult, enqueued, duplicate, enqueue_one, enqueue_loop,
  EnqueueOutcome, enqueue_found,
}

-- The task under `t.id` is one of the same meaning.
unfoldable pub IsPresent : List AuditTask → AuditTask → Type 0
IsPresent stored t =
    (u : AuditTask) × (find_task t.id stored ≡ some u)
    × (key_eq (task_semantic_key u) (task_semantic_key t) ≡ true)

-- `stored` holds what `before` held.
abbrev pub Extends : List AuditTask → List AuditTask → Type 0
Extends before stored =
    (j : String) (u : AuditTask) → find_task j before ≡ some u → find_task j stored ≡ some u

abbrev pub OutcomeIs : EnqueueOutcome → EnqueueResult → Type 0
OutcomeIs o r = r.outcome ≡ o

-- One turn: the task was not there and was added, or a task of the same meaning was there and
-- nothing changed.
unfoldable pub OneAnswer : AuditTask → List AuditTask → EnqueueResult → List AuditTask → Type 0
OneAnswer t stored r grown =
    (find_task t.id stored ≡ none)
      × (r ≡ record { outcome = enqueued; task = t })
      × (grown ≡ store_task t stored)
    ⊎ (u : AuditTask) × (find_task t.id stored ≡ some u)
      × (key_eq (task_semantic_key u) (task_semantic_key t) ≡ true)
      × (r ≡ record { outcome = duplicate; task = u })
      × (grown ≡ stored)

pub found-Answer :
    (t : AuditTask) (stored : List AuditTask) (r : EnqueueResult) (grown : List AuditTask)
    (found : Option AuditTask)
    → find_task t.id stored ≡ found
    → enqueue_found t stored found ≡ ok (r, grown)
    → OneAnswer t stored r grown
unfolding enqueue_found OneAnswer
found-Answer t stored r grown none absent h =
    let answer = ok_inj h in inl (absent, sym (ap (λ p. p.0) answer), sym (ap (λ p. p.1) answer))
found-Answer t stored r grown (some u) present h =
    let (_, same_key, built) =
      >>=-eq-ok (queue_check (key_eq (task_semantic_key u) (task_semantic_key t))) _ h in
    let answer = ok_inj built in
    inr (
      u,
      present,
      queue_check-ok _ same_key,
      sym (ap (λ p. p.0) answer),
      sym (ap (λ p. p.1) answer),
    )

pub enqueue_one-Answer :
    (t : AuditTask) (stored : List AuditTask) (r : EnqueueResult) (grown : List AuditTask)
    → enqueue_one t stored ≡ ok (r, grown)
    → OneAnswer t stored r grown
unfolding enqueue_one
enqueue_one-Answer t stored r grown h = found-Answer t stored r grown (find_task t.id stored) refl h

one-Extends :
    (t : AuditTask) (stored : List AuditTask) (r : EnqueueResult) (grown : List AuditTask)
    → OneAnswer t stored r grown
    → Extends stored grown
unfolding OneAnswer
one-Extends t stored r grown (inl (absent, _, e)) j u h =
    rw e (ground (arith, find_task-store_task j t stored, eq_iff t.id j))
one-Extends t stored r grown (inr (_, _, _, _, e)) j u h = rw e h

one-IsPresent :
    (t : AuditTask) (stored : List AuditTask) (r : EnqueueResult) (grown : List AuditTask)
    → OneAnswer t stored r grown
    → IsPresent grown t
unfolding OneAnswer IsPresent
one-IsPresent t stored r grown (inl (absent, _, e)) = (
  t,
  rw e (find_task-store_task t.id t stored ∙ rw (eq_refl t.id) refl),
  key_eq_refl (task_semantic_key t),
)
one-IsPresent t stored r grown (inr (u, present, k, _, e)) = (u, rw e present, k)

one-inherits :
    (P : AuditTask → Type 0) (t : AuditTask) (stored : List AuditTask) (r : EnqueueResult)
    (grown : List AuditTask)
    → OneAnswer t stored r grown
    → P t
    → All P stored
    → All P grown
unfolding OneAnswer
one-inherits P t stored r grown (inl (_, _, e)) new old = rw e (store_task-All P t stored new old)
one-inherits P t stored r grown (inr (_, _, _, _, e)) new old = rw e old

IsPresent-later :
    (before stored : List AuditTask) (t : AuditTask)
    → Extends before stored
    → IsPresent before t
    → IsPresent stored t
unfolding IsPresent
IsPresent-later before stored t more (u, e, k) = (u, more t.id u e, k)

pub record LoopAnswer (ts before : List AuditTask) (rs : List EnqueueResult)
    (stored : List AuditTask) : Type 1 where
  pub kept : Extends before stored
  pub present : All (IsPresent stored) ts
  pub counted : length rs ≡ length ts
  pub inherited : (P : AuditTask → Type 0) → All P before → All P ts → All P stored

pub enqueue_loop-Answer :
    (ts before : List AuditTask) (rs : List EnqueueResult) (stored : List AuditTask)
    → enqueue_loop ts before ≡ ok (rs, stored)
    → LoopAnswer ts before rs stored
unfolding enqueue_loop
enqueue_loop-Answer [] before rs stored h =
    let answer = ok_inj h in
    record {
      kept = λ j u e. subst (λ s. find_task j s ≡ some u) (ap (λ p. p.1) answer) e;
      present = tt;
      counted = ap (λ p. length p.0) (sym answer);
      inherited = λ P h k. subst (All P) (ap (λ p. p.1) answer) h;
    }
enqueue_loop-Answer (t ∷ ts) before rs stored h =
    let ((r, grown), e1, h1) = >>=-eq-ok (enqueue_one t before) _ h in
    let ((later, final), e2, h2) = >>=-eq-ok (enqueue_loop ts grown) _ h1 in
    let answer = ok_inj h2 in
    let one = enqueue_one-Answer t before r grown e1 in
    let rest = enqueue_loop-Answer ts grown later stored (e2 ∙ ap (λ p. ok (later, p.1)) answer) in
    record {
      kept = λ j u e. rest.kept j u (one-Extends t before r grown one j u e);
      present = (
        IsPresent-later grown stored t rest.kept (one-IsPresent t before r grown one),
        rest.present,
      );
      counted = sym (ap (λ p. length p.0) answer) ∙ ap suc rest.counted;
      inherited = λ P h k. rest.inherited P (one-inherits P t before r grown one k.0 h) k.1;
    }
