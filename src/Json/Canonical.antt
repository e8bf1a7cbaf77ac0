-- ===== src/Json/Canonical.antt =====
-- `json.dumps(value, sort_keys=True, ensure_ascii=True, separators=(",", ":"))` as the value whose
-- keys are sorted at every depth: the text that Python writes determines that value and is
-- determined by it, so two texts are equal exactly when the canonical values are.
use mathlib.Core.Option
use deterministic_audit_runt.Prelude.{
  String, ◌≡◌, refl, ap, Bool, true, false, ◌&&◌, &&-eq-true, some, text_le_total, ◌==◌, text_le,
  if◌then◌else◌, arith, eq_iff, eq_refl, bool_eq, ◌↔◌, Bool-cases, inl, inr,
}
use deterministic_audit_runt.Prelude.Int.{int_eq}
use deterministic_audit_runt.Json.{
  Json, null, bool, int, float, str, arr, obj, Items, nil, cons, item, ok,
}
use deterministic_audit_runt.Json.{Fields, end, field, lookup}
use deterministic_audit_runt.Errors.{ok}

unfoldable pub insert_field : String → Json → Fields → Fields
unfolding text_le
insert_field k v end = field k v end
insert_field k v (field j w fs) =
    if text_le k j then field k v (field j w fs) else field j w (insert_field k v fs)

unfoldable mutual
  unfolding insert_field

  pub canonical : Json → Json
  canonical (arr xs) = arr (canonical_items xs)
  canonical (obj fs) = obj (canonical_fields fs)
  canonical (str s) = str s
  canonical v = v

  pub canonical_items : Items → Items
  canonical_items nil = nil
  canonical_items (cons v vs) = cons (canonical v) (canonical_items vs)

  pub canonical_fields : Fields → Fields
  canonical_fields end = end
  canonical_fields (field k v fs) = insert_field k (canonical v) (canonical_fields fs)

-- Equality of the values, key order included: the equality of two canonical texts.
unfoldable mutual
  pub same : Json → Json → Bool
  same null null = true
  same (bool a) (bool b) = bool_eq a b
  same (int a) (int b) = int_eq a b
  same (float a) (float b) = a == b
  same (str a) (str b) = a == b
  same (arr xs) (arr ys) = same_items xs ys
  same (obj fs) (obj gs) = same_fields fs gs
  same _ _ = false

  pub same_items : Items → Items → Bool
  same_items nil nil = true
  same_items (cons v vs) (cons w ws) = same v w && same_items vs ws
  same_items _ _ = false

  pub same_fields : Fields → Fields → Bool
  same_fields end end = true
  same_fields (field k v fs) (field j w gs) = k == j && (same v w && same_fields fs gs)
  same_fields _ _ = false

mutual
  unfolding same

  same→eq : (a b : Json) → same a b ≡ true → a ≡ b
  same→eq null null h = refl
  same→eq (bool a) (bool b) h = ground arith
  same→eq (int a) (int b) h = ground arith
  same→eq (float a) (float b) h = ground (arith, eq_iff a b)
  same→eq (str a) (str b) h = ground (arith, eq_iff a b)
  same→eq (arr xs) (arr ys) h = ap arr (same_items→eq xs ys h)
  same→eq (obj fs) (obj gs) h = ap obj (same_fields→eq fs gs h)
  same→eq _ _ h = cc

  same_items→eq : (xs ys : Items) → same_items xs ys ≡ true → xs ≡ ys
  same_items→eq nil nil h = refl
  same_items→eq (cons v vs) (cons w ws) h =
      let (heads, tails) = &&-eq-true (same v w) (same_items vs ws) h in
      cc (same→eq v w heads, same_items→eq vs ws tails)
  same_items→eq _ _ h = cc

  same_fields→eq : (fs gs : Fields) → same_fields fs gs ≡ true → fs ≡ gs
  same_fields→eq end end h = refl
  same_fields→eq (field k v fs) (field j w gs) h =
      let (keys, rest) = &&-eq-true (k == j) (same v w && same_fields fs gs) h in
      let (values, tails) = &&-eq-true (same v w) (same_fields fs gs) rest in
      cc ((eq_iff k j).0 keys, same→eq v w values, same_fields→eq fs gs tails)
  same_fields→eq _ _ h = cc

mutual
  unfolding same

  same_refl_lem : (a : Json) → same a a ≡ true
  same_refl_lem null = refl
  same_refl_lem (bool a) = ground arith
  same_refl_lem (int a) = ground arith
  same_refl_lem (float a) = eq_refl a
  same_refl_lem (str a) = eq_refl a
  same_refl_lem (arr xs) = same_items_refl xs
  same_refl_lem (obj fs) = same_fields_refl fs

  same_items_refl : (xs : Items) → same_items xs xs ≡ true
  same_items_refl nil = refl
  same_items_refl (cons v vs) = ground (arith, same_refl_lem v, same_items_refl vs)

  same_fields_refl : (fs : Fields) → same_fields fs fs ≡ true
  same_fields_refl end = refl
  same_fields_refl (field k v fs) = ground (arith, eq_refl k, same_refl_lem v, same_fields_refl fs)

pub same_refl : (a : Json) → same a a ≡ true
same_refl a = same_refl_lem a

pub same_iff : (a b : Json) → (same a b ≡ true) ↔ (a ≡ b)
same_iff a b = (same→eq a b, λ e. rw e (same_refl b))

lookup-insert_field :
    (k j : String) (v : Json) (fs : Fields)
    → lookup j (insert_field k v fs) ≡ (if k == j then some v else lookup j fs)
unfolding lookup insert_field
lookup-insert_field k j v end = refl
lookup-insert_field k j v (field i w fs) =
    ground (arith, eq_iff k j, eq_iff i j, lookup-insert_field k j v fs)

-- Canonical form changes values only below the keys: a look-up commutes with it.
pub lookup-canonical :
    (k : String) (fs : Fields) → lookup k (canonical_fields fs) ≡ Option.map canonical (lookup k fs)
unfolding lookup canonical
lookup-canonical k end = refl
lookup-canonical k (field j v fs) =
    ground
      (arith, lookup-insert_field j k (canonical v) (canonical_fields fs), lookup-canonical k fs)

-- Each key is at most the key after it.
abbrev IsSortedFrom : String → Fields → Type 0
IsSortedFrom k end = Unit
IsSortedFrom k (field j v fs) = (text_le k j ≡ true) × IsSortedFrom j fs

abbrev IsSorted : Fields → Type 0
IsSorted end = Unit
IsSorted (field k v fs) = IsSortedFrom k fs

insert_field-IsSortedFrom :
    (i k : String) (v : Json) (fs : Fields)
    → text_le i k ≡ true
    → IsSortedFrom i fs
    → IsSortedFrom i (insert_field k v fs)
unfolding insert_field
insert_field-IsSortedFrom i k v end h s = (h, tt)
insert_field-IsSortedFrom i k v (field j w fs) h s = elim (Bool-cases (text_le k j)) [
  | inl e ↦ rw e (h, (e, s.1))
  | inr e ↦ rw e (s.0, insert_field-IsSortedFrom j k v fs (text_le_total k j e) s.1)
]

insert_field-IsSorted :
    (k : String) (v : Json) (fs : Fields) → IsSorted fs → IsSorted (insert_field k v fs)
unfolding insert_field
insert_field-IsSorted k v end s = tt
insert_field-IsSorted k v (field j w fs) s = elim (Bool-cases (text_le k j)) [
  | inl e ↦ rw e (e, s)
  | inr e ↦ rw e (insert_field-IsSortedFrom j k v fs (text_le_total k j e) s)
]

canonical_fields-IsSorted : (fs : Fields) → IsSorted (canonical_fields fs)
unfolding canonical
canonical_fields-IsSorted end = tt
canonical_fields-IsSorted (field k v fs) =
    insert_field-IsSorted k (canonical v) (canonical_fields fs) (canonical_fields-IsSorted fs)

-- A field that is at most the first key stays in front.
insert_field-IsSorted_front :
    (k : String) (v : Json) (fs : Fields) → IsSortedFrom k fs → insert_field k v fs ≡ field k v fs
unfolding insert_field
insert_field-IsSorted_front k v end s = refl
insert_field-IsSorted_front k v (field j w fs) s = rw s.0

IsSorted-tail : (k : String) (fs : Fields) → IsSortedFrom k fs → IsSorted fs
IsSorted-tail k end s = tt
IsSorted-tail k (field j w fs) s = s.1

-- Whether the values of the fields are canonical.
abbrev AllCanonical : Fields → Type 0
AllCanonical end = Unit
AllCanonical (field k v fs) = (canonical v ≡ v) × AllCanonical fs

insert_field-AllCanonical :
    (k : String) (v : Json) (fs : Fields)
    → canonical v ≡ v
    → AllCanonical fs
    → AllCanonical (insert_field k v fs)
unfolding insert_field
insert_field-AllCanonical k v end h hs = (h, tt)
insert_field-AllCanonical k v (field j w fs) h hs = elim (Bool-cases (text_le k j)) [
  | inl e ↦ rw e (h, hs)
  | inr e ↦ rw e (hs.0, insert_field-AllCanonical k v fs h hs.1)
]

canonical_fields-fixed : (fs : Fields) → IsSorted fs → AllCanonical fs → canonical_fields fs ≡ fs
unfolding canonical
canonical_fields-fixed end s h = refl
canonical_fields-fixed (field k v fs) s h =
    rw (h.0, canonical_fields-fixed fs (IsSorted-tail k fs s) h.1)
      (insert_field-IsSorted_front k v fs s)

mutual
  unfolding canonical

  canonical_idem_lem : (v : Json) → canonical (canonical v) ≡ canonical v
  canonical_idem_lem (arr xs) = ap arr (canonical_items_idem xs)
  canonical_idem_lem (obj fs) = ap obj (
      canonical_fields-fixed (canonical_fields fs) (canonical_fields-IsSorted fs)
        (canonical_fields-AllCanonical fs))
  canonical_idem_lem (str s) = refl
  canonical_idem_lem _ = refl

  canonical_items_idem : (xs : Items) → canonical_items (canonical_items xs) ≡ canonical_items xs
  canonical_items_idem nil = refl
  canonical_items_idem (cons v vs) = cc (canonical_idem_lem v, canonical_items_idem vs)

  canonical_fields-AllCanonical : (fs : Fields) → AllCanonical (canonical_fields fs)
  canonical_fields-AllCanonical end = tt
  canonical_fields-AllCanonical (field k v fs) =
      insert_field-AllCanonical k (canonical v) (canonical_fields fs) (canonical_idem_lem v)
        (canonical_fields-AllCanonical fs)

pub canonical_idem : (v : Json) → canonical (canonical v) ≡ canonical v
canonical_idem v = canonical_idem_lem v

-- Python's `==` of two JSON values: the order of a dict's keys does not count.
unfoldable pub equals : Json → Json → Bool
unfolding same canonical
equals a b = same (canonical a) (canonical b)

pub equals_refl : (a : Json) → equals a a ≡ true
unfolding equals
equals_refl a = same_refl (canonical a)

pub equals-canonical : (a b : Json) → equals (canonical a) b ≡ equals a b
unfolding equals
equals-canonical a b = rw canonical_idem

pub equals-str : (s t : String) → equals (str s) (str t) ≡ (s == t)
unfolding equals
equals-str s t = refl

pub item-canonical :
    (k : String) (v : Json) {w : Json} → item k v ≡ ok w → item k (canonical v) ≡ ok (canonical w)
unfolding item canonical
item-canonical k (obj fs) h = ground (arith, lookup-canonical k fs)
item-canonical k (arr xs) h = cc
item-canonical k (str s) h = cc
item-canonical k _ h = cc

pub canonical-str : (s : String) → canonical (str s) ≡ str s
unfolding canonical
canonical-str s = refl

pub equals-str_inv : (v : Json) (s : String) → equals v (str s) ≡ true → v ≡ str s
unfolding equals
equals-str_inv (str t) s h = ap str ((eq_iff t s).0 h)
equals-str_inv _ s h = cc
