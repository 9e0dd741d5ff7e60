-- ===== src/Server/Operations/Flagged.antt =====
-- The cancelled flag of an operation in the map.
use daemon.Common.{
  ◌≡◌, refl, ◌∙◌, inl, inr, Bool, true, false, some, List, [], ◌∷◌, is_some, arith, String, str_eq,
  str_eq_iff, if◌then◌else◌, Bool-cases,
}
use daemon.Server.Operations.{
  FileOperation, Manager, add_bytes_processed, set_bytes_total, add_files_processed, request_cancel,
  remove, find, update, cancel, request_all,
}
use daemon.Server.Operations.Active.{
  Change, change, bytes, total, files, context_ends, request_cancel_identifier,
}

-- An operation that is active and cancelled.
abbrev pub Flagged : String → List FileOperation → Type 0
Flagged id os = (o : FileOperation) × (find id os ≡ some o) × (o.cancelled ≡ true)

pub find-remove :
    (id j : String) (os : List FileOperation)
    → str_eq id j ≡ false
    → find id (remove j os) ≡ find id os
find-remove id j [] h = refl
find-remove id j (o ∷ os) h = elim (Bool-cases (str_eq j o.identifier)) [
  | inl same ↦ ground (
    arith,
    same,
    h,
    find-remove id j os h,
    (str_eq_iff j o.identifier).0 same,
    str_eq_iff id j,
    str_eq_iff id o.identifier,
  )
  | inr apart ↦ ground (arith, apart, find-remove id j os h)
]

-- The element of an updated list, by the answer of the test.
picked :
    (f : FileOperation → FileOperation) (x : FileOperation)
    → ((f x).identifier ≡ x.identifier)
    → (x.cancelled ≡ true → (f x).cancelled ≡ true)
    → (b : Bool)
    → ((if b then f x else x).identifier ≡ x.identifier)
      × (x.cancelled ≡ true → (if b then f x else x).cancelled ≡ true)
picked f x same keeps true = (same, keeps)
picked f x same keeps false = (refl, λ h. h)

find-head :
    (id : String) (x y : FileOperation) (os : List FileOperation)
    → str_eq id x.identifier ≡ true
    → y.identifier ≡ x.identifier
    → find id (y ∷ os) ≡ some y
find-head id x y os h e = rw (e, h)

-- A list whose head is changed keeps a flag, if its tail does.
Flagged-cons :
    (id : String) (x y : FileOperation) (os os' : List FileOperation)
    → y.identifier ≡ x.identifier
    → (x.cancelled ≡ true → y.cancelled ≡ true)
    → (Flagged id os → Flagged id os')
    → Flagged id (x ∷ os)
    → Flagged id (y ∷ os')
Flagged-cons id x y os os' e k tail (o, h, c) = elim (Bool-cases (str_eq id x.identifier)) [
  | inl same ↦ (y, find-head id x y os' same e, k (ground (arith, same, h, c)))
  | inr apart ↦
      let (o', h', c') = tail (o, ground (arith, apart, h), c) in (o', rw (e, apart) h', c')
]

pub Flagged-update :
    (f : FileOperation → FileOperation)
    → ((o : FileOperation) → (f o).identifier ≡ o.identifier)
    → ((o : FileOperation) → o.cancelled ≡ true → (f o).cancelled ≡ true)
    → (id j : String) (os : List FileOperation) → Flagged id os
    → Flagged id (update f j os)
unfolding update
Flagged-update f same keeps id j [] (o, e, c) = absurd cc
Flagged-update f same keeps id j (x ∷ os) h =
    let (e, k) = picked f x (same x) (keeps x) (str_eq j x.identifier) in
    Flagged-cons id x (if str_eq j x.identifier then f x else x) os (update f j os) e k
      (Flagged-update f same keeps id j os) h

pub Flagged-request_all :
    (id : String) (os : List FileOperation) → Flagged id os → Flagged id (request_all os)
unfolding request_all request_cancel
Flagged-request_all id [] (o, e, c) = absurd cc
Flagged-request_all id (x ∷ os) h =
    Flagged-cons id x (request_cancel x) os (request_all os) refl (λ _. refl)
      (Flagged-request_all id os) h

pub change_cancelled :
    (c : Change) (o : FileOperation) → o.cancelled ≡ true → (change c o).cancelled ≡ true
unfolding add_bytes_processed set_bytes_total add_files_processed
change_cancelled (bytes n) o h = h
change_cancelled (total n) o h = h
change_cancelled (files n) o h = h
change_cancelled context_ends o h = h

request_cancel_cancelled :
    (o : FileOperation) → o.cancelled ≡ true → (request_cancel o).cancelled ≡ true
unfolding request_cancel
request_cancel_cancelled o h = refl

pub Flagged-cancel :
    (id j : String) (m : Manager) → Flagged id m.operations → Flagged id (cancel m j).0.operations
unfolding cancel
Flagged-cancel id j m h = elim (Bool-cases (is_some (find j m.operations))) [
  | inl found ↦ rw found (
      Flagged-update request_cancel request_cancel_identifier request_cancel_cancelled id j
        m.operations h)
  | inr missing ↦ rw missing h
]

pub Flagged-start :
    (id j : String) (o : FileOperation) (os : List FileOperation)
    → o.identifier ≡ j
    → str_eq id j ≡ false
    → Flagged id os
    → Flagged id (o ∷ remove j os)
Flagged-start id j o os e apart (x, h, c) = (x, rw (e, apart) (find-remove id j os apart ∙ h), c)

Flagged-update_own :
    (id : String) (os : List FileOperation)
    → is_some (find id os) ≡ true
    → Flagged id (update request_cancel id os)
unfolding update
Flagged-update_own id [] h = absurd cc
Flagged-update_own id (x ∷ os) h = elim (Bool-cases (str_eq id x.identifier)) [
  | inl same ↦ rw same (
    request_cancel x,
    find-head id x (request_cancel x) (update request_cancel id os) same
        (request_cancel_identifier x),
    unfold request_cancel in refl,
  )
  | inr apart ↦
      let (o, e, c) = Flagged-update_own id os (ground (arith, apart, h)) in
      rw apart (o, rw apart e, c)
]

pub cancel_flags :
    (m : Manager) (id : String) → (cancel m id).1 ≡ true → Flagged id (cancel m id).0.operations
unfolding cancel
cancel_flags m id h = elim (Bool-cases (is_some (find id m.operations))) [
  | inl found ↦ rw found (Flagged-update_own id m.operations found)
  | inr missing ↦ absurd (ground arith)
]
