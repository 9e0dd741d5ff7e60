-- ===== src/Server/Operations/Active.antt =====
-- How many of the active operations have an identifier, through what changes them.
use daemon.Common.{
  ℕ, ◌+◌, ◌≤◌, ◌≡◌, refl, sym, ap, ◌∙◌, inl, inr, true, false, some, List, [], ◌∷◌, length, arith,
  String, str_eq, str_eq_iff, if◌then◌else◌, ok, Bool-cases,
}
use daemon.Server.Operations.{
  FileOperation, Manager, add_bytes_processed, set_bytes_total, add_files_processed, request_cancel,
  remove, find, new_operation, start, update, cancel, request_all,
}

-- What the work and the contexts around it do to an operation.
pub data Change : Type 0 where
  bytes total files : ℕ → Change
  context_ends : Change

abbrev pub change : Change → FileOperation → FileOperation
change (bytes n) o = add_bytes_processed n o
change (total n) o = set_bytes_total n o
change (files n) o = add_files_processed n o
change context_ends o = record o { done = true }

-- How often an identifier is active.
abbrev pub active_of : String → List FileOperation → ℕ
active_of id [] = 0
active_of id (o ∷ os) = (if str_eq id o.identifier then 1 else 0) + active_of id os

-- Equal identifiers answer every test alike, and different ones never both pass one.
same_test : (id j x : String) → str_eq j x ≡ true → str_eq id x ≡ str_eq id j
same_test id j x h = ap (str_eq id) (sym ((str_eq_iff j x).0 h))

pub other_test : (id j x : String) → str_eq j x ≡ false → str_eq id j ≡ true → str_eq id x ≡ false
other_test id j x h e = elim (Bool-cases (str_eq id x)) [
  | inl both ↦
      absurd (cc ((str_eq_iff j x).1 (sym ((str_eq_iff id j).0 e) ∙ (str_eq_iff id x).0 both)))
  | inr differs ↦ differs
]

pub active_of-remove :
    (id j : String) (os : List FileOperation)
    → active_of id (remove j os) ≡ (if str_eq id j then 0 else active_of id os)
active_of-remove id j [] = ground arith
active_of-remove id j (o ∷ os) = elim (Bool-cases (str_eq j o.identifier)) [
  | inl same ↦ ground (arith, same, same_test id j o.identifier same, active_of-remove id j os)
  | inr apart ↦ elim (Bool-cases (str_eq id j)) [
    | inl wanted ↦
        ground (arith, apart, other_test id j o.identifier apart wanted, active_of-remove id j os)
    | inr unwanted ↦ ground (arith, apart, unwanted, active_of-remove id j os)
  ]
]

pub length-remove : (j : String) (os : List FileOperation) → length (remove j os) ≤ length os
length-remove j [] = omega arith
length-remove j (o ∷ os) = ground (arith, length-remove j os)

pub change_identifier : (c : Change) (o : FileOperation) → (change c o).identifier ≡ o.identifier
unfolding add_bytes_processed set_bytes_total add_files_processed
change_identifier (bytes n) o = refl
change_identifier (total n) o = refl
change_identifier (files n) o = refl
change_identifier context_ends o = refl

pub active_of-update :
    (f : FileOperation → FileOperation)
    → ((o : FileOperation) → (f o).identifier ≡ o.identifier)
    → (id j : String) (os : List FileOperation) → active_of id (update f j os) ≡ active_of id os
unfolding update
active_of-update f same id j [] = refl
active_of-update f same id j (o ∷ os) = ground (arith, same o, active_of-update f same id j os)

pub length-update :
    (f : FileOperation → FileOperation) (j : String) (os : List FileOperation)
    → length (update f j os) ≡ length os
unfolding update
length-update f j [] = refl
length-update f j (o ∷ os) = omega (arith, length-update f j os)

pub active_of-request_all :
    (id : String) (os : List FileOperation) → active_of id (request_all os) ≡ active_of id os
unfolding request_all request_cancel
active_of-request_all id [] = refl
active_of-request_all id (o ∷ os) = omega (arith, active_of-request_all id os)

pub length-request_all : (os : List FileOperation) → length (request_all os) ≡ length os
unfolding request_all
length-request_all [] = refl
length-request_all (o ∷ os) = omega (arith, length-request_all os)

pub find_identifier :
    (id : String) (os : List FileOperation) (o : FileOperation)
    → find id os ≡ some o
    → id ≡ o.identifier
find_identifier id [] o h = cc
find_identifier id (x ∷ os) o h = elim (Bool-cases (str_eq id x.identifier)) [
  | inl same ↦ ground (arith, same, (str_eq_iff id x.identifier).0 same)
  | inr apart ↦ find_identifier id os o (ground (arith, apart, h))
]

-- A found operation is active, and a removal takes one from an active identifier.
pub active_of-find :
    (id : String) (os : List FileOperation) (o : FileOperation)
    → find id os ≡ some o
    → 1 ≤ active_of id os
active_of-find id [] o h = cc
active_of-find id (x ∷ os) o h = elim (Bool-cases (str_eq id x.identifier)) [
  | inl same ↦ ground arith
  | inr apart ↦ ground (arith, active_of-find id os o (ground (arith, apart, h)))
]

pub length-cancel :
    (m : Manager) (id : String) → length (cancel m id).0.operations ≡ length m.operations
unfolding cancel
length-cancel m id = ground (arith, length-update request_cancel id m.operations)

pub request_cancel_identifier : (o : FileOperation) → (request_cancel o).identifier ≡ o.identifier
unfolding request_cancel
request_cancel_identifier o = refl

pub active_of-cancel :
    (id j : String) (m : Manager)
    → active_of id (cancel m j).0.operations ≡ active_of id m.operations
unfolding cancel
active_of-cancel id j m =
    ground (arith, active_of-update request_cancel request_cancel_identifier id j m.operations)

pub start_steps :
    (m : Manager) (id typ : String) (now : ℕ) (m' : Manager) (o : FileOperation)
    → start m id typ now ≡ (m', ok o)
    → (length m.operations ≤ 63)
      × (m'.operations ≡ new_operation m.server id typ now ∷ remove id m.operations)
unfolding start
start_steps m id typ now m' o h = ground arith
