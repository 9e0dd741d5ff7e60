-- ===== src/Server/Operations.antt =====
-- server/file_operations.go: the file operations of a server that are active. The map by identifier
-- is a list; what runs under `mu` is one step, and so is each atomic counter. `done` says that the
-- context of the operation has ended. Times are numbers.
pub mod Active
pub mod Lifecycle
mod Flagged
pub mod Cancelled
use daemon.Common.{
  ℕ, ◌+◌, ◌%◌, ◌^◌, Bool, true, false, ◌||◌, not, Option, none, some, List, [], ◌∷◌, keep, find?,
  length, is_some, String, str_eq, leb, if◌then◌else◌, Result, ok, err,
}

abbrev pub max_file_operations : ℕ
max_file_operations = 64

pub data OperationError : Type 0 where
  operation_limit operation_canceled : OperationError

pub record FileOperation : Type 0 where
  pub identifier : String
  pub typ : String
  pub server_uuid : String
  pub start_time : ℕ
  pub bytes_processed : ℕ
  pub bytes_total : ℕ
  pub files_processed : ℕ
  pub cancelled : Bool
  pub done : Bool

unfoldable pub add_bytes_processed : ℕ → FileOperation → FileOperation
add_bytes_processed value o = record o { bytes_processed = (o.bytes_processed + value) % 2 ^ 64 }

unfoldable pub set_bytes_total : ℕ → FileOperation → FileOperation
set_bytes_total value o = record o { bytes_total = value }

unfoldable pub add_files_processed : ℕ → FileOperation → FileOperation
add_files_processed value o = record o { files_processed = (o.files_processed + value) % 2 ^ 64 }

-- What `Cancel` does to one operation: the flag, and the end of its context.
unfoldable pub request_cancel : FileOperation → FileOperation
request_cancel o = record o { cancelled = true; done = true }

-- `FileOperationManager`, of the server with this id.
pub record Manager : Type 0 where
  pub server : String
  pub operations : List FileOperation

unfoldable pub new_manager : String → Manager
new_manager server = record { server = server; operations = [] }

-- `delete(m.operations, identifier)`
abbrev pub remove : String → List FileOperation → List FileOperation
remove id = keep (λ o. not (str_eq id o.identifier))

-- The new operation of `Start`, under the identifier that `uuid` gave.
abbrev pub new_operation : String → String → String → ℕ → FileOperation
new_operation server id typ now = record {
  identifier = id;
  typ = typ;
  server_uuid = server;
  start_time = now;
  bytes_processed = 0;
  bytes_total = 0;
  files_processed = 0;
  cancelled = false;
  done = false;
}

unfoldable pub start : Manager → String → String → ℕ → Manager × Result OperationError FileOperation
start m id typ now =
    if leb max_file_operations (length m.operations) then (m, err operation_limit) else (
      record m { operations = new_operation m.server id typ now ∷ remove id m.operations },
      ok (new_operation m.server id typ now),
    )

abbrev pub find : String → List FileOperation → Option FileOperation
find id = find? (λ o. str_eq id o.identifier)

-- What the result channel receives: nil, the error of the work, or that it was cancelled.
pub data Outcome (E : Type 0) : Type 0 where
  completed canceled : Outcome E
  failed : E → Outcome E

-- The end of the goroutine of `Start` under `mu`, once the work has returned: whether the operation
-- was cancelled. It is the operation of the map, as its identifier is its own.
unfoldable pub finish : Manager → FileOperation → Manager × Bool
finish m o = (record m { operations = remove o.identifier m.operations }, o.cancelled || o.done)

-- What the goroutine sends behind `mu`, by what `finish` read and the error of the work.
unfoldable pub outcome : {E : Type 0} → Bool → Option E → Outcome E
outcome cancelled e =
    if cancelled then canceled else elim e [ none ↦ completed | some x ↦ failed x ]

-- A change of the operation under an identifier.
unfoldable pub update :
    (FileOperation → FileOperation) → String → List FileOperation → List FileOperation
update f id [] = []
update f id (o ∷ os) = (if str_eq id o.identifier then f o else o) ∷ update f id os

unfoldable pub cancel : Manager → String → Manager × Bool
unfolding update
cancel m id =
    if is_some (find id m.operations)
    then (record m { operations = update request_cancel id m.operations }, true)
    else (m, false)

unfoldable pub request_all : List FileOperation → List FileOperation
request_all [] = []
request_all (o ∷ os) = request_cancel o ∷ request_all os

unfoldable pub cancel_all : Manager → Manager
unfolding request_all
cancel_all m = record m { operations = request_all m.operations }

unfoldable pub has : Manager → String → Bool
has m id = is_some (find id m.operations)

unfoldable pub count : Manager → ℕ
count m = length m.operations
