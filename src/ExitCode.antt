-- ===== src/ExitCode.antt =====
-- internal/exitcode/exitcode.go and internal/exitcode/signal.go. A Go error stands as what errors.As,
-- errors.Is and errors.Unwrap see of it: a node, and the errors that it unwraps to.
pub mod Codes
use flowctl.Prelude.{
  ℕ, String, Bool, true, false, ◌||◌, Option, none, some, str_eq, if◌then◌else◌, is_some,
}
use flowctl.Prelude.Int.{ℤ, pos}

-- The gRPC status codes that the code tells apart; `other` is any other one.
pub data GrpcCode : Type 0 where
  ok not_found unauthenticated permission_denied already_exists failed_precondition aborted :
      GrpcCode
  deadline_exceeded unavailable invalid_argument out_of_range data_loss other : GrpcCode

pub data Signal : Type 0 where
  interrupt terminate other_signal : Signal

-- One error of a chain: an Error with its code, a SignalError, an error with a gRPC status, one that
-- errors.Is takes for one of the four well-known ones, or none of these.
pub data Node : Type 0 where
  coded : ℤ → Node
  signalled : Signal → Node
  grpc : GrpcCode → Node
  deadline not_exist permission exist : Node
  plain : Node

-- `wraps` has an Unwrap that returns an error, `joins` one that returns a list.
mutual
  pub data GoError : Type 0 where
    leaf : Node → GoError
    wraps : Node → GoError → GoError
    joins : Node → GoErrors → GoError

  pub data GoErrors : Type 0 where
    nil : GoErrors
    cons : GoError → GoErrors → GoErrors

-- What a search of the chain finds first: the node itself, and then what it unwraps to.
abbrev first {ℓ} : {A : Type ℓ} → Option A → Option A → Option A
first none b = b
first (some a) b = some a

unfoldable mutual
  pub as_error {ℓ} : {A : Type ℓ} → (Node → Option A) → GoError → Option A
  as_error find (leaf n) = find n
  as_error find (wraps n e) = first (find n) (as_error find e)
  as_error find (joins n es) = first (find n) (as_errors find es)

  pub as_errors {ℓ} : {A : Type ℓ} → (Node → Option A) → GoErrors → Option A
  as_errors find nil = none
  as_errors find (cons e es) = first (as_error find e) (as_errors find es)

abbrev pub code_of : Node → Option ℤ
code_of (coded c) = some c
code_of _ = none

abbrev pub signal_of : Node → Option Signal
signal_of (signalled s) = some s
signal_of _ = none

abbrev pub grpc_of : Node → Option GrpcCode
grpc_of (grpc c) = some c
grpc_of _ = none

-- The nodes that errors.Is takes for one of the four.
abbrev pub only : Bool → Option (Unit {0})
only true = some tt
only false = none

abbrev pub means_deadline : Node → Bool
means_deadline deadline = true
means_deadline _ = false

abbrev pub means_not_exist : Node → Bool
means_not_exist not_exist = true
means_not_exist _ = false

abbrev pub means_permission : Node → Bool
means_permission permission = true
means_permission _ = false

abbrev pub means_exist : Node → Bool
means_exist exist = true
means_exist _ = false

unfoldable pub is : (Node → Bool) → GoError → Bool
unfolding as_error
is test e = is_some (as_error (λ n. only (test n)) e)

-- The loop on errors.Unwrap, which answers nil for a join.
unfoldable pub grpc_status_of : GoError → Option GrpcCode
grpc_status_of (leaf n) = grpc_of n
grpc_status_of (wraps n e) = first (grpc_of n) (grpc_status_of e)
grpc_status_of (joins n es) = grpc_of n

unfoldable pub signal_code : Signal → ℤ
signal_code interrupt = pos 130
signal_code terminate = pos 143
signal_code other_signal = pos 1

unfoldable pub grpc_exit : GrpcCode → ℤ
grpc_exit ok = pos 0
grpc_exit not_found = pos 3
grpc_exit unauthenticated = pos 4
grpc_exit permission_denied = pos 4
grpc_exit already_exists = pos 5
grpc_exit failed_precondition = pos 5
grpc_exit aborted = pos 5
grpc_exit deadline_exceeded = pos 6
grpc_exit unavailable = pos 7
grpc_exit invalid_argument = pos 2
grpc_exit out_of_range = pos 2
grpc_exit data_loss = pos 8
grpc_exit other = pos 1

-- The last switch of Of.
unfoldable pub well_known : GoError → ℤ
unfolding is
well_known e =
    if is means_deadline e
    then pos 6
    else if is means_not_exist e
    then pos 3
    else if is means_permission e
    then pos 4
    else if is means_exist e
    then pos 5
    else pos 1

unfoldable pub exit_code : Option GoError → ℤ
unfolding as_error signal_code grpc_status_of grpc_exit well_known
exit_code none = pos 0
exit_code (some e) = elim (as_error code_of e) [
  | some code ↦ code
  | none ↦ elim (as_error signal_of e) [
    | some s ↦ signal_code s
    | none ↦ elim (grpc_status_of e) [ some code ↦ grpc_exit code | none ↦ well_known e ]
  ]
]

-- Wrap.
unfoldable pub wrap : ℤ → Option GoError → Option GoError
wrap code none = none
wrap code (some e) = some (wraps (coded code) e)

unfoldable pub is_signal : Option GoError → Bool
unfolding as_error
is_signal none = false
is_signal (some e) = is_some (as_error signal_of e)

unfoldable pub from_signal : String → ℤ
from_signal sig =
    if str_eq sig "interrupt" || str_eq sig "SIGINT"
    then pos 130
    else if str_eq sig "terminated" || str_eq sig "SIGTERM"
    then pos 143
    else pos 1
