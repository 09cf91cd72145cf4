-- ===== src/ExitCode/Codes.antt =====
-- Which exit codes Of of internal/exitcode/exitcode.go answers.
use flowctl.Prelude.{
  ℕ, zero, suc, ◌≤◌, ◌≡◌, refl, ap, ◌≢◌, ◌∙◌, none, some, arith, Bool-cases, Option-cases, inl, inr,
}
use flowctl.Prelude.Int.{ℤ, pos}
use flowctl.ExitCode.{
  GrpcCode, ok, GoError, coded, wraps, plain, as_error, code_of, signal_of, grpc_status_of,
  grpc_exit, is, means_deadline, means_not_exist, means_permission, means_exist, well_known,
  exit_code,
}

-- An error wrapped in context a number of times, by fmt.Errorf with %w.
abbrev pub contexts : ℕ → GoError → GoError
contexts zero e = e
contexts (suc n) e = wraps plain (contexts n e)

exit_code-plain : (e : GoError) → exit_code (some (wraps plain e)) ≡ exit_code (some e)
unfolding exit_code
exit_code-plain e = refl

contexts_unseen : (n : ℕ) (e : GoError) → exit_code (some (contexts n e)) ≡ exit_code (some e)
contexts_unseen zero e = refl
contexts_unseen (suc n) e = exit_code-plain (contexts n e) ∙ contexts_unseen n e

-- Context that is put around an error does not change the exit code, however much; and the code that Wrap
-- gives an error is the exit code of it, in any context, whatever the error is itself.
exit_code-contexts :
    (n m : ℕ) (e : GoError) (code : ℤ)
    → (exit_code (some (contexts n e)) ≡ exit_code (some e))
      × (exit_code (some (contexts n (wraps (coded code) (contexts m e)))) ≡ code)
unfolding exit_code
exit_code-contexts n m e code =
    (contexts_unseen n e, contexts_unseen n (wraps (coded code) (contexts m e)))

-- A code from 1 to 8.
abbrev IsFailure : ℤ → Type 0
IsFailure code = (n : ℕ) × (code ≡ pos n) × (1 ≤ n) × (n ≤ 8)

grpc_exit-IsFailure : (c : GrpcCode) → c ≢ ok → IsFailure (grpc_exit c)
unfolding grpc_exit
grpc_exit-IsFailure GrpcCode.ok h = absurd (h refl)
grpc_exit-IsFailure GrpcCode.not_found h = (3, refl, omega arith, omega arith)
grpc_exit-IsFailure GrpcCode.unauthenticated h = (4, refl, omega arith, omega arith)
grpc_exit-IsFailure GrpcCode.permission_denied h = (4, refl, omega arith, omega arith)
grpc_exit-IsFailure GrpcCode.already_exists h = (5, refl, omega arith, omega arith)
grpc_exit-IsFailure GrpcCode.failed_precondition h = (5, refl, omega arith, omega arith)
grpc_exit-IsFailure GrpcCode.aborted h = (5, refl, omega arith, omega arith)
grpc_exit-IsFailure GrpcCode.deadline_exceeded h = (6, refl, omega arith, omega arith)
grpc_exit-IsFailure GrpcCode.unavailable h = (7, refl, omega arith, omega arith)
grpc_exit-IsFailure GrpcCode.invalid_argument h = (2, refl, omega arith, omega arith)
grpc_exit-IsFailure GrpcCode.out_of_range h = (2, refl, omega arith, omega arith)
grpc_exit-IsFailure GrpcCode.data_loss h = (8, refl, omega arith, omega arith)
grpc_exit-IsFailure GrpcCode.other h = (1, refl, omega arith, omega arith)

well_known-IsFailure : (e : GoError) → IsFailure (well_known e)
unfolding well_known
well_known-IsFailure e = elim (Bool-cases (is means_deadline e)) [
  | inl a ↦ rw (a, well_known) (6, refl, omega arith, omega arith)
  | inr a ↦ elim (Bool-cases (is means_not_exist e)) [
    | inl b ↦ rw (a, b, well_known) (3, refl, omega arith, omega arith)
    | inr b ↦ elim (Bool-cases (is means_permission e)) [
      | inl c ↦ rw (a, b, c, well_known) (4, refl, omega arith, omega arith)
      | inr c ↦ elim (Bool-cases (is means_exist e)) [
        | inl d ↦ rw (a, b, c, d, well_known) (5, refl, omega arith, omega arith)
        | inr d ↦ rw (a, b, c, d, well_known) (1, refl, omega arith, omega arith)
      ]
    ]
  ]
]

-- An error without an explicit code, without a signal, and without the gRPC status OK exits with a code
-- from 1 to 8: never as a success, and never with a code of a signal.
pub exit_code_inferred :
    (e : GoError)
    → as_error code_of e ≡ none
    → as_error signal_of e ≡ none
    → grpc_status_of e ≢ some ok
    → (n : ℕ) × (exit_code (some e) ≡ pos n) × (1 ≤ n) × (n ≤ 8)
unfolding exit_code
exit_code_inferred e uncoded unsignalled failing = elim (Option-cases (grpc_status_of e)) [
  | inl unknown ↦ rw (uncoded, unsignalled, unknown, exit_code) (well_known-IsFailure e)
  | inr (c, known) ↦
      rw (uncoded, unsignalled, known, exit_code)
        (grpc_exit-IsFailure c (λ h. failing (known ∙ ap some h)))
]
