-- ===== src/Tests/ExitCode.antt =====
-- Examples for the exit codes: a refused connection in two contexts, and a file that is not there.
use flowctl.Prelude.{ℕ, ◌≤◌, ◌≡◌, refl, some, arith}
use flowctl.Prelude.Int.{pos}
use flowctl.ExitCode.{
  GoError, leaf, wraps, joins, nil, cons, plain, grpc, not_exist, unavailable, exit_code, as_error,
  grpc_status_of,
}
use flowctl.ExitCode.Codes.{exit_code_inferred}

abbrev refused : GoError
refused = wraps plain (wraps plain (leaf (grpc unavailable)))

-- errors.Unwrap does not look into a join, so the status is not seen there.
abbrev joined : GoError
joined = joins plain (cons (leaf (grpc unavailable)) (cons (leaf not_exist) nil))

refused_run : exit_code (some refused) ≡ pos 7
unfolding exit_code
refused_run = refl

joined_run : exit_code (some joined) ≡ pos 3
unfolding exit_code
joined_run = refl

exit_code_inferred_example : (n : ℕ) × (exit_code (some refused) ≡ pos n) × (1 ≤ n) × (n ≤ 8)
unfolding as_error grpc_status_of
exit_code_inferred_example = exit_code_inferred refused refl refl (λ e. ground (arith, e))
