-- ===== src/Validator.antt =====
-- internal/validator/validator.go: Validate, which runs the checks in order. Go visits the maps of the
-- port check in no fixed order, which is a parameter, `visit`.
pub mod Result
pub mod Checks
pub mod Ports
pub mod Accepted
pub mod Errors
pub mod Sound
pub mod Loads
use flowctl.Prelude.{String, Bool, List, ◌++◌}
use flowctl.Prelude.Map.{StringMap}
use flowctl.Pipeline.Model.{Pipeline}
use flowctl.Pipeline.Loader.{is_empty}
use flowctl.Validator.Result.{ValidationError, ValidationWarning, ValidationResult}
use flowctl.Validator.Checks.{
  metadata_errors, driver_errors, component_errors, component_warnings, validate_duplicates,
  validate_details, validate_commands, command_warnings, over, chain_warnings, fan_out_warnings,
  validate_hints,
}
use flowctl.Validator.Ports.{validate_ports}

module _ (quote : String → String) (missing : String → Bool)
    (visit : StringMap (List String) → StringMap (List String)) where
  unfoldable pub all_errors : Pipeline → List ValidationError
  unfolding metadata_errors driver_errors component_errors validate_duplicates validate_details
      validate_ports validate_commands
  all_errors p =
      metadata_errors p
      ++ driver_errors quote p.spec.driver
      ++ component_errors p.spec
      ++ validate_duplicates p.spec
      ++ validate_details quote p.spec
      ++ validate_ports visit p.spec
      ++ validate_commands p.spec

  unfoldable pub all_warnings : Pipeline → List ValidationWarning
  unfolding component_warnings command_warnings chain_warnings fan_out_warnings
  all_warnings p =
      component_warnings p.spec
      ++ over (command_warnings missing "source") p.spec.sources
      ++ over (command_warnings missing "processor") p.spec.processors
      ++ over (command_warnings missing "sink") p.spec.sinks
      ++ chain_warnings p.spec
      ++ fan_out_warnings p.spec

  unfoldable pub validate : Pipeline → ValidationResult
  unfolding all_errors all_warnings validate_hints
  validate p =
      let errors = all_errors p in
      record {
        valid = is_empty errors;
        errors = errors;
        warnings = all_warnings p;
        hints = validate_hints p.spec;
      }
