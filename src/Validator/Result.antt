-- ===== src/Validator/Result.antt =====
-- internal/validator/validator.go: what a validation reports. The line number of an error is never set.
use flowctl.Prelude.{String, Bool, List}

pub record ValidationError : Type 0 where
  pub field : String
  pub message : String
  pub fix : String

pub record ValidationWarning : Type 0 where
  pub field : String
  pub message : String
  pub hint : String

pub record ValidationResult : Type 0 where
  pub valid : Bool
  pub errors : List ValidationError
  pub warnings : List ValidationWarning
  pub hints : List String

abbrev pub error : String → String → String → ValidationError
error field message fix = record { field = field; message = message; fix = fix }

abbrev pub warning : String → String → String → ValidationWarning
warning field message hint = record { field = field; message = message; hint = hint }
