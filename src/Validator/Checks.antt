-- ===== src/Validator/Checks.antt =====
-- internal/validator/validator.go: the checks but that of the ports. Each is the list of what it appends.
-- Sprintf's %q and os.IsNotExist(os.Stat(path)) are parameters, `quote` and `missing`.
use flowctl.Prelude.{
  ◌*◌, String, Bool, true, false, ◌&&◌, ◌||◌, not, none, some, List, [], ◌∷◌, ◌++◌, str_eq, ltb,
  leb, if◌then◌else◌, length, any,
}
use flowctl.Prelude.Decimal.{show_ℕ}
use flowctl.Prelude.Int.{eq_ℤ, pos, is_negative}
use flowctl.Prelude.Map.{StringMap, lookup, insert}
use flowctl.Prelude.Texts.{concat}
use flowctl.Pipeline.Model.{Component, Spec, Pipeline}
use flowctl.Pipeline.Loader.{has_id, is_empty}
use flowctl.Validator.Result.{ValidationError, ValidationWarning, error, warning}
use text.Mathlib.Text.{starts_with}

abbrev pub when {ℓ} : {A : Type ℓ} → Bool → List A → List A
when true xs = xs
when false xs = []

unfoldable pub metadata_errors : Pipeline → List ValidationError
metadata_errors p =
    when (str_eq p.name "")
      (error "metadata.name" "Pipeline name is required" "Add a name to the pipeline metadata" ∷ [])

abbrev pub valid_drivers : List String
valid_drivers = "process" ∷ "container" ∷ "docker" ∷ "kubernetes" ∷ "k8s" ∷ "nomad" ∷ "local" ∷ []

unfoldable pub component_errors : Spec → List ValidationError
component_errors spec =
    when (is_empty spec.sources) (
      error "spec.sources" "At least one source is required"
        "Add a source component to the pipeline"
      ∷ [])
    ++ when (is_empty spec.sinks) (
        error "spec.sinks" "At least one sink (consumer) is required"
          "Add a sink component to the pipeline"
        ∷ [])

unfoldable pub component_warnings : Spec → List ValidationWarning
component_warnings spec =
    when (ltb 1 (length spec.sources)) (
      warning "spec.sources" "Multiple sources detected"
        "Currently only the first source is used in processor chains"
      ∷ [])
    ++ when (is_empty spec.processors) (
        warning "spec.processors" "No processors defined"
          "Processors transform data between sources and consumers"
        ∷ [])

-- One loop of validateDuplicateIDs: the keys of `seen` are identifiers, its values types.
unfoldable pub duplicate_errors : String → StringMap String → List Component → List ValidationError
unfolding lookup insert
duplicate_errors kind seen [] = []
duplicate_errors kind seen (c ∷ cs) =
    let rest = duplicate_errors kind (insert c.id kind seen) cs in
    elim (lookup c.id seen) [
      | none ↦ rest
      | some existing ↦
          error "component ID"
            (concat (
              "Duplicate component ID '" ∷ c.id ∷ "' (found in " ∷ existing ∷ " and " ∷ kind ∷ ")"
              ∷ []))
            "Use unique IDs for each component"
          ∷ rest
    ]

-- What the loop leaves of `seen`.
unfoldable pub seen_after : String → StringMap String → List Component → StringMap String
unfolding insert
seen_after kind seen [] = seen
seen_after kind seen (c ∷ cs) = seen_after kind (insert c.id kind seen) cs

unfoldable pub validate_duplicates : Spec → List ValidationError
unfolding duplicate_errors seen_after
validate_duplicates spec =
    let sources = seen_after "source" [] spec.sources in
    let processors = seen_after "processor" sources spec.processors in
    duplicate_errors "source" [] spec.sources
    ++ duplicate_errors "processor" sources spec.processors
    ++ duplicate_errors "sink" processors spec.sinks

-- `knownInputs` after the components of a loop, the last one first.
abbrev pub known_after : List String → List Component → List String
known_after known [] = known
known_after known (c ∷ cs) = known_after (c.id ∷ known) cs

module _ (quote : String → String) where
  unfoldable pub driver_errors : String → List ValidationError
  driver_errors driver =
      if str_eq driver ""
      then []
      else when (not (any (λ d. str_eq d driver) valid_drivers)) (
          error "spec.driver" (concat ("Invalid driver " ∷ quote driver ∷ []))
            "Use one of: process, container, docker, kubernetes, k8s, nomad, local"
          ∷ [])

  unfoldable pub health_errors : List Component → List ValidationError
  health_errors [] = []
  health_errors (c ∷ cs) =
      when (not (str_eq c.health_check "") && eq_ℤ c.health_port (pos 0)) (
        error (concat ("spec.sources[" ∷ c.id ∷ "].health_port" ∷ []))
          (concat ("Source " ∷ quote c.id ∷ " has health_check but no health_port specified" ∷ []))
          "Add health_port or remove health_check"
        ∷ [])
      ++ health_errors cs

  -- `section` is "processors" or "sinks" in a field, `kind` the word of a message.
  unfoldable pub input_errors :
      String → String → String → List String → List String → List ValidationError
  input_errors section kind id known [] = []
  input_errors section kind id known (input ∷ inputs) =
      when (not (has_id known input)) (
        error (concat (section ∷ "[" ∷ id ∷ "].inputs" ∷ []))
          (concat (kind ∷ " " ∷ quote id ∷ " references unknown input " ∷ quote input ∷ []))
          "Use an existing source or processor ID in inputs"
        ∷ [])
      ++ input_errors section kind id known inputs

  unfoldable pub replica_errors : String → String → Component → List ValidationError
  replica_errors section kind c = when (is_negative c.replicas) (
      error (concat (section ∷ "[" ∷ c.id ∷ "].replicas" ∷ []))
        (concat (kind ∷ " " ∷ quote c.id ∷ " replicas cannot be negative" ∷ []))
        "Set replicas to 0 or a positive integer"
      ∷ [])

  unfoldable pub no_input_errors : String → String → String → Component → List ValidationError
  no_input_errors section kind fix c = when (is_empty c.inputs) (
      error (concat (section ∷ "[" ∷ c.id ∷ "].inputs" ∷ []))
        (concat (kind ∷ " " ∷ quote c.id ∷ " must have at least one input" ∷ [])) fix
      ∷ [])

  -- The three checks of a processor or a sink.
  unfoldable pub detail_errors :
      String → String → String → List String → Component → List ValidationError
  unfolding replica_errors no_input_errors input_errors
  detail_errors section kind fix known c =
      replica_errors section kind c
      ++ no_input_errors section kind fix c
      ++ input_errors section kind c.id known c.inputs

  -- A processor is known to the components after it.
  unfoldable pub processor_errors : List String → List Component → List ValidationError
  unfolding detail_errors
  processor_errors known [] = []
  processor_errors known (c ∷ cs) =
      detail_errors "spec.processors" "Processor"
        "Connect the processor to a source or upstream processor" known c
      ++ processor_errors (c.id ∷ known) cs

  unfoldable pub sink_errors : List String → List Component → List ValidationError
  unfolding detail_errors
  sink_errors known [] = []
  sink_errors known (c ∷ cs) =
      detail_errors "spec.sinks" "Sink" "Connect the sink to a source or processor" known c
      ++ sink_errors known cs

  unfoldable pub validate_details : Spec → List ValidationError
  unfolding health_errors processor_errors sink_errors
  validate_details spec =
      let sources = known_after [] spec.sources in
      health_errors spec.sources
      ++ processor_errors sources spec.processors
      ++ sink_errors (known_after sources spec.processors) spec.sinks

-- checkCommand.
unfoldable pub command_errors : String → Component → List ValidationError
command_errors kind c =
    when (is_empty c.command && not (not (str_eq c.image "") || not (str_eq c.type ""))) (
      error (concat (kind ∷ "." ∷ c.id ∷ []))
        (concat ("Component '" ∷ c.id ∷ "' has no command, image, or type specified" ∷ []))
        "Add a local command, container image, or registry type reference"
      ∷ [])

unfoldable pub command_warnings : (String → Bool) → String → Component → List ValidationWarning
command_warnings missing kind c = elim c.command [
  | [] ↦ []
  | path ∷ args ↦
      if str_eq path "bash" || (str_eq path "sh" || starts_with path "/bin/")
      then []
      else when (missing path) (
          warning (concat (kind ∷ "." ∷ c.id ∷ ".command" ∷ []))
            (concat ("Command file not found: " ∷ path ∷ []))
            "Ensure the binary exists before running the pipeline"
          ∷ [])
]

-- One of the loops of validateCommands.
abbrev pub over {ℓ} : {A : Type ℓ} → (Component → List A) → List Component → List A
over check [] = []
over check (c ∷ cs) = check c ++ over check cs

unfoldable pub validate_commands : Spec → List ValidationError
unfolding command_errors
validate_commands spec =
    over (command_errors "source") spec.sources
    ++ over (command_errors "processor") spec.processors
    ++ over (command_errors "sink") spec.sinks

unfoldable pub chain_warnings : Spec → List ValidationWarning
unfolding show_ℕ
chain_warnings spec =
    let n = length spec.processors in
    when (ltb 5 n) (
      warning "spec.processors"
        (concat ("Long processor chain detected (" ∷ show_ℕ n ∷ " processors)" ∷ []))
        (concat (
          "Expected latency: ~"
          ∷ show_ℕ (n * 20)
          ∷ "ms. Consider splitting into separate pipelines"
          ∷ []))
      ∷ [])

unfoldable pub fan_out_warnings : Spec → List ValidationWarning
unfolding show_ℕ
fan_out_warnings spec =
    let n = length spec.sinks in
    when (ltb 10 n) (
      warning "spec.sinks" (concat ("Large fan-out detected (" ∷ show_ℕ n ∷ " consumers)" ∷ []))
        "High consumer count may increase network bandwidth and CPU usage"
      ∷ [])

-- The hints of the last two checks.
unfoldable pub validate_hints : Spec → List String
unfolding show_ℕ
validate_hints spec =
    when (leb 2 (length spec.processors))
      ("Processor chaining enabled: Events will flow sequentially through all processors" ∷ [])
    ++ when (ltb 1 (length spec.sinks)) (
        concat (
          "Consumer fan-out enabled: All "
          ∷ show_ℕ (length spec.sinks)
          ∷ " consumers will receive events in parallel"
          ∷ [])
        ∷ [])
