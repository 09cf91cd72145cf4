-- ===== src/Validator/Accepted.antt =====
-- The pipelines that internal/validator/validator.go means to accept.
use flowctl.Prelude.{String, ◌≡◌, ◌≢◌, ◌⊎◌, true, false, List, [], ◌∷◌, All}
use flowctl.Prelude.Int.{pos, eq_ℤ, is_negative}
use flowctl.Pipeline.Model.{Component, Spec, Pipeline}
use flowctl.Pipeline.Loader.{has_id}
use flowctl.Pipeline.Loader.Sound.{AreDistinct}
use flowctl.Validator.Checks.{valid_drivers, known_after}
use flowctl.Validator.Ports.{all_components}
use flowctl.Validator.Ports.Once.{NamedOnce}

-- Something to launch.
abbrev pub IsLaunchable : Component → Type 0
IsLaunchable c = (c.command ≢ []) ⊎ (c.image ≢ "") ⊎ (c.type ≢ "")

abbrev pub HasHealthPort : Component → Type 0
HasHealthPort c = (c.health_check ≡ "") ⊎ (eq_ℤ c.health_port (pos 0) ≡ false)

-- What is asked of a processor or a sink, where `known` are the identifiers before it.
abbrev pub IsConnected : List String → Component → Type 0
IsConnected known c =
    (is_negative c.replicas ≡ false)
    × (c.inputs ≢ [])
    × All (λ input. has_id known input ≡ true) c.inputs

-- Each processor is connected to sources and to processors before it.
abbrev pub AreConnected : List String → List Component → Type 0
AreConnected known [] = Unit
AreConnected known (c ∷ cs) = IsConnected known c × AreConnected (c.id ∷ known) cs

-- The sources' and the processors' identifiers.
abbrev pub inner_ids : Spec → List String
inner_ids spec = known_after (known_after [] spec.sources) spec.processors

pub record IsAccepted (p : Pipeline) : Type 0 where
  pub named : p.name ≢ ""
  pub driver : (p.spec.driver ≡ "") ⊎ (has_id valid_drivers p.spec.driver ≡ true)
  pub has_source : p.spec.sources ≢ []
  pub has_sink : p.spec.sinks ≢ []
  pub distinct : AreDistinct (known_after (inner_ids p.spec) p.spec.sinks)
  pub health : All HasHealthPort p.spec.sources
  pub processors : AreConnected (known_after [] p.spec.sources) p.spec.processors
  pub sinks : All (IsConnected (inner_ids p.spec)) p.spec.sinks
  pub ports : NamedOnce "PORT" (all_components p.spec)
  pub health_ports : NamedOnce "HEALTH_PORT" (all_components p.spec)
  pub launchable : All IsLaunchable (all_components p.spec)
