-- ===== src/Core/Dag.antt =====
-- internal/core/dag.go: DAG. A channel is its number, in the order in which channels are made. A processor
-- and a source are values of any type. The goroutine that ConnectSourceToProcessor starts is an adapter.
pub mod Wired
use flowctl.Prelude.{
  ℕ, suc, ◌+◌, String, Bool, true, false, ◌||◌, Option, none, some, List, [], ◌∷◌, ◌++◌, map,
  if◌then◌else◌, str_eq, is_some, any,
}
use flowctl.Prelude.Map.{StringMap, lookup, insert}

pub record ProcessorNode (P : Type 0) : Type 0 where
  pub processor : P
  pub input_channels : StringMap ℕ
  pub output_channels : StringMap (List ℕ)
  pub input_event_types : List String

pub record Adapter : Type 0 where
  pub source : String
  pub processor : String
  pub event_type : String

pub record Dag (P R : Type 0) : Type 0 where
  pub nodes : StringMap (ProcessorNode P)
  pub sources : StringMap R
  pub source_channels : StringMap ℕ
  pub sink_channels : StringMap ℕ
  pub buffer_size : ℕ
  pub adapters : List Adapter
  pub made : ℕ

pub data DagError : Type 0 where
  processor_exists source_exists processor_not_found source_not_found sink_not_found :
      String → DagError
  not_accepted : String → String → DagError

pub data Built (A : Type 0) : Type 0 where
  built : A → Built A
  broken : DagError → Built A

infixl 5 ◌>>=◌
abbrev pub ◌>>=◌ : {A B : Type 0} → Built A → (A → Built B) → Built B
built a >>= f = f a
broken e >>= f = broken e

unfoldable pub new_dag : {P R : Type 0} → ℕ → Dag P R
new_dag buffer_size = record {
  nodes = [];
  sources = [];
  source_channels = [];
  sink_channels = [];
  buffer_size = buffer_size;
  adapters = [];
  made = 0;
}

-- A channel for each event type; a type that comes twice has the later one.
unfoldable pub make_channels : List String → ℕ → StringMap ℕ → StringMap ℕ × ℕ
make_channels [] next channels = (channels, next)
make_channels (event_type ∷ types) next channels =
    make_channels types (suc next) (insert event_type next channels)

-- The loop that looks for an accepted type.
unfoldable pub accepts_type : List String → String → Bool
accepts_type types event_type = any (λ accepted. str_eq accepted event_type) types

abbrev pub outputs_for : String → StringMap (List ℕ) → List ℕ
outputs_for event_type channels = elim (lookup event_type channels) [ none ↦ [] | some cs ↦ cs ]

unfoldable pub add_output : {P : Type 0} → String → ℕ → ProcessorNode P → ProcessorNode P
add_output event_type channel node = record node {
  output_channels =
      insert event_type (outputs_for event_type node.output_channels ++ (channel ∷ []))
        node.output_channels;
}

module _ {P R : Type 0} where
  unfoldable pub add_processor : String → P → List String → Dag P R → Built (Dag P R)
  unfolding make_channels
  add_processor id processor types d =
      if is_some (lookup id d.nodes)
      then broken (processor_exists id)
      else let (channels, next) = make_channels types d.made [] in
        built (record d {
          nodes =
              insert id
                (record {
                  processor = processor;
                  input_channels = channels;
                  output_channels = [];
                  input_event_types = types;
                })
                d.nodes;
          made = next;
        })

  unfoldable pub add_source : String → R → Dag P R → Built (Dag P R)
  add_source id source d =
      if is_some (lookup id d.sources)
      then broken (source_exists id)
      else built (record d {
        sources = insert id source d.sources;
        source_channels = insert id d.made d.source_channels;
        made = suc d.made;
      })

  -- A second sink of one identifier replaces the channel of the first.
  unfoldable pub add_sink_channel : String → Dag P R → Dag P R
  add_sink_channel id d = record d {
    sink_channels = insert id d.made d.sink_channels;
    made = suc d.made;
  }

  abbrev pub find_node : String → Dag P R → Built (ProcessorNode P)
  find_node id d = elim (lookup id d.nodes) [
    | none ↦ broken (processor_not_found id)
    | some node ↦ built node
  ]

  abbrev pub check_accepted : String → ProcessorNode P → String → Dag P R → Built (Dag P R)
  check_accepted id node event_type d =
      if accepts_type node.input_event_types event_type
      then built d
      else broken (not_accepted id event_type)

  unfoldable pub write_node : String → ProcessorNode P → Dag P R → Dag P R
  write_node id node d = record d { nodes = insert id node d.nodes }

  -- The node's input channel for the type, made if it is not there.
  unfoldable pub input_channel : String → ProcessorNode P → String → Dag P R → ℕ × Dag P R
  unfolding write_node
  input_channel id node event_type d = elim (lookup event_type node.input_channels) [
    | some channel ↦ (channel, d)
    | none ↦ (
      d.made,
      record (write_node id
          (record node { input_channels = insert event_type d.made node.input_channels }) d) {
            made = suc d.made;
          },
    )
  ]

  unfoldable pub connect : String → String → String → Dag P R → Built (Dag P R)
  unfolding accepts_type input_channel add_output write_node
  connect from to event_type d = do
    source ← find_node from d
    target ← find_node to d
    accepted ← check_accepted to target event_type d
    let (channel, d') = input_channel to target event_type accepted
    node ← find_node from d'
    built (write_node from (add_output event_type channel node) d')

  unfoldable pub connect_source_to_processor : String → String → String → Dag P R → Built (Dag P R)
  unfolding accepts_type
  connect_source_to_processor source processor event_type d =
      if is_some (lookup source d.sources)
      then (do
        node ← find_node processor d
        accepted ← check_accepted processor node event_type d
        built (record accepted {
          adapters =
              accepted.adapters
              ++ (record { source = source; processor = processor; event_type = event_type } ∷ []);
        }))
      else broken (source_not_found source)

  unfoldable pub connect_processor_to_sink : String → String → String → Dag P R → Built (Dag P R)
  unfolding add_output write_node
  connect_processor_to_sink processor sink event_type d = do
    node ← find_node processor d
    elim (lookup sink d.sink_channels) [
      | none ↦ broken (sink_not_found sink)
      | some channel ↦ built (write_node processor (add_output event_type channel node) d)
    ]

-- A processor.Message, with a payload of any type.
pub record Message (B : Type 0) : Type 0 where
  pub type : String
  pub payload : B

-- What the loop of runProcessor sends for one message: each output goes to every channel of its type, and
-- nothing is sent if the processor fails.
unfoldable pub forward_to : {B : Type 0} → Message B → List ℕ → List (ℕ × Message B)
forward_to output [] = []
forward_to output (channel ∷ channels) = (channel, output) ∷ forward_to output channels

unfoldable pub forward_outputs :
    {B : Type 0} → StringMap (List ℕ) → List (Message B) → List (ℕ × Message B)
unfolding forward_to
forward_outputs channels [] = []
forward_outputs channels (output ∷ outputs) =
    forward_to output (outputs_for output.type channels) ++ forward_outputs channels outputs

unfoldable pub run_processor :
    {P B : Type 0}
    → (P → B → Option (List (Message B)))
    → ProcessorNode P
    → Message B
    → List (ℕ × Message B)
unfolding forward_outputs
run_processor process node message = elim (process node.processor message.payload) [
  | none ↦ []
  | some outputs ↦ forward_outputs node.output_channels outputs
]

-- What an adapter sends for an event of its source.
unfoldable pub adapt : {P R B : Type 0} → Dag P R → Adapter → B → List (ℕ × Message B)
adapt d a payload = elim (lookup a.processor d.nodes) [
  | none ↦ []
  | some node ↦ elim (lookup a.event_type node.input_channels) [
    | none ↦ []
    | some channel ↦ (channel, record { type = a.event_type; payload = payload }) ∷ []
  ]
]
