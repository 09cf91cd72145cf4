-- ===== src/Core/Graph/Starts.antt =====
-- The connections of a source in the graph of buildPipelineGraph (internal/core/pipeline_dag.go).
use mathlib.Core.Path.{subst}
use mathlib.Core.List.{Memᴰ}
use flowctl.Prelude.{
  ◌≡◌, refl, sym, ◌∙◌, ℕ, String, true, false, some, List, [], ◌∷◌, ◌++◌, is_some, str_eq, eq_iff,
  eq_refl, arith, Bool-cases, Option-cases, inl, inr,
}
use flowctl.Prelude.Map.{StringMap, lookup, insert, lookup-insert}
use flowctl.Pipeline.Model.{Component, Spec}
use flowctl.Pipeline.Loader.{has_id}
use flowctl.Pipeline.Loader.Sound.{AreDistinct}
use flowctl.Pipeline.Loader.Distinct.{ids}
use flowctl.Core.Dag.{
  ProcessorNode, Adapter, find_node, check_accepted, write_node, Dag, Built, built, broken, new_dag,
  accepts_type, input_channel, connect, connect_source_to_processor, connect_processor_to_sink,
}
use flowctl.Core.Graph.{
  each, index_components, connect_input, connect_sink, connect_all, register_sources,
  register_processors, register_sinks, build_pipeline_graph,
}
use flowctl.Core.Graph.Loaded.{Ensures, Ensures-bind, each-Ensures}

append_left : {A : Type 0} (a : A) (xs ys : List A) → Memᴰ a xs → Memᴰ a (xs ++ ys)
append_left a [] ys h = elim h [ ]
append_left a (x ∷ xs) ys (Memᴰ.head e) = Memᴰ.head e
append_left a (x ∷ xs) ys (Memᴰ.tail h) = Memᴰ.tail (append_left a xs ys h)

append_last : {A : Type 0} (a : A) (xs : List A) → Memᴰ a (xs ++ (a ∷ []))
append_last a [] = Memᴰ.head refl
append_last a (x ∷ xs) = Memᴰ.tail (append_last a xs)

any_Ensures : {D : Type 0} (r : Built D) → Ensures (λ d'. Unit {0}) r
any_Ensures (built d) = tt
any_Ensures (broken e) = tt

-- A loop that never loses what one of its steps brings about has it in the end.
each-hits :
    {A D : Type 0} (P : D → Type 0) (step : A → D → Built D) (x : A)
    → ((y : A) (d : D) → P d → Ensures P (step y d))
    → ((d : D) → Ensures P (step x d))
    → (xs : List A) → Memᴰ x xs
    → (d : D) → Ensures P (each step xs d)
unfolding each
each-hits P step x keep hit [] h d = elim h [ ]
each-hits P step x keep hit (y ∷ ys) (Memᴰ.head e) d =
    Ensures-bind P P (step y d) (each step ys) (subst (λ z. Ensures P (step z d)) e (hit d))
      (λ d' h'. each-Ensures P step keep ys d' h')
each-hits P step x keep hit (y ∷ ys) (Memᴰ.tail h) d =
    Ensures-bind (λ d'. Unit {0}) P (step y d) (each step ys) (any_Ensures (step y d))
      (λ d' u. each-hits P step x keep hit ys h d')

module _ {P R : Type 0} (a : Adapter) where
  -- The goroutine is started.
  abbrev pub Runs : Dag P R → Type 0
  Runs d = Memᴰ a d.adapters

  input_channel-Runs :
      (id : String) (node : ProcessorNode P) (type : String) (d : Dag P R)
      → Runs d
      → Runs (input_channel id node type d).1
  unfolding input_channel write_node
  input_channel-Runs id node type d h = elim (Option-cases (lookup type node.input_channels)) [
    | inl missing ↦ rw (input_channel, missing) h
    | inr (channel, there) ↦ rw (input_channel, there) h
  ]

  check_accepted-Runs :
      (id : String) (node : ProcessorNode P) (type : String) (d : Dag P R)
      → Runs d
      → Ensures Runs (check_accepted id node type d)
  check_accepted-Runs id node type d h =
      elim (Bool-cases (accepts_type node.input_event_types type)) [
        | inl taken ↦ rw taken h
        | inr other ↦ rw other tt
      ]

  connect-Runs :
      (from to type : String) (d : Dag P R) → Runs d → Ensures Runs (connect from to type d)
  unfolding connect write_node
  connect-Runs from to type d h =
      Ensures-bind (λ n. Unit {0}) Runs (find_node from d) _ (any_Ensures (find_node from d))
        (λ source u.
          Ensures-bind (λ n. Unit {0}) Runs (find_node to d) _ (any_Ensures (find_node to d))
            (λ target v.
              Ensures-bind Runs Runs (check_accepted to target type d) _
                (check_accepted-Runs to target type d h)
                (λ accepted k.
                  Ensures-bind (λ n. Unit {0}) Runs
                    (find_node from (input_channel to target type accepted).1) _
                    (any_Ensures (find_node from (input_channel to target type accepted).1))
                    (λ node w. input_channel-Runs to target type accepted k))))

  connect_sink-Runs :
      (processor sink type : String) (d : Dag P R)
      → Runs d
      → Ensures Runs (connect_processor_to_sink processor sink type d)
  unfolding connect_processor_to_sink write_node
  connect_sink-Runs processor sink type d h =
      Ensures-bind (λ n. Unit {0}) Runs (find_node processor d) _
        (any_Ensures (find_node processor d))
        (λ node u. elim (Option-cases (lookup sink d.sink_channels)) [
          | inl missing ↦ rw missing tt
          | inr (channel, there) ↦ rw there h
        ])

  connect_source-Runs :
      (source processor type : String) (d : Dag P R)
      → Runs d
      → Ensures Runs (connect_source_to_processor source processor type d)
  unfolding connect_source_to_processor
  connect_source-Runs source processor type d h =
      elim (Bool-cases (is_some (lookup source d.sources))) [
        | inr missing ↦ rw (connect_source_to_processor, missing) tt
        | inl there ↦
            rw (connect_source_to_processor, there)
              (Ensures-bind (λ n. Unit {0}) Runs (find_node processor d) _
                (any_Ensures (find_node processor d))
                (λ node u.
                  Ensures-bind Runs Runs (check_accepted processor node type d) _
                    (check_accepted-Runs processor node type d h)
                    (λ accepted k. append_left a accepted.adapters _ k)))
      ]

connect_source_starts :
    {P R : Type 0} (source processor type : String) (d : Dag P R)
    → Ensures
        (Runs (record { source = source; processor = processor; event_type = type }))
        (connect_source_to_processor source processor type d)
unfolding connect_source_to_processor
connect_source_starts source processor type d =
    let own : Adapter = record { source = source; processor = processor; event_type = type } in
    elim (Bool-cases (is_some (lookup source d.sources))) [
      | inr missing ↦ rw (connect_source_to_processor, missing) tt
      | inl there ↦
          rw (connect_source_to_processor, there)
            (Ensures-bind (λ n. Unit {0}) (Runs own) (find_node processor d) _
              (any_Ensures (find_node processor d))
              (λ node u.
                Ensures-bind (λ n. Unit {0}) (Runs own) (check_accepted processor node type d) _
                  (any_Ensures (check_accepted processor node type d))
                  (λ accepted k. append_last own accepted.adapters)))
    ]

-- A component with an identifier of its own is what the index has under it.
index-others :
    (cs : List Component) (index : StringMap Component) (id : String)
    → has_id (ids cs) id ≡ false
    → lookup id (index_components cs index) ≡ lookup id index
unfolding index_components
index-others [] index id new = refl
index-others (c ∷ cs) index id new =
    let (other, later) : (str_eq c.id id ≡ false) × (has_id (ids cs) id ≡ false) =
      (ground arith, ground arith) in
    index-others cs (insert c.id c index) id later ∙ (lookup-insert c.id id c index ∙ rw other refl)

index-own :
    (s : Component) (cs : List Component) (index : StringMap Component)
    → AreDistinct (ids cs)
    → Memᴰ s cs
    → lookup s.id (index_components cs index) ≡ some s
unfolding index_components
index-own s [] index distinct h = elim h [ ]
index-own s (c ∷ cs) index (new, distinct) (Memᴰ.head e) =
    subst (λ (x : Component). lookup x.id (index_components cs (insert c.id c index)) ≡ some x)
      (sym e)
      (index-others cs (insert c.id c index) c.id new
        ∙ (lookup-insert c.id c.id c index ∙ rw (eq_refl c.id) refl))
index-own s (c ∷ cs) index (new, distinct) (Memᴰ.tail h) =
    index-own s cs (insert c.id c index) distinct h

has-Mem : (xs : List String) (x : String) → has_id xs x ≡ true → Memᴰ x xs
has-Mem [] x h = absurd (cc h)
has-Mem (y ∷ ys) x h = elim (Bool-cases (str_eq y x)) [
  | inl same ↦ Memᴰ.head (sym ((eq_iff y x).0 same))
  | inr other ↦ Memᴰ.tail (has-Mem ys x (rw other at h))
]

-- The goroutine that takes a source's events, as events of a type, to a processor.
abbrev pub adapter_of : (source processor : Component) → (event_type : String) → Adapter
adapter_of s c type = record { source = s.id; processor = c.id; event_type = type }

module _ {P R : Type 0} (spec : Spec) (s c : Component) (type : String)
    (distinct : AreDistinct (ids spec.sources)) (source : Memᴰ s spec.sources)
    (consumer : Memᴰ c spec.processors) (input : has_id c.inputs s.id ≡ true)
    (output : has_id s.output_event_types type ≡ true) where
  connect_input-Runs :
      (sources processors : StringMap Component) (x : Component) (i : String) (d : Dag P R)
      → Runs (adapter_of s c type) d
      → Ensures (Runs (adapter_of s c type)) (connect_input sources processors x i d)
  unfolding connect_input
  connect_input-Runs sources processors x i d h = elim (Option-cases (lookup i sources)) [
    | inr (y, found) ↦
        rw (connect_input, found)
          (each-Ensures (Runs (adapter_of s c type)) (λ t. connect_source_to_processor y.id x.id t)
            (λ t d' h'. connect_source-Runs (adapter_of s c type) y.id x.id t d' h')
            y.output_event_types d h)
    | inl missing ↦ elim (Option-cases (lookup i processors)) [
      | inr (y, found) ↦
          rw (connect_input, missing, found)
            (each-Ensures (Runs (adapter_of s c type)) (λ t. connect y.id x.id t)
              (λ t d' h'. connect-Runs (adapter_of s c type) y.id x.id t d' h') y.output_event_types
              d h)
      | inl unknown ↦ rw (connect_input, missing, unknown) h
    ]
  ]

  connect_input_starts :
      (processors : StringMap Component) (d : Dag P R)
      → Ensures
          (Runs (adapter_of s c type))
          (connect_input (index_components spec.sources []) processors c s.id d)
  unfolding connect_input
  connect_input_starts processors d =
      rw (connect_input, index-own s spec.sources [] distinct source)
        (each-hits (Runs (adapter_of s c type)) (λ t. connect_source_to_processor s.id c.id t) type
          (λ t d' h'. connect_source-Runs (adapter_of s c type) s.id c.id t d' h')
          (λ d'. connect_source_starts s.id c.id type d') s.output_event_types
          (has-Mem s.output_event_types type output) d)

  connect_sink-keeps :
      (processors : StringMap Component) (sink : Component) (i : String) (d : Dag P R)
      → Runs (adapter_of s c type) d
      → Ensures (Runs (adapter_of s c type)) (connect_sink processors sink i d)
  unfolding connect_sink
  connect_sink-keeps processors sink i d h = elim (Option-cases (lookup i processors)) [
    | inl unknown ↦ rw (connect_sink, unknown) h
    | inr (y, found) ↦
        rw (connect_sink, found)
          (each-Ensures (Runs (adapter_of s c type)) (λ t. connect_processor_to_sink y.id sink.id t)
            (λ t d' h'. connect_sink-Runs (adapter_of s c type) y.id sink.id t d' h')
            y.output_event_types d h)
  ]

  connect_all_starts : (d : Dag P R) → Ensures (Runs (adapter_of s c type)) (connect_all spec d)
  unfolding connect_all
  connect_all_starts d =
      let sources = index_components spec.sources [] in
      let processors = index_components spec.processors [] in
      Ensures-bind (Runs (adapter_of s c type)) (Runs (adapter_of s c type)) _ _
        (each-hits (Runs (adapter_of s c type))
          (λ x. each (λ i. connect_input sources processors x i) x.inputs) c
          (λ x d' h'.
            each-Ensures (Runs (adapter_of s c type)) (λ i. connect_input sources processors x i)
              (λ i d'' h''. connect_input-Runs sources processors x i d'' h'') x.inputs d' h')
          (λ d'.
            each-hits (Runs (adapter_of s c type)) (λ i. connect_input sources processors c i) s.id
              (λ i d'' h''. connect_input-Runs sources processors c i d'' h'')
              (λ d''. connect_input_starts processors d'') c.inputs (has-Mem c.inputs s.id input)
              d')
          spec.processors consumer d)
        (λ d' h'.
          each-Ensures (Runs (adapter_of s c type))
            (λ x. each (λ i. connect_sink processors x i) x.inputs)
            (λ x d'' h''.
              each-Ensures (Runs (adapter_of s c type)) (λ i. connect_sink processors x i)
                (λ i d₃ h₃. connect_sink-keeps processors x i d₃ h₃) x.inputs d'' h'')
            spec.sinks d' h')

  pub build_starts :
      (make_source : Component → R) (make_processor : Component → P) (buffer_size : ℕ)
      → Ensures
          (Runs (adapter_of s c type))
          (build_pipeline_graph make_source make_processor spec (new_dag buffer_size))
  unfolding build_pipeline_graph
  build_starts make_source make_processor buffer_size =
      Ensures-bind (λ d. Unit {0}) (Runs (adapter_of s c type)) _ _
        (any_Ensures (register_sources make_source spec.sources (new_dag buffer_size)))
        (λ d₁ u.
          Ensures-bind (λ d. Unit {0}) (Runs (adapter_of s c type)) _ _
            (any_Ensures (register_processors make_processor spec spec.processors d₁))
            (λ d₂ v. connect_all_starts (register_sinks spec.sinks d₂)))
