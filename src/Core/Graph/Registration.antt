-- ===== src/Core/Graph/Registration.antt =====
-- What the registration in buildPipelineGraph of internal/core/pipeline_dag.go leaves, and that the whole
-- graph is then built.
use flowctl.Prelude.{
  ℕ, suc, ◌≡◌, refl, ap, ◌∙◌, String, true, false, none, some, List, [], ◌∷◌, Bool-cases, inl, inr,
  str_eq, eq_iff, eq_refl, if◌then◌else◌, arith, All, is_some,
}
use flowctl.Prelude.Map.{StringMap, lookup, insert, lookup-insert}
use flowctl.Pipeline.Model.{Component, Spec}
use flowctl.Pipeline.Loader.{has_id}
use flowctl.Pipeline.Loader.Sound.{AreDistinct}
use flowctl.Core.Dag.{
  ProcessorNode, Dag, Built, built, broken, new_dag, make_channels, add_source, add_processor,
  add_sink_channel,
}
use flowctl.Core.Dag.Wired.{Succeeds, Succeeds-bind, node_types, node_types-some, Kept}
use flowctl.Core.Graph.{
  determine_input_event_types, each, register_sources, register_processors, register_sinks,
  connect_all, build_pipeline_graph,
}
use flowctl.Pipeline.Loader.Distinct.{ids}
use flowctl.Core.Graph.Success.{Registered, connect_all-Succeeds}

-- Components whose identifiers are not taken stay so when another one is.
apart :
    {A : Type 0} (id : String) (a : A) (m : StringMap A) (cs : List Component)
    → has_id (ids cs) id ≡ false
    → All (λ c. is_some (lookup c.id m) ≡ false) cs
    → All (λ c. is_some (lookup c.id (insert id a m)) ≡ false) cs
apart id a m [] new h = tt
apart id a m (c ∷ cs) new (hc, h) = (
  ground (arith, lookup-insert id c.id a m, eq_iff id c.id, eq_iff c.id id),
  apart id a m cs (ground arith) h,
)

insert_own :
    {A : Type 0} (id : String) (a : A) (m : StringMap A)
    → is_some (lookup id (insert id a m)) ≡ true
insert_own id a m = rw (lookup-insert id id a m, eq_refl id) refl

insert_keeps :
    {A : Type 0} (id k : String) (a : A) (m : StringMap A)
    → is_some (lookup k m) ≡ true
    → is_some (lookup k (insert id a m)) ≡ true
insert_keeps id k a m h = ground (arith, lookup-insert id k a m)

Succeeds-map :
    {A : Type 0} (Q Q' : A → Type 0) (m : Built A)
    → ((a : A) → Q a → Q' a)
    → Succeeds Q m
    → Succeeds Q' m
Succeeds-map Q Q' (built a) k h = k a h
Succeeds-map Q Q' (broken e) k h = h

module _ {P R : Type 0} where
  -- A source that is there stays, and the nodes are the same.
  record SourcesAdded (d d' : Dag P R) : Type 0 where
    pub old :
        (id : String) → is_some (lookup id d.sources) ≡ true → is_some (lookup id d'.sources) ≡ true
    pub same : d'.nodes ≡ d.nodes

  register_sources-Succeeds :
      (make : Component → R) (cs : List Component) (d : Dag P R)
      → AreDistinct (ids cs)
      → All (λ c. is_some (lookup c.id d.sources) ≡ false) cs
      → Succeeds
          (λ d'. All (λ c. is_some (lookup c.id d'.sources) ≡ true) cs × SourcesAdded d d')
          (register_sources make cs d)
  unfolding register_sources each add_source
  register_sources-Succeeds make [] d distinct free = (tt, record { old = λ id h. h; same = refl })
  register_sources-Succeeds make (c ∷ cs) d (new, distinct) (hc, free) =
      let d₁ : Dag P R = record d {
        sources = insert c.id (make c) d.sources;
        source_channels = insert c.id d.made d.source_channels;
        made = suc d.made;
      } in
      rw (register_sources, each, add_source, hc)
        (Succeeds-map _ _ (register_sources make cs d₁)
          (λ d' (here, added). (
            (added.old c.id (insert_own c.id (make c) d.sources), here),
            record {
              old = λ id h. added.old id (insert_keeps c.id id (make c) d.sources h);
              same = added.same;
            },
          ))
          (register_sources-Succeeds make cs d₁ distinct
            (apart c.id (make c) d.sources cs new free)))

  -- A node that is there takes the same types, and the sources are the same.
  record NodesAdded (d d' : Dag P R) : Type 0 where
    pub old :
        (id : String) (ts : List String) → node_types id d ≡ some ts → node_types id d' ≡ some ts
    pub same : d'.sources ≡ d.sources

  node_types-insert :
      (id k : String) (node : ProcessorNode P) (d d' : Dag P R)
      → d'.nodes ≡ insert id node d.nodes
      → node_types k d' ≡ (if str_eq id k then some node.input_event_types else node_types k d)
  unfolding node_types
  node_types-insert id k node d d' e =
      ap (λ m. elim (lookup k m) [ none ↦ none | some n ↦ some n.input_event_types ]) e
      ∙ rw (lookup-insert id k node d.nodes)
          (elim (Bool-cases (str_eq id k)) [ inl eq ↦ rw eq refl | inr ne ↦ rw ne refl ])

  new_keeps :
      (id : String) (node : ProcessorNode P) (d d' : Dag P R)
      → d'.nodes ≡ insert id node d.nodes
      → is_some (lookup id d.nodes) ≡ false
      → (k : String) (ts : List String) → node_types k d ≡ some ts
      → node_types k d' ≡ some ts
  new_keeps id node d d' e free k ts h =
      node_types-insert id k node d d' e ∙ elim (Bool-cases (str_eq id k)) [
        | inl same ↦
            let (old, found, typed) = node_types-some k ts d h in
            let taken = ap (λ j. is_some (lookup j d.nodes)) ((eq_iff id k).0 same) in
            absurd (cc (ap is_some found))
        | inr other ↦ rw other h
      ]

  register_processors-Succeeds :
      (make : Component → P) (spec : Spec) (cs : List Component) (d : Dag P R)
      → AreDistinct (ids cs)
      → All (λ c. is_some (lookup c.id d.nodes) ≡ false) cs
      → Succeeds
          (λ d'.
            All (λ c. node_types c.id d' ≡ some (determine_input_event_types c spec)) cs
            × NodesAdded d d')
          (register_processors make spec cs d)
  unfolding register_processors each add_processor
  register_processors-Succeeds make spec [] d distinct free =
      (tt, record { old = λ id ts h. h; same = refl })
  register_processors-Succeeds make spec (c ∷ cs) d (new, distinct) (hc, free) =
      let types = determine_input_event_types c spec in
      let node : ProcessorNode P = record {
        processor = make c;
        input_channels = (make_channels types d.made []).0;
        output_channels = [];
        input_event_types = types;
      } in
      let d₁ : Dag P R = record d {
        nodes = insert c.id node d.nodes;
        made = (make_channels types d.made []).1;
      } in
      rw (register_processors, each, add_processor, hc)
        (Succeeds-map _ _ (register_processors make spec cs d₁)
          (λ d' (here, added). (
            (
              added.old c.id types
                  (node_types-insert c.id c.id node d d₁ refl ∙ rw (eq_refl c.id) refl),
              here,
            ),
            record {
              old = λ id ts h. added.old id ts (new_keeps c.id node d d₁ refl hc id ts h);
              same = added.same;
            },
          ))
          (register_processors-Succeeds make spec cs d₁ distinct
            (apart c.id node d.nodes cs new free)))

  -- A sink that is there stays, and the nodes and the sources are the same.
  record SinksAdded (d d' : Dag P R) : Type 0 where
    pub old :
        (id : String)
        → is_some (lookup id d.sink_channels) ≡ true
        → is_some (lookup id d'.sink_channels) ≡ true
    pub same_nodes : d'.nodes ≡ d.nodes
    pub same_sources : d'.sources ≡ d.sources

  register_sinks-added :
      (cs : List Component) (d : Dag P R)
      → All (λ c. is_some (lookup c.id (register_sinks cs d).sink_channels) ≡ true) cs
        × SinksAdded d (register_sinks cs d)
  unfolding register_sinks add_sink_channel
  register_sinks-added [] d =
      (tt, record { old = λ id h. h; same_nodes = refl; same_sources = refl })
  register_sinks-added (c ∷ cs) d =
      let (here, added) = register_sinks-added cs (add_sink_channel c.id d) in
      (
        (added.old c.id (insert_own c.id d.made d.sink_channels), here),
        record {
          old = λ id h. added.old id (insert_keeps c.id id d.made d.sink_channels h);
          same_nodes = added.same_nodes;
          same_sources = added.same_sources;
        },
      )

All-mono :
    {A : Type 0} (Q Q' : A → Type 0) (xs : List A) → ((x : A) → Q x → Q' x) → All Q xs → All Q' xs
All-mono Q Q' [] k h = tt
All-mono Q Q' (x ∷ xs) k (hx, h) = (k x hx, All-mono Q Q' xs k h)

free_of_empty :
    {A : Type 0} (m : StringMap A) (cs : List Component)
    → m ≡ []
    → All (λ c. is_some (lookup c.id m) ≡ false) cs
unfolding lookup
free_of_empty m [] e = tt
free_of_empty m (c ∷ cs) e = (ap (λ n. is_some (lookup c.id n)) e, free_of_empty m cs e)

module _ {P R : Type 0} where
  same_types :
      (d d' : Dag P R) → d'.nodes ≡ d.nodes → (id : String) → node_types id d' ≡ node_types id d
  unfolding node_types
  same_types d d' e id =
      ap (λ m. elim (lookup id m) [ none ↦ none | some n ↦ some n.input_event_types ]) e

  Registered-Kept :
      (spec : Spec) (d d' : Dag P R) → Kept d d' → Registered spec d → Registered spec d'
  Registered-Kept spec d d' kept reg = record {
    sources =
        All-mono _ _ spec.sources (λ c h. ap (λ m. is_some (lookup c.id m)) kept.sources ∙ h)
          reg.sources;
    processors = All-mono _ _ spec.processors (λ c h. kept.types c.id ∙ h) reg.processors;
    sinks =
        All-mono _ _ spec.sinks (λ c h. ap (λ m. is_some (lookup c.id m)) kept.sinks ∙ h) reg.sinks;
  }

module _ {P R : Type 0} (make_source : Component → R) (make_processor : Component → P) (spec : Spec)
    (buffer_size : ℕ) where
  pub build-Succeeds :
      AreDistinct (ids spec.sources)
      → AreDistinct (ids spec.processors)
      → Succeeds
          (Registered {P = P} {R = R} spec)
          (build_pipeline_graph make_source make_processor spec (new_dag buffer_size))
  unfolding build_pipeline_graph new_dag
  build-Succeeds distinct distinct' =
      Succeeds-bind _ _ (register_sources make_source spec.sources (new_dag buffer_size)) _
        (register_sources-Succeeds make_source spec.sources (new_dag buffer_size) distinct
          (free_of_empty (new_dag {P = P} {R = R} buffer_size).sources spec.sources refl))
        (λ d₁ (sources, added).
          Succeeds-bind _ _ (register_processors make_processor spec spec.processors d₁) _
            (register_processors-Succeeds make_processor spec spec.processors d₁ distinct'
              (free_of_empty d₁.nodes spec.processors added.same))
            (λ d₂ (processors, added').
              let d₃ = register_sinks spec.sinks d₂ in
              let (sinks, added'') = register_sinks-added spec.sinks d₂ in
              let reg : Registered spec d₃ = record {
                sources =
                    All-mono _ _ spec.sources
                      (λ c h.
                        ap (λ m. is_some (lookup c.id m)) (added''.same_sources ∙ added'.same) ∙ h)
                      sources;
                processors =
                    All-mono _ _ spec.processors
                      (λ c h. same_types d₂ d₃ added''.same_nodes c.id ∙ h) processors;
                sinks = sinks;
              } in
              Succeeds-map (Kept d₃) _ (connect_all spec d₃)
                (λ d kept. Registered-Kept spec d₃ d kept reg) (connect_all-Succeeds d₃ spec reg)))
