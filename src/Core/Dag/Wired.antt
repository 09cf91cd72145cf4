-- ===== src/Core/Dag/Wired.antt =====
-- When the connections of internal/core/dag.go succeed, and what they leave as it is.
use flowctl.Prelude.{
  ℕ, ◌≡◌, refl, sym, ap, ◌∙◌, String, true, Option, none, some, List, Option-cases, Bool-cases, inl,
  inr, str_eq, eq_iff, is_some, if◌then◌else◌, suc,
}
use flowctl.Prelude.Map.{lookup, insert, lookup-insert}
use flowctl.Core.Dag.{
  ProcessorNode, Dag, Built, built, broken, ◌>>=◌, accepts_type, add_output, find_node, write_node,
  input_channel, connect, connect_source_to_processor, connect_processor_to_sink,
}

pub some_eq {ℓ} : {A : Type ℓ} {a b : A} → some a ≡ some b → a ≡ b
some_eq h = cc

-- The call succeeds, with a graph for which `Q` holds.
abbrev pub Succeeds : {A : Type 0} → (A → Type 0) → Built A → Type 0
Succeeds Q (built a) = Q a
Succeeds Q (broken e) = ⊥

pub Succeeds-bind :
    {A B : Type 0} (Q : A → Type 0) (Q' : B → Type 0) (m : Built A) (f : A → Built B)
    → Succeeds Q m
    → ((a : A) → Q a → Succeeds Q' (f a))
    → Succeeds Q' (m >>= f)
Succeeds-bind Q Q' (built a) f h k = k a h
Succeeds-bind Q Q' (broken e) f h k = elim h [ ]

add_output-types :
    {P : Type 0} (type : String) (channel : ℕ) (node : ProcessorNode P)
    → (add_output type channel node).input_event_types ≡ node.input_event_types
unfolding add_output
add_output-types type channel node = refl

module _ {P R : Type 0} where
  unfoldable pub node_types : String → Dag P R → Option (List String)
  node_types id d = elim (lookup id d.nodes) [
    | none ↦ none
    | some node ↦ some node.input_event_types
  ]

  pub node_types-some :
      (id : String) (ts : List String) (d : Dag P R)
      → node_types id d ≡ some ts
      → (node : ProcessorNode P) × (lookup id d.nodes ≡ some node) × (node.input_event_types ≡ ts)
  unfolding node_types
  node_types-some id ts d h = elim (Option-cases (lookup id d.nodes)) [
    | inl missing ↦ absurd (cc (rw (node_types, missing) at h))
    | inr (node, found) ↦ (node, found, some_eq (rw (node_types, found) at h))
  ]

  -- The nodes take the same types, and the sources and the sinks are the same.
  pub record Kept (d d' : Dag P R) : Type 0 where
    pub types : (id : String) → node_types id d' ≡ node_types id d
    pub sources : d'.sources ≡ d.sources
    pub sinks : d'.sink_channels ≡ d.sink_channels

  pub Kept-trans : (a b c : Dag P R) → Kept a b → Kept b c → Kept a c
  Kept-trans a b c h k = record {
    types = λ id. k.types id ∙ h.types id;
    sources = k.sources ∙ h.sources;
    sinks = k.sinks ∙ h.sinks;
  }

  node_types-write :
      (id name : String) (node : ProcessorNode P) (d : Dag P R)
      → node_types name (write_node id node d)
        ≡ (if str_eq id name then some node.input_event_types else node_types name d)
  unfolding write_node node_types
  node_types-write id name node d =
      rw (node_types, lookup-insert id name node d.nodes)
        (elim (Bool-cases (str_eq id name)) [ inl eq ↦ rw eq refl | inr ne ↦ rw ne refl ])

  write_node-Kept :
      (id : String) (old node : ProcessorNode P) (d : Dag P R)
      → lookup id d.nodes ≡ some old
      → node.input_event_types ≡ old.input_event_types
      → Kept d (write_node id node d)
  unfolding write_node node_types
  write_node-Kept id old node d found same = record {
    types = λ name. node_types-write id name node d ∙ (elim (Bool-cases (str_eq id name)) [
      | inl eq ↦
          let old_types : node_types id d ≡ some old.input_event_types =
            rw (node_types, found) refl in
          let moved = ap (λ k. node_types k d) ((eq_iff id name).0 eq) in
          rw eq (ap some same ∙ (sym old_types ∙ moved))
      | inr ne ↦ rw ne refl
    ]);
    sources = refl;
    sinks = refl;
  }

  Kept-made : (d d' : Dag P R) → Kept d d' → Kept d (record d' { made = suc d.made })
  unfolding node_types
  Kept-made d d' h = record { types = h.types; sources = h.sources; sinks = h.sinks }

  input_channel-Kept :
      (id : String) (node : ProcessorNode P) (type : String) (d : Dag P R)
      → lookup id d.nodes ≡ some node
      → Kept d (input_channel id node type d).1
  unfolding input_channel node_types
  input_channel-Kept id node type d found = elim (Option-cases (lookup type node.input_channels)) [
    | inl missing ↦
        rw (input_channel, missing)
          (let new = record node { input_channels = insert type d.made node.input_channels } in
            Kept-made d (write_node id new d) (write_node-Kept id node new d found refl))
    | inr (channel, there) ↦
        rw (input_channel, there) (record { types = λ name. refl; sources = refl; sinks = refl })
  ]

  pub connect-Succeeds :
      (from to type : String) (ts us : List String) (d : Dag P R)
      → node_types from d ≡ some ts
      → node_types to d ≡ some us
      → accepts_type us type ≡ true
      → Succeeds (Kept d) (connect from to type d)
  unfolding connect
  connect-Succeeds from to type ts us d source target accepted =
      let (node, found, same) = node_types-some from ts d source in
      let (node', found', same') = node_types-some to us d target in
      let kept = input_channel-Kept to node' type d found' in
      let (channel, d') = input_channel to node' type d in
      let (last, here, same'') = node_types-some from ts d' (kept.types from ∙ source) in
      rw (connect, find_node, found, found', ap (λ t. accepts_type t type) same' ∙ accepted, here)
        (Kept-trans d d' (write_node from (add_output type channel last) d') kept (
          write_node-Kept from last (add_output type channel last) d' here
            (add_output-types type channel last)))

  pub connect_source-Succeeds :
      (source processor type : String) (us : List String) (d : Dag P R)
      → is_some (lookup source d.sources) ≡ true
      → node_types processor d ≡ some us
      → accepts_type us type ≡ true
      → Succeeds (Kept d) (connect_source_to_processor source processor type d)
  unfolding connect_source_to_processor node_types
  connect_source-Succeeds source processor type us d there target accepted =
      let (node, found, same) = node_types-some processor us d target in
      rw
        (
          connect_source_to_processor,
          find_node,
          there,
          found,
          ap (λ t. accepts_type t type) same ∙ accepted,
        )
        (record { types = λ name. refl; sources = refl; sinks = refl })

  pub connect_sink-Succeeds :
      (processor sink type : String) (us : List String) (d : Dag P R)
      → node_types processor d ≡ some us
      → is_some (lookup sink d.sink_channels) ≡ true
      → Succeeds (Kept d) (connect_processor_to_sink processor sink type d)
  unfolding connect_processor_to_sink
  connect_sink-Succeeds processor sink type us d source there =
      let (node, found, same) = node_types-some processor us d source in
      elim (Option-cases (lookup sink d.sink_channels)) [
        | inl missing ↦ absurd (cc (rw missing at there))
        | inr (channel, here) ↦
            rw (connect_processor_to_sink, find_node, found, here)
              (write_node-Kept processor node (add_output type channel node) d found
                (add_output-types type channel node))
      ]
