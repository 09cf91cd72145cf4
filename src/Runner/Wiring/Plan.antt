-- ===== src/Runner/Wiring/Plan.antt =====
-- The edges that WireAll of internal/runner/stream_orchestrator.go is to launch.
use flowctl.Prelude.{
  String, ◌≡◌, refl, ap, Bool, true, false, ◌&&◌, not, List, [], ◌∷◌, ◌++◌, map, if◌then◌else◌,
  str_eq,
}
use flowctl.Pipeline.Model.{Component}
use flowctl.Prelude.Map.{read}
use flowctl.Pipeline.Loader.{has_id}
use flowctl.Runner.Wiring.{
  Edge, source_edge, processor_edge, sink_edge, direct_edge, chain_edges, last_id,
}

-- A sink without the event types that it accepts.
abbrev pub forget : String × List String → String × List String
forget (id, types) = (id, [])

-- The sinks that a source's events go to: all of them, or, where there is no processor, those that have
-- the source among their inputs.
abbrev pub targets : Bool → String → List Component → List (String × List String)
targets direct source [] = []
targets direct source (c ∷ cs) =
    if direct && not (has_id c.inputs source)
    then targets direct source cs
    else (c.id, []) ∷ targets direct source cs

-- An edge without the event types that its sinks accept.
abbrev pub shape : Edge → Edge
shape (source_edge from to bounded) = source_edge from to bounded
shape (processor_edge from to) = processor_edge from to
shape (sink_edge from sinks) = sink_edge from (map forget sinks)
shape (direct_edge from bounded sinks) = direct_edge from bounded (map forget sinks)

abbrev pub pairs : {A : Type 0} → List A → List A → List (A × A)
pairs [] ys = []
pairs (x ∷ xs) [] = []
pairs (x ∷ xs) (y ∷ ys) = (x, y) ∷ pairs xs ys

abbrev pub rest : {A : Type 0} → List A → List A
rest [] = []
rest (x ∷ xs) = xs

-- An edge for each processor and the next one.
abbrev pub links : List Component → List Edge
links ps = map (λ (p : Component × Component). processor_edge p.0.id p.1.id) (pairs ps (rest ps))

abbrev pub final_id : Component → List Component → String
final_id p [] = p.id
final_id p (q ∷ ps) = final_id q ps

abbrev pub is_bounded : Component → Bool
is_bounded source = str_eq (read "FLOWCTL_SOURCE_BOUNDED" source.env) "true"

-- The edges of one source: directly to its sinks, or to the first processor, from each processor to the
-- next, and from the last one to the sinks.
abbrev pub source_plan : List Component → List Component → Component → List Edge
source_plan [] sinks source =
    direct_edge source.id (is_bounded source) (targets true source.id sinks) ∷ []
source_plan (p ∷ ps) sinks source =
    (source_edge source.id p.id (is_bounded source) ∷ links (p ∷ ps))
    ++ (sink_edge (final_id p ps) (targets false source.id sinks) ∷ [])

abbrev pub plan : List Component → List Component → List Component → List Edge
plan processors sinks [] = []
plan processors sinks (source ∷ sources) =
    source_plan processors sinks source ++ plan processors sinks sources

pub map-shape-append : (xs ys : List Edge) → map shape (xs ++ ys) ≡ map shape xs ++ map shape ys
map-shape-append [] ys = refl
map-shape-append (x ∷ xs) ys = ap (λ zs. shape x ∷ zs) (map-shape-append xs ys)

pub append_assoc : (xs ys zs : List Edge) → (xs ++ ys) ++ zs ≡ xs ++ (ys ++ zs)
append_assoc [] ys zs = refl
append_assoc (x ∷ xs) ys zs = ap (λ ws. x ∷ ws) (append_assoc xs ys zs)

pub map-shape-chain_edges : (ps : List Component) → map shape (chain_edges ps) ≡ links ps
unfolding chain_edges
map-shape-chain_edges [] = refl
map-shape-chain_edges (p ∷ []) = refl
map-shape-chain_edges (p ∷ q ∷ ps) =
    ap (λ es. processor_edge p.id q.id ∷ es) (map-shape-chain_edges (q ∷ ps))

pub last_id-final : (p : Component) (ps : List Component) → last_id p.id ps ≡ final_id p ps
last_id-final p [] = refl
last_id-final p (q ∷ ps) = last_id-final q ps
