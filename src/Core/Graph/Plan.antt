-- ===== src/Core/Graph/Plan.antt =====
-- The event types that buildPipelineGraph of internal/core/pipeline_dag.go gives a processor take in every
-- event type of its inputs, whichever way it finds them.
use mathlib.Core.Path.{subst}
use flowctl.Prelude.{
  ◌≡◌, refl, ◌∙◌, sym, String, true, ◌||◌, some, List, [], ◌∷◌, ◌++◌, Bool-cases, inl, inr, str_eq,
  eq_iff, arith, All, eq_refl,
}
use flowctl.Prelude.Map.{StringMap, lookup, insert, lookup-insert}
use flowctl.Pipeline.Model.{Component, Spec}
use flowctl.Pipeline.Loader.{has_id}
use flowctl.Core.Graph.{types_of, input_types, index_components}
use flowctl.Core.Dag.Wired.{some_eq}

pub has_id-append :
    (xs ys : List String) (t : String) → has_id (xs ++ ys) t ≡ (has_id xs t || has_id ys t)
has_id-append [] ys t = refl
has_id-append (x ∷ xs) ys t = ground (arith, has_id-append xs ys t)

-- The elements of a list are among those of a list that has them all.
has_own :
    (xs all : List String)
    → ((t : String) → has_id xs t ≡ true → has_id all t ≡ true)
    → All (λ t. has_id all t ≡ true) xs
has_own [] all h = tt
has_own (x ∷ xs) all h = (h x (rw (eq_refl x) refl), has_own xs all (λ t k. h t (ground arith)))

pub own_All : (xs : List String) → All (λ t. has_id xs t ≡ true) xs
own_All xs = has_own xs xs (λ t k. k)

-- All output types of the component are among those that are found by its identifier.
abbrev pub Typed : List Component → Component → Type 0
Typed all c =
    (t : String) → has_id c.output_event_types t ≡ true → has_id (types_of c.id all) t ≡ true

types_of-own :
    (c : Component) (cs : List Component) (t : String)
    → has_id c.output_event_types t ≡ true
    → has_id (types_of c.id (c ∷ cs)) t ≡ true
unfolding types_of
types_of-own c cs t h =
    rw (eq_refl c.id, has_id-append c.output_event_types (types_of c.id cs) t, h) refl

types_of-later :
    (c : Component) (cs : List Component) (id t : String)
    → has_id (types_of id cs) t ≡ true
    → has_id (types_of id (c ∷ cs)) t ≡ true
unfolding types_of
types_of-later c cs id t h = elim (Bool-cases (str_eq c.id id)) [
  | inl same ↦ rw (same, has_id-append c.output_event_types (types_of id cs) t, h) (ground arith)
  | inr other ↦ rw other h
]

types_of-Typed :
    (cs all : List Component)
    → ((id t : String) → has_id (types_of id cs) t ≡ true → has_id (types_of id all) t ≡ true)
    → All (Typed all) cs
types_of-Typed [] all h = tt
types_of-Typed (c ∷ cs) all h = (
  λ t own. h c.id t (types_of-own c cs t own),
  types_of-Typed cs all (λ id t k. h id t (types_of-later c cs id t k)),
)

pub own_Typed : (cs : List Component) → All (Typed cs) cs
own_Typed cs = types_of-Typed cs cs (λ id t h. h)

pub input_types-has :
    (spec : Spec) (inputs : List String) (input t : String)
    → has_id inputs input ≡ true
    → (has_id (types_of input spec.sources) t || has_id (types_of input spec.processors) t) ≡ true
    → has_id (input_types spec inputs) t ≡ true
unfolding input_types
input_types-has spec [] input t h k = cc
input_types-has spec (x ∷ inputs) input t h k =
    let own = has_id-append (types_of x spec.sources) (types_of x spec.processors) t in
    rw
      (
        has_id-append (types_of x spec.sources ++ types_of x spec.processors)
            (input_types spec inputs) t,
        own,
      )
      (elim (Bool-cases (str_eq x input)) [
        | inl same ↦ rw ((eq_iff x input).0 same, k) refl
        | inr other ↦ rw (input_types-has spec inputs input t (ground arith) k) (ground arith)
      ])

-- A component that the index has is one of the list, under its own identifier.
index-All :
    (Q : Component → Type 0) (cs : List Component) (index : StringMap Component) (id : String)
    (c : Component)
    → All Q cs
    → ((k : String) (x : Component) → lookup k index ≡ some x → Q x × (x.id ≡ k))
    → lookup id (index_components cs index) ≡ some c
    → Q c × (c.id ≡ id)
unfolding index_components
index-All Q [] index id c h base found = base id c found
index-All Q (x ∷ xs) index id c (hx, h) base found =
    index-All Q xs (insert x.id x index) id c h
      (λ k y at.
        let at' = sym (lookup-insert x.id k x index) ∙ at in
        elim (Bool-cases (str_eq x.id k)) [
          | inl same ↦
              let e = some_eq (rw same at at') in
              subst (λ (z : Component). Q z × (z.id ≡ k)) e (hx, (eq_iff x.id k).0 same)
          | inr other ↦ base k y (rw other at at')
        ])
      found

pub indexed :
    (Q : Component → Type 0) (cs : List Component) (id : String) (c : Component)
    → All Q cs
    → lookup id (index_components cs []) ≡ some c
    → Q c × (c.id ≡ id)
unfolding lookup
indexed Q cs id c h found = index-All Q cs [] id c h (λ k x at. absurd (cc at)) found
