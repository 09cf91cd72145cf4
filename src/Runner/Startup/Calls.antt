-- ===== src/Runner/Startup/Calls.antt =====
-- The calls of the orchestrator's StartComponent that startPipeline in
-- internal/runner/pipeline_runner.go makes.
use flowctl.Prelude.{
  ℕ, zero, suc, String, ◌≡◌, refl, ap, true, ◌&&◌, not, Option, List, [], ◌∷◌, str_eq, All,
  if◌then◌else◌, Bool-cases, Option-cases, inl, inr,
}
use flowctl.Pipeline.Model.{Component}
use flowctl.Pipeline.Loader.{has_id}
use flowctl.Runner.Startup.{
  Startup, running, failed, exhausted, after, launch, start_matches, start_dependencies,
  start_pipeline, start_all,
}
use flowctl.Runner.Startup.Order.{IsOrdered, start_all-bookkept}

-- StartComponent, with the identifiers that it was called with, the last one first.
abbrev pub logged :
    {S : Type 0}
    → (String → Component → S → S × Option String)
    → String
    → Component
    → List String × S
    → (List String × S) × Option String
logged start_component role c (calls, s) =
    let (s', e) = start_component role c s in ((c.id ∷ calls, s'), e)

-- The calls so far are what has been marked as started.
abbrev Agrees : {S : Type 0} → Startup (List String × S) → Type 0
Agrees (running (calls, s) started) = calls ≡ started
Agrees (failed s e) = Unit
Agrees exhausted = Unit

-- A step that keeps the agreement.
abbrev Keeps : {S : Type 0} → (List String × S → List String → Startup (List String × S)) → Type 0
Keeps {S} step =
    (calls : List String) (s : S) (m : List String) → calls ≡ m → Agrees (step (calls, s) m)

Agrees-after :
    {S : Type 0} (r : Startup (List String × S))
    (next : List String × S → List String → Startup (List String × S))
    → Agrees r
    → Keeps next
    → Agrees (after r next)
Agrees-after (running (calls, s) m) next h k = k calls s m h
Agrees-after (failed s e) next h k = tt
Agrees-after exhausted next h k = tt

module _ {S : Type 0} (pipelines : List Component)
    (start : Component → List String × S → List String → Startup (List String × S))
    (starts : (p : Component) → Keeps (start p)) where
  start_matches-Agrees :
      (d : String) (ps : List Component) → Keeps (start_matches pipelines start d ps)
  unfolding start_matches
  start_matches-Agrees d [] calls s m h = h
  start_matches-Agrees d (p ∷ ps) calls s m h =
      Agrees-after
        (if str_eq p.id d && not (has_id m p.id)
          then start p (calls, s) m
          else running (calls, s) m)
        (λ s' m'. start_matches pipelines start d ps s' m')
        (elim (Bool-cases (str_eq p.id d && not (has_id m p.id))) [
          | inl needed ↦ rw needed (starts p calls s m h)
          | inr other ↦ rw other h
        ])
        (start_matches-Agrees d ps)

  start_dependencies-Agrees : (ds : List String) → Keeps (start_dependencies pipelines start ds)
  unfolding start_dependencies
  start_dependencies-Agrees [] calls s m h = h
  start_dependencies-Agrees (d ∷ ds) calls s m h =
      Agrees-after (start_matches pipelines start d pipelines (calls, s) m)
        (λ s' m'. start_dependencies pipelines start ds s' m')
        (start_matches-Agrees d pipelines calls s m h) (start_dependencies-Agrees ds)

module _ {S : Type 0} (start_component : String → Component → S → S × Option String)
    (pipelines : List Component) where
  launch-Agrees :
      (p : Component) (calls : List String) (s : S) (m : List String)
      → calls ≡ m
      → Agrees (launch (logged start_component) "pipeline" p (calls, s) (p.id ∷ m))
  unfolding launch
  launch-Agrees p calls s m h = elim (Option-cases (start_component "pipeline" p s).1) [
    | inl up ↦ rw (launch, up) (ap (λ ids. p.id ∷ ids) h)
    | inr (e, down) ↦ rw (launch, down) tt
  ]

  start_pipeline-Agrees :
      (fuel : ℕ) (p : Component) → Keeps (start_pipeline (logged start_component) pipelines fuel p)
  unfolding start_pipeline
  start_pipeline-Agrees zero p calls s m h = tt
  start_pipeline-Agrees (suc fuel) p calls s m h = elim (Bool-cases (has_id m p.id)) [
    | inl known ↦ rw (known, start_pipeline) h
    | inr new ↦
        rw (new, start_pipeline)
          (Agrees-after
            (start_dependencies pipelines (start_pipeline (logged start_component) pipelines fuel)
              p.depends_on (calls, s) m)
            (λ s' m'. launch (logged start_component) "pipeline" p s' (p.id ∷ m'))
            (start_dependencies-Agrees pipelines
              (start_pipeline (logged start_component) pipelines fuel) (start_pipeline-Agrees fuel)
              p.depends_on calls s m h)
            (launch-Agrees p))
  ]

  start_all-Agrees :
      (fuel : ℕ) (ps : List Component)
      → Keeps (start_all (logged start_component) pipelines fuel ps)
  unfolding start_all
  start_all-Agrees fuel [] calls s m h = h
  start_all-Agrees fuel (p ∷ ps) calls s m h =
      Agrees-after (start_pipeline (logged start_component) pipelines fuel p (calls, s) m)
        (λ s' m'. start_all (logged start_component) pipelines fuel ps s' m')
        (start_pipeline-Agrees fuel p calls s m h) (start_all-Agrees fuel ps)

  -- If the start of all pipelines comes to its end without an error, StartComponent has been called
  -- for each pipeline, and for each one only after the calls for all its dependencies among the
  -- pipelines.
  pub start_all-IsOrdered :
      (fuel : ℕ) (s s' : S) (calls started : List String)
      → start_all (logged start_component) pipelines fuel pipelines ([], s) []
        ≡ running (calls, s') started
      → IsOrdered pipelines calls × All (λ p. has_id calls p.id ≡ true) pipelines
  start_all-IsOrdered fuel s s' calls started h =
      let same = rw h at (start_all-Agrees fuel pipelines [] s [] refl) in
      rw same
        (start_all-bookkept pipelines (logged start_component) fuel ([], s) (calls, s') started h)
