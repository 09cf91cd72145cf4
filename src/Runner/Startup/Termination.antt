-- ===== src/Runner/Startup/Termination.antt =====
-- When the start of the pipelines ends (startPipeline in internal/runner/pipeline_runner.go): what the
-- dependencies must be for enough fuel to be there, and where none is enough.
use flowctl.Prelude.{
  ℕ, zero, suc, ◌<◌, String, ◌≡◌, refl, Bool, true, false, ◌&&◌, not, Option, List, [], ◌∷◌, str_eq,
  eq_iff, eq_refl, arith, All, if◌then◌else◌, Bool-cases, Option-cases, inl, inr,
}
use mathlib.Core.List.{Memᴰ}
use flowctl.Pipeline.Model.{Component}
use flowctl.Pipeline.Loader.{has_id}
use flowctl.Runner.Startup.{
  Startup, running, failed, exhausted, after, launch, start_matches, start_dependencies,
  start_pipeline, start_all,
}

abbrev pub finishes : {S : Type 0} → Startup S → Bool
finishes (running s started) = true
finishes (failed s e) = true
finishes exhausted = false

finishes-after :
    {S : Type 0} (r : Startup S) (next : S → List String → Startup S)
    → finishes r ≡ true
    → ((s : S) (m : List String) → finishes (next s m) ≡ true)
    → finishes (after r next) ≡ true
finishes-after (running s m) next h k = k s m
finishes-after (failed s e) next h k = refl
finishes-after exhausted next h k = h

-- Every dependency of a pipeline has a lower rank, if it is the identifier of one.
abbrev pub Descends : (String → ℕ) → Component → Type 0
Descends rank p = All (λ d. rank d < rank p.id) p.depends_on

below :
    (rank : String → ℕ) (fuel : ℕ) (id : String) (ds : List String)
    → rank id < suc fuel
    → All (λ d. rank d < rank id) ds
    → All (λ d. rank d < fuel) ds
below rank fuel id [] low h = tt
below rank fuel id (d ∷ ds) low (l, h) = (omega (arith, l, low), below rank fuel id ds low h)

module _ {S : Type 0} (pipelines : List Component) (rank : String → ℕ) (n : ℕ)
    (start : Component → S → List String → Startup S)
    (starts : (p : Component)
      → Memᴰ p pipelines
      → rank p.id < n
      → (s : S) (m : List String) → finishes (start p s m) ≡ true) where
  start_matches-finishes :
      (d : String) (ps : List Component)
      → ((p : Component) → Memᴰ p ps → Memᴰ p pipelines)
      → rank d < n
      → (s : S) (m : List String) → finishes (start_matches pipelines start d ps s m) ≡ true
  unfolding start_matches
  start_matches-finishes d [] within low s m = refl
  start_matches-finishes d (p ∷ ps) within low s m =
      finishes-after (if str_eq p.id d && not (has_id m p.id) then start p s m else running s m)
        (λ s' m'. start_matches pipelines start d ps s' m')
        (elim (Bool-cases (str_eq p.id d)) [
          | inr other ↦ rw other refl
          | inl same ↦ elim (Bool-cases (has_id m p.id)) [
            | inl known ↦ rw (same, known) refl
            | inr new ↦
                rw (same, new)
                  (starts p (within p (Memᴰ.head refl)) (rw ((eq_iff p.id d).0 same) low) s m)
          ]
        ])
        (λ s' m'. start_matches-finishes d ps (λ q h. within q (Memᴰ.tail h)) low s' m')

  start_dependencies-finishes :
      (ds : List String)
      → All (λ d. rank d < n) ds
      → (s : S) (m : List String) → finishes (start_dependencies pipelines start ds s m) ≡ true
  unfolding start_dependencies
  start_dependencies-finishes [] low s m = refl
  start_dependencies-finishes (d ∷ ds) (l, low) s m =
      finishes-after (start_matches pipelines start d pipelines s m)
        (λ s' m'. start_dependencies pipelines start ds s' m')
        (start_matches-finishes d pipelines (λ p h. h) l s m)
        (λ s' m'. start_dependencies-finishes ds low s' m')

exhausted_dependencies :
    {S : Type 0} (p : Component) (ps : List Component) (ds rest : List String)
    (start : Component → S → List String → Startup S) (s : S) (m : List String)
    → ds ≡ p.id ∷ rest
    → has_id m p.id ≡ false
    → start p s m ≡ exhausted
    → start_dependencies (p ∷ ps) start ds s m ≡ exhausted
unfolding start_dependencies start_matches
exhausted_dependencies p ps ds rest start s m self new endless =
    rw self (rw (eq_refl p.id, new, endless) refl)

module _ {S : Type 0} (start_component : String → Component → S → S × Option String) where
  launch-finishes :
      (role : String) (p : Component) (s : S) (m : List String)
      → finishes (launch start_component role p s m) ≡ true
  unfolding launch
  launch-finishes role p s m = elim (Option-cases (start_component role p s).1) [
    | inl up ↦ rw (up, launch) refl
    | inr (e, down) ↦ rw (down, launch) refl
  ]

  module _ (pipelines : List Component) where
    module _ (rank : String → ℕ)
        (descends : (p : Component) → Memᴰ p pipelines → Descends rank p) where
      start_pipeline-finishes :
          (fuel : ℕ) (p : Component)
          → Memᴰ p pipelines
          → rank p.id < fuel
          → (s : S) (m : List String)
          → finishes (start_pipeline start_component pipelines fuel p s m) ≡ true
      unfolding start_pipeline
      start_pipeline-finishes zero p here low s m = absurd (omega (arith, low))
      start_pipeline-finishes (suc fuel) p here low s m = elim (Bool-cases (has_id m p.id)) [
        | inl known ↦ rw (known, start_pipeline) refl
        | inr new ↦
            rw (new, start_pipeline)
              (finishes-after
                (start_dependencies pipelines (start_pipeline start_component pipelines fuel)
                  p.depends_on s m)
                (λ s' m'. launch start_component "pipeline" p s' (p.id ∷ m'))
                (start_dependencies-finishes pipelines rank fuel
                  (start_pipeline start_component pipelines fuel) (start_pipeline-finishes fuel)
                  p.depends_on (below rank fuel p.id p.depends_on low (descends p here)) s m)
                (λ s' m'. launch-finishes "pipeline" p s' (p.id ∷ m')))
      ]

      start_list-finishes :
          (fuel : ℕ)
          → ((p : Component) → Memᴰ p pipelines → rank p.id < fuel)
          → (ps : List Component) → ((p : Component) → Memᴰ p ps → Memᴰ p pipelines)
          → (s : S) (m : List String)
          → finishes (start_all start_component pipelines fuel ps s m) ≡ true
      unfolding start_all
      start_list-finishes fuel enough [] within s m = refl
      start_list-finishes fuel enough (p ∷ ps) within s m =
          finishes-after (start_pipeline start_component pipelines fuel p s m)
            (λ s' m'. start_all start_component pipelines fuel ps s' m')
            (start_pipeline-finishes fuel p (within p (Memᴰ.head refl))
              (enough p (within p (Memᴰ.head refl))) s m)
            (λ s' m'. start_list-finishes fuel enough ps (λ q h. within q (Memᴰ.tail h)) s' m')

      -- If every dependency of a pipeline has a lower rank than the pipeline, and the fuel is more than
      -- the rank of every pipeline, the start of the pipelines ends: with all of them running, or with
      -- the error of one that could not be started.
      pub start_all-finishes :
          (fuel : ℕ)
          → ((p : Component) → Memᴰ p pipelines → rank p.id < fuel)
          → (s : S) → finishes (start_all start_component pipelines fuel pipelines s []) ≡ true
      start_all-finishes fuel enough s = start_list-finishes fuel enough pipelines (λ p h. h) s []

  module _ (p : Component) (ps : List Component) (ds : List String)
      (self : p.depends_on ≡ p.id ∷ ds) where
    start_pipeline_endless :
        (fuel : ℕ) (s : S) (m : List String)
        → has_id m p.id ≡ false
        → start_pipeline start_component (p ∷ ps) fuel p s m ≡ exhausted
    unfolding start_pipeline
    start_pipeline_endless zero s m new = refl
    start_pipeline_endless (suc fuel) s m new =
        rw
          (
            new,
            exhausted_dependencies p ps p.depends_on ds
                (start_pipeline start_component (p ∷ ps) fuel) s m self new
                (start_pipeline_endless fuel s m new),
            start_pipeline,
          )
          refl

    -- A first pipeline whose first dependency is itself is started by no number of nested calls, however
    -- large: each one calls for the same pipeline again.
    pub start_all_endless :
        (fuel : ℕ) (s : S) → start_all start_component (p ∷ ps) fuel (p ∷ ps) s [] ≡ exhausted
    unfolding start_all
    start_all_endless fuel s = rw (start_pipeline_endless fuel s [] refl) refl
