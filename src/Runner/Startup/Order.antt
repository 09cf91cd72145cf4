-- ===== src/Runner/Startup/Order.antt =====
-- The order in which pipelines start (startPipeline in internal/runner/pipeline_runner.go).
use flowctl.Prelude.{
  ℕ, zero, suc, String, ◌≡◌, refl, true, ◌&&◌, not, Option, List, [], ◌∷◌, map, str_eq, eq_iff,
  eq_refl, arith, All, if◌then◌else◌, Bool-cases, Option-cases, inl, inr,
}
use mathlib.Core.List.{Memᴰ}
use flowctl.Pipeline.Model.{Component}
use flowctl.Pipeline.Loader.{has_id}
use flowctl.Runner.Startup.{
  Startup, running, failed, exhausted, after, launch, start_matches, start_dependencies,
  start_pipeline, start_all,
}

-- Every identifier of the first list is in the second.
abbrev Within : List String → List String → Type 0
Within ids all = (id : String) → has_id ids id ≡ true → has_id all id ≡ true

-- What holds of the pipelines started, if the start did not fail.
abbrev Holds : {S : Type 0} → (List String → Type 0) → Startup S → Type 0
Holds P (running s started) = P started
Holds P (failed s e) = Unit
Holds P exhausted = Unit

Holds-after :
    {S : Type 0} (P Q : List String → Type 0) (r : Startup S) (next : S → List String → Startup S)
    → Holds P r
    → ((s : S) (m : List String) → P m → Holds Q (next s m))
    → Holds Q (after r next)
Holds-after P Q (running s m) next h k = k s m h
Holds-after P Q (failed s e) next h k = tt
Holds-after P Q exhausted next h k = tt

Holds-map :
    {S : Type 0} (P Q : List String → Type 0) (r : Startup S)
    → ((m : List String) → P m → Q m)
    → Holds P r
    → Holds Q r
Holds-map P Q (running s m) k h = k m h
Holds-map P Q (failed s e) k h = tt
Holds-map P Q exhausted k h = tt

abbrev ids_of : List Component → List String
ids_of ps = map (λ p. p.id) ps

module _ (pipelines : List Component) where
  -- The dependencies among the pipelines are all in the list.
  abbrev pub AreMet : List String → List String → Type 0
  AreMet started ds = All (λ d. has_id (ids_of pipelines) d ≡ true → has_id started d ≡ true) ds

  -- Each identifier is that of a pipeline whose dependencies come after it: started before it.
  abbrev pub IsOrdered : List String → Type 0
  IsOrdered [] = Unit
  IsOrdered (id ∷ started) =
      ((p : Component) × Memᴰ p pipelines × (p.id ≡ id) × AreMet started p.depends_on)
      × IsOrdered started

  -- What a start adds: `Q` holds of it, the order stays, and nothing is lost.
  abbrev Extends : List String → (List String → Type 0) → List String → Type 0
  Extends started Q m = IsOrdered m × Within started m × Q m

  AreMet-Within : (m m' ds : List String) → Within m m' → AreMet m ds → AreMet m' ds
  AreMet-Within m m' [] w h = tt
  AreMet-Within m m' (d ∷ ds) w (k, h) = (λ e. w d (k e), AreMet-Within m m' ds w h)

  module _ {S : Type 0} (start : Component → S → List String → Startup S)
      (starts : (p : Component)
        → Memᴰ p pipelines
        → (s : S) (m : List String) → IsOrdered m
        → Holds (Extends m (λ m'. has_id m' p.id ≡ true)) (start p s m)) where
    match-Holds :
        (d : String) (p : Component) (s : S) (m : List String)
        → Memᴰ p pipelines
        → IsOrdered m
        → Holds
            (Extends m (λ m'. str_eq p.id d ≡ true → has_id m' d ≡ true))
            (if str_eq p.id d && not (has_id m p.id) then start p s m else running s m)
    match-Holds d p s m here o = elim (Bool-cases (str_eq p.id d)) [
      | inr other ↦ rw other (o, λ id h. h, λ e. ground (arith, e, other))
      | inl same ↦ elim (Bool-cases (has_id m p.id)) [
        | inl known ↦ rw (same, known) (o, λ id h. h, λ e. rw (← ((eq_iff p.id d).0 same)) known)
        | inr new ↦
            rw (same, new)
              (Holds-map (Extends m (λ m'. has_id m' p.id ≡ true)) _ (start p s m)
                (λ m' (o', w, k). (o', w, λ e. rw (← ((eq_iff p.id d).0 same)) k))
                (starts p here s m o))
      ]
    ]

    start_matches-Holds :
        (d : String) (ps : List Component)
        → ((p : Component) → Memᴰ p ps → Memᴰ p pipelines)
        → (s : S) (m : List String) → IsOrdered m
        → Holds
            (Extends m (λ m'. has_id (ids_of ps) d ≡ true → has_id m' d ≡ true))
            (start_matches pipelines start d ps s m)
    unfolding start_matches
    start_matches-Holds d [] within s m o = (o, λ id h. h, λ h. ground (arith, h))
    start_matches-Holds d (p ∷ ps) within s m o =
        Holds-after (Extends m (λ m'. str_eq p.id d ≡ true → has_id m' d ≡ true))
          (Extends m (λ m'. has_id (ids_of (p ∷ ps)) d ≡ true → has_id m' d ≡ true))
          (if str_eq p.id d && not (has_id m p.id) then start p s m else running s m)
          (λ s' m'. start_matches pipelines start d ps s' m')
          (match-Holds d p s m (within p (Memᴰ.head refl)) o)
          (λ s' m' (o', w, here).
            Holds-map (Extends m' (λ m''. has_id (ids_of ps) d ≡ true → has_id m'' d ≡ true)) _
              (start_matches pipelines start d ps s' m')
              (λ m'' (o'', w', later). (
                o'',
                λ id h. w' id (w id h),
                λ e. elim (Bool-cases (str_eq p.id d)) [
                  | inl same ↦ w' d (here same)
                  | inr other ↦ later (ground (arith, e, other))
                ],
              ))
              (start_matches-Holds d ps (λ q h. within q (Memᴰ.tail h)) s' m' o'))

    start_dependencies-Holds :
        (ds : List String) (s : S) (m : List String)
        → IsOrdered m
        → Holds (Extends m (λ m'. AreMet m' ds)) (start_dependencies pipelines start ds s m)
    unfolding start_dependencies
    start_dependencies-Holds [] s m o = (o, λ id h. h, tt)
    start_dependencies-Holds (d ∷ ds) s m o =
        Holds-after (Extends m (λ m'. has_id (ids_of pipelines) d ≡ true → has_id m' d ≡ true))
          (Extends m (λ m'. AreMet m' (d ∷ ds))) (start_matches pipelines start d pipelines s m)
          (λ s' m'. start_dependencies pipelines start ds s' m')
          (start_matches-Holds d pipelines (λ p h. h) s m o)
          (λ s' m' (o', w, met).
            Holds-map (Extends m' (λ m''. AreMet m'' ds)) _
              (start_dependencies pipelines start ds s' m')
              (λ m'' (o'', w', rest). (o'', λ id h. w' id (w id h), (λ e. w' d (met e), rest)))
              (start_dependencies-Holds ds s' m' o'))

  module _ {S : Type 0} (start_component : String → Component → S → S × Option String) where
    launch-Holds :
        (p : Component) (s : S) (m : List String)
        → Memᴰ p pipelines
        → IsOrdered m
        → AreMet m p.depends_on
        → Holds
            (Extends m (λ m'. has_id m' p.id ≡ true))
            (launch start_component "pipeline" p s (p.id ∷ m))
    unfolding launch
    launch-Holds p s m here o met = elim (Option-cases (start_component "pipeline" p s).1) [
      | inl up ↦
          rw (up, launch)
            (((p, here, refl, met), o), λ id h. ground (arith, h), rw (eq_refl p.id) refl)
      | inr (e, down) ↦ rw (down, launch) tt
    ]

    start_pipeline-Holds :
        (fuel : ℕ) (p : Component)
        → Memᴰ p pipelines
        → (s : S) (m : List String) → IsOrdered m
        → Holds
            (Extends m (λ m'. has_id m' p.id ≡ true))
            (start_pipeline start_component pipelines fuel p s m)
    unfolding start_pipeline
    start_pipeline-Holds zero p here s m o = tt
    start_pipeline-Holds (suc fuel) p here s m o = elim (Bool-cases (has_id m p.id)) [
      | inl known ↦ rw (known, start_pipeline) (o, λ id h. h, known)
      | inr new ↦
          let deps =
            start_dependencies pipelines (start_pipeline start_component pipelines fuel)
              p.depends_on s m in
          rw (new, start_pipeline)
            (Holds-after (Extends m (λ m'. AreMet m' p.depends_on))
              (Extends m (λ m'. has_id m' p.id ≡ true)) deps
              (λ s' m'. launch start_component "pipeline" p s' (p.id ∷ m'))
              (start_dependencies-Holds (start_pipeline start_component pipelines fuel)
                (start_pipeline-Holds fuel) p.depends_on s m o)
              (λ s' m' (o', w, met).
                Holds-map (Extends m' (λ m''. has_id m'' p.id ≡ true)) _
                  (launch start_component "pipeline" p s' (p.id ∷ m'))
                  (λ m'' (o'', w', k). (o'', λ id h. w' id (w id h), k))
                  (launch-Holds p s' m' here o' met)))
    ]

    start_all-Holds :
        (fuel : ℕ) (ps : List Component)
        → ((p : Component) → Memᴰ p ps → Memᴰ p pipelines)
        → (s : S) (m : List String) → IsOrdered m
        → Holds
            (Extends m (λ m'. All (λ p. has_id m' p.id ≡ true) ps))
            (start_all start_component pipelines fuel ps s m)
    unfolding start_all
    start_all-Holds fuel [] within s m o = (o, λ id h. h, tt)
    start_all-Holds fuel (p ∷ ps) within s m o =
        Holds-after (Extends m (λ m'. has_id m' p.id ≡ true))
          (Extends m (λ m'. All (λ p. has_id m' p.id ≡ true) (p ∷ ps)))
          (start_pipeline start_component pipelines fuel p s m)
          (λ s' m'. start_all start_component pipelines fuel ps s' m')
          (start_pipeline-Holds fuel p (within p (Memᴰ.head refl)) s m o)
          (λ s' m' (o', w, here).
            Holds-map (Extends m' (λ m''. All (λ p. has_id m'' p.id ≡ true) ps)) _
              (start_all start_component pipelines fuel ps s' m')
              (λ m'' (o'', w', rest). (o'', λ id h. w' id (w id h), (w' p.id here, rest)))
              (start_all-Holds fuel ps (λ q h. within q (Memᴰ.tail h)) s' m' o'))

    pub start_all-bookkept :
        (fuel : ℕ) (s s' : S) (started : List String)
        → start_all start_component pipelines fuel pipelines s [] ≡ running s' started
        → IsOrdered started × All (λ p. has_id started p.id ≡ true) pipelines
    start_all-bookkept fuel s s' started h =
        let (o, w, all) = rw h at (start_all-Holds fuel pipelines (λ p x. x) s [] tt) in (o, all)
