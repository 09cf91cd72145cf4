-- ===== src/Pipeline/Loader/Distinct.antt =====
-- The identifiers of the components that validatePipeline of internal/runner/loader.go has told apart.
use flowctl.Prelude.{
  ◌≡◌, refl, ap, eq_refl, inl, inr, String, true, false, List, [], ◌∷◌, map, Bool-cases, str_eq,
  eq_iff,
}
use flowctl.Pipeline.Model.{Component}
use flowctl.Pipeline.Loader.{has_id}
use flowctl.Pipeline.Loader.Sound.{push_ids, AreDistinct}

abbrev pub ids : List Component → List String
ids cs = map (λ c. c.id) cs

-- What was there before is distinct too.
pub before_distinct :
    (known : List String) (cs : List Component)
    → AreDistinct (push_ids known cs)
    → AreDistinct known
before_distinct known [] h = h
before_distinct known (c ∷ cs) h = (before_distinct (c.id ∷ known) cs h).1

-- None of the components has an identifier that was there before.
new_ids :
    (known : List String) (cs : List Component) (id : String)
    → has_id known id ≡ true
    → AreDistinct (push_ids known cs)
    → has_id (ids cs) id ≡ false
new_ids known [] id k h = refl
new_ids known (c ∷ cs) id k h =
    let (new, old) = before_distinct (c.id ∷ known) cs h in
    elim (Bool-cases (str_eq c.id id)) [
      | inl same ↦ absurd (cc (ap (has_id known) ((eq_iff c.id id).0 same)))
      | inr other ↦ rw other (new_ids (c.id ∷ known) cs id (rw (other, k) refl) h)
    ]

pub own_distinct :
    (known : List String) (cs : List Component)
    → AreDistinct (push_ids known cs)
    → AreDistinct (ids cs)
own_distinct known [] h = tt
own_distinct known (c ∷ cs) h =
    (new_ids (c.id ∷ known) cs c.id (rw (eq_refl c.id) refl) h, own_distinct (c.id ∷ known) cs h)
