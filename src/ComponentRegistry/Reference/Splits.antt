-- ===== src/ComponentRegistry/Reference/Splits.antt =====
-- The splits of a text at a separator, in internal/registry/reference.go.
use Prim.Native.Char.{Char, code}
use Prim.Native.String
use text.Mathlib.TextLemmas.{nil-append, cons-append}
use flowctl.Prelude.{
  ℕ, String, ◌≡◌, refl, sym, ◌∙◌, Bool, true, false, ◌||◌, Option, none, some, arith, ◌==◌, ==_iff,
  ap, Option-cases, inl, inr, Bool-cases,
}
use flowctl.ComponentRegistry.Reference.{split_first, split_last, contains, all_chars}

ends_at :
    {front back : String} (f b : String)
    → ◌≡◌ {A = Option (String × String)} (some (front, back)) (some (f, b))
    → (front ≡ f) × (back ≡ b)
ends_at f b h = ground arith

module _ (c : ℕ) where
  pub contains-append :
      (a b : String) → contains c (String.◌++◌ a b) ≡ (contains c a || contains c b)
  unfolding contains
  contains-append String.[] b = rw (nil-append b) refl
  contains-append (String.◌∷◌ d a) b = rw (cons-append d a b) (ground (arith, contains-append a b))

  pub all_chars-contains :
      (p : ℕ → Bool) (s : String) → p c ≡ false → all_chars p s ≡ true → contains c s ≡ false
  unfolding all_chars contains
  all_chars-contains p String.[] h k = refl
  all_chars-contains p (String.◌∷◌ d s) h k = elim (Bool-cases (code d == c)) [
    | inl same ↦ absurd (ground (arith, ap p ((==_iff (code d) c).0 same)))
    | inr other ↦ ground (arith, all_chars-contains p s h)
  ]

  pub split_first-none : (s : String) → contains c s ≡ false → split_first c s ≡ none
  unfolding contains split_first
  split_first-none String.[] h = refl
  split_first-none (String.◌∷◌ d s) h = ground (arith, split_first-none s)

  pub split_first-append :
      (a b : String) (d : Char)
      → code d ≡ c
      → contains c a ≡ false
      → split_first c (String.◌++◌ a (String.◌∷◌ d b)) ≡ some (a, b)
  unfolding contains split_first
  split_first-append String.[] b d e h = rw (nil-append (String.◌∷◌ d b)) (ground arith)
  split_first-append (String.◌∷◌ x a) b d e h =
      rw (cons-append x a (String.◌∷◌ d b)) (ground (arith, split_first-append a b d e))

  -- What a split found, and that it is the first occurrence.
  abbrev pub IsFirst : String → Option (String × String) → Type 0
  IsFirst s none = contains c s ≡ false
  IsFirst s (some (front, back)) =
      (contains c front ≡ false)
      × ((d : Char) × (code d ≡ c) × (s ≡ String.◌++◌ front (String.◌∷◌ d back)))

  pub split_first-IsFirst : (s : String) → IsFirst s (split_first c s)
  unfolding contains split_first
  split_first-IsFirst String.[] = refl
  split_first-IsFirst (String.◌∷◌ d s) = elim (Bool-cases (code d == c)) [
    | inl same ↦
        rw (same, split_first)
          (refl, (d, (==_iff (code d) c).0 same, sym (nil-append (String.◌∷◌ d s))))
    | inr other ↦ elim (Option-cases (split_first c s)) [
      | inl missing ↦
          let h = split_first-IsFirst s in
          rw (other, missing, split_first) (rw (other, contains) (rw missing at h))
      | inr ((front, back), found) ↦
          let h = split_first-IsFirst s in
          let (clear, (x, e, whole)) = rw found at h in
          rw (other, found, split_first)
            (
              ground arith,
              (x, e, ap (String.◌∷◌ d) whole ∙ sym (cons-append d front (String.◌∷◌ x back))),
            )
    ]
  ]

  pub split_last-none : (s : String) → contains c s ≡ false → split_last c s ≡ none
  unfolding contains split_last
  split_last-none String.[] h = refl
  split_last-none (String.◌∷◌ d s) h = ground (arith, split_last-none s)

  pub split_last-append :
      (a b : String) (d : Char)
      → code d ≡ c
      → contains c b ≡ false
      → split_last c (String.◌++◌ a (String.◌∷◌ d b)) ≡ some (a, b)
  unfolding contains split_last
  split_last-append String.[] b d e h =
      rw (nil-append (String.◌∷◌ d b)) (ground (arith, split_last-none b h))
  split_last-append (String.◌∷◌ x a) b d e h =
      rw (cons-append x a (String.◌∷◌ d b), split_last) (rw (split_last-append a b d e h) refl)

  -- A text without the character may follow.
  abbrev pub behind : Option (String × String) → String → Option (String × String)
  behind none b = none
  behind (some (front, back)) b = some (front, String.◌++◌ back b)

  pub split_last_append :
      (a b : String)
      → contains c b ≡ false
      → split_last c (String.◌++◌ a b) ≡ behind (split_last c a) b
  unfolding split_last
  split_last_append String.[] b h = rw (nil-append b) (split_last-none b h)
  split_last_append (String.◌∷◌ x a) b h =
      let ih = split_last_append a b h in
      rw (cons-append x a b, split_last)
        (rw ih (elim (Option-cases (split_last c a)) [
          | inl missing ↦ rw missing (ground arith)
          | inr ((front, back), found) ↦ rw found refl
        ]))

  pub split_last-whole :
      (s front back : String)
      → split_last c s ≡ some (front, back)
      → (d : Char) × (s ≡ String.◌++◌ front (String.◌∷◌ d back))
  unfolding split_last
  split_last-whole String.[] front back h = cc
  split_last-whole (String.◌∷◌ x s) front back h = elim (Option-cases (split_last c s)) [
    | inl missing ↦ elim (Bool-cases (code x == c)) [
      | inl same ↦
          let e = ends_at front back (rw (split_last, missing, same) at h) in
          (x, rw (← e.0, ← e.1) (sym (nil-append (String.◌∷◌ x s))))
      | inr other ↦ absurd (cc (rw (split_last, missing, other) at h))
    ]
    | inr ((f, b), found) ↦
        let e = ends_at front back (rw (split_last, found) at h) in
        let (d, whole) = split_last-whole s f b found in
        (d, rw (← e.0, ← e.1) (ap (String.◌∷◌ x) whole ∙ sym (cons-append x f (String.◌∷◌ d b))))
  ]
