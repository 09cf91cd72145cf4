-- ===== src/Storage/Limit.antt =====
-- The loop that ListPipelineRuns and ListChunkRuns share: visit the entries, stop once `limit` have
-- been kept (a limit that is not positive means none), and keep those that pass the filters.
use flowctl.Prelude.{
  ℕ, zero, suc, ◌+◌, ◌≡◌, refl, Bool, false, ◌&&◌, List, [], ◌∷◌, arith, ltb, leb, if◌then◌else◌,
  take, select, Bool-cases, inl, inr,
}
use flowctl.Prelude.Int.{ℤ, pos, negsuc}

abbrev pub reached : ℤ → ℕ → Bool
reached (pos n) count = ltb 0 n && leb n count
reached (negsuc n) count = false

-- What a limit leaves of a list.
abbrev pub capped {ℓ} : {A : Type ℓ} → ℤ → List A → List A
capped (pos zero) xs = xs
capped (pos (suc n)) xs = take (suc n) xs
capped (negsuc n) xs = xs

module _ {ℓ} {A : Type ℓ} (keep : A → Bool) where
  unfoldable pub collect : ℤ → ℕ → List A → List A
  collect limit count [] = []
  collect limit count (x ∷ xs) =
      let rest = collect limit (if keep x then count + 1 else count) xs in
      if reached limit count then [] else if keep x then x ∷ rest else rest

  collect-take :
      (n count room : ℕ) (xs : List A)
      → count + room ≡ suc n
      → collect (pos (suc n)) count xs ≡ take room (select keep xs)
  unfolding collect
  collect-take n count zero [] h = refl
  collect-take n count (suc room) [] h = refl
  collect-take n count zero (x ∷ xs) h = ground arith
  collect-take n count (suc room) (x ∷ xs) h = elim (Bool-cases (keep x)) [
    | inl kept ↦ ground (arith, collect-take n (count + 1) room xs)
    | inr dropped ↦ ground (arith, collect-take n count (suc room) xs)
  ]

  -- With no positive limit every entry that passes is kept.
  collect_unlimited :
      (limit : ℤ) (count : ℕ) (xs : List A)
      → ((c : ℕ) → reached limit c ≡ false)
      → collect limit count xs ≡ select keep xs
  unfolding collect
  collect_unlimited limit count [] h = refl
  collect_unlimited limit count (x ∷ xs) h = elim (Bool-cases (keep x)) [
    | inl kept ↦ ground (arith, h count, collect_unlimited limit (count + 1) xs h)
    | inr dropped ↦ ground (arith, h count, collect_unlimited limit count xs h)
  ]

  pub collect-capped :
      (limit : ℤ) (xs : List A) → collect limit 0 xs ≡ capped limit (select keep xs)
  collect-capped (pos zero) xs = collect_unlimited (pos zero) 0 xs (λ c. ground arith)
  collect-capped (pos (suc n)) xs = collect-take n 0 (suc n) xs (omega arith)
  collect-capped (negsuc n) xs = collect_unlimited (negsuc n) 0 xs (λ c. refl)
