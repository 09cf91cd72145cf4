-- ===== src/Validator/Ports/Once.antt =====
-- When the port check of internal/validator/validator.go reports no conflict.
use flowctl.Prelude.{
  ℕ, ◌+◌, ◌≤◌, String, ◌≡◌, refl, ◌≢◌, ◌↔◌, some, List, [], ◌∷◌, ◌++◌, str_eq, eq_iff, eq_refl,
  arith, ltb, if◌then◌else◌, length, length-append, All, Bool-cases, Option-cases, inl, inr,
}
use flowctl.Prelude.Map.{StringMap, lookup, lookup-insert, HasUniqueKeys, insert-HasUniqueKeys}
use flowctl.Pipeline.Model.{Component}
use flowctl.Validator.Ports.{extract_port, users, add_port, collect_ports, conflict_errors}

-- How many components name a port under a key of their environment.
abbrev pub naming : String → String → List Component → ℕ
naming key port [] = 0
naming key port (c ∷ cs) =
    (if str_eq (extract_port key c.env) port then 1 else 0) + naming key port cs

abbrev pub NamedOnce : String → List Component → Type 0
NamedOnce key cs = (port : String) → port ≢ "" → naming key port cs ≤ 1

abbrev IsSingle : String × List String → Type 0
IsSingle (port, ids) = length ids ≤ 1

conflict_errors-IsSingle :
    (field title : String) (m : StringMap (List String))
    → (conflict_errors field title m ≡ []) ↔ All IsSingle m
unfolding conflict_errors
conflict_errors-IsSingle field title [] = (λ h. tt, λ h. refl)
conflict_errors-IsSingle field title ((port, ids) ∷ m) =
    let rest = conflict_errors-IsSingle field title m in
    elim (Bool-cases (ltb 1 (length ids))) [
      | inl many ↦ (λ h. absurd (ground arith), λ h. absurd (ground (arith, h.0)))
      | inr one ↦ (
        λ h. (ground arith, rest.0 (rw (one, conflict_errors) at h)),
        λ h. rw (one, conflict_errors) (rest.1 h.1),
      )
    ]

module _ {ℓ κ} {V : Type ℓ} (P : String × V → Type κ) where
  All-lookup : (m : StringMap V) → All P m → (k : String) (v : V) → lookup k m ≡ some v → P (k, v)
  unfolding lookup
  All-lookup [] h k v e = cc
  All-lookup ((name, w) ∷ m) (p, h) k v e = elim (Bool-cases (str_eq name k)) [
    | inl same ↦
        let names : name ≡ k = (eq_iff name k).0 same in
        let values : w ≡ v = ground (arith, e, same) in rw (← names, ← values) p
    | inr other ↦ All-lookup m h k v (rw (other, lookup) at e)
  ]

  lookup-All :
      (m : StringMap V)
      → HasUniqueKeys m
      → ((k : String) (v : V) → lookup k m ≡ some v → P (k, v))
      → All P m
  unfolding lookup
  lookup-All [] u h = tt
  lookup-All ((name, w) ∷ m) (new, u) h = (
    h name w (rw (eq_refl name) refl),
    lookup-All m u (λ k v e. h k v (ground (arith, eq_iff name k, e, new))),
  )

length-users :
    (port q id : String) (m : StringMap (List String))
    → length (users port (add_port q id m))
      ≡ length (users port m) + (if str_eq q port then 1 else 0)
unfolding add_port
length-users port q id m = elim (Bool-cases (str_eq q port)) [
  | inl same ↦ ground (
    arith,
    lookup-insert q port (users q m ++ id ∷ []) m,
    (eq_iff q port).0 same,
    length-append (users q m) (id ∷ []),
  )
  | inr other ↦ ground (arith, lookup-insert q port (users q m ++ id ∷ []) m, other)
]

length-collect_ports :
    (key port : String) (m : StringMap (List String)) (cs : List Component)
    → length (users port (collect_ports key m cs))
      ≡ length (users port m) + (if str_eq port "" then 0 else naming key port cs)
unfolding collect_ports
length-collect_ports key port m [] = ground arith
length-collect_ports key port m (c ∷ cs) =
    let q = extract_port key c.env in
    ground (
      arith,
      length-collect_ports key port m cs,
      length-collect_ports key port (add_port q c.id m) cs,
      length-users port q c.id m,
      eq_iff q "",
      eq_iff port "",
      eq_iff q port,
    )

collect_ports-HasUniqueKeys :
    (key : String) (m : StringMap (List String)) (cs : List Component)
    → HasUniqueKeys m
    → HasUniqueKeys (collect_ports key m cs)
unfolding collect_ports add_port
collect_ports-HasUniqueKeys key m [] u = u
collect_ports-HasUniqueKeys key m (c ∷ cs) u =
    elim (Bool-cases (str_eq (extract_port key c.env) "")) [
      | inl none_named ↦ rw none_named (collect_ports-HasUniqueKeys key m cs u)
      | inr some_port ↦ rw some_port (
          collect_ports-HasUniqueKeys key (add_port (extract_port key c.env) c.id m) cs (
            insert-HasUniqueKeys (extract_port key c.env)
              (users (extract_port key c.env) m ++ c.id ∷ []) m u))
    ]

users_present :
    (port : String) (m : StringMap (List String)) (ids : List String)
    → lookup port m ≡ some ids
    → users port m ≡ ids
users_present port m ids h = rw (h, users) refl

users_single :
    (port : String) (m : StringMap (List String)) → All IsSingle m → length (users port m) ≤ 1
users_single port m h = elim (Option-cases (lookup port m)) [
  | inl absent ↦ ground (arith, absent)
  | inr (ids, present) ↦ ground (arith, present, All-lookup IsSingle m h port ids present)
]

collect_ports_single :
    (key port : String) (ids : List String) (cs : List Component)
    → NamedOnce key cs
    → lookup port (collect_ports key [] cs) ≡ some ids
    → length ids ≤ 1
unfolding lookup
collect_ports_single key port ids cs h present =
    let count : length (users port (collect_ports key [] cs))
        ≡ (if str_eq port "" then 0 else naming key port cs) =
      ground (arith, length-collect_ports key port [] cs) in
    let same : length ids ≡ (if str_eq port "" then 0 else naming key port cs) =
      rw (users_present port _ ids present) at count in
    elim (Bool-cases (str_eq port "")) [
      | inl unnamed ↦ ground (arith, same, unnamed)
      | inr named ↦
          let once = h port (λ e. ground (arith, (eq_iff port "").1 e, named)) in
          ground (arith, same, named, once)
    ]

-- The check of one kind of port, over any order of the visit.
pub conflict_errors-NamedOnce :
    (visit : StringMap (List String) → StringMap (List String))
    (visits : (P : String × List String → Type 0) (m : StringMap (List String))
      → All P (visit m) ↔ All P m)
    (field title key : String) (cs : List Component)
    → (conflict_errors field title (visit (collect_ports key [] cs)) ≡ []) ↔ NamedOnce key cs
conflict_errors-NamedOnce visit visits field title key cs =
    let m = collect_ports key [] cs in
    let unique : HasUniqueKeys m = collect_ports-HasUniqueKeys key [] cs tt in
    let reported = conflict_errors-IsSingle field title (visit m) in
    (
      λ h port named.
          let single = users_single port m ((visits IsSingle m).0 (reported.0 h)) in
          ground (arith, length-collect_ports key port [] cs, single, named, eq_iff port ""),
      λ h. reported.1 (
          (visits IsSingle m).1 (
            lookup-All IsSingle m unique
              (λ port ids present. collect_ports_single key port ids cs h present))),
    )
