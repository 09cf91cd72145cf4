-- ===== src/Orchestrator/Process/StopAll.antt =====
-- What StopAll of internal/orchestrator/process.go leaves.
use flowctl.Prelude.{
  ℕ, ◌≡◌, ◌≢◌, sym, ap, ◌∙◌, ◌⊎◌, inl, inr, String, some, [], ◌∷◌, ◌==◌, ==_iff, str_eq, Bool-cases,
  Option-cases, get_elem?, get_elem?-set,
}
use flowctl.Prelude.Map.{StringMap, lookup}
use flowctl.Orchestrator.{status_running}
use flowctl.Orchestrator.Process.Command.{Host}
use flowctl.Orchestrator.Process.{
  ProcessInfo, ProcessOrchestrator, write_info, stop_process, stop_each, stop_all, is_over,
}
use flowctl.Orchestrator.Process.Valid.{IsValid, some_eq}

-- The process stands in the entries.
abbrev Stands : ℕ → StringMap ℕ → Type 0
Stands n [] = ⊥
Stands n ((id, m) ∷ entries) = (m ≡ n) ⊎ Stands n entries

lookup-Stands :
    (id : String) (n : ℕ) (entries : StringMap ℕ) → lookup id entries ≡ some n → Stands n entries
unfolding lookup
lookup-Stands id n [] h = cc h
lookup-Stands id n ((name, m) ∷ entries) h = elim (Bool-cases (str_eq name id)) [
  | inl same ↦ inl (some_eq (rw same at h))
  | inr other ↦ inr (lookup-Stands id n entries (rw other at h))
]

-- Every process that counts as running is among the entries.
abbrev Listed : StringMap ℕ → ProcessOrchestrator → Type 0
Listed entries o =
    (n : ℕ) (info : ProcessInfo)
    → get_elem? o.infos n ≡ some info
    → info.status ≡ status_running
    → Stands n entries

module _ (id : String) (n : ℕ) (entries : StringMap ℕ) (o : ProcessOrchestrator)
    (h : Listed ((id, n) ∷ entries) o) where
  -- An entry whose process does not count as running can be left out.
  Listed-skip :
      ((info : ProcessInfo) → get_elem? o.infos n ≡ some info → info.status ≢ status_running)
      → Listed entries o
  Listed-skip idle m info here runs = elim (h m info here runs) [
    | inl same ↦ absurd (idle info (ap (get_elem? o.infos) same ∙ here) runs)
    | inr rest ↦ rest
  ]

  Listed-stop :
      (old : ProcessInfo) → get_elem? o.infos n ≡ some old → Listed entries (stop_process n old o)
  unfolding stop_process write_info
  Listed-stop old at m info here runs =
      let found = sym (get_elem?-set o.infos n m _ old at) ∙ here in
      elim (Bool-cases (n == m)) [
        | inl same ↦
            let e = ap (λ (i : ProcessInfo). i.status) (some_eq (rw same at found)) in absurd (cc)
        | inr other ↦ elim (h m info (rw other at found) runs) [
          | inl same ↦ absurd (cc ((==_iff n m).1 same))
          | inr rest ↦ rest
        ]
      ]

module _ {S : Type 0} (host : Host S) where
  stop_each-idle :
      (entries : StringMap ℕ) (s : S) (o : ProcessOrchestrator)
      → Listed entries o
      → (n : ℕ) (info : ProcessInfo) → get_elem? (stop_each host entries s o).1.infos n ≡ some info
      → info.status ≢ status_running
  unfolding stop_each
  stop_each-idle [] s o h = h
  stop_each-idle ((id, m) ∷ entries) s o h = elim (Option-cases (get_elem? o.infos m)) [
    | inl missing ↦
        rw (stop_each, missing)
          (stop_each-idle entries s o (Listed-skip id m entries o h (λ i at. absurd (cc))))
    | inr (old, at) ↦ elim (Bool-cases (is_over old.status)) [
      | inl over ↦
          rw (stop_each, at, over)
            (stop_each-idle entries s o (
              Listed-skip id m entries o h (λ i at' runs.
                let e = ap (λ (j : ProcessInfo). j.status) (some_eq (sym at ∙ at')) ∙ runs in
                cc (sym (ap is_over e) ∙ over))))
      | inr live ↦
          rw (stop_each, at, live)
            (stop_each-idle entries _ (stop_process m old o) (Listed-stop id m entries o h old at))
    ]
  ]

  -- After StopAll no process counts as running, if the visit of the map yields each of its entries,
  -- also where signals and kills fail.
  pub stop_all-idle :
      (visit : StringMap ℕ → StringMap ℕ) (s : S) (o : ProcessOrchestrator)
      → ((id : String) → lookup id (visit o.processes) ≡ lookup id o.processes)
      → IsValid o
      → (n : ℕ) (info : ProcessInfo) → get_elem? (stop_all host visit s o).1.infos n ≡ some info
      → info.status ≢ status_running
  unfolding stop_all
  stop_all-idle visit s o visits h = stop_each-idle (visit o.processes) s o (λ n info here runs.
      lookup-Stands info.component.id n (visit o.processes)
        (visits info.component.id ∙ h.current n info here runs))
