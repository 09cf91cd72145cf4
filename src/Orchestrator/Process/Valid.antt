-- ===== src/Orchestrator/Process/Valid.antt =====
-- What holds of a ProcessOrchestrator of internal/orchestrator/process.go at any time.
use flowctl.Prelude.{
  ℕ, ◌≡◌, ◌≢◌, refl, sym, ap, ◌∙◌, String, true, false, some, [], ◌∷◌, ◌++◌, ◌==◌, ==_iff, str_eq,
  eq_iff, arith, Bool-cases, inl, inr, length, get_elem?, set, get_elem?-set, get_elem?-concat,
  get_elem?-bound,
}
use flowctl.Prelude.Map.{lookup, insert, lookup-insert, HasUniqueKeys, insert-HasUniqueKeys}
use flowctl.Orchestrator.{Component, status_running}
use flowctl.Orchestrator.Process.{
  ProcessInfo, ProcessOrchestrator, find_process, write_info, add_process, runs_already,
}

-- Every entry points to a process of its component, and every process that counts as running is the one
-- that the map has for its component.
pub record IsValid (o : ProcessOrchestrator) : Type 0 where
  pub unique : HasUniqueKeys o.processes
  pub entries :
      (id : String) (n : ℕ)
      → lookup id o.processes ≡ some n
      → (info : ProcessInfo) × (get_elem? o.infos n ≡ some info) × (info.component.id ≡ id)
  pub current :
      (n : ℕ) (info : ProcessInfo)
      → get_elem? o.infos n ≡ some info
      → info.status ≡ status_running
      → lookup info.component.id o.processes ≡ some n

pub some_eq : {A : Type 0} {a b : A} → some a ≡ some b → a ≡ b
some_eq h = cc

-- A running process that the map has refuses another start.
found_running :
    (id : String) (n : ℕ) (info : ProcessInfo) (o : ProcessOrchestrator)
    → lookup id o.processes ≡ some n
    → get_elem? o.infos n ≡ some info
    → info.status ≡ status_running
    → runs_already (find_process id o) ≡ true
unfolding find_process
found_running id n info o entry at runs = rw (entry, find_process) (rw (at, runs) refl)

module _ (n : ℕ) (old info : ProcessInfo) (o : ProcessOrchestrator)
    (here : get_elem? o.infos n ≡ some old) where
  write_info_entry :
      (m : ℕ) (x : ProcessInfo) (id : String)
      → info.component ≡ old.component
      → get_elem? o.infos m ≡ some x
      → x.component.id ≡ id
      → (y : ProcessInfo) × (get_elem? (set o.infos n info) m ≡ some y) × (y.component.id ≡ id)
  write_info_entry m x id same at name = elim (Bool-cases (n == m)) [
    | inl eq ↦
        let e = (==_iff n m).0 eq in
        let old_is_x = some_eq (sym here ∙ (ap (get_elem? o.infos) e ∙ at)) in
        (
          info,
          get_elem?-set o.infos n m info old here ∙ rw eq refl,
          ap (λ c. c.id) same ∙ (ap (λ (i : ProcessInfo). i.component.id) old_is_x ∙ name),
        )
    | inr ne ↦ (x, get_elem?-set o.infos n m info old here ∙ rw ne at, name)
  ]

  pub write_info-IsValid :
      info.component ≡ old.component
      → info.status ≢ status_running
      → IsValid o
      → IsValid (write_info n info o)
  unfolding write_info
  write_info-IsValid same over h = record {
    unique = h.unique;
    entries = λ id m found.
        let (x, at, name) = h.entries id m found in write_info_entry m x id same at name;
    current = λ m i found runs.
        let found' = sym (get_elem?-set o.infos n m info old here) ∙ found in
        elim (Bool-cases (n == m)) [
          | inl eq ↦
              let e = some_eq (rw eq at found') in
              absurd (over (ap (λ (j : ProcessInfo). j.status) e ∙ runs))
          | inr ne ↦ h.current m i (rw ne at found') runs
        ];
  }

module _ (c : Component) (info : ProcessInfo) (o : ProcessOrchestrator) (same : info.component ≡ c)
    (idle : runs_already (find_process c.id o) ≡ false) (h : IsValid o) where
  add_process_entry :
      (id : String) (m : ℕ)
      → lookup id (insert c.id (length o.infos) o.processes) ≡ some m
      → (x : ProcessInfo) × (get_elem? (o.infos ++ (info ∷ [])) m ≡ some x) × (x.component.id ≡ id)
  add_process_entry id m found =
      let found' = sym (lookup-insert c.id id (length o.infos) o.processes) ∙ found in
      elim (Bool-cases (str_eq c.id id)) [
        | inl eq ↦
            let e = some_eq (rw eq at found') in
            (
              info,
              get_elem?-concat o.infos info m ∙ rw ((==_iff (length o.infos) m).1 e) refl,
              ap (λ c. c.id) same ∙ (eq_iff c.id id).0 eq,
            )
        | inr ne ↦
            let (x, at, name) = h.entries id m (rw ne at found') in
            let bound = get_elem?-bound o.infos m x at in
            let apart : (length o.infos == m) ≡ false = ground arith in
            (x, get_elem?-concat o.infos info m ∙ rw apart at, name)
      ]

  add_process_current :
      (m : ℕ) (i : ProcessInfo)
      → get_elem? (o.infos ++ (info ∷ [])) m ≡ some i
      → i.status ≡ status_running
      → lookup i.component.id (insert c.id (length o.infos) o.processes) ≡ some m
  add_process_current m i found runs =
      let found' = sym (get_elem?-concat o.infos info m) ∙ found in
      let entry = lookup-insert c.id i.component.id (length o.infos) o.processes in
      elim (Bool-cases (length o.infos == m)) [
        | inl eq ↦
            let e = some_eq (rw eq at found') in
            let own : c.id ≡ i.component.id =
              ap (λ c. c.id) (sym same) ∙ ap (λ (j : ProcessInfo). j.component.id) e in
            entry ∙ rw ((eq_iff c.id i.component.id).1 own) (ap some ((==_iff _ m).0 eq))
        | inr ne ↦
            let at = rw ne at found' in
            let mapped = h.current m i at runs in
            elim (Bool-cases (str_eq c.id i.component.id)) [
              | inl own ↦
                  let e = (eq_iff c.id i.component.id).0 own in
                  let busy =
                    found_running c.id m i o (ap (λ k. lookup k o.processes) e ∙ mapped) at runs in
                  absurd (cc)
              | inr other ↦ entry ∙ rw other mapped
            ]
      ]

  pub add_process-IsValid : IsValid (add_process c info o)
  unfolding add_process
  add_process-IsValid = record {
    unique = insert-HasUniqueKeys c.id _ o.processes h.unique;
    entries = add_process_entry;
    current = add_process_current;
  }
