-- ===== src/Orchestrator/Process/Command.antt =====
-- buildCommand and prepareImageBinary of internal/orchestrator/process.go, with what the process
-- orchestrator uses of its host.
use flowctl.Prelude.{
  ℕ, ◌≡◌, ◌⊎◌, refl, inl, inr, String, Bool, Option, none, some, List, [], ◌∷◌, ◌++◌, if◌then◌else◌,
  str_eq,
}
use flowctl.Prelude.Texts.{concat}
use flowctl.ComponentRegistry.Reference.{ImageReference, parsed, refused, parse_image_reference}
use flowctl.Orchestrator.{Component}

-- An exec.Cmd before it starts. `args` are those after the path.
pub record Cmd : Type 0 where
  pub path : String
  pub args : List String
  pub env : List (String × String)
  pub dir : String

pub data Try (A : Type 0) : Type 0 where
  gives : A → Try A
  fails : String → Try A

pub Try-cases :
    {A : Type 0} (r : Try A) → ((e : String) × (r ≡ fails e)) ⊎ ((a : A) × (r ≡ gives a))
Try-cases (fails e) = inl (e, refl)
Try-cases (gives a) = inr (a, refl)

-- The image client's Pull and Extract, filepath.Join, os.Stat (of a file that is no directory),
-- os.Environ, the log file, the start of a process, its signals, and the clock.
pub record Host (S : Type 0) : Type 0 where
  pub pull : ImageReference → S → S × Option String
  pub extract : ImageReference → S → S × Try String
  pub join_path : List String → String
  pub is_file : String → S → Bool
  pub environ : S → List (String × String)
  pub create_log : String → S → S × Option String
  pub start : Cmd → S → S × Try ℕ
  pub signal : ℕ → S → S × Option String
  pub kill : ℕ → S → S × Option String
  pub now : S → ℕ

abbrev pub command : String → List String → Cmd
command path args = record { path = path; args = args; env = []; dir = "" }

abbrev pub binary_name : Component → String
binary_name c = if str_eq c.type "" then c.id else c.type

-- The places of the binary, the recommended one first.
unfoldable pub possible_paths : (List String → String) → String → String → List String
possible_paths join root name =
    join (root ∷ "app" ∷ name ∷ [])
    ∷ join (root ∷ "bin" ∷ name ∷ [])
    ∷ join (root ∷ "usr" ∷ "bin" ∷ name ∷ [])
    ∷ join (root ∷ "usr" ∷ "local" ∷ "bin" ∷ name ∷ [])
    ∷ join (root ∷ name ∷ [])
    ∷ []

unfoldable pub first_file : (String → Bool) → List String → Option String
first_file is_file [] = none
first_file is_file (path ∷ paths) =
    let rest = first_file is_file paths in if is_file path then some path else rest

module _ {S : Type 0} (host : Host S) where
  unfoldable pub prepare_image_binary : Component → S → S × Try String
  unfolding possible_paths first_file
  prepare_image_binary c s = elim (parse_image_reference c.image) [
    | refused e ↦ (s, fails "invalid image reference")
    | parsed ref ↦
        let (s₁, unpulled) = host.pull ref s in
        elim unpulled [
          | some e ↦ (s₁, fails e)
          | none ↦
              let (s₂, extracted) = host.extract ref s₁ in
              elim extracted [
                | fails e ↦ (s₂, fails e)
                | gives root ↦
                    elim (first_file (λ path. host.is_file path s₂)
                      (possible_paths host.join_path root (binary_name c))) [
                        | none ↦ (s₂, fails "binary not found in image")
                        | some path ↦ (s₂, gives path)
                      ]
              ]
        ]
  ]

-- The command of a component without an image and a command, by its type.
unfoldable pub legacy_command : Component → Try Cmd
legacy_command c =
    if str_eq c.type "stellar-live-source-datalake"
    then gives (command "./bin/stellar-live-source-datalake" c.args)
    else if str_eq c.type "ttp-processor"
    then gives (command "npm" (("start" ∷ "--" ∷ "1234" ∷ "2345" ∷ []) ++ c.args))
    else if str_eq c.type "consumer-app"
    then gives (command "./bin/consumer-app" c.args)
    else fails (concat ("unknown component type: " ∷ c.type ∷ []))

unfoldable pub given_command : Component → List String → Try Cmd
unfolding legacy_command
given_command c [] = legacy_command c
given_command c (path ∷ rest) = gives (command path (rest ++ c.args))

module _ {S : Type 0} (host : Host S) where
  unfoldable pub build_command : Component → S → S × Try Cmd
  unfolding prepare_image_binary given_command
  build_command c s =
      if str_eq c.image ""
      then (s, given_command c c.command)
      else let (s', prepared) = prepare_image_binary host c s in
        elim prepared [ fails e ↦ (s', fails e) | gives path ↦ (s', gives (command path c.args)) ]
