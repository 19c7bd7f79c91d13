-- ===== src/Catalog/Required.antt =====
-- The capabilities and paths of a request: src/shared/capabilities.ts, with the path tests of
-- src/shared/security.ts and `requestNamesSecrets` of src/shared/secrets.ts.
--
-- The canonical form of a path, with symbolic links resolved, is the file system's answer.
use Prim.Native.String.{String}
use dex_reach.Common.{
  Bool, true, false, not, ◌&&◌, ◌||◌, Option, none, some, List, [], ◌∷◌, ◌++◌, any, all, eqb, ◌==◌,
  text_eq, if◌then◌else◌,
}
use dex_reach.Labels.{Text, codes}
use dex_reach.Json.{
  Json, null, boolean, number, string, array, object, Items, last, item, Members, end, member,
  field,
}
use dex_reach.Tasks.{
  Capability, inspect, file_read, file_write, checkpoint, process_shell, compat, secret_use,
}
use dex_reach.Tasks.Create.{same_text}
use dex_reach.Catalog.{describe_operation, describe_compatibility_tool}
use dex_reach.Catalog.Risk.{same_capability, text_field}
use dex_reach.Catalog.Cost.{split_words, lower_all}

abbrev pub reach_capabilities : List Capability
reach_capabilities =
    inspect ∷ file_read ∷ file_write ∷ checkpoint ∷ process_shell ∷ compat ∷ secret_use ∷ []

abbrev pub includes : Capability → List Capability → Bool
includes c cs = any (λ d. same_capability d c) cs

unfoldable pub operation_capability : String → Capability
operation_capability o = elim (describe_operation o) [ none ↦ inspect | some d ↦ d.capability ]

-- `requestNamesSecrets`: a `secrets` field that is not null, at the top or under `arguments`. Of two
-- members with one name the later counts, so the search keeps what the rest of the members says.
unfoldable mutual
  pub names_secrets_in : Json → Bool
  names_secrets_in (object ms) =
      elim (field "secrets" ms) [ none ↦ false | some null ↦ false | some _ ↦ true ]
      || elim (nested_secrets ms) [ none ↦ false | some b ↦ b ]
  names_secrets_in null = false
  names_secrets_in (boolean b) = false
  names_secrets_in (number n) = false
  names_secrets_in (string s) = false
  names_secrets_in (array is) = false

  pub nested_secrets : Members → Option Bool
  nested_secrets end = none
  nested_secrets (member k v ms) = elim (nested_secrets ms) [
    | some b ↦ some b
    | none ↦ if k == "arguments" then some (names_secrets_in v) else none
  ]

abbrev pub request_names_secrets : Members → Bool
request_names_secrets args = names_secrets_in (object args)

abbrev pub with_capability : Capability → List Capability → List Capability
with_capability c cs = if includes c cs then cs else cs ++ (c ∷ [])

-- The capabilities of the operation and of the tool that it names; every one for an unknown tool.
unfoldable pub tool_capabilities : String → Members → List Capability → Option (List Capability)
tool_capabilities o args cs = elim (describe_operation o) [
  | none ↦ some cs
  | some d ↦
      if d.workspace_safe_resolved_per_tool
      then elim (describe_compatibility_tool
          (elim (text_field "tool" args) [ none ↦ String.[] | some t ↦ t ])) [
            | none ↦ none
            | some t ↦ some (with_capability t.capability cs)
          ]
      else some cs
]

unfoldable pub inspection_capabilities : String → Members → List Capability → List Capability
inspection_capabilities o args cs =
    if o == "dex.repoInfo"
    then elim (field "inspection" args) [ none ↦ cs | some v ↦ cs ++ (file_read ∷ []) ]
    else cs

-- `requiredCapabilities`
unfoldable pub required_capabilities : String → Members → List Capability
required_capabilities o args =
    let base = inspection_capabilities o args (operation_capability o ∷ []) in
    elim (tool_capabilities o args base) [
      | none ↦ reach_capabilities
      | some cs ↦ if request_names_secrets args then with_capability secret_use cs else cs
    ]

-- The letters after the last `_`, for the end of PATH_KEY.
unfoldable pub last_word : Text → Text
last_word [] = []
last_word (c ∷ cs) =
    let rest = last_word cs in
    if any (λ d. eqb d b'_') cs then rest else (if eqb c b'_' then cs else c ∷ cs)

abbrev one_of : Text → List String → Bool
one_of t [] = false
one_of t (s ∷ ss) = same_text t (codes s) || one_of t ss

-- PATH_KEY, of a key whose words are split.
unfoldable pub is_path_key : String → Bool
is_path_key k = one_of (lower_all (last_word (split_words (codes k)))) (
    "cwd" ∷ "path" ∷ "paths" ∷ "file" ∷ "files" ∷ "directory" ∷ "directories" ∷ "destination"
    ∷ "destinations" ∷ "source" ∷ "sources" ∷ [])

unfoldable mutual
  pub extract_paths : String → Json → List String
  extract_paths k (string s) = if is_path_key k then s ∷ [] else []
  extract_paths k (array is) = paths_in_items k is
  extract_paths k (object ms) = paths_in_members ms
  extract_paths k null = []
  extract_paths k (boolean b) = []
  extract_paths k (number n) = []

  pub paths_in_items : String → Items → List String
  paths_in_items k last = []
  paths_in_items k (item v is) = extract_paths k v ++ paths_in_items k is

  pub paths_in_members : Members → List String
  paths_in_members end = []
  paths_in_members (member k v ms) = extract_paths k v ++ paths_in_members ms

-- `requestPaths`
abbrev pub request_paths : Members → List String
request_paths args = extract_paths "" (object args)

-- What the file system says of a path, and the directory of private state.
pub record PathHost : Type 0 where
  pub canonical : String → Option Text
  pub state_dir : String

abbrev pub starts_with : Text → Text → Bool
starts_with [] t = true
starts_with (c ∷ cs) [] = false
starts_with (c ∷ cs) (d ∷ ds) = eqb c d && starts_with cs ds

-- `resolved === base || resolved.startsWith(base + path.sep)`
unfoldable pub lies_under : Text → Text → Bool
lies_under resolved base = same_text resolved base || starts_with (base ++ (b'/' ∷ [])) resolved

unfoldable pub under_path : PathHost → Text → String → Bool
under_path host resolved root = elim (host.canonical root) [
  | none ↦ false
  | some [] ↦ false
  | some (c ∷ base) ↦ lies_under resolved (c ∷ base)
]

unfoldable pub path_allowed : PathHost → List String → String → Bool
path_allowed host roots candidate = elim (host.canonical candidate) [
  | none ↦ false
  | some [] ↦ false
  | some (c ∷ resolved) ↦
      not (under_path host (c ∷ resolved) host.state_dir)
      && any (under_path host (c ∷ resolved)) roots
]

-- `rootsCover`
unfoldable pub roots_cover : PathHost → List String → List String → Bool
roots_cover host paths roots = all (path_allowed host roots) paths
