-- ===== src/Api/Artifacts.antt =====
-- How internal/api/server.go finds the text of a completed job: the artifacts on the local disk.
use splai.Base.{
  String, ◌⧺◌, not, ◌&&◌, ◌||◌, Option, none, some, List, [], ◌∷◌, if◌then◌else◌, ltb, str_eq,
  is_empty, trim_space, has_prefix, trim_prefix, contains, split, clean, join_path,
}
use splai.Scheduler.Workers.{TaskStatus, get_job_tasks}
use splai.Api.Server.{Server}

-- what the handler reads of a file in JSON: where its members are texts or objects
pub record ResultFields : Type 0 where
  pub text : Option String
  pub merged_text : Option (Option String)

pub record Artifact : Type 0 where
  pub text : Option String
  pub result : Option ResultFields

unfoldable pub non_empty_string : Option String → Option String
non_empty_string none = none
non_empty_string (some s) = let t = trim_space s in if is_empty t then none else some t

abbrev or_text : Option String → String → String
or_text none other = other
or_text (some s) other = s

merged_of : Option (Option String) → String
unfolding non_empty_string
merged_of none = ""
merged_of (some text) = or_text (non_empty_string text) ""

result_of : Option ResultFields → String
unfolding non_empty_string merged_of
result_of none = ""
result_of (some r) = or_text (non_empty_string r.text) (merged_of r.merged_text)

unfoldable pub artifact_text : Artifact → String
unfolding non_empty_string result_of
artifact_text a = or_text (non_empty_string a.text) (result_of a.result)

-- the path below the root, where it stays below it
unfoldable pub path_below : String → String → String → Option String
path_below artifact_root job_id task_id =
    let root = clean artifact_root in
    let path = join_path (root ∷ job_id ∷ task_id ∷ "output.json" ∷ []) in
    if not (str_eq path root) && not (has_prefix path (root ⧺ "/")) then none else some path

unfoldable pub path_of_parts : String → List String → Option String
unfolding path_below
path_of_parts artifact_root (job ∷ task ∷ file ∷ rest) =
    let job_id = trim_space job in
    let task_id = trim_space task in
    if is_empty job_id || is_empty task_id
    then none
    else if contains job_id ".." || contains task_id ".."
    then none
    else path_below artifact_root job_id task_id
path_of_parts artifact_root _ = none

unfoldable pub local_artifact_path_from_uri : String → String → Option String
unfolding path_of_parts
local_artifact_path_from_uri artifact_root raw =
    let uri = trim_space raw in
    if not (has_prefix uri "artifact://")
    then none
    else let trimmed = trim_prefix uri "artifact://" in
      if has_prefix trimmed "s3/" then none else path_of_parts artifact_root (split "/" trimmed)

-- The reading of a file and of the JSON in it is a parameter, none where one of them fails.
module _ (read : String → Option Artifact) where
  unfoldable pub extract_text_from_artifact_uri : String → String → String
  unfolding artifact_text
  extract_text_from_artifact_uri artifact_root uri =
      elim (local_artifact_path_from_uri artifact_root uri) [
        | none ↦ ""
        | some path ↦ elim (read path) [ none ↦ "" | some a ↦ artifact_text a ]
      ]

  -- the first text among the outputs of tasks
  unfoldable pub text_of_tasks : String → List TaskStatus → Option String
  text_of_tasks root [] = none
  text_of_tasks root (t ∷ ts) =
      let text = extract_text_from_artifact_uri root t.output_uri in
      let rest = text_of_tasks root ts in if not (is_empty text) then some text else rest

  unfoldable pub insert_newest : TaskStatus → List TaskStatus → List TaskStatus
  insert_newest t [] = t ∷ []
  insert_newest t (u ∷ us) =
      let rest = insert_newest t us in
      if ltb t.updated_at u.updated_at then u ∷ rest else t ∷ u ∷ us

  -- sort.SliceStable: a task comes before those of the same age that stood behind it
  unfoldable pub newest_first : List TaskStatus → List TaskStatus
  unfolding insert_newest
  newest_first [] = []
  newest_first (t ∷ ts) = insert_newest t (newest_first ts)

  abbrev fallback_content : String → String
  fallback_content uri =
      let content = trim_space uri in if is_empty content then "completed" else content

  unfoldable pub content_of_tasks : String → Option (List TaskStatus) → String → String
  unfolding text_of_tasks newest_first
  content_of_tasks root none uri = fallback_content uri
  content_of_tasks root (some tasks) uri =
      or_text (text_of_tasks root (newest_first tasks)) (fallback_content uri)

  unfoldable pub resolve_openai_compat_content : Server → String → String → String
  unfolding content_of_tasks extract_text_from_artifact_uri
  resolve_openai_compat_content s job_id uri =
      let text = extract_text_from_artifact_uri s.artifact_root uri in
      if not (is_empty text)
      then text
      else content_of_tasks s.artifact_root (get_job_tasks job_id s.engine) uri
