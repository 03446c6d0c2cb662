-- ===== src/Workflow/Versions.antt =====
-- services/workflow_service.py: the versions of one workflow: `create_workflow`, `create_version`,
-- `update_draft` and `publish_version`. What `compile_workflow` makes of a text is a parameter, as
-- are the content hash and `validate_step_inputs`; the store of the texts is left out.
pub mod Published
mod Tests
use lokilinux.Prelude.{
  leb, ℕ, suc, ◌+◌, String, Bool, true, false, ◌&&◌, ◌||◌, Option, none, some, List, [], ◌∷◌, ◌++◌,
  map, if◌then◌else◌, ◌==◌, str_eq, is_num, is_str,
}
use lokilinux.Http.{Http, done, http_error, require, found, ◌>>=◌, ◌>>◌}
use lokilinux.Workflow.Types.{Graph}
use lokilinux.Workflow.Gates.{VersionStatus}

-- A row of `workflow_versions`.
pub record VersionRow : Type 0 where
  pub id : ℕ
  pub number : ℕ
  pub graph : Graph
  pub content_hash : String
  pub status : VersionStatus
  pub published_at : Option ℕ
  pub published_by : Option ℕ
  pub published_by_actor : Option String

-- A workflow: `current_version_id` and its versions.
pub record Shelf : Type 0 where
  pub current : Option ℕ
  pub rows : List VersionRow

unfoldable pub is_draft : VersionStatus → Bool
is_draft VersionStatus.draft = true
is_draft _ = false

unfoldable pub is_published : VersionStatus → Bool
is_published VersionStatus.published = true
is_published _ = false

-- `_get_version`
unfoldable pub find_version : ℕ → List VersionRow → Option VersionRow
find_version id [] = none
find_version id (r ∷ rs) = let rest = find_version id rs in if r.id == id then some r else rest

-- The version that `create_workflow` and `create_version` add.
unfoldable pub new_version : ℕ → ℕ → Graph → String → VersionRow
new_version id number g hash = record {
  id = id;
  number = number;
  graph = g;
  content_hash = hash;
  status = VersionStatus.draft;
  published_at = none;
  published_by = none;
  published_by_actor = none;
}

-- `max_version or 0`
unfoldable pub max_version : List VersionRow → ℕ
max_version [] = 0
max_version (r ∷ rs) = let m = max_version rs in if leb m r.number then r.number else m

-- `create_workflow`, where no other workflow has its slug; `id` is the new row's.
unfoldable pub create_workflow : ℕ → Option Graph → String → Http Shelf
unfolding new_version
create_workflow id compiled hash = do
  g ← found compiled 422
  done (record { current = none; rows = new_version id 1 g hash ∷ [] })

-- `create_version`
unfoldable pub create_version : ℕ → Option Graph → String → Shelf → Http Shelf
unfolding new_version max_version
create_version id compiled hash s = do
  g ← found compiled 422
  done (record s { rows = s.rows ++ new_version id (max_version s.rows + 1) g hash ∷ [] })

-- `base_content_hash is None or base_content_hash == version.content_hash`
unfoldable pub same_base : Option String → String → Bool
same_base none hash = true
same_base (some b) hash = str_eq b hash

unfoldable pub edit_row : ℕ → Graph → String → VersionRow → VersionRow
edit_row id g hash r = if r.id == id then record r { graph = g; content_hash = hash } else r

-- `update_draft`
unfoldable pub update_draft : ℕ → Option String → Option Graph → String → Shelf → Http Shelf
unfolding find_version is_draft same_base edit_row
update_draft id base compiled hash s = do
  r ← found (find_version id s.rows) 404
  require (is_draft r.status) 409
  require (same_base base r.content_hash) 409
  g ← found compiled 422
  done (record s { rows = map (edit_row id g hash) s.rows })

-- The row of `current_version_id`, if it is published.
unfoldable pub archive_row : Option ℕ → VersionRow → VersionRow
unfolding is_published
archive_row current r =
    if is_num current r.id && is_published r.status
    then record r { status = VersionStatus.archived }
    else r

unfoldable pub publish_row : ℕ → ℕ → Option ℕ → Option String → VersionRow → VersionRow
publish_row now id actor actor_id r =
    if r.id == id
    then record r {
      status = VersionStatus.published;
      published_at = some now;
      published_by = actor;
      published_by_actor = actor_id;
    }
    else r

-- `publish_version`
unfoldable pub publish_version :
    (Graph → Bool) → ℕ → ℕ → Option ℕ → Option String → Option Graph → Shelf → Http Shelf
unfolding find_version is_draft archive_row publish_row
publish_version inputs_ok now id actor actor_id compiled s = do
  r ← found (find_version id s.rows) 404
  require (is_draft r.status) 409
  g ← found compiled 422
  require (inputs_ok g) 422
  done (record {
    current = some id;
    rows = map (publish_row now id actor actor_id) (map (archive_row s.current) s.rows);
  })
