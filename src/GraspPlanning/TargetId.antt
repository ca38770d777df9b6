-- ===== src/GraspPlanning/TargetId.antt =====
-- moveit_planning_service/src/grasp_planning_pipeline.cpp: ResolveTargetObjectId, which finds the
-- collision object of the planning scene that a request's target names.
pub mod Laws
mod Tests
use intrinsic_moveit.Prelude.{
  Str, codes, str_eq, starts_with, slash, is_empty, find?, List, [], ◌∷◌, ◌++◌, Option, none, some,
  ◌==◌, if◌then◌else◌,
}

-- 2. Strip leading slash.
unfoldable pub clean_id : Str → Str
clean_id [] = []
clean_id (c ∷ s) = if c == slash then s else c ∷ s

unfoldable pub canonical_whole : Str → Str
canonical_whole target_id = clean_id target_id ++ codes "/whole"

unfoldable pub entity_prefix : Str → Str
entity_prefix target_id = clean_id target_id ++ codes "/"

-- A loop that returns the first ID equal to `name`.
abbrev pub find_exact : Str → List Str → Option Str
find_exact name = find? (λ id. str_eq id name)

-- A loop that returns the first ID that begins with `prefix`.
abbrev pub find_prefix : Str → List Str → Option Str
find_prefix prefix = find? (λ id. starts_with id prefix)

-- One loop returns, or the function goes on.
abbrev pub return_or : Option Str → Str → Str
return_or (some id) rest = id
return_or none rest = rest

unfoldable pub resolve_target_object_id : List Str → Str → Str
resolve_target_object_id ids target_id =
    if is_empty target_id
    then target_id
    else return_or (find_exact target_id ids) (
        return_or (find_exact (clean_id target_id) ids) (
          return_or (find_exact (canonical_whole target_id) ids)
            (return_or (find_prefix (entity_prefix target_id) ids) target_id)))
