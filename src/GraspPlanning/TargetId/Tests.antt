-- ===== src/GraspPlanning/TargetId/Tests.antt =====
-- Runs of ResolveTargetObjectId, and its theorems at concrete scenes.
use intrinsic_moveit.Prelude.{Str, codes, str_eq, starts_with, List, [], ◌∷◌, ◌≡◌, refl}
use intrinsic_moveit.GraspPlanning.TargetId.{
  clean_id, canonical_whole, entity_prefix, resolve_target_object_id,
}
use intrinsic_moveit.GraspPlanning.TargetId.Laws.{IsResolution, resolve-IsResolution}

abbrev scene : List Str
scene = codes "table" ∷ codes "block/left" ∷ codes "block/whole" ∷ []

canonical_first : resolve_target_object_id scene (codes "/block") ≡ codes "block/whole"
unfolding resolve_target_object_id clean_id canonical_whole entity_prefix codes str_eq starts_with
canonical_first = refl

resolve-IsResolution_example : IsResolution scene (codes "/block") (codes "block/whole")
unfolding resolve_target_object_id clean_id canonical_whole entity_prefix codes str_eq starts_with
resolve-IsResolution_example = resolve-IsResolution scene (codes "/block")
