-- ===== src/GraspPlanning/SceneQuery/Laws.antt =====
-- The two queries of the scene, and the resolution of a target between them.
use mathlib.Core.List.{Memᴰ}
use intrinsic_moveit.Prelude.{
  ◌≢◌, ◌||◌, ℤ, Str, str_eq, str_eq_iff, find?, map, List, [], ◌∷◌, some, Bool-cases, ◌≡◌, false,
  refl, arith, inl, inr, subst,
}
use intrinsic_moveit.SceneSync.World.{CollisionObject}
use intrinsic_moveit.GraspPlanning.TargetId.Laws.{resolve-ne}
use intrinsic_moveit.GraspPlanning.TargetId.{resolve_target_object_id}
use intrinsic_moveit.GraspPlanning.SceneQuery.{
  PlanningSceneClient, objects, world_object_names, world_object_geometry, find_object, ids_of,
  get_planning_scene_object_ids, get_planning_scene_collision_object,
}

module _ {W : Type 0} where
  found_of :
      (os : List (CollisionObject W)) (id : Str)
      → Memᴰ id (map (λ (o : CollisionObject W). o.id) os)
      → (o : CollisionObject W) × (find? (λ (x : CollisionObject W). str_eq x.id id) os ≡ some o)
        × (o.id ≡ id)
  found_of [] id m = elim m [ ]
  found_of (o ∷ os) id m = elim (Bool-cases (str_eq o.id id)) [
    | inl e ↦ rw e (o, refl, (str_eq_iff o.id id).0 e)
    | inr e ↦ rw e (found_of os id (below o os id e m))
  ]
    where
      below :
          (o : CollisionObject W) (os : List (CollisionObject W)) (id : Str)
          → str_eq o.id id ≡ false
          → Memᴰ id (o.id ∷ map (λ (x : CollisionObject W). x.id) os)
          → Memᴰ id (map (λ (x : CollisionObject W). x.id) os)
      below o os id e (Memᴰ.head q) = absurd (ground (arith, str_eq_iff o.id id, q))
      below o os id e (Memᴰ.tail m) = m

  -- The IDs of the objects, which is all that an answer without geometry tells.
  abbrev pub object_ids : List (CollisionObject W) → List Str
  object_ids = map (λ (o : CollisionObject W). o.id)

  get_planning_scene_collision_object-some :
      (client : PlanningSceneClient W) (timeout : ℤ) (ns os : List (CollisionObject W)) (id : Str)
      → client.send_request world_object_names timeout ≡ objects ns
      → client.send_request world_object_geometry timeout ≡ objects os
      → object_ids ns ≡ object_ids os
      → Memᴰ id (get_planning_scene_object_ids (some client) timeout)
      → (o : CollisionObject W) × (get_planning_scene_collision_object (some client) id timeout
          ≡ some o)
        × (o.id ≡ id)
  unfolding get_planning_scene_object_ids get_planning_scene_collision_object find_object ids_of
  get_planning_scene_collision_object-some client timeout ns os id names geometry same m =
      elim (Bool-cases (client.service_is_ready || client.wait_for_service timeout)) [
        | inl e ↦ rw (e, geometry) (found_of os id (subst (Memᴰ id) same (rw (e, names) at m)))
        | inr e ↦ elim (rw e at m) [ ]
      ]

  -- If the scene answers both queries, the first with the names and the second with the geometry of
  -- objects of the same IDs, and the first query's IDs resolve the target to another ID, then the
  -- second query finds a collision object with that ID.
  pub resolve_target_object_id-found :
      (client : PlanningSceneClient W) (timeout : ℤ) (ns os : List (CollisionObject W))
      (target : Str)
      → client.send_request world_object_names timeout ≡ objects ns
      → client.send_request world_object_geometry timeout ≡ objects os
      → object_ids ns ≡ object_ids os
      → resolve_target_object_id (get_planning_scene_object_ids (some client) timeout) target
        ≢ target
      → (o : CollisionObject W) × (get_planning_scene_collision_object
            (some client)
            (resolve_target_object_id (get_planning_scene_object_ids (some client) timeout) target)
            timeout
          ≡ some o)
        × (o.id
            ≡ resolve_target_object_id (get_planning_scene_object_ids (some client) timeout) target)
  resolve_target_object_id-found client timeout ns os target names geometry same n =
      get_planning_scene_collision_object-some client timeout ns os _ names geometry same
        (resolve-ne (get_planning_scene_object_ids (some client) timeout) target n)
