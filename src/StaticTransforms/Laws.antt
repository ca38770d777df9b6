-- ===== src/StaticTransforms/Laws.antt =====
-- The tree of frames after PublishStaticTransforms.
use intrinsic_moveit.Prelude.{
  Str, codes, str_eq, text_or_default, text_or_default-ne, List, [], ◌∷◌, ◌++◌, All, some, true,
  Bool-cases, ◌≡◌, ◌≢◌, refl, inl, inr, if◌then◌else◌,
}
use intrinsic_moveit.Double.{Double}
use intrinsic_moveit.SceneSync.World.{TransformStamped}
use intrinsic_moveit.StaticTransforms.{
  StaticTransformsConfig, static_transform, world_root_tf, robot_base_tf, publish_static_transforms,
}

module _ {W : Type 0} where
  -- The frames that a message makes the parent of `child`.
  abbrev pub message_parents : Str → List (TransformStamped W) → List Str
  message_parents child [] = []
  message_parents child (t ∷ ts) =
      let rest = message_parents child ts in
      if str_eq t.child_frame_id child then t.frame_id ∷ rest else rest

  abbrev pub parents : Str → List (List (TransformStamped W)) → List Str
  parents child [] = []
  parents child (m ∷ ms) = message_parents child m ++ parents child ms

  -- The parents of the two frames are as configured, and no message is empty or has an unnamed frame.
  pub record IsBridge (config : StaticTransformsConfig)
      (messages : List (List (TransformStamped W))) : Type 0 where
    pub root_parents : parents (codes "root") messages ≡ (
        if config.publish_world_root_tf
        then text_or_default config.world_frame (codes "world") ∷ []
        else [])
    pub base_parents : parents (codes "base_link") messages ≡ (
        if config.publish_robot_base_tf
        then text_or_default config.robot_base_frame (codes "ur_module/base_link") ∷ []
        else [])
    pub no_empty : All (λ (m : List (TransformStamped W)). m ≢ []) messages
    pub named :
        All
          (λ (m : List (TransformStamped W)). All (λ (t : TransformStamped W). t.frame_id ≢ []) m)
          messages

module _ {W : Type 0} ⦃d : Double W⦄ where
  -- With a node, the broadcast gives root and base_link one parent each where their transforms are
  -- configured, the configured frame or the default if its name is empty, and none otherwise; it
  -- sends no empty message and no frame without a name.
  pub publish_static_transforms-IsBridge :
      (config : StaticTransformsConfig)
      → (messages : List (List (TransformStamped W))) × (publish_static_transforms true config
          ≡ some messages)
        × IsBridge config messages
  unfolding publish_static_transforms world_root_tf robot_base_tf static_transform codes str_eq
  publish_static_transforms-IsBridge config =
      let world = text_or_default-ne config.world_frame (codes "world") (λ e. absurd (cc)) in
      let base =
        text_or_default-ne config.robot_base_frame (codes "ur_module/base_link")
          (λ e. absurd (cc)) in
      elim (Bool-cases config.publish_world_root_tf) [
        | inl w ↦ elim (Bool-cases config.publish_robot_base_tf) [
          | inl b ↦
              rw (w, b)
                (
                  _,
                  refl,
                  record {
                    root_parents = refl;
                    base_parents = refl;
                    no_empty = ((λ e. absurd (cc)), tt);
                    named = ((world, (base, tt)), tt);
                  },
                )
          | inr b ↦
              rw (w, b)
                (
                  _,
                  refl,
                  record {
                    root_parents = refl;
                    base_parents = refl;
                    no_empty = ((λ e. absurd (cc)), tt);
                    named = ((world, tt), tt);
                  },
                )
        ]
        | inr w ↦ elim (Bool-cases config.publish_robot_base_tf) [
          | inl b ↦
              rw (w, b)
                (
                  _,
                  refl,
                  record {
                    root_parents = refl;
                    base_parents = refl;
                    no_empty = ((λ e. absurd (cc)), tt);
                    named = ((base, tt), tt);
                  },
                )
          | inr b ↦
              rw (w, b)
                (
                  _,
                  refl,
                  record { root_parents = refl; base_parents = refl; no_empty = tt; named = tt },
                )
        ]
      ]
