-- ===== src/GraspPlanning/BoxGrasps/Comments.antt =====
-- The comments of the generated grasps: each names its surface and its rotation.
use mathlib.Core.List.{map-append}
use intrinsic_moveit.Prelude.{
  ◌⊎◌, [], ◌∷◌, ℕ, zero, suc, ◌+◌, ◌*◌, ℤ, pos, negsuc, Str, codes, decimal, value_from,
  value_from-decimal, List, ◌++◌, map, drop, length, length-append, Option, none, some, ◌==◌, leb,
  All, All-imp, true, false, if◌then◌else◌, ◌≡◌, refl, ap, arith, inl, inr, decimal_digits,
}
use intrinsic_moveit.Double.{Double}
use intrinsic_moveit.Messages.{Vector3}
use intrinsic_moveit.GraspPlanning.Pipeline.Task.{rotations_to_use, valid_surfaces}
use intrinsic_moveit.GraspPlanning.BoxGrasps.Poses.{
  Rotations, BoxGrasp, comment_of, surface_frame, active_surfaces, grasp_at, frame_grasps,
  rotation_loop, surface_grasps, surface_loop, box_grasps,
}

-- The text before the first `mark`, and from it on.
abbrev pub before : ℕ → Str → Str
before mark [] = []
before mark (c ∷ s) = let rest = before mark s in if c == mark then [] else c ∷ rest

abbrev pub from_mark : ℕ → Str → Str
from_mark mark [] = []
from_mark mark (c ∷ s) = let rest = from_mark mark s in if c == mark then c ∷ s else rest

-- The surface and the rotation that a comment names: the numbers behind "surface_" and "_rot_".
abbrev pub read_comment : Str → ℕ × ℕ
read_comment comment =
    let numbers = drop 8 comment in
    (value_from 0 (before b'_' numbers), value_from 0 (drop 5 (from_mark b'_' numbers)))

abbrev NoMark : ℕ → Str → Type 0
NoMark mark = All (λ (c : ℕ). (c == mark) ≡ false)

before-mark : (mark : ℕ) (s t : Str) → NoMark mark s → before mark (s ++ (mark ∷ t)) ≡ s
before-mark mark [] t h = ground arith
before-mark mark (c ∷ s) t h = rw (h.0) (ap (◌∷◌ c) (before-mark mark s t h.1))

from_mark-mark :
    (mark : ℕ) (s t : Str) → NoMark mark s → from_mark mark (s ++ (mark ∷ t)) ≡ mark ∷ t
from_mark-mark mark [] t h = ground arith
from_mark-mark mark (c ∷ s) t h = rw (h.0) (from_mark-mark mark s t h.1)

read_comment-comment_of : (surface i : ℕ) → read_comment (comment_of surface i) ≡ (surface, i)
unfolding comment_of codes
read_comment-comment_of surface i =
    let digits : NoMark b'_' (decimal surface) =
      All-imp (λ c h. ground arith) (decimal surface) (decimal_digits surface) in
    rw (
      before-mark b'_' (decimal surface) _ digits,
      from_mark-mark b'_' (decimal surface) _ digits,
      value_from-decimal surface,
      value_from-decimal i,
    )

-- Each round of one face, and of each face.
abbrev pub rounds_of : ℕ → ℕ → ℕ → List (ℕ × ℕ)
rounds_of face i zero = []
rounds_of face i (suc n) = (face, i) ∷ rounds_of face (i + 1) n

abbrev pub pairs : List ℕ → ℕ → List (ℕ × ℕ)
pairs [] n = []
pairs (face ∷ faces) n = rounds_of face 0 n ++ pairs faces n

pub length-rounds_of : (face i n : ℕ) → length (rounds_of face i n) ≡ n
length-rounds_of face i zero = refl
length-rounds_of face i (suc n) = omega (arith, length-rounds_of face (i + 1) n)

pub length-pairs : (faces : List ℕ) (n : ℕ) → length (pairs faces n) ≡ length faces * n
length-pairs [] n = omega arith
length-pairs (face ∷ faces) n = grind (
  arith,
  length-append (rounds_of face 0 n) (pairs faces n),
  length-rounds_of face 0 n,
  length-pairs faces n,
)

module _ {W I R C : Type 0} ⦃d : Double W⦄ (rotations : Rotations W I R) (surfaces : List ℤ)
    (num_rotations : ℤ) (dims : Vector3 W) (center : I) (object_frame : Str)
    (pregrasp grasp : Option Str) (state : C) where
  abbrev read : BoxGrasp W C → ℕ × ℕ
  read g = read_comment g.comment

  rotation_loop-rounds_of :
      (surface : ℕ) (frame : Vector3 W × R) (i rounds : ℕ)
      → map read (
          rotation_loop rotations surfaces num_rotations dims center object_frame pregrasp grasp
            state surface frame i rounds)
        ≡ rounds_of surface i rounds
  unfolding rotation_loop grasp_at
  rotation_loop-rounds_of surface (t, r) i zero = refl
  rotation_loop-rounds_of surface (t, r) i (suc rounds) =
      rw (read_comment-comment_of surface i, rotation_loop-rounds_of surface (t, r) (i + 1) rounds)

  -- The switch knows exactly the numbers from 0 to 5.
  surface_frame-cases :
      (n : ℕ)
      → ((frame : Vector3 W × R) × (surface_frame rotations dims n ≡ some frame) × (leb n 5 ≡ true))
        ⊎ ((surface_frame rotations dims n ≡ none) × (leb n 5 ≡ false))
  unfolding surface_frame
  surface_frame-cases zero = inl (_, refl, refl)
  surface_frame-cases (suc zero) = inl (_, refl, refl)
  surface_frame-cases (suc (suc zero)) = inl (_, refl, refl)
  surface_frame-cases (suc (suc (suc zero))) = inl (_, refl, refl)
  surface_frame-cases (suc (suc (suc (suc zero)))) = inl (_, refl, refl)
  surface_frame-cases (suc (suc (suc (suc (suc zero))))) = inl (_, refl, refl)
  surface_frame-cases (suc (suc (suc (suc (suc (suc n)))))) = inr (refl, ground arith)

  surface_loop-pairs :
      (ss : List ℤ)
      → map read (
          surface_loop rotations surfaces num_rotations dims center object_frame pregrasp grasp
            state ss)
        ≡ pairs (valid_surfaces ss) (rotations_to_use num_rotations)
  unfolding surface_loop surface_grasps frame_grasps valid_surfaces
  surface_loop-pairs [] = refl
  surface_loop-pairs (negsuc n ∷ ss) = surface_loop-pairs ss
  surface_loop-pairs (pos n ∷ ss) = elim (surface_frame-cases n) [
    | inl (frame, e, l) ↦
        rw (e, l)
          (rw (
            map-append,
            rotation_loop-rounds_of n frame 0 (rotations_to_use num_rotations),
            surface_loop-pairs ss,
          ))
    | inr (e, l) ↦ rw (e, l) (surface_loop-pairs ss)
  ]

  -- Read back from their comments, the grasps that are generated are one for each face that is
  -- processed, a number from 0 to 5, with each rotation, in this order.
  pub box_grasps-pairs :
      map read
        (box_grasps rotations surfaces num_rotations dims center object_frame pregrasp grasp state)
      ≡ pairs (valid_surfaces (active_surfaces surfaces)) (rotations_to_use num_rotations)
  unfolding box_grasps
  box_grasps-pairs = surface_loop-pairs (active_surfaces surfaces)
