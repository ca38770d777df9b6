-- ===== src/GraspPlanning/BoxGrasps/Turns.antt =====
-- Turns by quarters about the axes, and isometries made of them: an exact arithmetic for tests.
use intrinsic_moveit.Prelude.{
  ℤ, pos, negsuc, Bool, leb_ℤ, ◌&&◌, if◌then◌else◌, ◌-ℤ◌, ◌+ℤ◌, ◌≡◌, refl, arith,
}
use intrinsic_moveit.Double.{milli_double}
use intrinsic_moveit.Messages.{Vector3, Quaternion}
use intrinsic_moveit.GraspPlanning.BoxGrasps.Poses.{Rotations, Axis, unit_x, unit_y, unit_z}
use intrinsic_moveit.GraspPlanning.BoxGrasps.Faces.{IsExact}

abbrev pub TurnMap : Type 0
TurnMap = Vector3 ℤ → Vector3 ℤ

pub data Turn : Type 0 where
  quarter back half_turn still : Turn

abbrev pub same_ℤ : ℤ → ℤ → Bool
same_ℤ a b = leb_ℤ a b && leb_ℤ b a

pub turn_of : ℤ → Turn
turn_of t =
    if same_ℤ t (pos 1570)
    then quarter
    else if same_ℤ t (negsuc 1569)
    then back
    else if same_ℤ t (pos 3141)
    then half_turn
    else still

abbrev pub sin_turn : Turn → ℤ
sin_turn quarter = pos 1000
sin_turn back = negsuc 999
sin_turn half_turn = pos 0
sin_turn still = pos 0

abbrev pub cos_turn : Turn → ℤ
cos_turn quarter = pos 0
cos_turn back = pos 0
cos_turn half_turn = negsuc 999
cos_turn still = pos 1000

abbrev pub opposite : ℤ → ℤ
opposite x = pos 0 -ℤ x

abbrev pub turned : Turn → Axis → TurnMap
turned quarter unit_x v = record { x = v.x; y = opposite v.z; z = v.y }
turned quarter unit_y v = record { x = v.z; y = v.y; z = opposite v.x }
turned quarter unit_z v = record { x = opposite v.y; y = v.x; z = v.z }
turned back unit_x v = record { x = v.x; y = v.z; z = opposite v.y }
turned back unit_y v = record { x = opposite v.z; y = v.y; z = v.x }
turned back unit_z v = record { x = v.y; y = opposite v.x; z = v.z }
turned half_turn unit_x v = record { x = v.x; y = opposite v.y; z = opposite v.z }
turned half_turn unit_y v = record { x = opposite v.x; y = v.y; z = opposite v.z }
turned half_turn unit_z v = record { x = opposite v.x; y = opposite v.y; z = v.z }
turned still axis v = v

abbrev pub zero_vector : Vector3 ℤ
zero_vector = record { x = pos 0; y = pos 0; z = pos 0 }

abbrev pub upright : Quaternion ℤ
upright = record { x = pos 0; y = pos 0; z = pos 0; w = pos 1000 }

abbrev pub plus : Vector3 ℤ → Vector3 ℤ → Vector3 ℤ
plus v w = record { x = v.x +ℤ w.x; y = v.y +ℤ w.y; z = v.z +ℤ w.z }

abbrev pub Isometry : Type 0
Isometry = Vector3 ℤ × TurnMap

-- Quaternions are left out: a pose shows where a grasp stands.
abbrev pub turns : Rotations ℤ Isometry TurnMap
turns = record {
  transforms = record {
    isometries = record {
      identity = (zero_vector, λ v. v);
      with_translation = λ i v. (v, i.1);
      with_rotation = λ i q. i;
      squared_norm = λ q. pos 1000;
      apply = λ i v. plus i.0 (i.1 v);
      infinity = pos 1000000;
      minus_infinity = negsuc 999999;
    };
    compose = λ i j. (plus i.0 (i.1 j.0), λ v. i.1 (j.1 v));
    inverse = λ i. i;
    translation = λ i. i.0;
    rotation = λ i. upright;
  };
  angle_axis = λ t axis. turned (turn_of t) axis;
  identity_matrix = λ v. v;
  times = λ r q v. r (q v);
  with_linear = λ i r. (i.0, r);
}

about_x :
    (u : Turn)
    → turned u unit_x (record { x = pos 0; y = pos 0; z = pos 1000 })
      ≡ record { x = pos 0; y = opposite (sin_turn u); z = cos_turn u }
about_x quarter = refl
about_x back = refl
about_x half_turn = refl
about_x still = refl

about_y :
    (u : Turn)
    → turned u unit_y (record { x = pos 0; y = pos 0; z = pos 1000 })
      ≡ record { x = sin_turn u; y = pos 0; z = cos_turn u }
about_y quarter = refl
about_y back = refl
about_y half_turn = refl
about_y still = refl

about_z :
    (u : Turn)
    → turned u unit_z (record { x = pos 0; y = pos 0; z = pos 1000 })
      ≡ record { x = pos 0; y = pos 0; z = pos 1000 }
about_z quarter = refl
about_z back = refl
about_z half_turn = refl
about_z still = refl

pub turns-IsExact :
    IsExact turns (λ r v. r v) (λ i. i.1) (λ t. sin_turn (turn_of t)) (λ t. cos_turn (turn_of t))
unfolding turn_of
turns-IsExact = record {
  rotate-times = λ r q v. refl;
  rotate-identity = λ v. refl;
  about_x = λ t. about_x (turn_of t);
  about_y = λ t. about_y (turn_of t);
  about_z = λ t. about_z (turn_of t);
  sin-half_pi = refl;
  cos-half_pi = refl;
  sin-half-minus_pi = refl;
  cos-half-minus_pi = refl;
  sin-pi = refl;
  cos-pi = refl;
  minus-minus = λ x. ground arith;
  minus-nought = refl;
  translation_of = λ i v r. refl;
  linear_of = λ i r. refl;
}
