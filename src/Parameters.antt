-- ===== src/Parameters.antt =====
-- ROS parameters as moveit_planning_service/src/moveit_planning_node.cpp uses them: their values, how
-- rclcpp declares and sets them, the getters that throw at another type, and get_double_parameter.
pub mod Laws
use intrinsic_moveit.Prelude.{
  ℤ, Str, str_eq, List, [], ◌∷◌, Option, none, some, Bool, true, false, ◌||◌, Dict, lookup, insert,
  if◌then◌else◌,
}
use intrinsic_moveit.Double.{Double}

pub data ParameterValue (W : Type 0) : Type 0 where
  parameter_double : W → ParameterValue W
  parameter_integer : ℤ → ParameterValue W
  parameter_bool : Bool → ParameterValue W
  parameter_string : Str → ParameterValue W
  parameter_string_array : List Str → ParameterValue W
  parameter_other : ParameterValue W

module _ {W : Type 0} ⦃d : Double W⦄ where
  -- `none` is a parameter that the node does not have.
  unfoldable pub get_double_parameter : Option (ParameterValue W) → W → W
  get_double_parameter none default_value = default_value
  get_double_parameter (some (parameter_double x)) default_value = x
  get_double_parameter (some (parameter_integer n)) default_value = d.of_int n
  get_double_parameter (some _) default_value = default_value

-- A call of declare_parameter: with dynamic typing the value of an override may have any type.
pub record Declaration (W : Type 0) : Type 0 where
  pub name : Str
  pub default_value : ParameterValue W
  pub dynamic_typing : Bool

module _ {W : Type 0} where
  abbrev pub same_type : ParameterValue W → ParameterValue W → Bool
  same_type (parameter_double _) (parameter_double _) = true
  same_type (parameter_integer _) (parameter_integer _) = true
  same_type (parameter_bool _) (parameter_bool _) = true
  same_type (parameter_string _) (parameter_string _) = true
  same_type (parameter_string_array _) (parameter_string_array _) = true
  same_type _ _ = false

  -- The value of the declared parameter, with its override from the command line or the options;
  -- `none` is the exception for a type that does not fit.
  abbrev pub accepted : Declaration W → Option (ParameterValue W) → Option (ParameterValue W)
  accepted declaration none = some declaration.default_value
  accepted declaration (some v) =
      if declaration.dynamic_typing || same_type declaration.default_value v then some v else none

  abbrev pub declared_value : Dict (ParameterValue W) → Declaration W → Option (ParameterValue W)
  declared_value overrides declaration = accepted declaration (lookup declaration.name overrides)

  abbrev pub and_declared :
      Str
      → Option (ParameterValue W)
      → Option (Dict (ParameterValue W))
      → Option (Dict (ParameterValue W))
  and_declared name none rest = none
  and_declared name (some v) none = none
  and_declared name (some v) (some rest) = some ((name, v) ∷ rest)

  unfoldable pub declare_parameters :
      Dict (ParameterValue W) → List (Declaration W) → Option (Dict (ParameterValue W))
  declare_parameters overrides [] = some []
  declare_parameters overrides (d ∷ ds) =
      and_declared d.name (declared_value overrides d) (declare_parameters overrides ds)

  -- The value of a setting that is made if a field is there.
  abbrev pub setting_if :
      {A : Type 0} → (A → ParameterValue W) → Option A → Option (ParameterValue W)
  setting_if wrap none = none
  setting_if wrap (some x) = some (wrap x)

  -- set_parameter for each setting that is there.
  unfoldable pub set_parameters :
      List (Str × Option (ParameterValue W)) → Dict (ParameterValue W) → Dict (ParameterValue W)
  set_parameters [] parameters = parameters
  set_parameters ((name, none) ∷ settings) parameters = set_parameters settings parameters
  set_parameters ((name, some v) ∷ settings) parameters =
      set_parameters settings (insert name v parameters)

  -- get_parameter(name).as_bool() and the like; `none` is an exception.
  abbrev pub as_bool : Option (ParameterValue W) → Option Bool
  as_bool (some (parameter_bool b)) = some b
  as_bool _ = none

  abbrev pub as_string : Option (ParameterValue W) → Option Str
  as_string (some (parameter_string s)) = some s
  as_string _ = none

  abbrev pub as_string_array : Option (ParameterValue W) → Option (List Str)
  as_string_array (some (parameter_string_array ss)) = some ss
  as_string_array _ = none

  abbrev pub as_double : Option (ParameterValue W) → Option W
  as_double (some (parameter_double x)) = some x
  as_double _ = none
