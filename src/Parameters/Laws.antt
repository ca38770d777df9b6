-- ===== src/Parameters/Laws.antt =====
-- What a getter returns after the declarations and the settings.
use intrinsic_moveit.Prelude.{
  [], ◌∷◌, Str, str_eq, List, Option, none, some, Option-cases, Bool, true, false, Bool-cases,
  find?, Dict, lookup, insert, lookup-insert, if◌then◌else◌, ◌≡◌, refl, arith, inl, inr,
}
use intrinsic_moveit.Double.{Double}
use intrinsic_moveit.Parameters.{
  ParameterValue, parameter_double, parameter_bool, parameter_string, parameter_string_array,
  Declaration, same_type, declared_value, accepted, declare_parameters, set_parameters, setting_if,
  as_bool, as_string, as_string_array, get_double_parameter,
}

abbrev pub or_else : {A : Type 0} → Option A → Option A → Option A
or_else none y = y
or_else (some x) y = some x

module _ {W : Type 0} where
  abbrev pub declaration_of : Str → List (Declaration W) → Option (Declaration W)
  declaration_of name ds = find? (λ (d : Declaration W). str_eq d.name name) ds

  -- The last setting of a parameter.
  abbrev pub last_setting : Str → List (Str × Option (ParameterValue W)) → Option (ParameterValue W)
  last_setting name [] = none
  last_setting name ((n, o) ∷ settings) =
      let later = last_setting name settings in if str_eq n name then or_else later o else later

  pub lookup-declared :
      (overrides : Dict (ParameterValue W)) (ds : List (Declaration W)) (name : Str)
      (d : Declaration W) (parameters : Dict (ParameterValue W))
      → declaration_of name ds ≡ some d
      → declare_parameters overrides ds ≡ some parameters
      → (v : ParameterValue W) × (declared_value overrides d ≡ some v)
        × (lookup name parameters ≡ some v)
  unfolding declare_parameters lookup
  lookup-declared overrides [] name d parameters h k = absurd (cc)
  lookup-declared overrides (c ∷ ds) name d parameters h k =
      elim (Option-cases (declared_value overrides c)) [
        | inl e ↦ absurd (cc (rw e at k))
        | inr (v, e) ↦ elim (Option-cases (declare_parameters overrides ds)) [
          | inl f ↦ absurd (cc (rw (e, f) at k))
          | inr (rest, f) ↦
              let q : (c.name, v) ∷ rest ≡ parameters = ground (arith, (rw (e, f) at k)) in
              rw (← q) (elim (Bool-cases (str_eq c.name name)) [
                | inl s ↦ (let r : c ≡ d = ground (arith, (rw s at h)) in (v, rw (← r) e, rw s))
                | inr s ↦ rw s (lookup-declared overrides ds name d rest (rw s at h) f)
              ])
        ]
      ]

  pub lookup-set_parameters :
      (settings : List (Str × Option (ParameterValue W))) (name : Str)
      (parameters : Dict (ParameterValue W))
      → lookup name (set_parameters settings parameters)
        ≡ or_else (last_setting name settings) (lookup name parameters)
  unfolding set_parameters
  lookup-set_parameters [] name parameters = refl
  lookup-set_parameters ((n, none) ∷ settings) name parameters =
      ground (arith, lookup-set_parameters settings name parameters)
  lookup-set_parameters ((n, some v) ∷ settings) name parameters = ground (
    arith,
    lookup-set_parameters settings name (insert n v parameters),
    lookup-insert n name v parameters,
  )

-- The value asked for, or else the one given, or else the default.
abbrev pub chosen : {A : Type 0} → Option A → Option A → A → A
chosen (some x) given default = x
chosen none (some x) default = x
chosen none none default = default

-- A type of parameters: its constructor and its getter.
pub record Kind (W A : Type 0) : Type 0 where
  pub wrap : A → ParameterValue W
  pub get : Option (ParameterValue W) → Option A
  pub get-wrap : (x : A) → get (some (wrap x)) ≡ some x
  pub get-none : get none ≡ none
  pub fits : (x : A) (v : ParameterValue W) → same_type (wrap x) v ≡ true → (y : A) × (v ≡ wrap y)

module _ {W : Type 0} where
  pub bool_fits :
      (x : Bool) (v : ParameterValue W)
      → same_type (parameter_bool x) v ≡ true
      → (y : Bool) × (v ≡ parameter_bool y)
  bool_fits x (parameter_bool y) h = (y, refl)
  bool_fits x _ h = absurd (cc)

  pub string_fits :
      (x : Str) (v : ParameterValue W)
      → same_type (parameter_string x) v ≡ true
      → (y : Str) × (v ≡ parameter_string y)
  string_fits x (parameter_string y) h = (y, refl)
  string_fits x _ h = absurd (cc)

  pub string_array_fits :
      (x : List Str) (v : ParameterValue W)
      → same_type (parameter_string_array x) v ≡ true
      → (y : List Str) × (v ≡ parameter_string_array y)
  string_array_fits x (parameter_string_array y) h = (y, refl)
  string_array_fits x _ h = absurd (cc)

  abbrev pub bool_kind : Kind W Bool
  bool_kind = record {
    wrap = parameter_bool;
    get = as_bool;
    get-wrap = λ x. refl;
    get-none = refl;
    fits = bool_fits;
  }

  abbrev pub string_kind : Kind W Str
  string_kind = record {
    wrap = parameter_string;
    get = as_string;
    get-wrap = λ x. refl;
    get-none = refl;
    fits = string_fits;
  }

  abbrev pub string_array_kind : Kind W (List Str)
  string_array_kind = record {
    wrap = parameter_string_array;
    get = as_string_array;
    get-wrap = λ x. refl;
    get-none = refl;
    fits = string_array_fits;
  }

  -- The value of a typed parameter that is declared, with its override.
  accepted-chosen :
      {A : Type 0} (k : Kind W A) (name : Str) (default : A) (given : Option (ParameterValue W))
      (v : ParameterValue W)
      → accepted
          (record { name = name; default_value = k.wrap default; dynamic_typing = false })
          given
        ≡ some v
      → k.get (some v) ≡ some (chosen none (k.get given) default)
  accepted-chosen k name default none v h =
      let q : k.wrap default ≡ v = ground arith in rw (← q, k.get-none) (k.get-wrap default)
  accepted-chosen k name default (some u) v h = elim (Bool-cases (same_type (k.wrap default) u)) [
    | inr f ↦ absurd (cc (rw f at h))
    | inl f ↦
        let q : u ≡ v = ground (arith, (rw f at h)) in
        let (y, r) = k.fits default u f in rw (← q, r, k.get-wrap y) refl
  ]

  accepted_double :
      ⦃d : Double W⦄ (name : Str) (default : W) (given : Option (ParameterValue W))
      (v : ParameterValue W)
      → accepted
          (record { name = name; default_value = parameter_double default; dynamic_typing = true })
          given
        ≡ some v
      → get_double_parameter (some v) default ≡ get_double_parameter given default
  unfolding get_double_parameter
  accepted_double name default none v h =
      let q : parameter_double default ≡ v = ground arith in rw (← q) refl
  accepted_double name default (some u) v h = let q : u ≡ v = ground arith in rw (← q) refl

module _ {W : Type 0} (overrides : Dict (ParameterValue W)) (ds : List (Declaration W))
    (parameters : Dict (ParameterValue W))
    (declared : declare_parameters overrides ds ≡ some parameters)
    (settings : List (Str × Option (ParameterValue W))) (name : Str) where
  -- The parameter when all is declared and set.
  abbrev pub final : Option (ParameterValue W)
  final = lookup name (set_parameters settings parameters)

  -- A typed parameter is what was set last, or else what an override gives, or else its default.
  pub final-chosen :
      {A : Type 0} (k : Kind W A) (default : A) (o : Option A)
      → declaration_of name ds
        ≡ some (record { name = name; default_value = k.wrap default; dynamic_typing = false })
      → last_setting name settings ≡ setting_if k.wrap o
      → k.get final ≡ some (chosen o (k.get (lookup name overrides)) default)
  final-chosen k default none h l =
      let (v, dv, lv) = lookup-declared overrides ds name _ parameters h declared in
      rw (lookup-set_parameters settings name parameters, l, lv)
        (accepted-chosen k name default (lookup name overrides) v dv)
  final-chosen k default (some x) h l =
      rw (lookup-set_parameters settings name parameters, l) (k.get-wrap x)

  -- A double with dynamic typing, likewise: an override may be an integer, and one of another type
  -- counts as the default.
  pub final_double :
      ⦃d : Double W⦄ (default : W) (o : Option W)
      → declaration_of name ds
        ≡ some (record {
          name = name;
          default_value = parameter_double default;
          dynamic_typing = true;
        })
      → last_setting name settings ≡ setting_if parameter_double o
      → get_double_parameter final default
        ≡ chosen o none (get_double_parameter (lookup name overrides) default)
  unfolding get_double_parameter
  final_double default none h l =
      let (v, dv, lv) = lookup-declared overrides ds name _ parameters h declared in
      rw (lookup-set_parameters settings name parameters, l, lv)
        (accepted_double name default (lookup name overrides) v dv)
  final_double default (some x) h l = rw (lookup-set_parameters settings name parameters, l) refl
