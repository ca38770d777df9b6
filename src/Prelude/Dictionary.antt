-- ===== src/Prelude/Dictionary.antt =====
-- `absl::flat_hash_map` keyed by texts, as an association list whose order stands for the order of
-- iteration, which the library leaves open.
use mathlib.Core.Path.{◌≡◌, refl}
use mathlib.Core.Logic.{inl, inr}
use mathlib.Core.Bool.{Bool, true, false}
use mathlib.Core.Option.{Option, none, some}
use mathlib.Core.List.{List, [], ◌∷◌, map}
use native.Mathlib.Omega.{arith}
use intrinsic_moveit.Prelude.Tests.{if◌then◌else◌, Bool-cases}
use intrinsic_moveit.Prelude.Text.{Str, str_eq, str_eq_refl, str_eq_iff}
use intrinsic_moveit.Prelude.Lists.{All, All-imp}

abbrev pub Dict {ℓ} : Type ℓ → Type ℓ
Dict V = List (Str × V)

module _ {ℓ} {V : Type ℓ} where
  -- `find`
  unfoldable pub lookup : Str → Dict V → Option V
  lookup k [] = none
  lookup k ((j, v) ∷ m) = if str_eq j k then some v else lookup k m

  -- `m[k] = v`
  unfoldable pub insert : Str → V → Dict V → Dict V
  insert k v [] = (k, v) ∷ []
  insert k v ((j, w) ∷ m) = if str_eq j k then (j, v) ∷ m else (j, w) ∷ insert k v m

  -- `erase`
  unfoldable pub erase : Str → Dict V → Dict V
  erase k [] = []
  erase k ((j, w) ∷ m) = if str_eq j k then erase k m else (j, w) ∷ erase k m

  abbrev pub is_some : Option V → Bool
  is_some none = false
  is_some (some v) = true

  -- `contains`
  abbrev pub contains : Str → Dict V → Bool
  contains k m = is_some (lookup k m)

  pub lookup-insert :
      (k j : Str) (v : V) (m : Dict V)
      → lookup j (insert k v m) ≡ (if str_eq k j then some v else lookup j m)
  unfolding lookup insert
  lookup-insert k j v [] = refl
  lookup-insert k j v ((i, w) ∷ m) =
      ground (arith, str_eq_iff k j, str_eq_iff i k, str_eq_iff i j, lookup-insert k j v m)

  pub lookup-erase :
      (k j : Str) (m : Dict V) → lookup j (erase k m) ≡ (if str_eq k j then none else lookup j m)
  unfolding lookup erase
  lookup-erase k j [] = ground arith
  lookup-erase k j ((i, w) ∷ m) =
      ground (arith, str_eq_iff k j, str_eq_iff i k, str_eq_iff i j, lookup-erase k j m)

  contains-cons :
      (k j : Str) (v : V) (m : Dict V) → contains j m ≡ true → contains j ((k, v) ∷ m) ≡ true
  unfolding lookup
  contains-cons k j v m h = ground arith

  -- Every key of the dictionary is found in it.
  pub keys-contains : (m : Dict V) → All (λ k. contains k m ≡ true) (map (λ e. e.0) m)
  unfolding lookup
  keys-contains [] = tt
  keys-contains ((k, v) ∷ m) = (
    ground (arith, str_eq_refl k),
    All-imp (λ j h. contains-cons k j v m h) (map (λ e. e.0) m) (keys-contains m),
  )

  -- The key is not in the dictionary.
  abbrev pub Fresh : Str → Dict V → Type 0
  Fresh k m = All (λ e. str_eq k e.0 ≡ false) m

  -- No key occurs twice.
  abbrev pub Unique : Dict V → Type 0
  Unique [] = Unit
  Unique ((k, v) ∷ m) = Fresh k m × Unique m

  Fresh-insert :
      (j k : Str) (v : V) (m : Dict V) → str_eq j k ≡ false → Fresh j m → Fresh j (insert k v m)
  unfolding insert
  Fresh-insert j k v [] n f = (n, tt)
  Fresh-insert j k v ((i, w) ∷ m) n f = elim (Bool-cases (str_eq i k)) [
    | inl e ↦ rw e f
    | inr e ↦ rw e (f.0, Fresh-insert j k v m n f.1)
  ]

  pub Unique-insert : (k : Str) (v : V) (m : Dict V) → Unique m → Unique (insert k v m)
  unfolding insert
  Unique-insert k v [] u = (tt, tt)
  Unique-insert k v ((i, w) ∷ m) u = elim (Bool-cases (str_eq i k)) [
    | inl e ↦ rw e u
    | inr e ↦ rw e (Fresh-insert i k v m e u.0, Unique-insert k v m u.1)
  ]

  Fresh-erase : (j k : Str) (m : Dict V) → Fresh j m → Fresh j (erase k m)
  unfolding erase
  Fresh-erase j k [] f = tt
  Fresh-erase j k ((i, w) ∷ m) f = elim (Bool-cases (str_eq i k)) [
    | inl e ↦ rw e (Fresh-erase j k m f.1)
    | inr e ↦ rw e (f.0, Fresh-erase j k m f.1)
  ]

  pub Unique-erase : (k : Str) (m : Dict V) → Unique m → Unique (erase k m)
  unfolding erase
  Unique-erase k [] u = tt
  Unique-erase k ((i, w) ∷ m) u = elim (Bool-cases (str_eq i k)) [
    | inl e ↦ rw e (Unique-erase k m u.1)
    | inr e ↦ rw e (Fresh-erase i k m u.0, Unique-erase k m u.1)
  ]
