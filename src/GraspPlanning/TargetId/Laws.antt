-- ===== src/GraspPlanning/TargetId/Laws.antt =====
-- ResolveTargetObjectId against its documented order of priorities.
use mathlib.Core.List.{Memᴰ}
use intrinsic_moveit.Prelude.{
  Bool-cases, slash, codes, ◌==◌, ◌++◌, find?, Str, str_eq, str_eq_iff, str_eq_refl, starts_with,
  find?-Memᴰ, find?-none, find?-some_of_Memᴰ, All, All-Memᴰ, List, [], ◌∷◌, none, some,
  Option-cases, false, true, ◌≡◌, ◌≢◌, refl, sym, ◌∙◌, inl, inr, ◌⊎◌, arith, false≢true,
}
use intrinsic_moveit.GraspPlanning.TargetId.{
  clean_id, canonical_whole, entity_prefix, find_exact, find_prefix, return_or,
  resolve_target_object_id,
}

find_exact-some :
    (name : Str) (ids : List Str) (id : Str)
    → find_exact name ids ≡ some id
    → (id ≡ name) × Memᴰ id ids
find_exact-some name ids id e =
    let (m, t) = find?-Memᴰ (λ i. str_eq i name) ids id e in ((str_eq_iff id name).0 t, m)

find_exact-none : (name : Str) (ids : List Str) → find_exact name ids ≡ none → ¬ Memᴰ name ids
find_exact-none name ids e m =
    false≢true (
      sym (All-Memᴰ (λ i. str_eq i name ≡ false) ids name (find?-none _ ids e) m)
      ∙ str_eq_refl name)

-- `bare` is the target less one leading slash, if it has one.
abbrev pub IsBare : Str → Str → Type 0
IsBare target bare = (target ≡ slash ∷ bare) ⊎ ((target ≡ bare) × ((s : Str) → target ≢ slash ∷ s))

-- The documented order: each way to resolve is open only where the ones before it failed.
pub data Resolves (ids : List Str) (target bare id : Str) : Type 0 where
  empty_target : target ≡ [] → id ≡ target → Resolves ids target bare id
  exact : target ≢ [] → id ≡ target → Memᴰ id ids → Resolves ids target bare id
  stripped : ¬ Memᴰ target ids → id ≡ bare → Memᴰ id ids → Resolves ids target bare id
  whole :
      ¬ Memᴰ target ids
      → ¬ Memᴰ bare ids
      → id ≡ bare ++ codes "/whole"
      → Memᴰ id ids
      → Resolves ids target bare id
  entity :
      ¬ Memᴰ target ids
      → ¬ Memᴰ bare ids
      → ¬ Memᴰ (bare ++ codes "/whole") ids
      → find? (λ i. starts_with i (bare ++ codes "/")) ids ≡ some id
      → starts_with id (bare ++ codes "/") ≡ true
      → Memᴰ id ids
      → Resolves ids target bare id
  unknown :
      ¬ Memᴰ target ids
      → ¬ Memᴰ bare ids
      → ¬ Memᴰ (bare ++ codes "/whole") ids
      → All (λ i. starts_with i (bare ++ codes "/") ≡ false) ids
      → id ≡ target
      → Resolves ids target bare id

-- The resolution of a target, with its name less the slash.
abbrev pub IsResolution : List Str → Str → Str → Type 0
IsResolution ids target id = (bare : Str) × IsBare target bare × Resolves ids target bare id

clean_id-IsBare : (t : Str) → IsBare t (clean_id t)
unfolding clean_id
clean_id-IsBare [] = inr (refl, λ s. λ e. ground arith)
clean_id-IsBare (c ∷ s) = elim (Bool-cases (c == slash)) [
  | inl e ↦ rw e (inl (ground arith))
  | inr e ↦ rw e (inr (refl, λ r. λ q. ground arith))
]

module _ (ids : List Str) (t : Str) (no_exact : ¬ Memᴰ t ids) where
  Resolves-entity :
      ¬ Memᴰ (clean_id t) ids
      → ¬ Memᴰ (canonical_whole t) ids
      → Resolves ids t (clean_id t) (return_or (find_prefix (entity_prefix t) ids) t)
  unfolding canonical_whole entity_prefix
  Resolves-entity h k = elim (Option-cases (find_prefix (entity_prefix t) ids)) [
    | inl e ↦ rw e (unknown no_exact h k (find?-none _ ids e) refl)
    | inr (id, e) ↦ let (m, s) = find?-Memᴰ _ ids id e in rw e (entity no_exact h k e s m)
  ]

  Resolves-whole :
      ¬ Memᴰ (clean_id t) ids
      → Resolves ids t (clean_id t) (
          return_or
            (find_exact (canonical_whole t) ids)
            (return_or (find_prefix (entity_prefix t) ids) t))
  unfolding canonical_whole entity_prefix
  Resolves-whole h = elim (Option-cases (find_exact (canonical_whole t) ids)) [
    | inl e ↦ rw e (Resolves-entity h (find_exact-none _ ids e))
    | inr (id, e) ↦
        let (q, m) = find_exact-some (canonical_whole t) ids id e in rw e (whole no_exact h q m)
  ]

  Resolves-stripped : Resolves ids t (clean_id t) (
      return_or (find_exact (clean_id t) ids) (
        return_or
          (find_exact (canonical_whole t) ids)
          (return_or (find_prefix (entity_prefix t) ids) t)))
  unfolding canonical_whole entity_prefix
  Resolves-stripped = elim (Option-cases (find_exact (clean_id t) ids)) [
    | inl e ↦ rw e (Resolves-whole (find_exact-none _ ids e))
    | inr (id, e) ↦
        let (q, m) = find_exact-some (clean_id t) ids id e in rw e (stripped no_exact q m)
  ]

resolve_clean :
    (ids : List Str) (t : Str) → Resolves ids t (clean_id t) (resolve_target_object_id ids t)
unfolding resolve_target_object_id
resolve_clean ids [] = empty_target refl refl
resolve_clean ids (c ∷ s) = elim (Option-cases (find_exact (c ∷ s) ids)) [
  | inl e ↦ rw e (Resolves-stripped ids (c ∷ s) (find_exact-none (c ∷ s) ids e))
  | inr (id, e) ↦ let (q, m) = find_exact-some (c ∷ s) ids id e in rw e (exact (ground arith) q m)
]

-- Whatever the scene and the target, the ID returned is the one that the documented order of
-- priorities gives: the target itself if empty or present, else the target less a leading slash,
-- else that with "/whole", else the first ID below it, else the target unchanged; each only where
-- no earlier way applies.
pub resolve-IsResolution :
    (ids : List Str) (t : Str) → IsResolution ids t (resolve_target_object_id ids t)
resolve-IsResolution ids t = (clean_id t, clean_id-IsBare t, resolve_clean ids t)

resolve_of_Memᴰ : (ids : List Str) (id : Str) → Memᴰ id ids → resolve_target_object_id ids id ≡ id
unfolding resolve_target_object_id
resolve_of_Memᴰ ids [] m = refl
resolve_of_Memᴰ ids (c ∷ s) m =
    let (b, e, t) =
      find?-some_of_Memᴰ (λ i. str_eq i (c ∷ s)) ids (c ∷ s) m (str_eq_refl (c ∷ s)) in
    rw e ((str_eq_iff b (c ∷ s)).0 t)

resolve-known :
    (ids : List Str) (t b : Str) (id : Str) → Resolves ids t b id → Memᴰ id ids ⊎ (id ≡ t)
resolve-known ids t b id (empty_target _ e) = inr e
resolve-known ids t b id (exact _ _ m) = inl m
resolve-known ids t b id (stripped _ _ m) = inl m
resolve-known ids t b id (whole _ _ _ m) = inl m
resolve-known ids t b id (entity _ _ _ _ _ m) = inl m
resolve-known ids t b id (unknown _ _ _ _ e) = inr e

-- Resolving a resolved ID against the same scene changes nothing.
pub resolve_idem :
    (ids : List Str) (t : Str)
    → resolve_target_object_id ids (resolve_target_object_id ids t) ≡ resolve_target_object_id ids t
resolve_idem ids t = elim (resolve-known ids t _ _ (resolve_clean ids t)) [
  | inl m ↦ resolve_of_Memᴰ ids _ m
  | inr e ↦ rw (e, e)
]

pub resolve-ne :
    (ids : List Str) (t : Str)
    → resolve_target_object_id ids t ≢ t
    → Memᴰ (resolve_target_object_id ids t) ids
resolve-ne ids t n = elim (resolve-known ids t _ _ (resolve_clean ids t)) [
  | inl m ↦ m
  | inr e ↦ absurd (n e)
]
