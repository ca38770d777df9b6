-- ===== src/PlanningNode/Action/Sort.antt =====
-- The std::sort of execute_plan_grasps_action, by falling grasp_quality. Where qualities are equal
-- C++ leaves the order open, and no theorem uses it.
use mathlib.Core.List.{Perm}
use mathlib.Core.List.Perm
use intrinsic_moveit.Prelude.{
  refl, ◌++◌, List, [], ◌∷◌, Bool, Bool-cases, inl, inr, if◌then◌else◌, All, ◌≡◌, false, true,
  All-imp, All-append_parts, is_empty, arith,
}
use intrinsic_moveit.Double.{Double, IsOrdered}
use intrinsic_moveit.Messages.{RankedGrasp}

module _ {W : Type 0} ⦃d : Double W⦄ where
  -- The comparator: lhs.grasp.grasp_quality > rhs.grasp.grasp_quality.
  abbrev pub better : RankedGrasp W → RankedGrasp W → Bool
  better a b = d.lt b.grasp.grasp_quality a.grasp.grasp_quality

  insert_sorted : RankedGrasp W → List (RankedGrasp W) → List (RankedGrasp W)
  insert_sorted g [] = g ∷ []
  insert_sorted g (h ∷ hs) = if better h g then h ∷ insert_sorted g hs else g ∷ h ∷ hs

  unfoldable pub sort_by_quality : List (RankedGrasp W) → List (RankedGrasp W)
  unfolding insert_sorted
  sort_by_quality [] = []
  sort_by_quality (g ∷ gs) = insert_sorted g (sort_by_quality gs)

  insert_sorted-perm :
      (g : RankedGrasp W) (hs : List (RankedGrasp W)) → Perm (insert_sorted g hs) (g ∷ hs)
  unfolding insert_sorted
  insert_sorted-perm g [] = Perm.refl _
  insert_sorted-perm g (h ∷ hs) = elim (Bool-cases (better h g)) [
    | inl e ↦ rw e (Perm.trans (Perm.cons h (insert_sorted-perm g hs)) (Perm.swap g h hs))
    | inr e ↦ rw e (Perm.refl _)
  ]

  pub sort-perm : (gs : List (RankedGrasp W)) → Perm (sort_by_quality gs) gs
  unfolding sort_by_quality
  sort-perm [] = Perm.refl _
  sort-perm (g ∷ gs) = Perm.trans (insert_sorted-perm g _) (Perm.cons g (sort-perm gs))

  pub is_empty-sort : (gs : List (RankedGrasp W)) → is_empty (sort_by_quality gs) ≡ is_empty gs
  unfolding sort_by_quality insert_sorted
  is_empty-sort [] = refl
  is_empty-sort (g ∷ gs) = is_empty-insert (sort_by_quality gs)
    where
      is_empty-insert : (hs : List (RankedGrasp W)) → is_empty (insert_sorted g hs) ≡ false
      is_empty-insert [] = refl
      is_empty-insert (h ∷ hs) = ground arith

  -- The best grasp first: none is better than one before it.
  abbrev pub IsDescending : List (RankedGrasp W) → Type 0
  IsDescending [] = Unit
  IsDescending (g ∷ gs) = All (λ h. better h g ≡ false) gs × IsDescending gs

  abbrev pub AllNumbers : List (RankedGrasp W) → Type 0
  AllNumbers = All (λ g. d.le g.grasp.grasp_quality g.grasp.grasp_quality ≡ true)

  insert_sorted-All :
      (P : RankedGrasp W → Type 0) (g : RankedGrasp W) (hs : List (RankedGrasp W))
      → P g
      → All P hs
      → All P (insert_sorted g hs)
  unfolding insert_sorted
  insert_sorted-All P g [] p ps = (p, tt)
  insert_sorted-All P g (h ∷ hs) p ps = elim (Bool-cases (better h g)) [
    | inl e ↦ rw e (ps.0, insert_sorted-All P g hs p ps.1)
    | inr e ↦ rw e (p, ps)
  ]

  sort-All :
      (P : RankedGrasp W → Type 0) (gs : List (RankedGrasp W))
      → All P gs
      → All P (sort_by_quality gs)
  unfolding sort_by_quality
  sort-All P [] ps = tt
  sort-All P (g ∷ gs) ps = insert_sorted-All P g _ ps.0 (sort-All P gs ps.1)

  module _ (laws : IsOrdered W) where
    open laws use {lt_asym, not_lt_trans}

    insert_sorted-IsDescending :
        (g : RankedGrasp W) (hs : List (RankedGrasp W))
        → AllNumbers hs
        → IsDescending hs
        → IsDescending (insert_sorted g hs)
    unfolding insert_sorted
    insert_sorted-IsDescending g [] n s = (tt, tt)
    insert_sorted-IsDescending g (h ∷ hs) n s = elim (Bool-cases (better h g)) [
      | inl e ↦ rw e (
        insert_sorted-All (λ x. better x h ≡ false) g hs (lt_asym _ _ e) s.0,
        insert_sorted-IsDescending g hs n.1 s.1,
      )
      | inr e ↦ rw e ((e, All-imp (λ x p. not_lt_trans _ _ _ n.0 e p) hs s.0), s)
    ]

    pub sort-IsDescending :
        (gs : List (RankedGrasp W)) → AllNumbers gs → IsDescending (sort_by_quality gs)
    unfolding sort_by_quality
    sort-IsDescending [] n = tt
    sort-IsDescending (g ∷ gs) n =
        insert_sorted-IsDescending g _ (sort-All _ gs n.1) (sort-IsDescending gs n.1)

  -- A cut of a descending list: no entry behind it is better than one before it.
  pub IsDescending-append :
      (xs ys : List (RankedGrasp W))
      → IsDescending (xs ++ ys)
      → IsDescending xs × All (λ x. All (λ y. better y x ≡ false) ys) xs
  IsDescending-append [] ys s = (tt, tt)
  IsDescending-append (x ∷ xs) ys s =
      let (a, b) = All-append_parts _ xs ys s.0 in
      let (c, e) = IsDescending-append xs ys s.1 in ((a, c), (b, e))
