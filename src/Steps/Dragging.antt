-- ===== src/Steps/Dragging.antt =====
-- web/src/components/Project/AgentRoleDetailOverlay.tsx: where a dragged step, and one that is moved
-- by its buttons, comes to stand.
use pockode.Prelude.{
  ℕ, suc, ◌+◌, ◌≡◌, refl, sym, ◌∙◌, false, true, some, none, List, [], ◌∷◌, ◌++◌, append_assoc,
  length, any, nat_eq, arith,
}
use pockode.Steps.{
  StepItem, StepsEditor, has_step_id, put_back, moved, moved_up, moved_down, adjusted_index,
  dropped, move_step, drag_start, drag_over, drag_end, move_step_up, move_step_down,
}
use pockode.Prelude.{
  find_index, item_at, remove_at, find_index-middle, item_at-middle, remove_at-middle,
  insert_at-middle, swap_at-middle, length-append, any-append,
}

nat_eq_refl : (n : ℕ) → nat_eq n n ≡ true
nat_eq_refl n = ground arith

-- What is taken out at the end of `xs` is put in at the end of `us`.
put_back_elsewhere :
    (xs : List StepItem) (x : StepItem) (ys us vs : List StepItem)
    → xs ++ ys ≡ us ++ vs
    → put_back
        (length us)
        (item_at (length xs) (xs ++ x ∷ ys))
        (remove_at (length xs) (xs ++ x ∷ ys))
      ≡ us ++ x ∷ vs
put_back_elsewhere xs x ys us vs e =
    rw (item_at-middle xs x ys, remove_at-middle xs x ys, e, insert_at-middle us x vs) refl

-- A drop is without effect where it would leave the item in its place.
moved_elsewhere :
    (xs : List StepItem) (x : StepItem) (ys us vs : List StepItem)
    → nat_eq (length xs) (length us) ≡ false
    → xs ++ ys ≡ us ++ vs
    → moved (some (length xs)) (length us) (xs ++ x ∷ ys) ≡ us ++ x ∷ vs
moved_elsewhere xs x ys us vs ne e = rw ne (put_back_elsewhere xs x ys us vs e)

has_own_id : (x : StepItem) → has_step_id x.id x ≡ true
has_own_id x = nat_eq_refl x.id

dropped_items :
    (xs : List StepItem) (x : StepItem) (ys us vs : List StepItem) (target : ℕ) (s : StepsEditor)
    → any (has_step_id x.id) xs ≡ false
    → s.step_items ≡ xs ++ x ∷ ys
    → adjusted_index (some (length xs)) target ≡ length us
    → nat_eq (length xs) (length us) ≡ false
    → xs ++ ys ≡ us ++ vs
    → (drag_end (drag_over target (drag_start x.id s))).step_items ≡ us ++ x ∷ vs
unfolding drag_end drag_over drag_start dropped move_step
dropped_items xs x ys us vs target s h i t ne e =
    rw (i, find_index-middle (has_step_id x.id) xs x ys h (has_own_id x), t, ne)
      (put_back_elsewhere xs x ys us vs e)

-- A drop before the place of the item, or before the next, is without effect.
dropped_in_place :
    (xs : List StepItem) (x : StepItem) (ys : List StepItem) (target : ℕ) (s : StepsEditor)
    → any (has_step_id x.id) xs ≡ false
    → s.step_items ≡ xs ++ x ∷ ys
    → adjusted_index (some (length xs)) target ≡ length xs
    → (drag_end (drag_over target (drag_start x.id s))).step_items ≡ xs ++ x ∷ ys
unfolding drag_end drag_over drag_start dropped move_step
dropped_in_place xs x ys target s h i t =
    rw
      (i, find_index-middle (has_step_id x.id) xs x ys h (has_own_id x), t, nat_eq_refl (length xs))
      refl

dragged_down :
    (xs : List StepItem) (x : StepItem) (ys zs : List StepItem) (s : StepsEditor)
    → any (has_step_id x.id) xs ≡ false
    → s.step_items ≡ xs ++ (x ∷ ys ++ zs)
    → (drag_end (drag_over (suc (length xs + length ys)) (drag_start x.id s))).step_items
      ≡ xs ++ (ys ++ x ∷ zs)
dragged_down xs x [] zs s h i = dropped_in_place xs x zs (suc (length xs + 0)) s h i (ground arith)
dragged_down xs x (y ∷ ys) zs s h i =
    let e = length-append xs (y ∷ ys) in
    dropped_items xs x (y ∷ ys ++ zs) (xs ++ y ∷ ys) zs (suc (length xs + length (y ∷ ys))) s h i
      (ground arith) (ground arith) (sym (append_assoc xs (y ∷ ys) zs))
    ∙ append_assoc xs (y ∷ ys) (x ∷ zs)

dragged_up :
    (xs ys : List StepItem) (x : StepItem) (zs : List StepItem) (s : StepsEditor)
    → any (has_step_id x.id) xs ≡ false
    → any (has_step_id x.id) ys ≡ false
    → s.step_items ≡ xs ++ (ys ++ x ∷ zs)
    → (drag_end (drag_over (length xs) (drag_start x.id s))).step_items ≡ xs ++ (x ∷ ys ++ zs)
dragged_up xs [] x zs s h k i = dropped_in_place xs x zs (length xs) s h i (ground arith)
dragged_up xs (y ∷ ys) x zs s h k i =
    let e = length-append xs (y ∷ ys) in
    dropped_items (xs ++ y ∷ ys) x zs xs (y ∷ ys ++ zs) (length xs) s
      (any-append (has_step_id x.id) xs (y ∷ ys) h k) (i ∙ sym (append_assoc xs (y ∷ ys) (x ∷ zs)))
      (ground arith) (ground arith) (append_assoc xs (y ∷ ys) zs)

-- Dropped before the item that stands at an index, or behind the last one, a step that shares its
-- id with no earlier step comes to stand there, and the others keep their order, whether it came
-- from above or from below. The drag is over then.
pub drag_lands :
    (xs ys zs : List StepItem) (x : StepItem) (s : StepsEditor)
    → any (has_step_id x.id) xs ≡ false
    → any (has_step_id x.id) ys ≡ false
    → let down = drag_end (
        drag_over
          (suc (length xs + length ys))
          (drag_start x.id (record s { step_items = xs ++ (x ∷ ys ++ zs) }))) in
      let up = drag_end (
        drag_over (length xs) (drag_start x.id (record s { step_items = xs ++ (ys ++ x ∷ zs) }))) in
      (down.step_items ≡ xs ++ (ys ++ x ∷ zs))
      × (up.step_items ≡ xs ++ (x ∷ ys ++ zs))
      × (down.drag_id ≡ none)
      × (up.drop_target_index ≡ none)
unfolding drag_end
drag_lands xs ys zs x s h k = (
  dragged_down xs x ys zs (record s { step_items = xs ++ (x ∷ ys ++ zs) }) h refl,
  dragged_up xs ys x zs (record s { step_items = xs ++ (ys ++ x ∷ zs) }) h k refl,
  refl,
  refl,
)

found_after :
    (xs : List StepItem) (y x : StepItem) (ys : List StepItem)
    → any (has_step_id x.id) xs ≡ false
    → has_step_id x.id y ≡ false
    → find_index (has_step_id x.id) (xs ++ y ∷ x ∷ ys) ≡ some (suc (length xs))
found_after [] y x ys h k = let own = has_own_id x in ground arith
found_after (w ∷ xs) y x ys h k = ground (arith, found_after xs y x ys)

passes_below :
    (xs : List StepItem) (x y : StepItem) (ys : List StepItem)
    → any (has_step_id x.id) xs ≡ false
    → moved_down (find_index (has_step_id x.id) (xs ++ x ∷ y ∷ ys)) (xs ++ x ∷ y ∷ ys)
      ≡ xs ++ y ∷ x ∷ ys
passes_below xs x y ys h =
    let found = find_index-middle (has_step_id x.id) xs x (y ∷ ys) h (has_own_id x) in
    let passed = swap_at-middle xs x y ys in
    let all = length-append xs (x ∷ y ∷ ys) in rw found (ground arith)

passes_above :
    (xs : List StepItem) (y x : StepItem) (ys : List StepItem)
    → any (has_step_id x.id) xs ≡ false
    → has_step_id x.id y ≡ false
    → moved_up (find_index (has_step_id x.id) (xs ++ y ∷ x ∷ ys)) (xs ++ y ∷ x ∷ ys)
      ≡ xs ++ x ∷ y ∷ ys
passes_above xs y x ys h k = rw (found_after xs y x ys h k) (swap_at-middle xs y x ys)

-- A step that its button moves down passes the one step below it, and its other button moves it
-- back, where neither the steps above it nor the one below it share its id.
pub moved_down_and_up :
    (xs ys : List StepItem) (x y : StepItem) (s : StepsEditor)
    → any (has_step_id x.id) xs ≡ false
    → has_step_id x.id y ≡ false
    → s.step_items ≡ xs ++ x ∷ y ∷ ys
    → ((move_step_down x.id s).step_items ≡ xs ++ y ∷ x ∷ ys)
      × ((move_step_up x.id (move_step_down x.id s)).step_items ≡ xs ++ x ∷ y ∷ ys)
unfolding move_step_up move_step_down
moved_down_and_up xs ys x y s h k i = (
  rw (i) (passes_below xs x y ys h),
  rw (i, passes_below xs x y ys h) (passes_above xs y x ys h k),
)
