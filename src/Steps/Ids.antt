-- ===== src/Steps/Ids.antt =====
-- web/src/components/Project/AgentRoleDetailOverlay.tsx: the ids of the steps, by which the editor
-- finds them, and React its elements.
use pockode.Prelude.{
  ℕ, zero, suc, ◌+◌, ◌≡◌, ◌≤◌, ◌<◌, refl, sym, true, false, Option, none, some, List, [], ◌∷◌, ◌++◌,
  map, String, length, if◌then◌else◌, get_or, subst, arith,
}
use pockode.Steps.{
  StepEdit, elsewhere, role_changes, starts_editing, saves, saved, save_fails, cancels, adds,
  updates, removes, goes_up, goes_down, drag_starts, drags_over, drag_leaves, drag_ends, edit_steps,
  edit_all, mount_steps, StepItem, StepsEditor, create_step_items, set_steps, on_role_steps,
  save_steps, on_steps_saved, on_save_failed, cancel_steps, add_step, has_step_id, with_value,
  update_step, without_step, remove_step, moved, move_step, moved_up, move_step_up, moved_down,
  move_step_down, drag_start, drag_over, drag_leave, adjusted_index, dropped, drag_end,
}
use pockode.Prelude.{find_index}
use pockode.Steps.Counts.{
  count_id, count_id-swap_at, count_id-put_back, count_id-create_step_items, count_id-append,
  count_id-with_value, count_id-without_step,
}

-- No id twice, and none that the counter has yet to reach.
pub record IsNumbered (counter : ℕ) (items : List StepItem) : Type 0 where
  pub once : (id : ℕ) → count_id id items ≤ 1
  pub reached : (id : ℕ) → counter < id → count_id id items ≡ 0

-- Where the items only change their places, or some go, they stay numbered.
IsNumbered-of_fewer :
    (counter : ℕ) (items items' : List StepItem)
    → ((id : ℕ) → count_id id items' ≤ count_id id items)
    → IsNumbered counter items
    → IsNumbered counter items'
IsNumbered-of_fewer counter items items' le h = record {
  once = λ id. let a = le id in let b = h.once id in omega arith;
  reached = λ id lt. let a = le id in let b = h.reached id lt in omega arith;
}

moved_fewer :
    (from_index : Option ℕ) (j : ℕ) (items : List StepItem) (id : ℕ)
    → count_id id (moved from_index j items) ≤ count_id id items
moved_fewer none j items id = omega arith
moved_fewer (some i) j items id = let rest = count_id-put_back id i j items in ground arith

moved_up_fewer :
    (index : Option ℕ) (items : List StepItem) (id : ℕ)
    → count_id id (moved_up index items) ≤ count_id id items
moved_up_fewer none items id = omega arith
moved_up_fewer (some zero) items id = omega arith
moved_up_fewer (some (suc i)) items id = let rest = count_id-swap_at id i items in omega arith

moved_down_fewer :
    (index : Option ℕ) (items : List StepItem) (id : ℕ)
    → count_id id (moved_down index items) ≤ count_id id items
moved_down_fewer none items id = omega arith
moved_down_fewer (some i) items id = let rest = count_id-swap_at id i items in ground arith

dropped_fewer :
    (drag_id target : Option ℕ) (s : StepsEditor) (id : ℕ)
    → count_id id (dropped drag_id target s).step_items ≤ count_id id s.step_items
unfolding dropped move_step
dropped_fewer none target s id = omega arith
dropped_fewer (some n) none s id = omega arith
dropped_fewer (some n) (some target) s id =
    let i = find_index (has_step_id n) s.step_items in
    let rest = moved_fewer i (adjusted_index i target) s.step_items id in ground arith

dropped-counter :
    (drag_id target : Option ℕ) (s : StepsEditor) → (dropped drag_id target s).counter ≡ s.counter
unfolding dropped move_step
dropped-counter none target s = refl
dropped-counter (some n) none s = refl
dropped-counter (some n) (some target) s = ground arith

IsNumbered-created :
    (counter : ℕ) (steps : List String)
    → IsNumbered (counter + length steps) (create_step_items counter steps)
IsNumbered-created counter steps = record {
  once = λ id. (count_id-create_step_items id counter steps).0;
  reached = λ id lt. (count_id-create_step_items id counter steps).2 lt;
}

IsNumbered-added :
    (counter : ℕ) (items : List StepItem) (value : String)
    → IsNumbered counter items
    → IsNumbered (counter + 1) (items ++ record { id = counter + 1; value = value } ∷ [])
IsNumbered-added counter items value h = record {
  once = λ id.
      let all = count_id-append id items (record { id = counter + 1; value = value } ∷ []) in
      let a = h.once id in ground (arith, h.reached id);
  reached = λ id lt.
      let all = count_id-append id items (record { id = counter + 1; value = value } ∷ []) in
      ground (arith, h.reached id);
}

abbrev IsSound : StepsEditor → Type 0
IsSound s = IsNumbered s.counter s.step_items

IsSound-drag_end : (s : StepsEditor) → IsSound s → IsSound (drag_end s)
unfolding drag_end
IsSound-drag_end s h =
    let t = dropped s.drag_id s.drop_target_index s in
    subst (λ counter. IsNumbered counter t.step_items)
      (sym (dropped-counter s.drag_id s.drop_target_index s))
      (IsNumbered-of_fewer s.counter s.step_items t.step_items
        (dropped_fewer s.drag_id s.drop_target_index s) h)

IsSound-edit_steps :
    (trim : String → String) (e : StepEdit) (s : StepsEditor)
    → IsSound s
    → IsSound (edit_steps trim e s)
unfolding on_role_steps set_steps save_steps on_steps_saved on_save_failed cancel_steps add_step
    update_step remove_step move_step_up move_step_down drag_start drag_over drag_leave
IsSound-edit_steps trim (elsewhere n) s h = record {
  once = h.once;
  reached = λ id lt. h.reached id (omega arith);
}
IsSound-edit_steps trim (role_changes steps) s h =
    elim s.editing as (λ b. IsSound (if b then s else set_steps (get_or steps []) s)) [
      | true ↦ h
      | false ↦ IsNumbered-created s.counter (get_or steps [])
    ]
IsSound-edit_steps trim starts_editing s h = h
IsSound-edit_steps trim saves s h = h
IsSound-edit_steps trim (saved filtered) s h = IsNumbered-created s.counter filtered
IsSound-edit_steps trim (save_fails err) s h = h
IsSound-edit_steps trim (cancels steps) s h = IsNumbered-created s.counter (get_or steps [])
IsSound-edit_steps trim adds s h = IsNumbered-added s.counter s.step_items "" h
IsSound-edit_steps trim (updates n value) s h =
    IsNumbered-of_fewer s.counter s.step_items (map (with_value n value) s.step_items)
      (λ id. let same = count_id-with_value id n value s.step_items in omega arith) h
IsSound-edit_steps trim (removes n) s h =
    IsNumbered-of_fewer s.counter s.step_items (without_step n s.step_items)
      (λ id. count_id-without_step id n s.step_items) h
IsSound-edit_steps trim (goes_up n) s h =
    let i = find_index (has_step_id n) s.step_items in
    IsNumbered-of_fewer s.counter s.step_items (moved_up i s.step_items)
      (moved_up_fewer i s.step_items) h
IsSound-edit_steps trim (goes_down n) s h =
    let i = find_index (has_step_id n) s.step_items in
    IsNumbered-of_fewer s.counter s.step_items (moved_down i s.step_items)
      (moved_down_fewer i s.step_items) h
IsSound-edit_steps trim (drag_starts n) s h = h
IsSound-edit_steps trim (drags_over target_index) s h = h
IsSound-edit_steps trim (drag_leaves true) s h = h
IsSound-edit_steps trim (drag_leaves false) s h = h
IsSound-edit_steps trim drag_ends s h = IsSound-drag_end s h

IsSound-edit_all :
    (trim : String → String) (es : List StepEdit) (s : StepsEditor)
    → IsSound s
    → IsSound (edit_all trim es s)
IsSound-edit_all trim [] s h = h
IsSound-edit_all trim (e ∷ es) s h =
    IsSound-edit_all trim es (edit_steps trim e s) (IsSound-edit_steps trim e s h)

-- Whatever is done to the steps, saved, dragged or numbered in another editor, no two of them have
-- one id, and none has an id that is still to be given.
pub step_ids_unique :
    (trim : String → String) (es : List StepEdit) (counter : ℕ) (steps : Option (List String))
    → let s = edit_all trim es (mount_steps counter steps) in IsNumbered s.counter s.step_items
step_ids_unique trim es counter steps =
    IsSound-edit_all trim es (mount_steps counter steps)
      (IsNumbered-created counter (get_or steps []))
