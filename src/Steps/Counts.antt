-- ===== src/Steps/Counts.antt =====
-- web/src/components/Project/AgentRoleDetailOverlay.tsx: how many steps have an id, before and after
-- the operations on them.
use pockode.Prelude.{
  ℕ, zero, suc, ◌+◌, ◌≡◌, ◌≤◌, ◌<◌, refl, ◌∙◌, sym, Option, none, some, List, [], ◌∷◌, ◌++◌, map,
  String, length, nat_eq, if◌then◌else◌, arith,
}
use pockode.Steps.{StepItem, create_step_items, with_value, without_step, put_back}
use pockode.Prelude.{item_at, remove_at, insert_at, swap_at}

abbrev pub count_id : ℕ → List StepItem → ℕ
count_id id [] = 0
count_id id (item ∷ items) =
    let rest = count_id id items in if nat_eq item.id id then suc rest else rest

pub count_id-swap_at :
    (id i : ℕ) (items : List StepItem) → count_id id (swap_at i items) ≡ count_id id items
count_id-swap_at id zero [] = refl
count_id-swap_at id zero (x ∷ []) = refl
count_id-swap_at id zero (x ∷ y ∷ items) = ground arith
count_id-swap_at id (suc i) [] = refl
count_id-swap_at id (suc i) (x ∷ items) = let rest = count_id-swap_at id i items in ground arith

count_id-insert_at :
    (id i : ℕ) (x : StepItem) (items : List StepItem)
    → count_id id (insert_at i x items) ≡ count_id id (x ∷ items)
count_id-insert_at id zero x items = refl
count_id-insert_at id (suc i) x [] = refl
count_id-insert_at id (suc i) x (y ∷ items) =
    let rest = count_id-insert_at id i x items in ground arith

abbrev count_taken : ℕ → Option StepItem → ℕ
count_taken id none = 0
count_taken id (some x) = count_id id (x ∷ [])

count_id-take_out :
    (id i : ℕ) (items : List StepItem)
    → count_id id items ≡ count_taken id (item_at i items) + count_id id (remove_at i items)
count_id-take_out id i [] = omega arith
count_id-take_out id zero (x ∷ items) = ground arith
count_id-take_out id (suc i) (x ∷ items) = let rest = count_id-take_out id i items in ground arith

count_id-put_in :
    (id j : ℕ) (o : Option StepItem) (items : List StepItem)
    → count_id id (put_back j o items) ≡ count_taken id o + count_id id items
count_id-put_in id j none items = omega arith
count_id-put_in id j (some x) items = let put = count_id-insert_at id j x items in ground arith

pub count_id-put_back :
    (id i j : ℕ) (items : List StepItem)
    → count_id id (put_back j (item_at i items) (remove_at i items)) ≡ count_id id items
count_id-put_back id i j items =
    count_id-put_in id j (item_at i items) (remove_at i items) ∙ sym (count_id-take_out id i items)

pub count_id-create_step_items :
    (id counter : ℕ) (steps : List String)
    → (count_id id (create_step_items counter steps) ≤ 1)
      × (id ≤ counter → count_id id (create_step_items counter steps) ≡ 0)
      × (counter + length steps < id → count_id id (create_step_items counter steps) ≡ 0)
count_id-create_step_items id counter [] = (omega arith, λ h. refl, λ h. refl)
count_id-create_step_items id counter (value ∷ steps) =
    let rest = count_id-create_step_items id (counter + 1) steps in
    (ground (arith, rest), λ h. ground (arith, rest), λ h. ground (arith, rest))

pub count_id-append :
    (id : ℕ) (xs ys : List StepItem) → count_id id (xs ++ ys) ≡ count_id id xs + count_id id ys
count_id-append id [] ys = omega arith
count_id-append id (x ∷ xs) ys = let rest = count_id-append id xs ys in ground arith

pub count_id-with_value :
    (id n : ℕ) (value : String) (items : List StepItem)
    → count_id id (map (with_value n value) items) ≡ count_id id items
count_id-with_value id n value [] = refl
count_id-with_value id n value (x ∷ items) =
    let rest = count_id-with_value id n value items in ground arith

pub count_id-without_step :
    (id n : ℕ) (items : List StepItem) → count_id id (without_step n items) ≤ count_id id items
count_id-without_step id n [] = omega arith
count_id-without_step id n (x ∷ items) = let rest = count_id-without_step id n items in ground arith
