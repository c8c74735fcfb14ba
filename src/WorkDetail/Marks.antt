-- ===== src/WorkDetail/Marks.antt =====
-- web/src/components/Project/WorkDetailOverlay.tsx: how far the steps of a work are shown to be.
use pockode.Prelude.{
  ℕ, zero, suc, ◌+◌, ◌-◌, ◌≡◌, ◌<◌, ◌∙◌, refl, ap, true, false, Option, none, some, ℤ, pos, negsuc,
  less_one, min, max_zero, ltb, List, [], ◌∷◌, ◌++◌, String, length, get_or, if◌then◌else◌, arith,
}
use pockode.Stores.Items.{
  WorkStatus, opened, in_progress, waiting, needs_input, stopped, closed, Work,
}
use pockode.WorkDetail.{
  current_step_of, StepMark, completed, current, upcoming, is_active_state, is_closed, step_mark,
  marks_from, step_marks,
}

abbrev pub repeated : ℕ → StepMark → List StepMark
repeated zero mark = []
repeated (suc n) mark = mark ∷ repeated n mark

all_completed :
    (status : WorkStatus) (c i : ℕ) (steps : List String)
    → is_closed status ≡ true
    → marks_from status c i steps ≡ repeated (length steps) completed
all_completed status c i [] h = refl
all_completed status c i (step ∷ steps) h =
    let rest = all_completed status c (suc i) steps h in rw h (ap (◌∷◌ completed) rest)

all_upcoming :
    (status : WorkStatus) (c i : ℕ) (steps : List String)
    → is_closed status ≡ false
    → c < i
    → marks_from status c i steps ≡ repeated (length steps) upcoming
all_upcoming status c i [] h lt = refl
all_upcoming status c i (step ∷ steps) h lt =
    let rest = all_upcoming status c (suc i) steps h (omega arith) in ground arith

-- The mark of the current step.
abbrev current_mark : WorkStatus → StepMark
current_mark status = if is_active_state status then current else upcoming

marked_current :
    (status : WorkStatus) (c i : ℕ)
    → is_closed status ≡ false
    → i ≡ c
    → step_mark status c i ≡ current_mark status
marked_current status c i h e = ground arith

marked_completed : (status : WorkStatus) (c i : ℕ) → i < c → step_mark status c i ≡ completed
marked_completed status c i lt = ground arith

left_over : (n d : ℕ) → suc n - suc d ≡ n - d
left_over n d = omega arith

left_all : (n : ℕ) → suc n - 1 ≡ n
left_all n = omega arith

-- From an index that the current step is not before.
marks_around :
    (status : WorkStatus) (d c i : ℕ) (steps : List String)
    → is_closed status ≡ false
    → d < length steps
    → c ≡ i + d
    → marks_from status c i steps
      ≡ repeated d completed ++ current_mark status ∷ repeated (length steps - suc d) upcoming
marks_around status d c i [] h lt e = ground arith
marks_around status zero c i (step ∷ steps) h lt e =
    let head = marked_current status c i h (omega arith) in
    let tail = all_upcoming status c (suc i) steps h (omega arith) in
    let left = left_all (length steps) in cc (head, tail, left)
marks_around status (suc d) c i (step ∷ steps) h lt e =
    let head = marked_completed status c i (omega arith) in
    let tail = marks_around status d c (suc i) steps h (omega arith) (omega arith) in
    let left = left_over (length steps) (suc d) in cc (head, tail, left)

-- The number that is shown for the work's own: that, or the nearest that is of a step.
abbrev pub clamp : ℕ → Option ℤ → ℕ
clamp n none = 0
clamp n (some (negsuc k)) = 0
clamp n (some (pos k)) = if ltb k n then k else n - 1

clamp-bound : (n : ℕ) (step : Option ℤ) → 0 < n → clamp n step < n
clamp-bound n none h = h
clamp-bound n (some (negsuc k)) h = h
clamp-bound n (some (pos k)) h = ground arith

current_step_of-clamp :
    (n : ℕ) (work : Work) → 0 < n → current_step_of n work ≡ clamp n work.current_step
current_step_of-clamp n work h = by_step n work.current_step h
  where
    by_step :
        (n : ℕ) (step : Option ℤ)
        → 0 < n
        → max_zero (min (get_or step (pos 0)) (less_one n)) ≡ clamp n step
    by_step zero step h = ground arith
    by_step (suc n) none h = ground arith
    by_step (suc n) (some (negsuc k)) h = refl
    by_step (suc n) (some (pos k)) h = ground arith

-- Of `n` steps those before `c` are completed, that at `c` has the mark, and the others are to come.
abbrev pub around : StepMark → (c n : ℕ) → List StepMark
around mark c n = repeated c completed ++ mark ∷ repeated (n - suc c) upcoming

abbrev pub expected_marks : WorkStatus → (c n : ℕ) → List StepMark
expected_marks opened c n = around upcoming c n
expected_marks in_progress c n = around current c n
expected_marks waiting c n = around current c n
expected_marks needs_input c n = around current c n
expected_marks stopped c n = around current c n
expected_marks closed c n = repeated n completed

by_state :
    (status : WorkStatus) (c : ℕ) (steps : List String)
    → c < length steps
    → marks_from status c 0 steps ≡ expected_marks status c (length steps)
by_state closed c steps lt = all_completed closed c 0 steps refl
by_state opened c steps lt = marks_around opened c c 0 steps refl lt (omega arith)
by_state in_progress c steps lt = marks_around in_progress c c 0 steps refl lt (omega arith)
by_state waiting c steps lt = marks_around waiting c c 0 steps refl lt (omega arith)
by_state needs_input c steps lt = marks_around needs_input c c 0 steps refl lt (omega arith)
by_state stopped c steps lt = marks_around stopped c c 0 steps refl lt (omega arith)

-- Where the role of a work has steps, the number of the current one is the work's own where that is
-- the number of a step, that of the first step where the work's is missing or below zero, and that
-- of the last step where the work's is past it. All steps of a closed work are completed. Of any
-- other work those before the current one are completed, and none after it; the current one is marked
-- as current where the work is in progress, waits, needs input or is stopped, and as one to come
-- where the work is open.
pub step_marks_lem :
    (work : Work) (steps : List String)
    → 0 < length steps
    → let c = clamp (length steps) work.current_step in
      (current_step_of (length steps) work ≡ c)
      × (c < length steps)
      × (step_marks work steps ≡ expected_marks work.status c (length steps))
unfolding step_marks
step_marks_lem work steps h =
    let c = clamp (length steps) work.current_step in
    let same = current_step_of-clamp (length steps) work h in
    let lt = clamp-bound (length steps) work.current_step h in
    (same, lt, ap (λ k. marks_from work.status k 0 steps) same ∙ by_state work.status c steps lt)
