-- ===== src/Nodes/OneTimer.antt =====
-- web-cluster/src/components/NodeList.tsx: the polls of a mounted list, one after the other.
use pockode.Prelude.{
  ℕ, suc, ◌+◌, ◌-◌, ◌≡◌, ◌≤◌, ◌<◌, refl, ap, ◌∙◌, subst, Bool, true, false, Option, none, some,
  List, [], ◌∷◌, nat_eq, get_or, if◌then◌else◌, length, inl, inr, Bool-cases, arith,
}
use pockode.Nodes.Poll.{
  Poller, poll, on_poll_timer, count_run, answer_one, on_polled, stop_polling, start_polling,
  clean_up_polling, poll_effect, PollEvent, effect_runs, timer_fires, fetch_ends, unmounts,
  on_poll_event, on_poll_events, fresh_poller,
}

-- No timer is set, and the numbers that are to come are not awaited; or one is set, for the run that
-- is live; or that run awaits its fetch.
data IsPolling : Poller → Type 0 where
  idle :
      (awaited : List ℕ) (ref : Option ℕ) (n : ℕ)
      → ((k : ℕ) → n ≤ k → count_run k awaited ≡ 0)
      → IsPolling (record {
        live = none;
        timers = [];
        awaited = awaited;
        poll_timer_ref = ref;
        next_id = n;
      })
  set :
      (r t : ℕ) (awaited : List ℕ) (n : ℕ)
      → ((k : ℕ) → n ≤ k → count_run k awaited ≡ 0)
      → r < n
      → count_run r awaited ≡ 0
      → IsPolling (record {
        live = some r;
        timers = (t, r) ∷ [];
        awaited = awaited;
        poll_timer_ref = some t;
        next_id = n;
      })
  fetching :
      (r : ℕ) (awaited : List ℕ) (ref : Option ℕ) (n : ℕ)
      → ((k : ℕ) → n ≤ k → count_run k awaited ≡ 0)
      → r < n
      → count_run r awaited ≡ 1
      → IsPolling (record {
        live = some r;
        timers = [];
        awaited = awaited;
        poll_timer_ref = ref;
        next_id = n;
      })

nat_eq_refl : (n : ℕ) → nat_eq n n ≡ true
nat_eq_refl n = ground arith

run_eq : (r run : ℕ) → nat_eq r run ≡ true → r ≡ run
run_eq r run h = ground arith

run_ne :
    (r run : ℕ) (runs : List ℕ)
    → count_run r runs ≡ 0
    → nat_eq (count_run run runs) 0 ≡ false
    → nat_eq r run ≡ false
run_ne r run runs z h = elim (Bool-cases (nat_eq r run)) [
  | inl e ↦ let same = ap (λ x. count_run x runs) (run_eq r run e) in ground arith
  | inr e ↦ e
]

if-elim {ℓ κ} :
    {A : Type ℓ} (P : A → Type κ) (b : Bool) (x y : A)
    → (b ≡ true → P x)
    → (b ≡ false → P y)
    → P (if b then x else y)
if-elim P true x y h k = h refl
if-elim P false x y h k = k refl

count_run-answer_one :
    (k r : ℕ) (runs : List ℕ) → count_run k (answer_one r runs) ≤ count_run k runs
count_run-answer_one k r [] = omega arith
count_run-answer_one k r (x ∷ runs) = let rest = count_run-answer_one k r runs in ground arith

count_run-answered :
    (r : ℕ) (runs : List ℕ) → count_run r (answer_one r runs) ≡ count_run r runs - 1
count_run-answered r [] = omega arith
count_run-answered r (x ∷ runs) = let rest = count_run-answered r runs in ground arith

count_run-other :
    (k r : ℕ) (runs : List ℕ)
    → nat_eq k r ≡ false
    → count_run k (answer_one r runs) ≡ count_run k runs
count_run-other k r [] h = refl
count_run-other k r (x ∷ runs) h = let rest = count_run-other k r runs h in ground arith

fresh-answer_one :
    (r n : ℕ) (runs : List ℕ)
    → ((k : ℕ) → n ≤ k → count_run k runs ≡ 0)
    → (k : ℕ) → n ≤ k
    → count_run k (answer_one r runs) ≡ 0
fresh-answer_one r n runs f k le =
    let a = f k le in let b = count_run-answer_one k r runs in omega arith

IsPolling-clean_up :
    (s : Poller) → IsPolling s → IsPolling (clean_up_polling s) × ((clean_up_polling s).live ≡ none)
unfolding clean_up_polling stop_polling
IsPolling-clean_up _ (idle awaited ref n f) = (idle awaited ref n f, refl)
IsPolling-clean_up _ (set r t awaited n f lt z) = rw (nat_eq_refl t) (idle awaited none n f, refl)
IsPolling-clean_up _ (fetching r awaited none n f lt z) = (idle awaited none n f, refl)
IsPolling-clean_up _ (fetching r awaited (some t) n f lt z) = (idle awaited none n f, refl)

IsPolling-start : (s : Poller) → IsPolling s → s.live ≡ none → IsPolling (start_polling s)
unfolding start_polling poll
IsPolling-start _ (idle awaited ref n f) h =
    set n (suc n) awaited (suc (suc n)) (λ k le. f k (omega arith)) (omega arith)
      (f n (omega arith))
IsPolling-start _ (set r t awaited n f lt z) h = ground arith
IsPolling-start _ (fetching r awaited ref n f lt z) h = ground arith

IsPolling-effect : (c l : Bool) (s : Poller) → IsPolling s → IsPolling (poll_effect c l s)
unfolding poll_effect
IsPolling-effect true true s h = (IsPolling-clean_up s h).0
IsPolling-effect true false s h =
    let cleaned = IsPolling-clean_up s h in IsPolling-start (clean_up_polling s) cleaned.0 cleaned.1
IsPolling-effect false l s h = (IsPolling-clean_up s h).0

IsPolling-timer : (timer : ℕ) (s : Poller) → IsPolling s → IsPolling (on_poll_timer timer s)
unfolding on_poll_timer
IsPolling-timer timer _ (idle awaited ref n f) = idle awaited ref n f
IsPolling-timer timer _ (fetching r awaited ref n f lt z) = fetching r awaited ref n f lt z
IsPolling-timer timer _ (set r t awaited n f lt z) = elim (Bool-cases (nat_eq t timer)) [
  | inl e ↦
      rw (e, nat_eq_refl r, e)
        (fetching r (r ∷ awaited) (some t) n (λ k le. ground (arith, f k le)) lt (ground arith))
  | inr e ↦ rw e (set r t awaited n f lt z)
]

IsPolling-polled : (run : ℕ) (s : Poller) → IsPolling s → IsPolling (on_polled run s)
unfolding on_polled poll
IsPolling-polled run _ (idle awaited ref n f) =
    if-elim IsPolling (nat_eq (count_run run awaited) 0)
      (record { live = none; timers = []; awaited = awaited; poll_timer_ref = ref; next_id = n })
      (record {
        live = none;
        timers = [];
        awaited = answer_one run awaited;
        poll_timer_ref = ref;
        next_id = n;
      })
      (λ e. idle awaited ref n f)
      (λ e. idle (answer_one run awaited) ref n (fresh-answer_one run n awaited f))
IsPolling-polled run _ (set r t awaited n f lt z) =
    elim (Bool-cases (nat_eq (count_run run awaited) 0)) [
      | inl e ↦ rw e (set r t awaited n f lt z)
      | inr e ↦
          (let other = run_ne r run awaited z e in
            rw (e, other)
              (set r t (answer_one run awaited) n (fresh-answer_one run n awaited f) lt
                (count_run-other r run awaited other ∙ z)))
    ]
IsPolling-polled run _ (fetching r awaited ref n f lt z) =
    elim (Bool-cases (nat_eq (count_run run awaited) 0)) [
      | inl e ↦ rw e (fetching r awaited ref n f lt z)
      | inr e ↦ elim (Bool-cases (nat_eq r run)) [
        | inl same ↦
            (let fewer = count_run-answered r awaited in
              let runs = run_eq r run same in
              rw (e, same)
                (subst
                  (λ x. IsPolling (record {
                    live = some r;
                    timers = (n, x) ∷ [];
                    awaited = answer_one x awaited;
                    poll_timer_ref = some n;
                    next_id = suc n;
                  }))
                  runs
                  (set r n (answer_one r awaited) (suc n)
                    (λ k le. fresh-answer_one r n awaited f k (omega arith)) (omega arith)
                    (omega arith))))
        | inr other ↦
            rw (e, other)
              (fetching r (answer_one run awaited) ref n (fresh-answer_one run n awaited f) lt
                (count_run-other r run awaited other ∙ z))
      ]
    ]

IsPolling-event : (e : PollEvent) (s : Poller) → IsPolling s → IsPolling (on_poll_event e s)
IsPolling-event (effect_runs c l) s h = IsPolling-effect c l s h
IsPolling-event (timer_fires timer) s h = IsPolling-timer timer s h
IsPolling-event (fetch_ends run) s h = IsPolling-polled run s h
IsPolling-event unmounts s h = IsPolling-effect false false s h

IsPolling-events :
    (es : List PollEvent) (s : Poller) → IsPolling s → IsPolling (on_poll_events es s)
IsPolling-events [] s h = h
IsPolling-events (e ∷ es) s h = IsPolling-events es (on_poll_event e s) (IsPolling-event e s h)

pending-one :
    (s : Poller)
    → IsPolling s
    → (s.live ≡ none → s.timers ≡ [])
      × ((r : ℕ) → s.live ≡ some r → length s.timers + count_run r s.awaited ≡ 1)
pending-one _ (idle awaited ref n f) = (λ e. refl, λ r e. ground arith)
pending-one _ (set r t awaited n f lt z) =
    (λ e. ground arith, λ q e. let same = ap (λ o. count_run (get_or o 0) awaited) e in omega arith)
pending-one _ (fetching r awaited ref n f lt z) =
    (λ e. ground arith, λ q e. let same = ap (λ o. count_run (get_or o 0) awaited) e in omega arith)

-- Whatever fires, answers or changes in whichever order, there is no timer without a run of the
-- effect that has not been cleaned up; while there is one, it has either one timer or one fetch.
pub one_timer :
    (es : List PollEvent)
    → let s = on_poll_events es fresh_poller in
      (s.live ≡ none → s.timers ≡ [])
      × ((r : ℕ) → s.live ≡ some r → length s.timers + count_run r s.awaited ≡ 1)
one_timer es =
    pending-one (on_poll_events es fresh_poller)
      (IsPolling-events es fresh_poller (idle [] none 0 (λ k le. refl)))
