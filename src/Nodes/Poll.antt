-- ===== src/Nodes/Poll.antt =====
-- web-cluster/src/components/NodeList.tsx: the timer that asks for the nodes every five seconds.
--
-- A run of the effect has a number; the one whose `isMounted` is true is `live`. Timers that are set
-- and fetches that are awaited are the environment, each with the run that it belongs to.
use pockode.Prelude.{
  ℕ, suc, Bool, false, not, ◌&&◌, Option, none, some, List, [], ◌∷◌, nat_eq, if◌then◌else◌,
}

pub record Poller : Type 0 where
  pub live : Option ℕ
  pub timers : List (ℕ × ℕ)
  pub awaited : List ℕ
  pub poll_timer_ref : Option ℕ
  -- The number that the next timer or run gets.
  pub next_id : ℕ

abbrev pub is_live : ℕ → Poller → Bool
is_live run s = elim s.live [ none ↦ false | some r ↦ nat_eq r run ]

-- `setTimeout` in `poll`.
unfoldable pub poll : ℕ → Poller → Poller
poll run s = record s {
  timers = (s.next_id, run) ∷ s.timers;
  poll_timer_ref = some s.next_id;
  next_id = suc s.next_id;
}

abbrev pub clear_timer : ℕ → List (ℕ × ℕ) → List (ℕ × ℕ)
clear_timer t [] = []
clear_timer t ((u, run) ∷ timers) =
    let rest = clear_timer t timers in if nat_eq u t then rest else (u, run) ∷ rest

abbrev pub run_of : ℕ → List (ℕ × ℕ) → Option ℕ
run_of t [] = none
run_of t ((u, run) ∷ timers) = let rest = run_of t timers in if nat_eq u t then some run else rest

-- The callback of a timer of a run, up to `fetchNodes`.
abbrev pub fire : (run : Option ℕ) (timer : ℕ) → Poller → Poller
fire none timer s = s
fire (some run) timer s =
    let fired = record s { timers = clear_timer timer s.timers } in
    if is_live run s then record fired { awaited = run ∷ s.awaited } else fired

unfoldable pub on_poll_timer : (timer : ℕ) → Poller → Poller
on_poll_timer timer s = fire (run_of timer s.timers) timer s

abbrev pub count_run : ℕ → List ℕ → ℕ
count_run run [] = 0
count_run run (r ∷ runs) = let rest = count_run run runs in if nat_eq r run then suc rest else rest

abbrev pub answer_one : ℕ → List ℕ → List ℕ
answer_one run [] = []
answer_one run (r ∷ runs) =
    let rest = answer_one run runs in if nat_eq r run then runs else r ∷ rest

-- The fetch that a run awaits is over, whatever came of it.
unfoldable pub on_polled : (run : ℕ) → Poller → Poller
unfolding poll
on_polled run s =
    let answered = record s { awaited = answer_one run s.awaited } in
    if nat_eq (count_run run s.awaited) 0
    then s
    else if is_live run s
    then poll run answered
    else answered

-- What the effect returns.
unfoldable pub stop_polling : Poller → Poller
stop_polling s = record s {
  live = none;
  timers = elim s.poll_timer_ref [ none ↦ s.timers | some t ↦ clear_timer t s.timers ];
  poll_timer_ref = none;
}

-- The cleanup of the run before, if that got as far as to poll.
unfoldable pub clean_up_polling : Poller → Poller
unfolding stop_polling
clean_up_polling s = elim s.live [ none ↦ s | some r ↦ stop_polling s ]

unfoldable pub start_polling : Poller → Poller
unfolding poll
start_polling s = poll s.next_id (record s { live = some s.next_id; next_id = suc s.next_id })

-- The effect runs again.
unfoldable pub poll_effect : (is_connected loading : Bool) → Poller → Poller
unfolding poll clean_up_polling start_polling
poll_effect is_connected loading s =
    if is_connected && not loading then start_polling (clean_up_polling s) else clean_up_polling s

pub data PollEvent : Type 0 where
  effect_runs : (is_connected loading : Bool) → PollEvent
  timer_fires : (timer : ℕ) → PollEvent
  fetch_ends : (run : ℕ) → PollEvent
  unmounts : PollEvent

abbrev pub on_poll_event : PollEvent → Poller → Poller
on_poll_event (effect_runs is_connected loading) s = poll_effect is_connected loading s
on_poll_event (timer_fires timer) s = on_poll_timer timer s
on_poll_event (fetch_ends run) s = on_polled run s
on_poll_event unmounts s = poll_effect false false s

abbrev pub on_poll_events : List PollEvent → Poller → Poller
on_poll_events [] s = s
on_poll_events (e ∷ es) s = on_poll_events es (on_poll_event e s)

abbrev pub fresh_poller : Poller
fresh_poller = record { live = none; timers = []; awaited = []; poll_timer_ref = none; next_id = 0 }
