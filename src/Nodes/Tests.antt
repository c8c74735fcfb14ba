-- ===== src/Nodes/Tests.antt =====
-- The theorems about the list of nodes, applied to a list that polls, is disconnected and polls again.
use pockode.Prelude.{ℕ, ◌+◌, ◌≡◌, refl, true, false, none, some, List, [], ◌∷◌, length}
use pockode.Nodes.Poll.{
  PollEvent, effect_runs, timer_fires, fetch_ends, on_poll_events, fresh_poller, count_run,
  on_polled, on_poll_timer, poll_effect,
}
use pockode.Nodes.OneTimer.{one_timer}

abbrev events : List PollEvent
events =
    effect_runs true true
    ∷ effect_runs true false
    ∷ timer_fires 1
    ∷ effect_runs false false
    ∷ effect_runs true false
    ∷ fetch_ends 0
    ∷ []

one_timer_example :
    let s = on_poll_events events fresh_poller in
    (s.live ≡ none → s.timers ≡ [])
    × ((r : ℕ) → s.live ≡ some r → length s.timers + count_run r s.awaited ≡ 1)
one_timer_example = one_timer events

polls_again : (on_poll_events events fresh_poller).timers ≡ (3, 2) ∷ []
unfolding on_polled on_poll_timer poll_effect
polls_again = refl
