-- ===== src/Client/Reconnector/Backoff.antt =====
-- The delays of Reconnector double up to the largest one.
use meeting_system.Prelude.{
  List, [], ◌∷◌, ◌<◌, ℕ, zero, suc, ◌*◌, ◌^◌, ◌≤◌, ◌≡◌, refl, none, some, min, arith,
}
use meeting_system.Prelude.Int.{ℤ, pos_part}
use meeting_system.Client.Reconnector.{init, Reconnector, configure, schedule, stop, reset, timeout}

-- An attempt that fails: the delay is scheduled, the timer runs out.
unfoldable pub attempts : ℕ → Reconnector → Reconnector
attempts zero r = r
attempts (suc n) r = (timeout (schedule (attempts n r)).1).1

doubled : (d n : ℕ) → d * 2 ^ suc n ≡ d * 2 ^ n * 2
doubled d n = grind arith

attempts_lem :
    (n : ℕ) (r : Reconnector)
    → r.timer ≡ none
    → r.next_delay_ms ≤ r.max_delay_ms
    → ((attempts n r).timer ≡ none)
      × ((attempts n r).max_delay_ms ≡ r.max_delay_ms)
      × ((attempts n r).next_delay_ms ≡ min (r.next_delay_ms * 2 ^ n) r.max_delay_ms)
unfolding attempts schedule timeout
attempts_lem zero r idle small = (idle, refl, omega (arith, small))
attempts_lem (suc n) r idle small =
    let before = attempts_lem n r idle small in ground (arith, before, doubled r.next_delay_ms n)

-- The delay of the attempt after `n` failed ones is the first delay doubled `n` times, and at most the
-- largest one.
pub schedule-attempts :
    (n : ℕ) (r : Reconnector)
    → r.timer ≡ none
    → r.next_delay_ms ≤ r.max_delay_ms
    → (schedule (attempts n r)).1.timer ≡ some (min (r.next_delay_ms * 2 ^ n) r.max_delay_ms)
unfolding schedule
schedule-attempts n r idle small = ground (arith, attempts_lem n r idle small)

-- A call.
pub data Call : Type 0 where
  set : ℤ → ℤ → Call
  try stop_now start_over run_out : Call

unfoldable pub call : Reconnector → Call → Reconnector
call r (set initial_delay max_delay) = configure r initial_delay max_delay
call r try = (schedule r).1
call r stop_now = (stop r).1
call r start_over = (reset r).1
call r run_out = (timeout r).1

unfoldable pub IsReconnector : Reconnector → Type 0
IsReconnector r =
    (100 ≤ r.initial_delay_ms)
    × (r.initial_delay_ms ≤ r.next_delay_ms)
    × (r.next_delay_ms ≤ r.max_delay_ms)

call-IsReconnector : (r : Reconnector) (c : Call) → IsReconnector r → IsReconnector (call r c)
unfolding call configure schedule stop reset timeout IsReconnector
call-IsReconnector r (set initial_delay max_delay) h = ground arith
call-IsReconnector r try h = ground arith
call-IsReconnector r stop_now h = ground arith
call-IsReconnector r start_over h = ground arith
call-IsReconnector r run_out h = ground arith

unfoldable pub run : Reconnector → List Call → Reconnector
run r [] = r
run r (c ∷ cs) = run (call r c) cs

-- The delays that a call configures are below 2 ^ 30 milliseconds, which is twelve days.
unfoldable pub IsModest : Call → Type 0
IsModest (set initial_delay max_delay) =
    (pos_part initial_delay < 2 ^ 30) × (pos_part max_delay < 2 ^ 30)
IsModest _ = Unit {0}

unfoldable pub AreModest : List Call → Type 0
AreModest [] = Unit {0}
AreModest (c ∷ cs) = IsModest c × AreModest cs

call-max_delay_ms :
    (r : Reconnector) (c : Call)
    → IsModest c
    → r.max_delay_ms < 2 ^ 30
    → (call r c).max_delay_ms < 2 ^ 30
unfolding call configure schedule stop reset timeout IsModest
call-max_delay_ms r (set initial_delay max_delay) modest h = ground arith
call-max_delay_ms r try modest h = ground arith
call-max_delay_ms r stop_now modest h = ground arith
call-max_delay_ms r start_over modest h = ground arith
call-max_delay_ms r run_out modest h = ground arith

run-IsReconnector :
    (r : Reconnector) (cs : List Call)
    → AreModest cs
    → IsReconnector r
    → r.max_delay_ms < 2 ^ 30
    → IsReconnector (run r cs) × ((run r cs).max_delay_ms < 2 ^ 30)
unfolding run AreModest
run-IsReconnector r [] modest h small = (h, small)
run-IsReconnector r (c ∷ cs) modest h small =
    run-IsReconnector (call r c) cs modest.1 (call-IsReconnector r c h)
      (call-max_delay_ms r c modest.0 small)

-- With delays below 2 ^ 30, whatever calls come after the construction: the next delay is between the
-- initial and the largest one, none is below 100, and twice the next delay is an `int`.
pub run-init-IsReconnector :
    (cs : List Call)
    → AreModest cs
    → IsReconnector (run init cs) × ((run init cs).next_delay_ms * 2 < 2 ^ 31)
unfolding init IsReconnector
run-init-IsReconnector cs modest =
    let kept =
      run-IsReconnector init cs modest (omega arith, omega arith, omega arith) (omega arith) in
    (kept.0, omega (arith, kept.0.2, kept.1))
