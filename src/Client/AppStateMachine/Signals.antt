-- ===== src/Client/AppStateMachine/Signals.antt =====
-- The state of AppStateMachine follows its flags, and every change of it is signalled.
use meeting_system.Prelude.{◌≡◌, refl, Bool, true, false, List, [], ◌∷◌, if◌then◌else◌, not, arith}
use meeting_system.Client.AppStateMachine.{
  State, disconnected, connected, logged_in, in_meeting, Signal, state_changed,
  reconnecting_changed, AppStateMachine, init, state_eq, set_state, set_reconnecting, update, reset,
}

-- A call.
pub data Call : Type 0 where
  change : (connected logged_in in_meeting : Bool) → Call
  reconnect : Bool → Call
  start_over : Call

unfoldable pub call : AppStateMachine → Call → List Signal × AppStateMachine
call m (change c l i) = update m c l i
call m (reconnect r) = set_reconnecting m r
call m start_over = reset m

unfoldable pub run : AppStateMachine → List Call → AppStateMachine
run m [] = m
run m (c ∷ cs) = run (call m c).1 cs

-- The state that the flags stand for: the furthest of them counts.
unfoldable pub IsConsistent : AppStateMachine → Type 0
IsConsistent m = m.state ≡ (
    if m.in_meeting_flag
    then in_meeting
    else if m.logged_in_flag
    then logged_in
    else if m.connected_flag
    then connected
    else disconnected)

state_eq_lem : (s t : State) → state_eq s t ≡ true → s ≡ t
state_eq_lem s t h = ground arith

call-IsConsistent : (m : AppStateMachine) (c : Call) → IsConsistent m → IsConsistent (call m c).1
unfolding call update set_reconnecting reset set_state IsConsistent
call-IsConsistent m (change c l i) h = ground (arith, state_eq_lem m.state)
call-IsConsistent m (reconnect r) h = ground (arith, h)
call-IsConsistent m start_over h = ground (arith, state_eq_lem m.state disconnected)

run-IsConsistent : (m : AppStateMachine) (cs : List Call) → IsConsistent m → IsConsistent (run m cs)
unfolding run
run-IsConsistent m [] h = h
run-IsConsistent m (c ∷ cs) h = run-IsConsistent (call m c).1 cs (call-IsConsistent m c h)

-- Whatever calls come after its construction, the state is the one that the flags stand for.
pub run-init-IsConsistent : (cs : List Call) → IsConsistent (run init cs)
unfolding init IsConsistent
run-init-IsConsistent cs = run-IsConsistent init cs refl

abbrev pub signals_state : List Signal → Bool
signals_state [] = false
signals_state (state_changed ∷ ss) = true
signals_state (reconnecting_changed ∷ ss) = signals_state ss

-- A call signals a change of the state exactly if it changes it.
pub call-signals_state :
    (m : AppStateMachine) (c : Call)
    → signals_state (call m c).0 ≡ not (state_eq m.state (call m c).1.state)
unfolding call update set_reconnecting reset set_state
call-signals_state m (change c l i) = ground arith
call-signals_state m (reconnect r) = ground arith
call-signals_state m start_over = ground arith
