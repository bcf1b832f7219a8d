-- ===== src/Client/AppStateMachine.antt =====
-- plasma-hawking/src/app/AppStateMachine: the state that the user interface shows. The signals of a
-- call are its answer.
pub mod Signals
use meeting_system.Prelude.{Bool, true, false, List, [], ◌∷◌, ◌++◌, if◌then◌else◌, not}

pub data State : Type 0 where
  disconnected connected logged_in in_meeting : State

pub data Signal : Type 0 where
  state_changed reconnecting_changed : Signal

pub record AppStateMachine : Type 0 where
  pub state : State
  pub connected_flag : Bool
  pub logged_in_flag : Bool
  pub in_meeting_flag : Bool
  pub reconnecting : Bool

unfoldable pub init : AppStateMachine
init = record {
  state = disconnected;
  connected_flag = false;
  logged_in_flag = false;
  in_meeting_flag = false;
  reconnecting = false;
}

abbrev pub state_eq : State → State → Bool
state_eq disconnected disconnected = true
state_eq connected connected = true
state_eq logged_in logged_in = true
state_eq in_meeting in_meeting = true
state_eq _ _ = false

abbrev pub same : Bool → Bool → Bool
same true b = b
same false b = not b

unfoldable pub set_state : AppStateMachine → State → List Signal × AppStateMachine
set_state m state =
    if state_eq m.state state then ([], m) else (state_changed ∷ [], record m { state = state })

unfoldable pub set_reconnecting : AppStateMachine → Bool → List Signal × AppStateMachine
set_reconnecting m reconnecting =
    if same m.reconnecting reconnecting
    then ([], m)
    else (reconnecting_changed ∷ [], record m { reconnecting = reconnecting })

unfoldable pub update :
    AppStateMachine → (connected logged_in in_meeting : Bool) → List Signal × AppStateMachine
unfolding set_state
update m is_connected is_logged_in is_in_meeting =
    set_state
      (record m {
        connected_flag = is_connected;
        logged_in_flag = is_logged_in;
        in_meeting_flag = is_in_meeting;
      })
      (if is_in_meeting
        then in_meeting
        else if is_logged_in
        then logged_in
        else if is_connected
        then connected
        else disconnected)

unfoldable pub reset : AppStateMachine → List Signal × AppStateMachine
unfolding set_state set_reconnecting
reset m =
    let left =
      set_state
        (record m { connected_flag = false; logged_in_flag = false; in_meeting_flag = false })
        disconnected in
    let done = set_reconnecting left.1 false in (left.0 ++ done.0, done.1)
