-- ===== src/Gwcomp/SessionState.antt =====
-- src/gwcomp/session_state_coordinator.hpp and session_state_coordinator.cpp: the class
-- SessionStateCoordinator. The sink is a function of the change: the sequence number of the request,
-- which is 0 or absent if it could not be sent. The time that the clock shows is an argument of the
-- calls that read it. An error text is a constructor.
pub mod Agreement
pub mod Requests
use glasswyrm.Prelude.{
  ℕ, Bool, true, false, Option, none, some, ◌&&◌, ◌||◌, not, if◌then◌else◌, ltb, ◌==◌, ◌!=◌, ◌+◌,
  ◌-◌, ◌^◌,
}

pub data CoordinatedSessionState : Type 0 where
  disabled active awaiting_inactive inactive awaiting_active failed : CoordinatedSessionState

-- gwipc_session_state, and the results of an acknowledgement.
pub data SessionState : Type 0 where
  to_inactive to_active : SessionState

pub data AcknowledgedResult : Type 0 where
  accepted already_applied input_unavailable refused : AcknowledgedResult

pub data SessionError : Type 0 where
  not_active not_inactive generation_exhausted enqueue_failed : SessionError
  correlation_mismatch input_is_unavailable state_rejected timed_out : SessionError

pub record Change : Type 0 where
  pub generation : ℕ
  pub state : SessionState

pub record Acknowledged : Type 0 where
  pub generation : ℕ
  pub state : SessionState
  pub result : AcknowledgedResult

pub record Coordinator : Type 0 where
  pub timeout : ℕ
  pub state : CoordinatedSessionState
  pub generation : ℕ
  pub pending_sequence : ℕ
  pub pending_state : SessionState
  pub deadline : ℕ

abbrev pub Sink : Type 0
Sink = Change → Option ℕ

abbrev pub eqb_state : SessionState → SessionState → Bool
eqb_state SessionState.to_inactive SessionState.to_inactive = true
eqb_state SessionState.to_active SessionState.to_active = true
eqb_state _ _ = false

abbrev pub waiting_in : CoordinatedSessionState → Bool
waiting_in CoordinatedSessionState.awaiting_inactive = true
waiting_in CoordinatedSessionState.awaiting_active = true
waiting_in CoordinatedSessionState.disabled = false
waiting_in CoordinatedSessionState.active = false
waiting_in CoordinatedSessionState.inactive = false
waiting_in CoordinatedSessionState.failed = false

unfoldable pub waiting : Coordinator → Bool
waiting c = waiting_in c.state

-- The states that wait for a state, and that follow its acknowledgement.
abbrev pub awaiting : SessionState → CoordinatedSessionState
awaiting SessionState.to_inactive = CoordinatedSessionState.awaiting_inactive
awaiting SessionState.to_active = CoordinatedSessionState.awaiting_active

abbrev pub settled : SessionState → CoordinatedSessionState
settled SessionState.to_inactive = CoordinatedSessionState.inactive
settled SessionState.to_active = CoordinatedSessionState.active

unfoldable pub fail : Coordinator → Coordinator
fail c = record c { state = CoordinatedSessionState.failed }

unfoldable pub configure : Bool → Coordinator → Coordinator
configure negotiated c = record c {
  state = if negotiated then CoordinatedSessionState.active else CoordinatedSessionState.disabled;
  generation = 0;
  pending_sequence = 0;
  pending_state = SessionState.to_active;
  deadline = 0;
}

-- The end of `request`, with the answer of the sink.
unfoldable pub requested :
    Option ℕ → SessionState → ℕ → Coordinator → Coordinator × Option SessionError
requested none desired now c = (fail c, some SessionError.enqueue_failed)
requested (some sequence) desired now c =
    if sequence == 0 then (fail c, some SessionError.enqueue_failed) else (
      record c {
        generation = c.generation + 1;
        pending_sequence = sequence;
        pending_state = desired;
        deadline = now + c.timeout;
        state = awaiting desired;
      },
      none,
    )

unfoldable pub request : SessionState → Sink → ℕ → Coordinator → Coordinator × Option SessionError
request desired sink now c =
    if c.generation == 2 ^ 64 - 1
    then (fail c, some SessionError.generation_exhausted)
    else requested (sink record { generation = c.generation + 1; state = desired }) desired now c

abbrev pub is_active : CoordinatedSessionState → Bool
is_active CoordinatedSessionState.active = true
is_active _ = false

abbrev pub is_inactive : CoordinatedSessionState → Bool
is_inactive CoordinatedSessionState.inactive = true
is_inactive _ = false

unfoldable pub request_inactive : Sink → ℕ → Coordinator → Coordinator × Option SessionError
request_inactive sink now c =
    if not (is_active c.state)
    then (c, some SessionError.not_active)
    else request SessionState.to_inactive sink now c

unfoldable pub request_active : Sink → ℕ → Coordinator → Coordinator × Option SessionError
request_active sink now c =
    if not (is_inactive c.state)
    then (c, some SessionError.not_inactive)
    else request SessionState.to_active sink now c

-- The error of a result, if it is none of the two that accept.
abbrev pub result_error : AcknowledgedResult → Option SessionError
result_error AcknowledgedResult.accepted = none
result_error AcknowledgedResult.already_applied = none
result_error AcknowledgedResult.input_unavailable = some SessionError.input_is_unavailable
result_error AcknowledgedResult.refused = some SessionError.state_rejected

abbrev pub settle : Option SessionError → Coordinator → Coordinator × Option SessionError
settle (some error) c = (fail c, some error)
settle none c = (record c { state = settled c.pending_state; pending_sequence = 0 }, none)

unfoldable pub acknowledge : ℕ → Acknowledged → Coordinator → Coordinator × Option SessionError
acknowledge reply_to acknowledged c =
    if not (waiting c)
      || (reply_to != c.pending_sequence
          || (acknowledged.generation != c.generation
              || not (eqb_state acknowledged.state c.pending_state)))
    then (fail c, some SessionError.correlation_mismatch)
    else settle (result_error acknowledged.result) c

unfoldable pub check_timeout : ℕ → Coordinator → Coordinator × Option SessionError
check_timeout now c =
    if not (waiting c) || ltb now c.deadline
    then (c, none)
    else (fail c, some SessionError.timed_out)

unfoldable pub peer_disconnected : Coordinator → Coordinator
peer_disconnected c = record c {
  state = if waiting c then CoordinatedSessionState.failed else CoordinatedSessionState.disabled;
  pending_sequence = 0;
}

-- The time left in milliseconds, at most the greatest int; none while nothing is awaited, where the
-- code answers -1.
unfoldable pub timeout_ms : ℕ → Coordinator → Option ℕ
timeout_ms now c =
    if not (waiting c)
    then none
    else (if ltb (2 ^ 31 - 1) (c.deadline - now)
        then some (2 ^ 31 - 1)
        else some (c.deadline - now))
