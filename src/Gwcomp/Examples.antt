-- ===== src/Gwcomp/Examples.antt =====
-- src/gwcomp/session_state_coordinator.cpp: a session that goes inactive.
use glasswyrm.Prelude.{[], ◌∷◌, List, some, ◌≡◌, ◌≢◌, ◌<◌, ◌^◌, true, refl}
use glasswyrm.Gwcomp.SessionState.{
  Coordinator, CoordinatedSessionState, SessionState, AcknowledgedResult, Acknowledged, configure,
  waiting, awaiting,
}
use glasswyrm.Gwcomp.SessionState.Requests.{Asked, remembered, after_waits}
use glasswyrm.Gwcomp.SessionState.Agreement.{Call, after}

abbrev unused : Coordinator
unused = record {
  timeout = 2000;
  state = CoordinatedSessionState.disabled;
  generation = 0;
  pending_sequence = 0;
  pending_state = SessionState.to_active;
  deadline = 0;
}

abbrev calls : List Call
calls = Call.goes_inactive (λ change. some 7) 100 ∷ []

waits : waiting (after calls (configure true unused)) ≡ true
unfolding waiting after configure glasswyrm.Gwcomp.SessionState.Agreement.apply
    glasswyrm.Gwcomp.SessionState.request_inactive glasswyrm.Gwcomp.SessionState.request
    glasswyrm.Gwcomp.SessionState.requested
waits = refl

after_waits_example :
    ((after calls (configure true unused)).state
      ≡ awaiting (after calls (configure true unused)).pending_state)
    × Asked calls
        (remembered (after calls (configure true unused)))
        (after calls (configure true unused)).pending_sequence
    × ((after calls (configure true unused)).pending_sequence ≢ 0)
    × ((after calls (configure true unused)).generation < 2 ^ 64)
after_waits_example = after_waits calls true unused waits

abbrev waiting_now : Coordinator
waiting_now = record {
  timeout = 2000;
  state = CoordinatedSessionState.awaiting_inactive;
  generation = 1;
  pending_sequence = 7;
  pending_state = SessionState.to_inactive;
  deadline = 2100;
}

abbrev reply : Acknowledged
reply = record {
  generation = 1;
  state = SessionState.to_inactive;
  result = AcknowledgedResult.accepted;
}
