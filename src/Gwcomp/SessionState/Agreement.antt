-- ===== src/Gwcomp/SessionState/Agreement.antt =====
-- The coordinator and its peer agree on the state of the session.
use glasswyrm.Prelude.{
  ℕ, Bool, true, List, [], ◌∷◌, Option, none, some, ◌≡◌, ◌≢◌, inl, inr, ◌+◌, ◌-◌, ◌<◌, ◌^◌, arith,
  refl, Bool-cases, ◌||◌, not, ◌==◌, ◌!=◌, ltb,
}
use glasswyrm.Gwcomp.SessionState.{
  SessionState, SessionError, Acknowledged, Coordinator, Sink, waiting, waiting_in, awaiting,
  settled, eqb_state, fail, configure, requested, request, request_inactive, request_active,
  result_error, settle, acknowledge, check_timeout, peer_disconnected, is_active, is_inactive,
}

pub data Call : Type 0 where
  configures : Bool → Call
  goes_inactive goes_active : Sink → ℕ → Call
  acknowledges : ℕ → Acknowledged → Call
  checks_timeout : ℕ → Call
  disconnects : Call

unfoldable pub apply : Call → Coordinator → Coordinator
apply (configures n) c = configure n c
apply (goes_inactive sink now) c = (request_inactive sink now c).0
apply (goes_active sink now) c = (request_active sink now c).0
apply (acknowledges r a) c = (acknowledge r a c).0
apply (checks_timeout now) c = (check_timeout now c).0
apply disconnects c = peer_disconnected c

unfoldable pub after : List Call → Coordinator → Coordinator
after [] c = c
after (call ∷ calls) c = apply call (after calls c)

-- While the coordinator waits it knows the number of its request, and waits for the state that it asked
-- for; its generation is a number of 64 bits.
pub record IsSound (c : Coordinator) : Type 0 where
  pub known : waiting c ≡ true → c.state ≡ awaiting c.pending_state
  pub numbered : waiting c ≡ true → c.pending_sequence ≢ 0
  pub bounded : c.generation < 2 ^ 64

failed-IsSound : (c : Coordinator) → c.generation < 2 ^ 64 → IsSound (fail c)
unfolding fail waiting
failed-IsSound c h = record { known = ground arith; numbered = ground arith; bounded = h }

requested-IsSound :
    (answer : Option ℕ) (desired : SessionState) (now : ℕ) (c : Coordinator)
    → c.generation + 1 < 2 ^ 64
    → IsSound (requested answer desired now c).0
unfolding requested
requested-IsSound none desired now c h = failed-IsSound c (omega arith)
requested-IsSound (some sequence) desired now c h = elim (Bool-cases (sequence == 0)) [
  | inl e ↦ rw e (failed-IsSound c (omega arith))
  | inr e ↦ rw e (record { known = λ _. refl; numbered = λ _ z. ground arith; bounded = h })
]

module _ (c : Coordinator) (h : IsSound c) where
  request-IsSound :
      (desired : SessionState) (sink : Sink) (now : ℕ) → IsSound (request desired sink now c).0
  unfolding request
  request-IsSound desired sink now = elim (Bool-cases (c.generation == 2 ^ 64 - 1)) [
    | inl e ↦ rw e (failed-IsSound c h.bounded)
    | inr e ↦ rw e (
        requested-IsSound (sink record { generation = c.generation + 1; state = desired }) desired
          now c (let b = h.bounded in ground arith))
  ]

  settle-IsSound : (error : Option SessionError) → IsSound (settle error c).0
  unfolding waiting
  settle-IsSound (some error) = failed-IsSound c h.bounded
  settle-IsSound none =
      elim c.pending_state
        as (λ (p : SessionState). IsSound (record c { state = settled p; pending_sequence = 0 })) [
          | SessionState.to_inactive ↦ record {
            known = ground arith;
            numbered = ground arith;
            bounded = h.bounded;
          }
          | SessionState.to_active ↦ record {
            known = ground arith;
            numbered = ground arith;
            bounded = h.bounded;
          }
        ]

  inactive-IsSound : (sink : Sink) (now : ℕ) → IsSound (request_inactive sink now c).0
  unfolding request_inactive
  inactive-IsSound sink now = elim (Bool-cases (is_active c.state)) [
    | inl e ↦ rw (e, request_inactive) (request-IsSound SessionState.to_inactive sink now)
    | inr e ↦ rw (e, request_inactive) h
  ]

  active-IsSound : (sink : Sink) (now : ℕ) → IsSound (request_active sink now c).0
  unfolding request_active
  active-IsSound sink now = elim (Bool-cases (is_inactive c.state)) [
    | inl e ↦ rw (e, request_active) (request-IsSound SessionState.to_active sink now)
    | inr e ↦ rw (e, request_active) h
  ]

  acknowledge-IsSound : (r : ℕ) (a : Acknowledged) → IsSound (acknowledge r a c).0
  unfolding acknowledge waiting
  acknowledge-IsSound r a =
      elim (Bool-cases (
        not (waiting_in c.state)
        || (r != c.pending_sequence
            || (a.generation != c.generation || not (eqb_state a.state c.pending_state))))) [
              | inl e ↦ rw (e, acknowledge) (failed-IsSound c h.bounded)
              | inr e ↦ rw (e, acknowledge) (settle-IsSound (result_error a.result))
            ]

  timeout-IsSound : (now : ℕ) → IsSound (check_timeout now c).0
  unfolding check_timeout waiting
  timeout-IsSound now = elim (Bool-cases (not (waiting_in c.state) || ltb now c.deadline)) [
    | inl e ↦ rw (e, check_timeout) h
    | inr e ↦ rw (e, check_timeout) (failed-IsSound c h.bounded)
  ]

  disconnected-IsSound : IsSound (peer_disconnected c)
  unfolding peer_disconnected waiting
  disconnected-IsSound = record {
    known = ground arith;
    numbered = ground arith;
    bounded = h.bounded;
  }

configured-IsSound : (n : Bool) (c : Coordinator) → IsSound (configure n c)
unfolding configure waiting
configured-IsSound n c = record {
  known = ground arith;
  numbered = ground arith;
  bounded = omega arith;
}

step-IsSound : (call : Call) (c : Coordinator) → IsSound c → IsSound (apply call c)
unfolding apply
step-IsSound (configures n) c h = configured-IsSound n c
step-IsSound (goes_inactive sink now) c h = inactive-IsSound c h sink now
step-IsSound (goes_active sink now) c h = active-IsSound c h sink now
step-IsSound (acknowledges r a) c h = acknowledge-IsSound c h r a
step-IsSound (checks_timeout now) c h = timeout-IsSound c h now
step-IsSound disconnects c h = disconnected-IsSound c h

pub after-IsSound :
    (calls : List Call) (negotiated : Bool) (c : Coordinator)
    → IsSound (after calls (configure negotiated c))
unfolding after
after-IsSound [] n c = configured-IsSound n c
after-IsSound (call ∷ calls) n c =
    step-IsSound call (after calls (configure n c)) (after-IsSound calls n c)

abbrev pub Accepts : ℕ → Acknowledged → Coordinator → Type 0
Accepts reply_to a c =
    (reply_to ≡ c.pending_sequence)
    × (a.generation ≡ c.generation)
    × (eqb_state a.state c.pending_state ≡ true)
    × (result_error a.result ≡ none)
    × (waiting c ≡ true)
