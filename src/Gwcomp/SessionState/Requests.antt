-- ===== src/Gwcomp/SessionState/Requests.antt =====
-- What a waiting coordinator knows of the request that it waits for.
use glasswyrm.Prelude.{
  ℕ, Bool, true, List, [], ◌∷◌, Option, none, some, ◌≡◌, ◌≢◌, ◌⊎◌, inl, inr, ◌+◌, ◌-◌, ◌<◌, ◌^◌,
  arith, refl, Bool-cases, ◌||◌, not, ◌==◌, ◌!=◌, ltb,
}
use glasswyrm.Gwcomp.SessionState.{
  SessionState, SessionError, Change, Acknowledged, Coordinator, Sink, waiting, waiting_in,
  awaiting, eqb_state, fail, configure, requested, request, request_inactive, request_active,
  result_error, settle, acknowledge, check_timeout, peer_disconnected, is_active, is_inactive,
}
use glasswyrm.Gwcomp.SessionState.Agreement.{
  Call, apply, after, after-IsSound, configures, goes_inactive, goes_active, acknowledges,
  checks_timeout, disconnects,
}

-- One of the sinks of the calls answered a change with a number.
abbrev pub Asked : List Call → Change → ℕ → Type 0
Asked [] change sequence = ⊥
Asked (goes_inactive sink now ∷ calls) change sequence =
    (sink change ≡ some sequence) ⊎ Asked calls change sequence
Asked (goes_active sink now ∷ calls) change sequence =
    (sink change ≡ some sequence) ⊎ Asked calls change sequence
Asked (configures n ∷ calls) change sequence = Asked calls change sequence
Asked (acknowledges r a ∷ calls) change sequence = Asked calls change sequence
Asked (checks_timeout now ∷ calls) change sequence = Asked calls change sequence
Asked (disconnects ∷ calls) change sequence = Asked calls change sequence

-- The change that a coordinator asked for, as far as it remembers it.
abbrev pub remembered : Coordinator → Change
remembered c = record { generation = c.generation; state = c.pending_state }

requested_lem :
    (sink : Sink) (desired : SessionState) (now : ℕ) (c : Coordinator) (answer : Option ℕ)
    → sink record { generation = c.generation + 1; state = desired } ≡ answer
    → waiting (requested answer desired now c).0 ≡ true
    → sink (remembered (requested answer desired now c).0)
      ≡ some (requested answer desired now c).0.pending_sequence
unfolding requested waiting fail
requested_lem sink desired now c none e w = absurd cc
requested_lem sink desired now c (some sequence) e w = elim (Bool-cases (sequence == 0)) [
  | inl z ↦ absurd (ground (arith, z, w))
  | inr z ↦ rw z e
]

request_lem :
    (desired : SessionState) (sink : Sink) (now : ℕ) (c : Coordinator)
    → waiting (request desired sink now c).0 ≡ true
    → sink (remembered (request desired sink now c).0)
      ≡ some (request desired sink now c).0.pending_sequence
unfolding request waiting fail
request_lem desired sink now c = elim (Bool-cases (c.generation == 2 ^ 64 - 1)) [
  | inl e ↦ rw e (λ w. absurd cc)
  | inr e ↦ rw e (
      requested_lem sink desired now c
        (sink record { generation = c.generation + 1; state = desired }) refl)
]

abbrev Knows : List Call → Coordinator → Type 0
Knows calls c = waiting c ≡ true → Asked calls (remembered c) c.pending_sequence

module _ (calls : List Call) (c : Coordinator) (h : Knows calls c) where
  inactive-Knows :
      (sink : Sink) (now : ℕ)
      → Knows (goes_inactive sink now ∷ calls) (request_inactive sink now c).0
  unfolding request_inactive
  inactive-Knows sink now = elim (Bool-cases (is_active c.state)) [
    | inl e ↦
        rw (e, request_inactive) (λ w. inl (request_lem SessionState.to_inactive sink now c w))
    | inr e ↦ rw (e, request_inactive) (λ w. inr (h w))
  ]

  active-Knows :
      (sink : Sink) (now : ℕ) → Knows (goes_active sink now ∷ calls) (request_active sink now c).0
  unfolding request_active
  active-Knows sink now = elim (Bool-cases (is_inactive c.state)) [
    | inl e ↦ rw (e, request_active) (λ w. inl (request_lem SessionState.to_active sink now c w))
    | inr e ↦ rw (e, request_active) (λ w. inr (h w))
  ]

  settle-ends : (error : Option SessionError) → waiting (settle error c).0 ≡ true → ⊥
  unfolding waiting fail
  settle-ends (some error) w = cc
  settle-ends none w = ground (arith, w)

  acknowledge-ends : (r : ℕ) (a : Acknowledged) → waiting (acknowledge r a c).0 ≡ true → ⊥
  unfolding acknowledge waiting fail
  acknowledge-ends r a =
      elim (Bool-cases (
        not (waiting_in c.state)
        || (r != c.pending_sequence
            || (a.generation != c.generation || not (eqb_state a.state c.pending_state))))) [
              | inl e ↦ rw (e, acknowledge) (λ w. cc)
              | inr e ↦ rw (e, acknowledge) (settle-ends (result_error a.result))
            ]

  timeout-Knows : (now : ℕ) → Knows calls (check_timeout now c).0
  unfolding check_timeout waiting fail
  timeout-Knows now = elim (Bool-cases (not (waiting_in c.state) || ltb now c.deadline)) [
    | inl e ↦ rw (e, check_timeout) h
    | inr e ↦ rw (e, check_timeout) (λ w. absurd cc)
  ]

disconnected-ends : (c : Coordinator) → waiting (peer_disconnected c) ≡ true → ⊥
unfolding peer_disconnected waiting
disconnected-ends c w = ground (arith, w)

configure-ends : (n : Bool) (c : Coordinator) → waiting (configure n c) ≡ true → ⊥
unfolding configure waiting
configure-ends n c w = ground (arith, w)

step-Knows :
    (call : Call) (calls : List Call) (c : Coordinator)
    → Knows calls c
    → Knows (call ∷ calls) (apply call c)
unfolding apply
step-Knows (configures n) calls c h w = absurd (configure-ends n c w)
step-Knows (goes_inactive sink now) calls c h w = inactive-Knows calls c h sink now w
step-Knows (goes_active sink now) calls c h w = active-Knows calls c h sink now w
step-Knows (acknowledges r a) calls c h w = absurd (acknowledge-ends calls c h r a w)
step-Knows (checks_timeout now) calls c h w = timeout-Knows calls c h now w
step-Knows disconnects calls c h w = absurd (disconnected-ends c w)

after-Knows :
    (calls : List Call) (n : Bool) (c : Coordinator) → Knows calls (after calls (configure n c))
unfolding after
after-Knows [] n c w = absurd (configure-ends n c w)
after-Knows (call ∷ calls) n c w =
    step-Knows call calls (after calls (configure n c)) (after-Knows calls n c) w

-- A configured coordinator that waits after any calls, whatever the sinks, the clock and the peer
-- answered, has asked one of the sinks for the state that it waits for, with its generation, a
-- number of 64 bits, and knows the number that the sink gave to that request, which is not 0.
pub after_waits :
    (calls : List Call) (negotiated : Bool) (c : Coordinator)
    → waiting (after calls (configure negotiated c)) ≡ true
    → ((after calls (configure negotiated c)).state
        ≡ awaiting (after calls (configure negotiated c)).pending_state)
      × Asked calls
          (remembered (after calls (configure negotiated c)))
          (after calls (configure negotiated c)).pending_sequence
      × ((after calls (configure negotiated c)).pending_sequence ≢ 0)
      × ((after calls (configure negotiated c)).generation < 2 ^ 64)
after_waits calls n c w =
    let sound = after-IsSound calls n c in
    (sound.known w, after-Knows calls n c w, sound.numbered w, sound.bounded)
