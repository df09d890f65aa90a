-- ===== src/Wm/Transaction/Commit.antt =====
-- src/wm/transaction.cpp: what a commit does to the state.
use glasswyrm.Prelude.{
  ℕ, ◌≤◌, ◌≡◌, refl, sym, subst, Bool-cases, ◌&&◌, Bool, true, false, List, [], ◌∷◌, arith, ◌⊎◌,
  inl, inr,
}
use glasswyrm.Wm.Types.{nothing, PolicyState}
use glasswyrm.Wm.Validation.{validate}
use glasswyrm.Wm.Engine.{evaluate, policy_of, is_nothing}
use glasswyrm.Wm.Transaction.{
  Transaction, empty_transaction, OutputPreflight, passes, candidate_of, commit, Call, begins, ends,
  aborts, disconnects, puts_context, puts_output, puts_hint, puts_window, removes, commits,
  sets_hash, after,
}
use glasswyrm.Wm.Transaction.Bounds.{run}

-- A commit that reports an error changes nothing.
commit_error_keeps :
    (generation : ℕ) (preflight : OutputPreflight) (t : Transaction)
    → is_nothing (commit generation preflight t).1.error ≡ false
    → (commit generation preflight t).0 ≡ t
unfolding commit
commit_error_keeps generation preflight t h = ground arith

-- A commit that succeeds had no open snapshot, a generation that is not 0 and not below the committed
-- one, a valid candidate, and a preflight that passes its policy; the candidate is then the committed
-- and the pending snapshot, and the returned policy, that of the candidate, is the committed one.
pub commit_installs :
    (generation : ℕ) (preflight : OutputPreflight) (t : Transaction)
    → is_nothing (commit generation preflight t).1.error ≡ true
    → (t.snapshot_active ≡ false)
      × (1 ≤ generation)
      × (t.committed_raw.producer_generation ≤ generation)
      × (validate (candidate_of generation t) ≡ nothing)
      × (passes preflight (policy_of (candidate_of generation t) generation) ≡ true)
      × ((commit generation preflight t).1.policy
          ≡ policy_of (candidate_of generation t) generation)
      × ((commit generation preflight t).0 ≡ record t {
        pending = candidate_of generation t;
        committed_raw = candidate_of generation t;
        committed_policy = policy_of (candidate_of generation t) generation;
      })
unfolding commit evaluate
commit_installs generation preflight t h = ground arith

-- The same policy, whatever its hash.
abbrev pub SamePolicy : PolicyState → PolicyState → Type 0
SamePolicy p q = record p { hash = 0 } ≡ record q { hash = 0 }

-- The committed policy is what the committed snapshot, which is valid, evaluates to.
pub record IsEvaluated (t : Transaction) : Type 0 where
  pub positive : 1 ≤ t.committed_raw.producer_generation
  pub accepted : validate t.committed_raw ≡ nothing
  pub evaluated :
      SamePolicy t.committed_policy (policy_of t.committed_raw t.committed_raw.producer_generation)

abbrev pub IsSettled : Transaction → Type 0
IsSettled t =
    ((t.committed_raw ≡ empty_transaction.committed_raw)
      × SamePolicy t.committed_policy empty_transaction.committed_policy)
    ⊎ IsEvaluated t

after-IsSettled : (c : Call) (t : Transaction) → IsSettled t → IsSettled (after c t)
unfolding after
after-IsSettled begins t v = ground arith
after-IsSettled ends t v = ground arith
after-IsSettled aborts t v = ground arith
after-IsSettled disconnects t v = ground arith
after-IsSettled (puts_context context) t v = ground arith
after-IsSettled (puts_output output) t v = ground arith
after-IsSettled (puts_hint hint) t v = ground arith
after-IsSettled (puts_window window) t v = ground arith
after-IsSettled (removes window_id) t v = ground arith
after-IsSettled (commits generation preflight) t v =
    elim (Bool-cases (is_nothing (commit generation preflight t).1.error))
      as (λ _. IsSettled (commit generation preflight t).0) [
        | inl e ↦
            (let (a, b, c, d, p, f, g) = commit_installs generation preflight t e in
              subst IsSettled (sym g)
                (inr (record { positive = b; accepted = d; evaluated = refl })))
        | inr e ↦ subst IsSettled (sym (commit_error_keeps generation preflight t e)) v
      ]
after-IsSettled (sets_hash hash) t v = ground arith

abbrev pub stays : Call → Bool
stays disconnects = false
stays _ = true

abbrev pub all_stay : List Call → Bool
all_stay [] = true
all_stay (c ∷ cs) = stays c && all_stay cs

after_generation :
    (c : Call) (t : Transaction)
    → stays c ≡ true
    → t.committed_raw.producer_generation ≤ (after c t).committed_raw.producer_generation
unfolding after
after_generation begins t h = ground arith
after_generation ends t h = ground arith
after_generation aborts t h = ground arith
after_generation disconnects t h = ground arith
after_generation (puts_context context) t h = ground arith
after_generation (puts_output output) t h = ground arith
after_generation (puts_hint hint) t h = ground arith
after_generation (puts_window window) t h = ground arith
after_generation (removes window_id) t h = ground arith
after_generation (commits generation preflight) t h = ground arith
after_generation (sets_hash hash) t h = ground arith

-- The committed generation never falls along calls none of which is a disconnect.
run_generation :
    (cs : List Call) (t : Transaction)
    → all_stay cs ≡ true
    → t.committed_raw.producer_generation ≤ (run cs t).committed_raw.producer_generation
run_generation [] t h = ground arith
run_generation (c ∷ cs) t h = ground (arith, after_generation c t, run_generation cs (after c t))

run-IsSettled_from : (cs : List Call) (t : Transaction) → IsSettled t → IsSettled (run cs t)
run-IsSettled_from [] t v = v
run-IsSettled_from (c ∷ cs) t v = run-IsSettled_from cs (after c t) (after-IsSettled c t v)

-- After any calls, from the empty state: either nothing is committed, or the committed snapshot is
-- valid and the committed policy is, up to the hash that a call may set, the policy of that snapshot.
pub run-IsSettled : (cs : List Call) → IsSettled (run cs empty_transaction)
run-IsSettled cs = run-IsSettled_from cs empty_transaction (inl (refl, refl))
