-- ===== src/Daemon/Waiting/Laws.antt =====
-- When the request is answered.
use anti_subagent.Prelude.{
  ℕ, zero, suc, ◌+◌, ◌<◌, String, Bool, true, false, ◌||◌, ◌&&◌, not, ◌≡◌, refl, Option, none, some,
  arith, nat_eq, ◌∙◌,
}
use mathlib.Core.Path.{subst}
use anti_subagent.Core.Model.{AgentStatus}
use anti_subagent.Store.Events.{current_sequence}
use anti_subagent.Daemon.Waiting.{
  Polls, WaitAnswer, answered, out_of_time, unanswered, is_over, poll, status_at, poll_loop,
  wait_agent,
}

abbrev pub is_answered : WaitAnswer → Bool
is_answered (answered st) = true
is_answered out_of_time = true
is_answered unanswered = false

-- The log at a round.
abbrev pub seq_at : Polls → ℕ → ℕ
seq_at w n = current_sequence (w.store n)

poll_ends :
    (w : Polls) (until : AgentStatus) (n last_seq : ℕ) (o : Option AgentStatus) (rest : WaitAnswer)
    → (is_answered rest || (nat_eq (seq_at w n) last_seq && w.late n)) ≡ true
    → is_answered (poll w until n last_seq o rest) ≡ true
poll_ends w until n last_seq none rest h = ground arith
poll_ends w until n last_seq (some st) rest h = ground arith

-- A round past the deadline that finds the log as the round before it left it.
abbrev pub is_quiet_and_late : Polls → ℕ → Bool
is_quiet_and_late w n = nat_eq (seq_at w (suc n)) (seq_at w n) && w.late (suc n)

poll_loop_ends :
    (rounds k n last_seq : ℕ) (w : Polls) (id : String) (until : AgentStatus)
    → is_quiet_and_late w (k + n) ≡ true
    → suc k < rounds
    → is_answered (poll_loop rounds w id until n last_seq) ≡ true
unfolding poll_loop
poll_loop_ends zero k n last_seq w id until h b = absurd (omega arith)
poll_loop_ends (suc zero) k n last_seq w id until h b = absurd (omega arith)
poll_loop_ends (suc (suc m)) zero n last_seq w id until h b =
    let last = poll_loop m w id until (suc (suc n)) (seq_at w (suc n)) in
    poll_ends w until n last_seq (status_at w id n)
      (poll w until (suc n) (seq_at w n) (status_at w id (suc n)) last)
      (ground (arith, h, poll_ends w until (suc n) (seq_at w n) (status_at w id (suc n)) last))
poll_loop_ends (suc (suc m)) (suc k) n last_seq w id until h b =
    poll_ends w until n last_seq (status_at w id n)
      (poll_loop (suc m) w id until (suc n) (seq_at w n))
      (ground (
        arith,
        poll_loop_ends (suc m) k (suc n) (seq_at w n) w id until
            (subst (λ (x : ℕ). is_quiet_and_late w x ≡ true) (omega arith) h) (omega arith),
      ))

-- The request is answered once a round past the deadline finds the log as the round before it left it,
-- whatever the other rounds find.
wait_agent_ends :
    (rounds k : ℕ) (w : Polls) (id : String) (until : AgentStatus)
    → is_quiet_and_late w k ≡ true
    → suc k < rounds
    → is_answered (wait_agent rounds w id until) ≡ true
unfolding wait_agent
wait_agent_ends rounds k w id until h b =
    poll_loop_ends rounds k 0 0 w id until
      (subst (λ (x : ℕ). is_quiet_and_late w x ≡ true) (omega arith) h) b

-- No agent, or one in a status for which the waiting goes on.
abbrev pub goes_on : AgentStatus → Option AgentStatus → Bool
goes_on until none = true
goes_on until (some st) = not (is_over until st)

poll_goes_on :
    (w : Polls) (until : AgentStatus) (n last_seq : ℕ) (o : Option AgentStatus) (rest : WaitAnswer)
    → goes_on until o ≡ true
    → nat_eq (seq_at w n) last_seq ≡ false
    → poll w until n last_seq o rest ≡ rest
poll_goes_on w until n last_seq none rest h g = ground arith
poll_goes_on w until n last_seq (some st) rest h g = ground arith

busy_loop :
    (rounds n last_seq : ℕ) (w : Polls) (id : String) (until : AgentStatus)
    → ((k : ℕ) → goes_on until (status_at w id k) ≡ true)
    → ((k : ℕ) → nat_eq (seq_at w (suc k)) (seq_at w k) ≡ false)
    → nat_eq (seq_at w n) last_seq ≡ false
    → poll_loop rounds w id until n last_seq ≡ unanswered
unfolding poll_loop
busy_loop zero n last_seq w id until h g f = refl
busy_loop (suc rounds) n last_seq w id until h g f =
    poll_goes_on w until n last_seq (status_at w id n)
      (poll_loop rounds w id until (suc n) (seq_at w n)) (h n) f
    ∙ busy_loop rounds (suc n) (seq_at w n) w id until h g (g n)

-- While each round finds that the log has grown since the round before, and the agent in a status for which
-- the waiting goes on or not at all, the request is not answered, whatever the deadline. The log has an event at the first
-- round.
pub busy_log_waits_on :
    (rounds : ℕ) (w : Polls) (id : String) (until : AgentStatus)
    → ((k : ℕ) → goes_on until (status_at w id k) ≡ true)
    → ((k : ℕ) → nat_eq (seq_at w (suc k)) (seq_at w k) ≡ false)
    → nat_eq (seq_at w 0) 0 ≡ false
    → wait_agent rounds w id until ≡ unanswered
unfolding wait_agent
busy_log_waits_on rounds w id until h g f = busy_loop rounds 0 0 w id until h g f
