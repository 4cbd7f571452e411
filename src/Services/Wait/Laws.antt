-- ===== src/Services/Wait/Laws.antt =====
-- When the waiting ends, and with what.
use anti_subagent.Prelude.{
  ℕ, zero, suc, ◌+◌, ◌<◌, String, Bool, true, false, ◌||◌, ◌&&◌, not, ◌≡◌, refl, Option, none, some,
  arith, nat_eq, inl, inr, Bool-cases,
}
use mathlib.Core.Path.{subst}
use anti_subagent.Core.Model.{AgentStatus, AgentRecord, status_eq, is_terminal}
use anti_subagent.Store.Db.{Store}
use anti_subagent.Store.Agents.{get_agent}
use anti_subagent.Store.Events.{current_sequence}
use anti_subagent.Services.Wait.{
  Rounds, Waited, reached, not_found, timed_out, still_waiting, round, wait_loop, wait_for_status,
  snapshot,
}

abbrev pub has_ended : Waited → Bool
has_ended still_waiting = false
has_ended (reached s) = true
has_ended (timed_out s) = true
has_ended not_found = true

round_ends :
    (w : Rounds) (until : AgentStatus) (n seq : ℕ) (r : Option AgentRecord) (rest : Waited)
    → (has_ended rest || w.late n) ≡ true
    → has_ended (round w until n seq seq r rest) ≡ true
round_ends w until n seq none rest h = refl
round_ends w until n seq (some r) rest h = ground arith

wait_loop_ends :
    (rounds k n : ℕ) (w : Rounds) (s : Store) (id : String) (until : AgentStatus)
    → w.late (k + n) ≡ true
    → k < rounds
    → has_ended (wait_loop rounds w s id until n (current_sequence s)) ≡ true
unfolding wait_loop
wait_loop_ends zero k n w s id until h b = absurd (omega arith)
wait_loop_ends (suc m) zero n w s id until h b =
    round_ends w until n (current_sequence s) (get_agent id (w.read n))
      (wait_loop m w s id until (suc n) (current_sequence s)) (ground (arith, h))
wait_loop_ends (suc m) (suc k) n w s id until h b =
    round_ends w until n (current_sequence s) (get_agent id (w.read n))
      (wait_loop m w s id until (suc n) (current_sequence s))
      (ground (
        arith,
        wait_loop_ends m k (suc n) w s id until (subst (λ (x : ℕ). w.late x ≡ true) (omega arith) h)
            (omega arith),
      ))

-- The waiting ends: it has an answer by the first round that finds the clock past the deadline, whatever the
-- rounds read.
pub wait_for_status_ends :
    (rounds k : ℕ) (w : Rounds) (s : Store) (id : String) (until : AgentStatus)
    → w.late k ≡ true
    → k < rounds
    → has_ended (wait_for_status rounds w s id until) ≡ true
unfolding wait_for_status
wait_for_status_ends rounds k w s id until h b =
    wait_loop_ends rounds k 0 w s id until (subst (λ (x : ℕ). w.late x ≡ true) (omega arith) h) b

-- The status that the waiting is over for.
abbrev pub is_over : AgentStatus → AgentStatus → Bool
is_over until st = status_eq st until || is_terminal st

-- Each answer is true of a round.
abbrev pub IsAnswered : Rounds → String → AgentStatus → Waited → Type 0
IsAnswered w id until (reached st) =
    (n : ℕ) × (snapshot (w.read n) id ≡ some st) × (is_over until st ≡ true)
IsAnswered w id until not_found = (n : ℕ) × (snapshot (w.read n) id ≡ none)
IsAnswered w id until (timed_out st) =
    (n : ℕ) × (snapshot (w.read n) id ≡ some st) × (is_over until st ≡ false) × (w.late n ≡ true)
IsAnswered w id until still_waiting = Unit {0}

some-IsAnswered :
    (w : Rounds) (id : String) (until : AgentStatus) (n now_seq last_seq : ℕ) (r : AgentRecord)
    (rest : Waited)
    → snapshot (w.read n) id ≡ some r.status
    → IsAnswered w id until rest
    → IsAnswered w id until (round w until n now_seq last_seq (some r) rest)
some-IsAnswered w id until n now_seq last_seq r rest e h =
    elim (Bool-cases (status_eq r.status until)) [
      | inl same ↦ rw same (n, e, ground (arith, same))
      | inr other ↦
          rw other (elim (Bool-cases (is_terminal r.status && not (status_eq until r.status))) [
            | inl ends ↦ rw ends (n, e, ground (arith, ends))
            | inr goes ↦ rw goes (elim (Bool-cases (nat_eq now_seq last_seq)) [
              | inr grown ↦ rw grown h
              | inl quiet ↦ rw quiet (elim (Bool-cases (w.late n)) [
                | inr early ↦ rw early h
                | inl late ↦ rw late (n, e, ground (arith, other, goes), late)
              ])
            ])
          ])
    ]

round-IsAnswered :
    (w : Rounds) (id : String) (until : AgentStatus) (n now_seq last_seq : ℕ)
    (o : Option AgentRecord) (rest : Waited)
    → get_agent id (w.read n) ≡ o
    → IsAnswered w id until rest
    → IsAnswered w id until (round w until n now_seq last_seq o rest)
unfolding snapshot
round-IsAnswered w id until n now_seq last_seq none rest e h = (n, rw e refl)
round-IsAnswered w id until n now_seq last_seq (some r) rest e h =
    some-IsAnswered w id until n now_seq last_seq r rest (rw e refl) h

wait_loop-IsAnswered :
    (rounds n last_seq : ℕ) (w : Rounds) (s : Store) (id : String) (until : AgentStatus)
    → IsAnswered w id until (wait_loop rounds w s id until n last_seq)
unfolding wait_loop
wait_loop-IsAnswered zero n last_seq w s id until = tt
wait_loop-IsAnswered (suc rounds) n last_seq w s id until =
    round-IsAnswered w id until n (current_sequence s) last_seq (get_agent id (w.read n))
      (wait_loop rounds w s id until (suc n) (current_sequence s)) refl
      (wait_loop-IsAnswered rounds (suc n) (current_sequence s) w s id until)

-- The answer of a waiting is true of a round: the agent that is reached had that status, which is the
-- awaited or a terminal one; the status of a timeout was the agent's past the deadline, and it is neither; an agent that was
-- not found was not there.
pub wait_for_status_lem :
    (rounds : ℕ) (w : Rounds) (s : Store) (id : String) (until : AgentStatus)
    → IsAnswered w id until (wait_for_status rounds w s id until)
unfolding wait_for_status
wait_for_status_lem rounds w s id until =
    wait_loop-IsAnswered rounds 0 (current_sequence s) w s id until
