-- ===== src/Core/LoopPrevention/Laws.antt =====
-- When the ledger of rejections escalates.
use anti_subagent.Prelude.{
  ℕ, suc, ◌+◌, ◌≤◌, ◌<◌, String, Bool, true, false, ◌&&◌, not, ◌≡◌, refl, ap, some, List, [], ◌∷◌,
  ◌++◌, arith, eq_iff, eq_refl, Bool-cases, inl, inr, leb, ltb, all, length, length-append,
  length-retain, if◌then◌else◌,
}
use anti_subagent.Core.LoopPrevention.{
  LoopPrevention, empty_ledger, is_key, is_cooling, window_secs, record_reject, count_in_window,
  should_escalate,
}

-- The calls of the ledger; a rejection has the time that is used for it.
pub data LedgerOp : Type 0 where
  recording : String → ℕ → ℕ → LedgerOp
  asking : ℕ → String → ℕ → LedgerOp

unfoldable pub apply : LedgerOp → LoopPrevention → LoopPrevention
apply (recording task revision now) l = record_reject (λ text. some now) now task revision "" l
apply (asking now task revision) l = (should_escalate now task revision l).0

unfoldable pub run : List LedgerOp → LoopPrevention → LoopPrevention
run [] l = l
run (o ∷ os) l = run os (apply o l)

-- The questions for a key come before a time.
abbrev pub asks_before : ℕ → LedgerOp → Bool
asks_before end (recording task revision now) = true
asks_before end (asking now task revision) = ltb now end

trigger_after :
    (at : ℕ) (t : String) (r : ℕ) (l : LoopPrevention) (task : String) (revision : ℕ)
    → (should_escalate at t r l).0.last_trigger task revision ≡ (
        if (should_escalate at t r l).1 && is_key t r task revision
        then some at
        else l.last_trigger task revision)
unfolding should_escalate
trigger_after at t r l task revision = elim (Bool-cases (leb (count_in_window t r l) 3)) [
  | inl few ↦ rw few refl
  | inr many ↦ rw many (elim (Bool-cases (is_cooling at (l.last_trigger t r))) [
    | inl cooling ↦ rw cooling refl
    | inr cool ↦ rw cool refl
  ])
]

escalates_iff :
    (at : ℕ) (t : String) (r : ℕ) (l : LoopPrevention)
    → (should_escalate at t r l).1
      ≡ (not (leb (count_in_window t r l) 3) && not (is_cooling at (l.last_trigger t r)))
unfolding should_escalate
escalates_iff at t r l = ground arith

key_refl : (task : String) (revision : ℕ) → is_key task revision task revision ≡ true
key_refl task revision = ground (arith, eq_refl task)

cooling_step :
    (o : LedgerOp) (l : LoopPrevention) (task : String) (revision now : ℕ)
    → l.last_trigger task revision ≡ some now
    → asks_before (now + 600) o ≡ true
    → (apply o l).last_trigger task revision ≡ some now
unfolding apply record_reject
cooling_step (recording t r at) l task revision now e b = e
cooling_step (asking at t r) l task revision now e b =
    ground (arith, trigger_after at t r l task revision, escalates_iff at t r l, e, eq_iff t task)

cooling_run :
    (os : List LedgerOp) (l : LoopPrevention) (task : String) (revision now : ℕ)
    → l.last_trigger task revision ≡ some now
    → all (asks_before (now + 600)) os ≡ true
    → (run os l).last_trigger task revision ≡ some now
unfolding run
cooling_run [] l task revision now e b = e
cooling_run (o ∷ os) l task revision now e b =
    cooling_run os (apply o l) task revision now
      (cooling_step o l task revision now e (ground arith)) (ground arith)

escalated :
    (now : ℕ) (task : String) (revision : ℕ) (l : LoopPrevention)
    → (should_escalate now task revision l).1 ≡ true
    → (should_escalate now task revision l).0.last_trigger task revision ≡ some now
escalated now task revision l h =
    ground (arith, trigger_after now task revision l task revision, eq_refl task)

-- After an escalation the same key does not escalate again for ten minutes, whatever rejections are
-- recorded and whatever is asked in between.
pub escalations_apart :
    (l : LoopPrevention) (task : String) (revision now later : ℕ) (os : List LedgerOp)
    → (should_escalate now task revision l).1 ≡ true
    → all (asks_before (now + 600)) os ≡ true
    → later < now + 600
    → (should_escalate later task revision (run os (should_escalate now task revision l).0)).1
      ≡ false
escalations_apart l task revision now later os h b k =
    let l₁ = (should_escalate now task revision l).0 in
    ground (
      arith,
      cooling_run os l₁ task revision now (escalated now task revision l h) b,
      escalates_iff later task revision (run os l₁),
    )

-- How often a rejection of a key is recorded.
unfoldable pub recorded : String → ℕ → List LedgerOp → ℕ
recorded task revision [] = 0
recorded task revision (recording t r at ∷ os) =
    let rest = recorded task revision os in if is_key t r task revision then suc rest else rest
recorded task revision (asking at t r ∷ os) = recorded task revision os

count_after :
    (t : String) (r at : ℕ) (l : LoopPrevention) (task : String) (revision : ℕ)
    → count_in_window task revision (apply (recording t r at) l)
      ≤ (if is_key t r task revision then 1 else 0) + count_in_window task revision l
unfolding apply record_reject count_in_window
count_after t r at l task revision = ground (
  arith,
  length-retain (λ x. leb at (x + window_secs)) (l.rejects task revision ++ at ∷ []),
  length-append (l.rejects task revision) (at ∷ []),
)

rejects_asked :
    (at : ℕ) (t : String) (r : ℕ) (l : LoopPrevention)
    → (should_escalate at t r l).0.rejects ≡ l.rejects
unfolding should_escalate
rejects_asked at t r l = elim (Bool-cases (leb (count_in_window t r l) 3)) [
  | inl few ↦ rw few refl
  | inr many ↦ rw many (elim (Bool-cases (is_cooling at (l.last_trigger t r))) [
    | inl cooling ↦ rw cooling refl
    | inr cool ↦ rw cool refl
  ])
]

count_asked :
    (at : ℕ) (t : String) (r : ℕ) (l : LoopPrevention) (task : String) (revision : ℕ)
    → count_in_window task revision (apply (asking at t r) l) ≡ count_in_window task revision l
unfolding apply count_in_window
count_asked at t r l task revision =
    ap (λ (f : String → ℕ → List ℕ). length (f task revision)) (rejects_asked at t r l)

count_run :
    (os : List LedgerOp) (l : LoopPrevention) (task : String) (revision : ℕ)
    → count_in_window task revision (run os l)
      ≤ recorded task revision os + count_in_window task revision l
unfolding run recorded
count_run [] l task revision = omega arith
count_run (recording t r at ∷ os) l task revision = ground (
  arith,
  count_after t r at l task revision,
  count_run os (apply (recording t r at) l) task revision,
)
count_run (asking at t r ∷ os) l task revision = ground (
  arith,
  count_asked at t r l task revision,
  count_run os (apply (asking at t r) l) task revision,
)

-- A key of which at most three rejections were recorded since the ledger was empty does not escalate.
pub three_do_not_escalate :
    (os : List LedgerOp) (task : String) (revision now : ℕ)
    → recorded task revision os ≤ 3
    → (should_escalate now task revision (run os empty_ledger)).1 ≡ false
unfolding count_in_window
three_do_not_escalate os task revision now h = ground (
  arith,
  count_run os empty_ledger task revision,
  escalates_iff now task revision (run os empty_ledger),
)
