-- ===== src/Daemon/Review/Steps.antt =====
-- The requests of the review cycle take steps of the work item's life.
use anti_subagent.Prelude.{
  ℕ, String, true, false, ◌&&◌, ◌||◌, ◌≡◌, ◌⊎◌, refl, none, some, arith, Clock, ◌==◌, Option-cases,
  Bool-cases, inl, inr, if◌then◌else◌,
}
use anti_subagent.Core.Work.{
  in_progress, needs_revision, submitted, verified, EvidenceRef, WorkItem, new, work_eq,
}
use anti_subagent.Core.Work
use anti_subagent.Core.Verify.{VerifyProfile}
use anti_subagent.Core.Events.{work_submitted}
use anti_subagent.Store.Db.{Store}
use anti_subagent.Store.Works.{get_work_item}
use anti_subagent.Store.Works.States.{get-id}
use anti_subagent.Daemon.Wire.{Env}
use anti_subagent.Daemon.Lifecycle.{
  submission, review, verification, may_move, Steps, set-Steps, open-Steps, refl-Steps,
}
use anti_subagent.Daemon.Review.{
  submit_payload, submit_item, handle_submit_work, handle_review_work, parse_profile,
  handle_verify_work,
}
use anti_subagent.Daemon.Review.Laws.{
  get-saved, verdict_state, takes_review, reviewed, handle_verify_work_lem, handle_review_work_lem,
}

-- The item as it is handed in.
abbrev handed_in : String → String → ℕ → Clock → WorkItem → WorkItem
handed_in sha path secs c w =
    let evidence : EvidenceRef = record {
      sha256 = sha;
      artifact_path = path;
      produced_at = c.now;
    } in
    record w {
      evidence = some evidence;
      submitted_at = some c.now;
      review_deadline = some (c.later secs);
      state = submitted;
      updated_at = c.now;
    }

get-submit_item :
    (id sha path : String) (secs : ℕ) (c : Clock) (w : WorkItem) (s : Store)
    → w.id ≡ id
    → (j : String)
    → get_work_item j (submit_item id sha path secs c w s).0 ≡ (
        if (work_eq w.state in_progress || work_eq w.state needs_revision) && id == j
        then some (handed_in sha path secs c w)
        else get_work_item j s)
unfolding submit_item Work.submit
get-submit_item id sha path secs c w s e j =
    let w' = handed_in sha path secs c w in
    ground (arith, get-saved w' id j e refl work_submitted (submit_payload sha path w') c s)

hands_in :
    (w : WorkItem)
    → (work_eq w.state in_progress || work_eq w.state needs_revision) ≡ true
    → may_move submission w.state submitted ≡ true
unfolding may_move
hands_in w h = ground arith

pub submit_work-Steps :
    (id sha path : String) (secs : ℕ) (c : Clock) (s : Store)
    → Steps submission id s (handle_submit_work id sha path secs c s).0
unfolding handle_submit_work Work.transition Work.can_transition new
submit_work-Steps id sha path secs c s = elim (Option-cases (get_work_item id s)) [
  | inl e ↦
      let w = (Work.transition (new id "cli" c) in_progress c).0 in
      open-Steps id s (handle_submit_work id sha path secs c s).0 (handed_in sha path secs c w) e
        refl (λ j. ground (arith, e, get-submit_item id sha path secs c w s refl j))
  | inr (w, e) ↦
      set-Steps submission id s (handle_submit_work id sha path secs c s).0
        (work_eq w.state in_progress || work_eq w.state needs_revision) w
        (handed_in sha path secs c w) e
        (λ j. ground (arith, e, get-submit_item id sha path secs c w s (get-id id s e) j))
        (hands_in w)
]

takes_verdict :
    (verdict note : String) (c : Clock) (w : WorkItem)
    → takes_review verdict w.state ≡ true
    → may_move review w.state (reviewed verdict note c w).state ≡ true
unfolding may_move reviewed
takes_verdict verdict note c w h = ground arith

review_missing :
    (id verdict note : String) (c : Clock) (s : Store)
    → get_work_item id s ≡ none
    → (handle_review_work id verdict note c s).0 ≡ s
unfolding handle_review_work
review_missing id verdict note c s e = ground arith

pub review_work-Steps :
    (id verdict note : String) (c : Clock) (s : Store)
    → Steps review id s (handle_review_work id verdict note c s).0
review_work-Steps id verdict note c s = elim (Option-cases (get_work_item id s)) [
  | inl e ↦ rw (review_missing id verdict note c s e) (refl-Steps review id s)
  | inr (w, e) ↦
      set-Steps review id s (handle_review_work id verdict note c s).0
        (takes_review verdict w.state) w (reviewed verdict note c w) e
        (handle_review_work_lem id verdict note c s w e) (takes_verdict verdict note c w)
]

verify_refused :
    (id profile_str : String) (e : Env) (s : Store) (w : WorkItem)
    → get_work_item id s ≡ some w
    → (work_eq w.state submitted ≡ false) ⊎ (parse_profile profile_str ≡ none)
    → (handle_verify_work id profile_str e s).0 ≡ s
unfolding handle_verify_work
verify_refused id profile_str e s w found h = ground arith

verify_missing :
    (id profile_str : String) (e : Env) (s : Store)
    → get_work_item id s ≡ none
    → (handle_verify_work id profile_str e s).0 ≡ s
unfolding handle_verify_work
verify_missing id profile_str e s absent = ground arith

verifies :
    (w : WorkItem) (e : Env) (p : VerifyProfile)
    → w.state ≡ submitted
    → may_move verification w.state (verdict_state e.tools p) ≡ true
unfolding may_move
verifies w e p h = ground arith

pub verify_work-Steps :
    (id profile_str : String) (e : Env) (s : Store)
    → Steps verification id s (handle_verify_work id profile_str e s).0
verify_work-Steps id profile_str e s = elim (Option-cases (get_work_item id s)) [
  | inl n ↦ rw (verify_missing id profile_str e s n) (refl-Steps verification id s)
  | inr (w, found) ↦ elim (Bool-cases (work_eq w.state submitted)) [
    | inr n ↦ rw (verify_refused id profile_str e s w found (inl n)) (refl-Steps verification id s)
    | inl y ↦ elim (Option-cases (parse_profile profile_str)) [
      | inl n ↦
          rw (verify_refused id profile_str e s w found (inr n)) (refl-Steps verification id s)
      | inr (p, known) ↦
          let st : w.state ≡ submitted = ground arith in
          set-Steps verification id s (handle_verify_work id profile_str e s).0 true w
            (record w { state = verdict_state e.tools p; updated_at = e.clock.now }) found
            (handle_verify_work_lem id profile_str e s w p found st known) (λ t. verifies w e p st)
    ]
  ]
]
