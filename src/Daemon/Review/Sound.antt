-- ===== src/Daemon/Review/Sound.antt =====
-- The requests of the review cycle keep every item backed.
use anti_subagent.Prelude.{
  ℕ, String, Bool, true, false, ◌≡◌, refl, some, arith, Clock, eq_refl, Option-cases, inl, inr,
}
use anti_subagent.Core.Work.{
  in_progress, submitted, verified, accepted, EvidenceRef, WorkItem, new, work_eq,
}
use anti_subagent.Core.Work
use anti_subagent.Core.Verify.{commands, VerificationResult, new_result}
use anti_subagent.Core.Events.{work_submitted, work_verified, work_accepted, work_rejected}
use anti_subagent.Store.Db.{Store}
use anti_subagent.Store.Works.{get_work_item}
use anti_subagent.Store.Works.States.{get-id}
use anti_subagent.Daemon.Wire.{Env}
use anti_subagent.Daemon.Backing.{
  IsSound, backed, saved, is_pass, is_acceptance, save-IsSound, any-saved,
}
use anti_subagent.Daemon.Review.{
  submit_item, accept_item, reject_item, commit_verdict, submit_payload, verdict_payload,
  accept_payload, reject_payload, handle_submit_work, handle_review_work, handle_verify_work,
  parse_profile, run_commands,
}
use anti_subagent.Daemon.Review.Laws.{
  verdict_of, legacy_verdict, submitted_to, reviewed, legacy_reject,
}

submit_item-IsSound :
    (id sha path : String) (secs : ℕ) (c : Clock) (w : WorkItem) (s : Store)
    → IsSound s
    → w.id ≡ id
    → IsSound (submit_item id sha path secs c w s).0
unfolding submit_item Work.submit backed
submit_item-IsSound id sha path secs c w s h e =
    let evidence : EvidenceRef = record {
      sha256 = sha;
      artifact_path = path;
      produced_at = c.now;
    } in
    let w' : WorkItem = record w {
      evidence = some evidence;
      submitted_at = some c.now;
      review_deadline = some (c.later secs);
      state = submitted;
      updated_at = c.now;
    } in
    ground (
      arith,
      save-IsSound w' id work_submitted (submit_payload sha path w') c s h e refl (ground arith),
    )

accepted-backed :
    (note : String) (c : Clock) (w : WorkItem) (s : Store)
    → backed s.event_file w ≡ true
    → w.state ≡ verified
    → let w' : WorkItem = record w { state = accepted; updated_at = c.now } in
      backed (saved w' w.id work_accepted (accept_payload note) c s).event_file w' ≡ true
unfolding backed
accepted-backed note c w s h v =
    let w' : WorkItem = record w { state = accepted; updated_at = c.now } in
    rw
      (
        any-saved w' w.id work_accepted (accept_payload note) c s (is_pass w.id),
        any-saved w' w.id work_accepted (accept_payload note) c s (is_acceptance w.id),
      )
      (ground (arith, h, v, eq_refl w.id))

accept_item-IsSound :
    (note : String) (c : Clock) (w : WorkItem) (s : Store)
    → IsSound s
    → backed s.event_file w ≡ true
    → IsSound (accept_item w.id note c w s).0
unfolding accept_item Work.transition Work.can_transition
accept_item-IsSound note c w s h b =
    let w' : WorkItem = record w { state = accepted; updated_at = c.now } in
    ground (
      arith,
      h,
      save-IsSound w' w.id work_accepted (accept_payload note) c s h refl refl,
      accepted-backed note c w s b,
    )

reject_item-IsSound :
    (note : String) (c : Clock) (w : WorkItem) (s : Store)
    → IsSound s
    → IsSound (reject_item w.id note c w s).0
unfolding reject_item Work.reject reviewed backed
reject_item-IsSound note c w s h =
    let w' = reviewed "reject" note c w in
    ground (
      arith,
      h,
      save-IsSound w' w.id work_rejected (reject_payload note w') c s h refl (legacy_reject w)
          (ground arith),
    )

verdict-backed :
    (c : Clock) (passed : Bool) (r : VerificationResult) (w : WorkItem) (s : Store)
    → backed s.event_file w ≡ true
    → w.state ≡ submitted
    → backed
        (saved (verdict_of passed c w) w.id work_verified (verdict_payload passed r) c s).event_file
        (verdict_of passed c w)
      ≡ true
unfolding backed
verdict-backed c true r w s h v =
    rw
      (any-saved (verdict_of true c w) w.id work_verified (verdict_payload true r) c s
        (is_pass w.id))
      (ground (arith, h, v, eq_refl w.id))
verdict-backed c false r w s h v = ground arith

commit_verdict-IsSound :
    (profile_str : String) (c : Clock) (passed : Bool) (r : VerificationResult) (w : WorkItem)
    (s : Store)
    → IsSound s
    → backed s.event_file w ≡ true
    → w.state ≡ submitted
    → IsSound (commit_verdict w.id profile_str c passed r w s).0
unfolding commit_verdict Work.transition
commit_verdict-IsSound profile_str c passed r w s h b v = ground (
  arith,
  h,
  submitted_to passed,
  save-IsSound (verdict_of passed c w) w.id work_verified (verdict_payload passed r) c s h refl
      (legacy_verdict passed) (verdict-backed c passed r w s b v),
)

-- Each of the three requests keeps the items backed.
pub submit_work-IsSound :
    (id sha path : String) (secs : ℕ) (c : Clock) (s : Store)
    → IsSound s
    → IsSound (handle_submit_work id sha path secs c s).0
unfolding handle_submit_work Work.transition Work.can_transition new
submit_work-IsSound id sha path secs c s h = elim (Option-cases (get_work_item id s)) [
  | inl e ↦ ground (
    arith,
    h,
    submit_item-IsSound id sha path secs c (Work.transition (new id "cli" c) in_progress c).0 s h,
  )
  | inr (w, e) ↦ ground (arith, h, submit_item-IsSound id sha path secs c w s h (get-id id s e))
]

pub review_work-IsSound :
    (id verdict note : String) (c : Clock) (s : Store)
    → IsSound s
    → IsSound (handle_review_work id verdict note c s).0
unfolding handle_review_work
review_work-IsSound id verdict note c s h = elim (Option-cases (get_work_item id s)) [
  | inl e ↦ ground (arith, h)
  | inr (w, e) ↦ ground (
    arith,
    h,
    get-id id s e,
    accept_item-IsSound note c w s h (h.sound id w e),
    reject_item-IsSound note c w s h,
  )
]

pub verify_work-IsSound :
    (id profile_str : String) (e : Env) (s : Store)
    → IsSound s
    → IsSound (handle_verify_work id profile_str e s).0
unfolding handle_verify_work
verify_work-IsSound id profile_str e s h = elim (Option-cases (get_work_item id s)) [
  | inl n ↦ ground (arith, h)
  | inr (w, found) ↦ elim (Option-cases (parse_profile profile_str)) [
    | inl n ↦ ground (arith, h)
    | inr (profile, known) ↦
        let (passed, r) =
          run_commands e.tools (commands profile) (true, new_result profile e.clock) in
        ground (
          arith,
          h,
          get-id id s found,
          commit_verdict-IsSound profile_str e.clock passed r w s h (h.sound id w found),
        )
  ]
]
