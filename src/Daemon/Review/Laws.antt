-- ===== src/Daemon/Review/Laws.antt =====
-- What a verification and a review do to a work item.
use anti_subagent.Prelude.{
  String, Bool, true, false, ◌&&◌, ◌||◌, ◌≡◌, refl, some, List, [], ◌∷◌, arith, Clock, ◌==◌, ltb,
  add_u32, all, if◌then◌else◌,
}
use anti_subagent.Core.Work.{
  WorkItemState, in_progress, submitted, verified, accepted, needs_revision, rejected, EvidenceRef,
  WorkItem, work_eq,
}
use anti_subagent.Core.Work
use anti_subagent.Core.Verify.{VerifyProfile, commands, VerificationResult, new_result}
use anti_subagent.Core.Events.{EventType, Json, work_verified, work_accepted, work_rejected}
use anti_subagent.Store.Db.{Store}
use anti_subagent.Store.Events.{log_event}
use anti_subagent.Store.Codec.RoundTrips.{is_legacy}
use anti_subagent.Store.Works.{insert_work_item, get_work_item}
use anti_subagent.Store.Works.Laws.{get-insert}
use anti_subagent.Store.Works.States.{get-id, get-log}
use anti_subagent.Daemon.Wire.{Output, Tools, Env}
use anti_subagent.Daemon.Review.{
  parse_profile, run_command, run_commands, commit_verdict, accept_item, reject_item,
  verdict_payload, accept_payload, reject_payload, handle_verify_work, handle_review_work,
}

-- A lookup after the save of an item in a state that the store gives back, and one event.
pub get-saved :
    (w : WorkItem) (id j : String)
    → w.id ≡ id
    → is_legacy w.state ≡ true
    → (t : EventType) (p : Json) (c : Clock) (s : Store)
    → get_work_item j (log_event id t p c (insert_work_item w s))
      ≡ (if id == j then some w else get_work_item j s)
get-saved w id j e l t p c s =
    ground (arith, get-log j id t p c (insert_work_item w s), get-insert w j s)

abbrev pub succeeds : Output → Bool
succeeds (Output.failed e) = false
succeeds (Output.exited success code stdout stderr) = success

run_command_pass :
    (t : Tools) (cmd : String) (acc : Bool × VerificationResult)
    → (run_command t cmd acc).0 ≡ (acc.0 && succeeds (t.cargo cmd))
unfolding run_command
run_command_pass t cmd (b, r) = ground arith

run_commands_pass :
    (t : Tools) (cmds : List String) (acc : Bool × VerificationResult)
    → (run_commands t cmds acc).0 ≡ (acc.0 && all (λ cmd. succeeds (t.cargo cmd)) cmds)
unfolding run_commands
run_commands_pass t [] (b, r) = ground arith
run_commands_pass t (cmd ∷ cmds) (b, r) =
    ground
      (arith, run_commands_pass t cmds (run_command t cmd (b, r)), run_command_pass t cmd (b, r))

-- The state that the exit codes of a profile's commands decide.
abbrev pub verdict_state : Tools → VerifyProfile → WorkItemState
verdict_state t p = if all (λ cmd. succeeds (t.cargo cmd)) (commands p) then verified else submitted

pub submitted_to :
    (to : Bool) → Work.can_transition submitted (if to then verified else submitted) ≡ true
unfolding Work.can_transition
submitted_to to = ground arith

pub legacy_verdict : (to : Bool) → is_legacy (if to then verified else submitted) ≡ true
legacy_verdict to = ground arith

abbrev pub verdict_of : Bool → Clock → WorkItem → WorkItem
verdict_of passed c w = record w {
  state = if passed then verified else submitted;
  updated_at = c.now;
}

get-commit_verdict :
    (id profile_str : String) (c : Clock) (passed : Bool) (r : VerificationResult) (w : WorkItem)
    (s : Store)
    → w.id ≡ id
    → w.state ≡ submitted
    → (j : String)
    → get_work_item j (commit_verdict id profile_str c passed r w s).0
      ≡ (if id == j then some (verdict_of passed c w) else get_work_item j s)
unfolding commit_verdict Work.transition
get-commit_verdict id profile_str c passed r w s e st j = ground (
  arith,
  submitted_to passed,
  get-saved (verdict_of passed c w) id j e (legacy_verdict passed) work_verified
      (verdict_payload passed r) c s,
)

-- Verifying an item that is found in state Submitted, with a profile that is known, makes it Verified
-- where every command of the profile succeeds and leaves it Submitted otherwise, and it changes no
-- other item.
pub handle_verify_work_lem :
    (id profile_str : String) (e : Env) (s : Store) (w : WorkItem) (profile : VerifyProfile)
    → get_work_item id s ≡ some w
    → w.state ≡ submitted
    → parse_profile profile_str ≡ some profile
    → (j : String)
    → get_work_item j (handle_verify_work id profile_str e s).0 ≡ (
        if id == j
        then some (record w { state = verdict_state e.tools profile; updated_at = e.clock.now })
        else get_work_item j s)
unfolding handle_verify_work
handle_verify_work_lem id profile_str e s w profile found st known j =
    let (passed, r) = run_commands e.tools (commands profile) (true, new_result profile e.clock) in
    ground (
      arith,
      get-commit_verdict id profile_str e.clock passed r w s (get-id id s found) st j,
      run_commands_pass e.tools (commands profile) (true, new_result profile e.clock),
    )

abbrev pub reject_state : WorkItem → WorkItemState
reject_state w = if ltb w.max_revisions (add_u32 w.revision 1) then rejected else needs_revision

-- The item after a review that was taken.
unfoldable pub reviewed : String → String → Clock → WorkItem → WorkItem
reviewed verdict note c w =
    if verdict == "accept" then record w { state = accepted; updated_at = c.now } else record w {
      review_verdict = some note;
      lead_id = "lead";
      revision = add_u32 w.revision 1;
      state = reject_state w;
      updated_at = c.now;
    }

-- Which reviews are taken: `accept` of a Verified item, and `reject` of a Submitted or Verified one.
abbrev pub takes_review : String → WorkItemState → Bool
takes_review verdict s =
    if verdict == "accept"
    then work_eq s verified
    else verdict == "reject" && (work_eq s submitted || work_eq s verified)

pub legacy_reject : (w : WorkItem) → is_legacy (reject_state w) ≡ true
legacy_reject w = ground arith

accept_saved :
    (id note : String) (c : Clock) (s : Store) (w : WorkItem)
    → w.id ≡ id
    → (j : String)
    → get_work_item j (accept_item id note c w s).0 ≡ (
        if work_eq w.state verified && id == j
        then some (reviewed "accept" note c w)
        else get_work_item j s)
unfolding accept_item Work.transition Work.can_transition reviewed
accept_saved id note c s w e j = ground (
  arith,
  get-saved (reviewed "accept" note c w) id j e refl work_accepted (accept_payload note) c s,
)

reject_saved :
    (id note : String) (c : Clock) (s : Store) (w : WorkItem)
    → w.id ≡ id
    → (j : String)
    → get_work_item j (reject_item id note c w s).0 ≡ (
        if (work_eq w.state submitted || work_eq w.state verified) && id == j
        then some (reviewed "reject" note c w)
        else get_work_item j s)
unfolding reject_item Work.reject reviewed
reject_saved id note c s w e j =
    let w' = reviewed "reject" note c w in
    ground (arith, get-saved w' id j e (legacy_reject w) work_rejected (reject_payload note w') c s)

reviewed_with :
    (verdict note : String) (c : Clock) (w : WorkItem)
    → reviewed verdict note c w
      ≡ (if verdict == "accept" then reviewed "accept" note c w else reviewed "reject" note c w)
unfolding reviewed
reviewed_with verdict note c w = ground arith

-- A review of an item that is found: `accept` makes a Verified item Accepted; `reject` of a Submitted
-- or Verified item records the note, adds one to the revision and gives the item back for a revision,
-- or rejects it for good where the revision is past the limit. Any other review, and one of an item in
-- another state, changes no item, and none changes an item with another id.
pub handle_review_work_lem :
    (id verdict note : String) (c : Clock) (s : Store) (w : WorkItem)
    → get_work_item id s ≡ some w
    → (j : String)
    → get_work_item j (handle_review_work id verdict note c s).0 ≡ (
        if takes_review verdict w.state && id == j
        then some (reviewed verdict note c w)
        else get_work_item j s)
unfolding handle_review_work
handle_review_work_lem id verdict note c s w found j = ground (
  arith,
  accept_saved id note c s w (get-id id s found) j,
  reject_saved id note c s w (get-id id s found) j,
  reviewed_with verdict note c w,
)
