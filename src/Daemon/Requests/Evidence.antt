-- ===== src/Daemon/Requests/Evidence.antt =====
-- Every state of a work item that the daemon shows is backed by its evidence and its events.
use anti_subagent.Prelude.{String, true, ◌||◌, ◌≡◌, some, List, [], ◌∷◌, arith, any, is_some}
use anti_subagent.Core.Work.{submitted, verified, accepted, WorkItem, work_eq}
use anti_subagent.Store.Db.{Store, empty}
use anti_subagent.Store.Works.{get_work_item}
use anti_subagent.Store.Works.States.{get-id}
use anti_subagent.Daemon.Wire.{Env}
use anti_subagent.Daemon.Backing.{IsSound, backed, is_pass, is_acceptance}
use anti_subagent.Daemon.Review.Sound.{
  submit_work-IsSound, review_work-IsSound, verify_work-IsSound,
}
use anti_subagent.Daemon.Reports.Sound.{report_task-IsSound}
use anti_subagent.Daemon.Requests.{
  Request, submit_work, review_work, verify_work, report_task, serve, serve_all,
}

pub serve-IsSound : (r : Request) (e : Env) (s : Store) → IsSound s → IsSound (serve r e s).0
unfolding serve
serve-IsSound (submit_work id sha path secs) e s h =
    submit_work-IsSound id sha path secs e.clock s h
serve-IsSound (review_work id verdict note) e s h = review_work-IsSound id verdict note e.clock s h
serve-IsSound (verify_work id profile) e s h = verify_work-IsSound id profile e s h
serve-IsSound (report_task r) e s h = report_task-IsSound e r s h

pub serve_all-IsSound :
    (rs : List (Request × Env)) (s : Store) → IsSound s → IsSound (serve_all rs s)
unfolding serve_all
serve_all-IsSound [] s h = h
serve_all-IsSound ((r, e) ∷ rs) s h = serve_all-IsSound rs (serve r e s).0 (serve-IsSound r e s h)

pub empty-IsSound : IsSound empty
unfolding get_work_item
empty-IsSound = record { stored = tt; sound = λ id w e. ground (arith, e) }

-- After any requests on an empty store, an item that is found Submitted, Verified or Accepted has an
-- evidence; for one found Verified or Accepted the event file has a WorkVerified event of that item
-- with status "Pass", and for one found Accepted a WorkAccepted event of it.
pub states_are_backed :
    (rs : List (Request × Env)) (id : String) (w : WorkItem)
    → get_work_item id (serve_all rs empty) ≡ some w
    → ((work_eq w.state submitted || work_eq w.state verified || work_eq w.state accepted) ≡ true
        → is_some w.evidence ≡ true)
      × ((work_eq w.state verified || work_eq w.state accepted) ≡ true
          → any (is_pass id) (serve_all rs empty).event_file ≡ true)
      × (w.state ≡ accepted → any (is_acceptance id) (serve_all rs empty).event_file ≡ true)
unfolding backed
states_are_backed rs id w found =
    let s = serve_all rs empty in
    let b = (serve_all-IsSound rs empty empty-IsSound).sound id w found in
    let e = get-id id s found in rw (← e) (ground (arith, b), ground (arith, b), ground (arith, b))
