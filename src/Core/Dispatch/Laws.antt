-- ===== src/Core/Dispatch/Laws.antt =====
-- What the table of dispatch.rs allows along any path.
use anti_subagent.Prelude.{
  ℕ, suc, Bool, true, false, ◌&&◌, ◌≡◌, ◌≤◌, ◌+◌, ◌*◌, List, [], ◌∷◌, length, arith, if◌then◌else◌,
}
use anti_subagent.Core.Dispatch.{
  DispatchStatus, pending, notified, delivered, deferred, dispatch_eq, can_transition_dispatch,
}

-- Each status in turn is reached from the one before it, and differs from it.
unfoldable pub advances : DispatchStatus → List DispatchStatus → Bool
advances s [] = true
advances s (t ∷ ts) =
    (if dispatch_eq s t then false else can_transition_dispatch s t) && advances t ts

unfoldable pub deferrals : List DispatchStatus → ℕ
deferrals [] = 0
deferrals (deferred ∷ ts) = suc (deferrals ts)
deferrals (_ ∷ ts) = deferrals ts

-- How many steps a status has before it without a deferral.
room : DispatchStatus → ℕ
room pending = 3
room notified = 2
room delivered = 1
room deferred = 3
room _ = 0

extra : DispatchStatus → ℕ
extra deferred = 2
extra _ = 0

advance-room :
    (s t : DispatchStatus)
    → dispatch_eq s t ≡ false
    → can_transition_dispatch s t ≡ true
    → room t + 1 ≤ room s + extra t
unfolding can_transition_dispatch room extra
advance-room s t n h = ground arith

deferrals-cons :
    (t : DispatchStatus) (ts : List DispatchStatus)
    → 2 * deferrals (t ∷ ts) ≡ extra t + 2 * deferrals ts
unfolding deferrals extra
deferrals-cons deferred ts = omega arith
deferrals-cons _ ts = omega arith

advances_bounded :
    (s : DispatchStatus) (ts : List DispatchStatus)
    → advances s ts ≡ true
    → length ts ≤ room s + 2 * deferrals ts
unfolding advances
advances_bounded s [] h = omega arith
advances_bounded s (t ∷ ts) h =
    ground (arith, advance-room s t, deferrals-cons t ts, advances_bounded t ts)

-- A delivery that starts as Pending changes its status at most three times, and twice more for each
-- time that the peer defers it.
pub delivery_bounded :
    (ts : List DispatchStatus) → advances pending ts ≡ true → length ts ≤ 3 + 2 * deferrals ts
unfolding room
delivery_bounded ts h = advances_bounded pending ts h
