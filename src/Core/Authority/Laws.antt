-- ===== src/Core/Authority/Laws.antt =====
-- Who holds a lease, over any sequence of calls.
use anti_subagent.Prelude.{
  String, Bool, true, false, ◌||◌, not, ◌≡◌, refl, none, some, List, [], ◌∷◌, arith, is_ok, ◌==◌,
  all, is_some, str_lt, if◌then◌else◌,
}
use anti_subagent.Core.Authority.{
  AuthorityLease, unheld, acquire, renew, release, check_staleness, is_available,
}

pub data LeaseOp : Type 0 where
  acquiring : String → String → String → LeaseOp
  renewing : String → String → String → LeaseOp
  releasing : String → LeaseOp
  checking : String → LeaseOp

unfoldable pub apply : LeaseOp → AuthorityLease → AuthorityLease × Bool
apply (acquiring owner lease_id leased_until) l =
    let (l', r) = acquire owner lease_id leased_until l in (l', is_ok r)
apply (renewing owner lease_id leased_until) l =
    let (l', r) = renew owner lease_id leased_until l in (l', is_ok r)
apply (releasing owner) l = let (l', r) = release owner l in (l', is_ok r)
apply (checking now) l = check_staleness now l

unfoldable pub run : List LeaseOp → AuthorityLease → AuthorityLease
run [] l = l
run (o ∷ os) l = run os (apply o l).0

-- The calls of others than the owner, and the checks of staleness that find the lease in time.
abbrev pub is_quiet : String → String → LeaseOp → Bool
is_quiet owner until (acquiring other lease_id leased_until) = not (owner == other)
is_quiet owner until (renewing other lease_id leased_until) = not (owner == other)
is_quiet owner until (releasing other) = not (owner == other)
is_quiet owner until (checking now) = not (str_lt until now)

abbrev pub is_owner : String → AuthorityLease → Bool
is_owner owner l = elim l.owner [ none ↦ false | some current ↦ current == owner ]

-- A lease that is stale has expired: it has an owner and a term.
pub record IsLease (l : AuthorityLease) : Type 0 where
  pub termed : (is_some l.owner ≡ is_some l.leased_until) × (is_some l.owner ≡ is_some l.lease_id)
  pub expired : l.stale ≡ is_some l.stale_reason
  pub held : l.stale ≡ true → is_some l.owner ≡ true

apply-IsLease : (o : LeaseOp) (l : AuthorityLease) → IsLease l → IsLease (apply o l).0
unfolding apply acquire renew release check_staleness
apply-IsLease (acquiring owner lease_id leased_until) l h = ground arith
apply-IsLease (renewing owner lease_id leased_until) l h = ground arith
apply-IsLease (releasing owner) l h = ground arith
apply-IsLease (checking now) l h = ground arith

-- Over any calls on a new lease, an owner, a lease id and a term are there together or not at all, a
-- stale lease has an owner, and it has a reason exactly where it is stale.
pub run-IsLease : (os : List LeaseOp) → IsLease (run os unheld)
unfolding run
run-IsLease os = go os unheld (ground arith)
  where
    go : (os : List LeaseOp) (l : AuthorityLease) → IsLease l → IsLease (run os l)
    go [] l h = h
    go (o ∷ os) l h = go os (apply o l).0 (apply-IsLease o l h)

quiet_step :
    (o : LeaseOp) (l : AuthorityLease) (owner until : String)
    → l.owner ≡ some owner
    → l.leased_until ≡ some until
    → l.stale ≡ false
    → is_quiet owner until o ≡ true
    → (apply o l).0 ≡ l
unfolding apply acquire renew release check_staleness
quiet_step (acquiring other lease_id leased_until) l owner until e u s q = ground arith
quiet_step (renewing other lease_id leased_until) l owner until e u s q = ground arith
quiet_step (releasing other) l owner until e u s q = ground arith
quiet_step (checking now) l owner until e u s q = ground arith

-- A lease that is held and not stale stays as it is over any acquisitions, renewals and releases by
-- others than its owner and any checks of staleness at a time that is not past its end.
pub held_is_exclusive :
    (os : List LeaseOp) (l : AuthorityLease) (owner until : String)
    → l.owner ≡ some owner
    → l.leased_until ≡ some until
    → l.stale ≡ false
    → all (is_quiet owner until) os ≡ true
    → run os l ≡ l
unfolding run
held_is_exclusive [] l owner until e u s q = refl
held_is_exclusive (o ∷ os) l owner until e u s q =
    let k = quiet_step o l owner until e u s (ground arith) in
    rw k (held_is_exclusive os l owner until e u s (ground arith))

-- An acquisition succeeds exactly where the lease is available or held by the same owner, and then
-- the owner holds it, not stale, for the given term; otherwise the lease stays as it is.
pub acquire_lem :
    (owner lease_id leased_until : String) (l : AuthorityLease)
    → (is_ok (acquire owner lease_id leased_until l).1 ≡ (is_available l || is_owner owner l))
      × ((acquire owner lease_id leased_until l).0 ≡ (
          if is_available l || is_owner owner l
          then record {
            owner = some owner;
            lease_id = some lease_id;
            leased_until = some leased_until;
            stale = false;
            stale_reason = none;
          }
          else l))
unfolding acquire is_available
acquire_lem owner lease_id leased_until l = ground arith
