-- ===== src/Core/Authority.antt =====
-- The lease of a task (crates/anti-core/src/authority.rs). A method on `&mut self` returns the new
-- lease with its result.
pub mod Laws
use Prim.Native.String
use anti_subagent.Prelude.{
  String, Bool, true, false, ◌||◌, Option, none, some, Result, ok, err, ◌==◌, str_lt, is_none,
  if◌then◌else◌,
}

pub record AuthorityLease : Type 0 where
  pub owner : Option String
  pub lease_id : Option String
  pub leased_until : Option String
  pub stale : Bool
  pub stale_reason : Option String

pub data AuthorityError : Type 0 where
  already_held : String → AuthorityError
  not_held : AuthorityError
  expired : AuthorityError
  owner_mismatch : String → String → AuthorityError

abbrev pub unheld : AuthorityLease
unheld = record {
  owner = none;
  lease_id = none;
  leased_until = none;
  stale = false;
  stale_reason = none;
}

abbrev pub Outcome : Type 0
Outcome = AuthorityLease × Result AuthorityError (Unit {0})

-- The lease of a new term.
abbrev granted : String → String → String → AuthorityLease
granted owner lease_id leased_until = record {
  owner = some owner;
  lease_id = some lease_id;
  leased_until = some leased_until;
  stale = false;
  stale_reason = none;
}

-- The same owner takes its lease again, another one only a stale lease.
unfoldable pub acquire : String → String → String → AuthorityLease → Outcome
acquire owner lease_id leased_until l = elim l.owner [
  | none ↦ (granted owner lease_id leased_until, ok tt)
  | some current ↦
      if current == owner
      then (granted owner lease_id leased_until, ok tt)
      else if l.stale
      then (granted owner lease_id leased_until, ok tt)
      else (l, err (already_held current))
]

unfoldable pub renew : String → String → String → AuthorityLease → Outcome
renew owner lease_id leased_until l = elim l.owner [
  | none ↦ (l, err not_held)
  | some current ↦
      if current == owner
      then (if l.stale
          then (l, err expired)
          else (record l { lease_id = some lease_id; leased_until = some leased_until }, ok tt))
      else (l, err (owner_mismatch current owner))
]

unfoldable pub release : String → AuthorityLease → Outcome
release owner l = elim l.owner [
  | none ↦ (l, err not_held)
  | some current ↦
      if current == owner then (unheld, ok tt) else (l, err (owner_mismatch current owner))
]

abbrev expiry_reason : String → String → String
expiry_reason until now =
    String.◌++◌ "lease expired at " (String.◌++◌ until (String.◌++◌ ", now is " now))

-- The times are compared as texts.
unfoldable pub check_staleness : String → AuthorityLease → AuthorityLease × Bool
check_staleness now l = elim l.leased_until [
  | none ↦ (l, false)
  | some until ↦
      if str_lt until now
      then (record l { stale = true; stale_reason = some (expiry_reason until now) }, true)
      else (l, false)
]

unfoldable pub is_available : AuthorityLease → Bool
is_available l = is_none l.owner || l.stale
