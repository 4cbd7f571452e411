-- ===== src/Services/Cas/Locks.antt =====
-- What the lock of a directory promises.
use anti_subagent.Prelude.{
  String, Bool, true, false, ◌≡◌, Option, none, some, List, [], ◌∷◌, arith, is_ok, ◌==◌, eq_iff,
  eq_refl, map_option, all, not, Option-cases, inl, inr, if◌then◌else◌,
}
use anti_subagent.Prelude.Table.{find_row, find-replace, find-delete}
use anti_subagent.Services.Cas.{Lock, lock_directory, lock_of, Disk, acquire_lock, release_lock}

-- Calls on locks: `acquiring directory holder` and `releasing directory`.
pub data LockCall : Type 0 where
  acquiring : String → String → LockCall
  releasing : String → LockCall

unfoldable pub call : LockCall → Disk → Disk
call (acquiring dir holder) d = (acquire_lock dir holder d).0
call (releasing dir) d = release_lock dir d

unfoldable pub calls : List LockCall → Disk → Disk
calls [] d = d
calls (c ∷ cs) d = calls cs (call c d)

-- Who holds the lock of a directory.
abbrev pub held_by : String → Disk → Option String
held_by dir d = map_option (λ (l : Lock). l.holder) (find_row lock_directory dir d.locks)

abbrev pub leaves : String → LockCall → Bool
leaves dir (acquiring other holder) = true
leaves dir (releasing other) = not (other == dir)

abbrev or_holder : Option String → String → Option String
or_holder none holder = some holder
or_holder (some h) holder = some h

held-acquire :
    (dir holder j : String) (d : Disk)
    → held_by j (acquire_lock dir holder d).0
      ≡ (if dir == j then or_holder (held_by dir d) holder else held_by j d)
unfolding acquire_lock
held-acquire dir holder j d = elim (Option-cases (find_row lock_directory dir d.locks)) [
  | inl e ↦ ground (arith, e, find-replace lock_directory j (lock_of dir holder) d.locks)
  | inr (l, e) ↦ ground (arith, e, eq_iff dir j)
]

held-release :
    (dir j : String) (d : Disk)
    → held_by j (release_lock dir d) ≡ (if dir == j then none else held_by j d)
unfolding release_lock
held-release dir j d = ground (arith, find-delete lock_directory dir j d.locks)

call_keeps :
    (c : LockCall) (dir holder : String) (d : Disk)
    → held_by dir d ≡ some holder
    → leaves dir c ≡ true
    → held_by dir (call c d) ≡ some holder
unfolding call
call_keeps (acquiring other h) dir holder d e l =
    ground (arith, held-acquire other h dir d, eq_iff other dir, e)
call_keeps (releasing other) dir holder d e l = ground (arith, held-release other dir d, e)

refused :
    (dir holder other : String) (d : Disk)
    → held_by dir d ≡ some holder
    → is_ok (acquire_lock dir other d).1 ≡ false
unfolding acquire_lock
refused dir holder other d e = elim (Option-cases (find_row lock_directory dir d.locks)) [
  | inl k ↦ ground (arith, k)
  | inr (l, k) ↦ ground (arith, k)
]

free :
    (dir other : String) (d : Disk)
    → held_by dir d ≡ none
    → is_ok (acquire_lock dir other d).1 ≡ true
unfolding acquire_lock
free dir other d e = elim (Option-cases (find_row lock_directory dir d.locks)) [
  | inl k ↦ ground (arith, k)
  | inr (l, k) ↦ ground (arith, k)
]

-- The lock of a directory excludes others: while nobody releases it, its holder stays, whatever locks are taken or
-- released in between, and every further call for it is refused.
pub lock_excludes :
    (cs : List LockCall) (dir holder other : String) (d : Disk)
    → held_by dir d ≡ some holder
    → all (leaves dir) cs ≡ true
    → (held_by dir (calls cs d) ≡ some holder)
      × (is_ok (acquire_lock dir other (calls cs d)).1 ≡ false)
unfolding calls
lock_excludes [] dir holder other d e a = (e, refused dir holder other d e)
lock_excludes (c ∷ cs) dir holder other d e a =
    lock_excludes cs dir holder other (call c d) (call_keeps c dir holder d e (ground arith))
      (ground arith)

-- Whoever asks for a lock that anyone has released gets it, whoever held it.
pub released_is_free :
    (dir other : String) (d : Disk)
    → (is_ok (acquire_lock dir other (release_lock dir d)).1 ≡ true)
      × (held_by dir (acquire_lock dir other (release_lock dir d)).0 ≡ some other)
released_is_free dir other d =
    let gone = held-release dir dir d in
    (
      free dir other (release_lock dir d) (ground (arith, gone, eq_refl dir)),
      ground (arith, gone, eq_refl dir, held-acquire dir other dir (release_lock dir d)),
    )
