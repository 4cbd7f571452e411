-- ===== src/Services/Loops/Laws.antt =====
-- How a loop ends, and what a check gives.
use Prim.Native.String.{len}
use text.Mathlib.Text.{is_char_boundary}
use anti_subagent.Prelude.{
  ℤ, ◌≤◌, String, Bool, false, ◌&&◌, ◌≡◌, Option, none, some, List, [], ◌∷◌, arith, is_ok, leb,
  map_option, Clock, ◌==◌, eq_iff, Option-cases, Bool-cases, inl, inr, if◌then◌else◌,
}
use anti_subagent.Prelude.Table.{find_row, find-append, or_else}
use anti_subagent.Daemon.Wire.{Output}
use anti_subagent.Services.Loops.{
  LoopRecord, LoopRequest, VerifyCheckResult, loop_key, loop_of, is_running, halted, LoopService,
  create, get, halt_first, stop, cap_output, run_verify_check, max_verify_output_bytes,
}

find-halt_first :
    (c : Clock) (id j : String) (ls : List LoopRecord)
    → find_row loop_key j (halt_first c id ls)
      ≡ (if id == j then map_option (halted c) (find_row loop_key j ls) else find_row loop_key j ls)
unfolding halt_first
find-halt_first c id j [] = ground arith
find-halt_first c id j (l ∷ ls) =
    ground (arith, find-halt_first c id j ls, eq_iff id j, eq_iff l.id id, eq_iff l.id j)

-- That a loop is found and running.
abbrev pub runs : Option LoopRecord → Bool
runs none = false
runs (some l) = is_running l.status

-- A stop succeeds exactly where the loop is found and is Running; then it is Stopped, with the time of the
-- call, and otherwise it is as before. Every other loop is as before.
pub stop_lem :
    (writes : Bool) (c : Clock) (id j : String) (s : LoopService)
    → (is_ok (stop writes c id s).1 ≡ runs (get id s))
      × (get j (stop writes c id s).0
          ≡ (if runs (get id s) && id == j then map_option (halted c) (get j s) else get j s))
unfolding stop get
stop_lem writes c id j s = elim (Option-cases (find_row loop_key id s.loops)) [
  | inl e ↦ (ground (arith, e), ground (arith, e))
  | inr (l, e) ↦ (ground (arith, e), ground (arith, e, find-halt_first c id j s.loops, eq_iff id j))
]

get-create :
    (writes : Bool) (c : Clock) (id j : String) (q : LoopRequest) (s : LoopService)
    → get j (create writes c id q s).0
      ≡ or_else (get j s) (if id == j then some (loop_of c id q) else none)
unfolding create get
get-create writes c id j q s = find-append loop_key j (loop_of c id q) s.loops

pub data LoopCall : Type 0 where
  creating : String → LoopRequest → LoopCall
  stopping : String → LoopCall

unfoldable pub call : Bool → Clock → LoopCall → LoopService → LoopService
call writes c (creating id q) s = (create writes c id q s).0
call writes c (stopping id) s = (stop writes c id s).0

unfoldable pub calls : List (LoopCall × Bool × Clock) → LoopService → LoopService
calls [] s = s
calls ((k, writes, c) ∷ ks) s = calls ks (call writes c k s)

call_keeps :
    (writes : Bool) (c : Clock) (k : LoopCall) (j : String) (s : LoopService) (l : LoopRecord)
    → get j s ≡ some l
    → is_running l.status ≡ false
    → get j (call writes c k s) ≡ some l
unfolding call
call_keeps writes c (creating id q) j s l h n = ground (arith, h, get-create writes c id j q s)
call_keeps writes c (stopping id) j s l h n =
    ground (arith, h, n, eq_iff id j, (stop_lem writes c id j s).1)

-- A loop that is found and is no longer Running stays as it is, whatever loops are created or stopped, one of its
-- own id among them, and whether the file system takes the writes or not; each further stop of it is refused.
pub ended_loop_stays :
    (ks : List (LoopCall × Bool × Clock)) (writes : Bool) (c : Clock) (j : String) (s : LoopService)
    (l : LoopRecord)
    → get j s ≡ some l
    → is_running l.status ≡ false
    → (get j (calls ks s) ≡ some l) × (is_ok (stop writes c j (calls ks s)).1 ≡ false)
unfolding calls
ended_loop_stays [] writes c j s l h n = (h, ground (arith, h, n, (stop_lem writes c j j s).0))
ended_loop_stays ((k, w, d) ∷ ks) writes c j s l h n =
    ended_loop_stays ks writes c j (call w d k s) l (call_keeps w d k j s l h n) n

cap_output-len : (text t : String) → cap_output text ≡ some t → len t ≤ max_verify_output_bytes
unfolding cap_output
cap_output-len text t h = elim (Bool-cases (leb (len text) 65536)) [
  | inl y ↦ ground (arith, y, h)
  | inr n ↦ elim (Bool-cases (is_char_boundary text 65536)) [
    | inl b ↦ ground (arith, n, b, h)
    | inr k ↦ ground (arith, n, k, h)
  ]
]

-- A check of a command that ran has passed exactly where the command succeeded, and what it keeps of each
-- output is at most 64 KB.
pub run_verify_check_lem :
    (run : String → Output) (c : Clock) (command out errors : String) (success : Bool)
    (code : Option ℤ) (r : VerifyCheckResult)
    → run command ≡ Output.exited success code out errors
    → run_verify_check run c command ≡ some r
    → (r.passed ≡ success)
      × (len r.stdout ≤ max_verify_output_bytes)
      × (len r.stderr ≤ max_verify_output_bytes)
unfolding run_verify_check
run_verify_check_lem run c command out errors success code r h e =
    elim (Option-cases (cap_output out)) [
      | inl n ↦ absurd (ground (arith, h, e, n))
      | inr (t, y) ↦ elim (Option-cases (cap_output errors)) [
        | inl n ↦ absurd (ground (arith, h, e, y, n))
        | inr (u, z) ↦ (
          ground (arith, h, e, y, z),
          ground (arith, h, e, y, z, cap_output-len out t y),
          ground (arith, h, e, y, z, cap_output-len errors u z),
        )
      ]
    ]
