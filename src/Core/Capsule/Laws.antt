-- ===== src/Core/Capsule/Laws.antt =====
-- How long a capsule is.
use Prim.Native.String.{slice, len, ◌++◌}
use text.Mathlib.Text.{is_char_boundary}
use text.Mathlib.TextPositions.{len-append}
use anti_subagent.Prelude.{
  ℕ, ◌≤◌, ◌<◌, String, true, false, ◌≡◌, ◌⊎◌, refl, sym, some, List, [], ◌∷◌, arith, leb,
  Bool-cases, inl, inr,
}
use mathlib.Core.Option.{some-injective}
use anti_subagent.Core.Capsule.{CapsuleInput, marker, render_events, render_head, render_capsule}

-- The text with every event.
unfoldable pub with_events : List String → String → String
with_events [] out = out
with_events (e ∷ es) out = with_events es (out ++ e ++ "\n")

grows : (es : List String) (out : String) → len out ≤ len (with_events es out)
unfolding with_events
grows [] out = omega arith
grows (e ∷ es) out = omega (arith, grows es (out ++ e ++ "\n"), len-append out (e ++ "\n"))

cut-len : (t : String) → is_char_boundary t 65536 ≡ true → len (slice t 0 65536 ++ marker) ≡ 65552
cut-len t h = ground (arith, len-append (slice t 0 65536) marker)

-- The whole text within the budget, or the text cut at the budget with the marker behind it.
abbrev pub IsCut : String → String → Type 0
IsCut whole t = ((t ≡ whole) × (len t ≤ 65536)) ⊎ ((len t ≡ 65552) × (65536 < len whole))

module _ (e : String) (es : List String) (out t : String)
    (h : render_events (e ∷ es) out ≡ some t) where
  abbrev longer : String
  longer = out ++ e ++ "\n"

  rest_renders : leb (len longer) 65536 ≡ true → render_events es longer ≡ some t
  unfolding render_events
  rest_renders fits = ground (arith, fits, h)

  over-IsCut : leb (len longer) 65536 ≡ false → IsCut (with_events es longer) t
  unfolding render_events
  over-IsCut over = elim (Bool-cases (is_char_boundary longer 65536)) [
    | inl b ↦
        let made : t ≡ slice longer 0 65536 ++ marker = ground (arith, over, b, h) in
        inr (rw made (cut-len longer b), ground (arith, over, grows es longer))
    | inr n ↦ absurd (ground (arith, over, n, h))
  ]

events-IsCut :
    (es : List String) (out t : String)
    → render_events es out ≡ some t
    → len out ≤ 65536
    → IsCut (with_events es out) t
unfolding render_events with_events
events-IsCut [] out t h b =
    let same : t ≡ out = sym (some-injective out t h) in inl (same, rw same b)
events-IsCut (e ∷ es) out t h b = elim (Bool-cases (leb (len (out ++ e ++ "\n")) 65536)) [
  | inl fits ↦
      events-IsCut es (out ++ e ++ "\n") t (rest_renders e es out t h fits) (ground (arith, fits))
  | inr over ↦ over-IsCut e es out t h over
]

events-IsCut_any :
    (e : String) (es : List String) (out t : String)
    → render_events (e ∷ es) out ≡ some t
    → IsCut (with_events (e ∷ es) out) t
unfolding with_events
events-IsCut_any e es out t h = elim (Bool-cases (leb (len (out ++ e ++ "\n")) 65536)) [
  | inl fits ↦
      events-IsCut es (out ++ e ++ "\n") t (rest_renders e es out t h fits) (ground (arith, fits))
  | inr over ↦ over-IsCut e es out t h over
]

whole_events :
    (es : List String) (out : String)
    → len (with_events es out) ≤ 65536
    → render_events es out ≡ some (with_events es out)
unfolding render_events with_events
whole_events [] out b = refl
whole_events (e ∷ es) out b =
    ground (arith, grows es (out ++ e ++ "\n"), whole_events es (out ++ e ++ "\n"))

-- A capsule whose whole text is within the budget of 64 KB is that text.
pub render_capsule_whole :
    (digits : ℕ → String) (i : CapsuleInput) (head : String)
    → render_head digits i ≡ some head
    → len (with_events i.recent_events (head ++ "## RECENT EVENTS\n")) ≤ 65536
    → render_capsule digits i ≡ some (with_events i.recent_events (head ++ "## RECENT EVENTS\n"))
unfolding render_capsule
render_capsule_whole digits i head h b =
    rw (render_capsule, h) (whole_events i.recent_events (head ++ "## RECENT EVENTS\n") b)

-- The capsule of a project with events, where one is given, is the whole text, within the budget of 64
-- KB, or where the whole text is over the budget, a text of 65,552 bytes, which is 16 over it.
pub render_capsule_lem :
    (digits : ℕ → String) (i : CapsuleInput) (head t e : String) (es : List String)
    → i.recent_events ≡ e ∷ es
    → render_head digits i ≡ some head
    → render_capsule digits i ≡ some t
    → IsCut (with_events (e ∷ es) (head ++ "## RECENT EVENTS\n")) t
unfolding render_capsule
render_capsule_lem digits i head t e es q h k =
    events-IsCut_any e es (head ++ "## RECENT EVENTS\n") t (rw q at (rw (render_capsule, h) at k))
