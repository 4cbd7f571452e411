-- ===== src/Core/InfoFilter/Leaks.antt =====
-- Which paths are renamed, and which still show the hierarchy.
use Prim.Native.String.{String, ◌++◌}
use text.Mathlib.TextLemmas.{nil-append, cons-append}
use anti_subagent.Prelude.{
  ℕ, true, ◌||◌, not, ◌≡◌, refl, ap, List, [], ◌∷◌, arith, any, if◌then◌else◌,
}
use mathlib.Core.List
use anti_subagent.Prelude.Text.{codes, is_prefix, is_infix, contains}
use anti_subagent.Core.InfoFilter.{
  path_text, has_hierarchy_keywords, renamed, sanitize_workspace_path,
}

codes-append : (s t : String) → codes (s ++ t) ≡ List.◌++◌ (codes s) (codes t)
codes-append String.[] t = rw (nil-append t) refl
codes-append (String.◌∷◌ c s) t = rw (cons-append c s t, codes-append s t) refl

prefix-append : (p a b : List ℕ) → is_prefix p a ≡ true → is_prefix p (List.◌++◌ a b) ≡ true
prefix-append [] a b h = refl
prefix-append (x ∷ p) [] b h = absurd (cc h)
prefix-append (x ∷ p) (y ∷ a) b h = ground (arith, prefix-append p a b)

infix_nil : (p b : List ℕ) → is_prefix p [] ≡ true → is_infix p b ≡ true
infix_nil [] [] h = refl
infix_nil [] (y ∷ b) h = refl
infix_nil (x ∷ p) b h = absurd (cc h)

infix-append_left : (p a b : List ℕ) → is_infix p a ≡ true → is_infix p (List.◌++◌ a b) ≡ true
infix-append_left p [] b h = infix_nil p b h
infix-append_left p (y ∷ a) b h = ground (arith, infix-append_left p a b, prefix-append p (y ∷ a) b)

infix-append_right : (p a b : List ℕ) → is_infix p b ≡ true → is_infix p (List.◌++◌ a b) ≡ true
infix-append_right p [] b h = h
infix-append_right p (y ∷ a) b h = ground (arith, infix-append_right p a b)

contains-append_left : (s t k : String) → contains s k ≡ true → contains (s ++ t) k ≡ true
contains-append_left s t k h =
    rw (codes-append s t) (infix-append_left (codes k) (codes s) (codes t) h)

contains-append_right : (s t k : String) → contains t k ≡ true → contains (s ++ t) k ≡ true
contains-append_right s t k h =
    rw (codes-append s t) (infix-append_right (codes k) (codes s) (codes t) h)

-- The words that give a hierarchy away.
abbrev pub hierarchy_words : List String
hierarchy_words =
    "lead" ∷ "peer" ∷ "supervisor" ∷ "engineer" ∷ "reviewer" ∷ "architect" ∷ "scout" ∷ []

renamed-append :
    (name last : String) (dirs : List String)
    → renamed name (List.◌++◌ dirs (last ∷ [])) ≡ List.◌++◌ dirs (name ∷ [])
unfolding renamed
renamed-append name last [] = refl
renamed-append name last (c ∷ []) = refl
renamed-append name last (c ∷ d ∷ cs) = ap (λ rest. c ∷ rest) (renamed-append name last (d ∷ cs))

text_shows :
    (k : String) (dirs rest : List String)
    → any (λ d. contains d k) dirs ≡ true
    → contains (path_text (List.◌++◌ dirs rest)) k ≡ true
unfolding path_text
text_shows k [] rest h = absurd (cc h)
text_shows k (c ∷ cs) rest h =
    let more = path_text (List.◌++◌ cs rest) in
    contains-append_right "/" (c ++ more) k (
      ground (
        arith,
        h,
        contains-append_left c more k,
        contains-append_right c more k,
        text_shows k cs rest,
      ))

mentions : (t : String) → has_hierarchy_keywords t ≡ any (contains t) hierarchy_words
unfolding has_hierarchy_keywords
mentions t = ground arith

-- A path whose text has one of the seven words keeps all its components but the last, which becomes w- with the
-- hash of the path, and any other path is as it was. So a text that a component above the last contains is
-- contained in the sanitized path too.
pub sanitize_workspace_path_lem :
    (hash : List String → String) (k last : String) (dirs : List String)
    → let path = List.◌++◌ dirs (last ∷ []) in
      (sanitize_workspace_path hash path ≡ (
        if any (contains (path_text path)) hierarchy_words
        then List.◌++◌ dirs (("w-" ++ hash path) ∷ [])
        else path))
      × ((not (any (λ d. contains d k) dirs)
            || contains (path_text (sanitize_workspace_path hash path)) k)
          ≡ true)
unfolding sanitize_workspace_path
sanitize_workspace_path_lem hash k last dirs =
    let path = List.◌++◌ dirs (last ∷ []) in
    let name = "w-" ++ hash path in
    (
      ground (arith, mentions (path_text path), renamed-append name last dirs),
      ground (
        arith,
        renamed-append name last dirs,
        text_shows k dirs (last ∷ []),
        text_shows k dirs (name ∷ []),
      ),
    )
