-- ===== src/Core/Governance/Council.antt =====
-- The verdict of the council.
use Prim.Native.String
use anti_subagent.Prelude.{
  ℕ, ◌+◌, ◌*◌, ◌≤◌, ◌<◌, String, not, ◌≡◌, ◌⊎◌, inl, inr, List, [], ◌∷◌, map, arith, leb, length,
  length-take, retain, Bool-cases,
}
use anti_subagent.Core.Governance.{
  Proposition, accepted, needs_revision, has_evidence, looked_at, council_deliberation,
}

pub evidenced : List Proposition → ℕ
evidenced ps = length (retain has_evidence ps)

evidence_split :
    (ps : List Proposition)
    → length (
          map
            (λ (p : Proposition). String.◌++◌ "Needs evidence: " p.claim)
            (retain (λ p. not (has_evidence p)) ps))
        + evidenced ps
      ≡ length ps
unfolding evidenced
evidence_split [] = omega arith
evidence_split (p ∷ ps) = ground (arith, evidence_split ps)

looked-length : (ps : List Proposition) → length (looked_at ps) ≤ 5
unfolding looked_at
looked-length ps = length-take 5 (retain (λ p. p.material) ps)

-- The council looks at five material propositions at most. It accepts where two thirds of them or more have
-- evidence, and else it asks for a revision, with one to five suggestions, one for each of them that has
-- none; it never rejects.
pub council_deliberation_lem :
    (ps : List Proposition)
    → ((council_deliberation ps ≡ accepted)
        × (length (looked_at ps) * 2 ≤ evidenced (looked_at ps) * 3))
      ⊎ ((ss : List String) × (council_deliberation ps ≡ needs_revision ss)
          × (evidenced (looked_at ps) * 3 < length (looked_at ps) * 2)
          × (1 ≤ length ss)
          × (length ss ≤ 5)
          × (length ss + evidenced (looked_at ps) ≡ length (looked_at ps)))
unfolding council_deliberation evidenced
council_deliberation_lem ps =
    let m = looked_at ps in
    let ss =
      map (λ (p : Proposition). String.◌++◌ "Needs evidence: " p.claim)
        (retain (λ p. not (has_evidence p)) m) in
    elim (Bool-cases (leb (length m * 2) (evidenced m * 3))) [
      | inl y ↦ inl (ground (arith, y), ground (arith, y))
      | inr n ↦ inr (
        ss,
        ground (arith, n),
        ground (arith, n),
        ground (arith, n, evidence_split m),
        ground (arith, evidence_split m, looked-length ps),
        evidence_split m,
      )
    ]
