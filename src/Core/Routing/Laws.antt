-- ===== src/Core/Routing/Laws.antt =====
-- How the tier of an agent depends on its role and on the complexity.
use anti_subagent.Prelude.{ℕ, ◌≤◌, String, Bool, true, false, ◌≡◌, arith, if◌then◌else◌}
use anti_subagent.Core.Model.{Role, peer, Disposition}
use anti_subagent.Core.Routing.{
  CapabilityTier, lightweight, standard, heavyweight, Complexity, low, medium, high, ProviderConfig,
  resolve, resolve_route, resolve_peer_route,
}

abbrev pub tier_rank : CapabilityTier → ℕ
tier_rank lightweight = 0
tier_rank standard = 1
tier_rank heavyweight = 2

abbrev pub complexity_rank : Complexity → ℕ
complexity_rank low = 0
complexity_rank medium = 1
complexity_rank high = 2

abbrev pub is_peer : Role → Bool
is_peer peer = true
is_peer _ = false

-- A supervisor or a lead has the highest tier whatever its disposition and the complexity; a peer's tier
-- does not sink as the complexity grows; and the model of a route is the one that the provider is
-- configured with for the tier of the route. The second complexity is at least the first.
pub resolve_route_lem :
    (r : Role) (d : Disposition) (c c' : Complexity) (config : ProviderConfig) (p : String)
    → complexity_rank c ≤ complexity_rank c'
    → (tier_rank (resolve_route r d c config p).capability
        ≡ (if is_peer r then tier_rank (resolve_peer_route d c config p).capability else 2))
      × (tier_rank (resolve_peer_route d c config p).capability
          ≤ tier_rank (resolve_peer_route d c' config p).capability)
      × ((resolve_route r d c config p).model
          ≡ resolve config p (resolve_route r d c config p).capability)
unfolding resolve_route resolve_peer_route
resolve_route_lem r d c c' config p h = ground arith
