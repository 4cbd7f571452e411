-- ===== src/Core/Routing.antt =====
-- The choice of a model for an agent (crates/anti-core/src/routing.rs). The map of the providers is a list
-- of its entries; what the crate toml parses is not modelled.
pub mod Laws
use anti_subagent.Prelude.{String, Option, none, some, List, [], ◌∷◌}
use anti_subagent.Prelude.Table.{find_row}
use anti_subagent.Core.Model.{
  Role, supervisor, lead, peer, Disposition, engineer, architect, reviewer, scout, proof_auditor,
  shadow,
}

pub data CapabilityTier : Type 0 where
  lightweight standard heavyweight : CapabilityTier

pub data Complexity : Type 0 where
  low medium high : Complexity

pub record ModelRoute : Type 0 where
  pub disposition : Disposition
  pub complexity : Complexity
  pub capability : CapabilityTier
  pub provider : String
  pub model : String

pub record ProviderTier : Type 0 where
  pub light_model : String
  pub standard_model : String
  pub heavy_model : String

pub record ProviderEntry : Type 0 where
  pub name : String
  pub tier : ProviderTier

pub record ProviderConfig : Type 0 where
  pub providers : List ProviderEntry

abbrev pub entry_name : ProviderEntry → String
entry_name e = e.name

abbrev pub model_of : CapabilityTier → ProviderTier → String
model_of lightweight t = t.light_model
model_of standard t = t.standard_model
model_of heavyweight t = t.heavy_model

-- `format!("unknown-provider-{:?}", capability)`.
abbrev pub unknown_provider : CapabilityTier → String
unknown_provider lightweight = "unknown-provider-Lightweight"
unknown_provider standard = "unknown-provider-Standard"
unknown_provider heavyweight = "unknown-provider-Heavyweight"

unfoldable pub resolve : ProviderConfig → String → CapabilityTier → String
resolve config provider capability = elim (find_row entry_name provider config.providers) [
  | none ↦ unknown_provider capability
  | some e ↦ model_of capability e.tier
]

unfoldable pub default_providers : ProviderConfig
default_providers = record {
  providers =
      record {
        name = "claude";
        tier = record { light_model = "haiku"; standard_model = "sonnet"; heavy_model = "opus" };
      }
      ∷ record {
        name = "codex";
        tier = record {
          light_model = "gpt-4o-mini";
          standard_model = "gpt-4o";
          heavy_model = "o3";
        };
      }
      ∷ [];
}

abbrev pub peer_tier : Disposition → Complexity → CapabilityTier
peer_tier scout c = lightweight
peer_tier shadow c = lightweight
peer_tier engineer low = standard
peer_tier engineer high = heavyweight
peer_tier engineer medium = standard
peer_tier proof_auditor c = heavyweight
peer_tier reviewer c = standard
peer_tier architect c = standard

abbrev pub tier_for : Role → Disposition → Complexity → CapabilityTier
tier_for supervisor d c = heavyweight
tier_for lead d c = heavyweight
tier_for peer d c = peer_tier d c

unfoldable pub resolve_route :
    Role → Disposition → Complexity → ProviderConfig → String → ModelRoute
resolve_route role disposition complexity config default_provider = record {
  disposition = disposition;
  complexity = complexity;
  capability = tier_for role disposition complexity;
  provider = default_provider;
  model = resolve config default_provider (tier_for role disposition complexity);
}

unfoldable pub resolve_peer_route : Disposition → Complexity → ProviderConfig → String → ModelRoute
resolve_peer_route disposition complexity config default_provider =
    resolve_route peer disposition complexity config default_provider
