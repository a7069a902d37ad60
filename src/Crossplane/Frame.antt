-- ===== src/Crossplane/Frame.antt =====
-- The part of a resource that the user owns: its metadata and its desired state.
use provider_alibaba.Base.{◌≡◌, arith}
use provider_alibaba.Crossplane.{Resource}

-- Status and conditions apart, two states of a resource agree.
pub record SameSpec {P O : Type 0} (a b : Resource P O) : Type 0 where
  pub kind_same : a.kind ≡ b.kind
  pub name_same : a.name ≡ b.name
  pub external_name_same : a.external_name ≡ b.external_name
  pub reference_same : a.provider_config_reference ≡ b.provider_config_reference
  pub for_provider_same : a.for_provider ≡ b.for_provider

pub SameSpec-refl : {P O : Type 0} (a : Resource P O) → SameSpec a a
SameSpec-refl a = ground arith

pub SameSpec-trans :
    {P O : Type 0} {a b c : Resource P O} → SameSpec a b → SameSpec b c → SameSpec a c
SameSpec-trans p q = ground arith
