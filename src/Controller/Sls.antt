-- ===== src/Controller/Sls.antt =====
-- pkg/controller/sls: what its six controllers share, which have the same connector but for its name.
pub mod Project
pub mod Store
pub mod Logtail
pub mod Index
pub mod MachineGroup
pub mod MachineGroupBinding
pub mod Connect
pub mod Frame
pub mod Observed
pub mod Laws
use provider_alibaba.Base.{String, Bool, true, false, []}
use provider_alibaba.Crossplane.{Resource, ExternalObservation, available, set_conditions}
use provider_alibaba.Util.Kube.{Kube}
use provider_alibaba.Clients.Sls.{Client}

-- `NewClientFn` takes the key, the secret, the token and a fourth text, and cannot fail.
pub record Connector (W : Type 0) : Type 0 where
  pub kube : Kube W
  pub new_client_fn : String → String → String → String → Client W

-- What `Observe` reports where the service says that the resource does not exist.
abbrev pub missing : ExternalObservation
missing = record { resource_exists = false; resource_up_to_date = true; connection_details = [] }

abbrev pub if_available : {P O : Type 0} → Bool → Resource P O → Resource P O
if_available true cr = set_conditions available cr
if_available false cr = cr
