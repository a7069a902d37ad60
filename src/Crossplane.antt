-- ===== src/Crossplane.antt =====
-- What the controllers share with crossplane-runtime, which is not part of this repository: the
-- shape of a managed resource, the values that the handlers return, and the library calls.
pub mod Handler
pub mod Frame
pub mod Answer
use provider_alibaba.Base.{String, Bool, true, false, Option, none, List, [], ◌∷◌, ◌≡◌, ◌≢◌}
use provider_alibaba.Base.Dict.{Dict}
use provider_alibaba.Go.{M, Err}

-- `xpv1.Available()`, `Creating()`, `Deleting()`, `Unavailable()`.
pub data Condition : Type 0 where
  available creating deleting unavailable : Condition

-- A custom resource, with the parts that the provider reads and writes. `P` is the type of
-- `Spec.ForProvider` (or of the parameters that `Spec` inlines) and `O` that of
-- `Status.AtProvider`.
pub record Resource (P O : Type 0) : Type 0 where
  -- `TypeMeta.Kind`
  pub kind : String
  -- `ObjectMeta.Name`
  pub name : String
  -- what `meta.GetExternalName` reads from the annotations
  pub external_name : String
  -- the name in `Spec.ProviderConfigReference`, which may be nil
  pub provider_config_reference : Option String
  pub for_provider : P
  pub at_provider : O
  -- the conditions handed to `SetConditions` so far, the latest first
  pub conditions : List Condition

module _ {P O : Type 0} where
  abbrev pub set_conditions : Condition → Resource P O → Resource P O
  set_conditions c cr = record cr { conditions = c ∷ cr.conditions }

  abbrev pub set_at_provider : O → Resource P O → Resource P O
  set_at_provider o cr = record cr { at_provider = o }

abbrev pub ConnectionDetails : Type 0
ConnectionDetails = Dict String

-- `managed.ExternalObservation`
pub record ExternalObservation : Type 0 where
  pub resource_exists : Bool
  pub resource_up_to_date : Bool
  pub connection_details : ConnectionDetails

abbrev pub no_observation : ExternalObservation
no_observation = record {
  resource_exists = false;
  resource_up_to_date = false;
  connection_details = [];
}

-- `managed.ExternalCreation`
pub record ExternalCreation : Type 0 where
  pub connection_details : ConnectionDetails

abbrev pub no_creation : ExternalCreation
no_creation = record { connection_details = [] }

-- The library functions that the controllers call.
pub record Runtime (W : Type 0) : Type 0 where
  -- `resource.Ignore`
  pub ignore : (Option Err → Bool) → Option Err → Option Err
  -- `password.Generate`
  pub generate_password : M W String
  -- `xpv1.ResourceCredentialsSecretUserKey`, `…PasswordKey`, `…EndpointKey` and `…PortKey`
  pub user_key : String
  pub password_key : String
  pub endpoint_key : String
  pub port_key : String

-- `resource.Ignore` returns nil for an error that satisfies the test, and any other unchanged. The
-- four keys are different strings.
pub record IsDocumented {W : Type 0} (R : Runtime W) : Type 0 where
  pub ignore_accepted :
      (is : Option Err → Bool) (e : Option Err) → is e ≡ true → R.ignore is e ≡ none
  pub ignore_rejected : (is : Option Err → Bool) (e : Option Err) → is e ≡ false → R.ignore is e ≡ e
  pub user-ne-password : R.user_key ≢ R.password_key
  pub user-ne-endpoint : R.user_key ≢ R.endpoint_key
  pub user-ne-port : R.user_key ≢ R.port_key
  pub password-ne-endpoint : R.password_key ≢ R.endpoint_key
  pub password-ne-port : R.password_key ≢ R.port_key
  pub endpoint-ne-port : R.endpoint_key ≢ R.port_key
