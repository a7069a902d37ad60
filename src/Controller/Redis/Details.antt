-- ===== src/Controller/Redis/Details.antt =====
-- `getConnectionDetails` of pkg/controller/redis/redis_instance.go.
use provider_alibaba.Base.{String, ◌==◌, Option, none, some, [], ◌∷◌, if◌then◌else◌}
use provider_alibaba.Base.Dict.{insert}
use provider_alibaba.Crossplane.{ConnectionDetails, Runtime}
use provider_alibaba.Apis.Redis.{RedisInstance, Endpoint}
use provider_alibaba.Clients.Redis.{DbInstance}

module _ {W : Type 0} (R : Runtime W) where
  abbrev with_endpoint : Option Endpoint → ConnectionDetails → ConnectionDetails
  with_endpoint none cd = cd
  with_endpoint (some e) cd = insert R.port_key e.port (insert R.endpoint_key e.address cd)

  unfoldable pub get_connection_details : String → RedisInstance → DbInstance → ConnectionDetails
  get_connection_details password cr instance =
      let start : ConnectionDetails = (R.user_key, instance.id) ∷ [] in
      let named =
        if cr.for_provider.master_username == ""
        then start
        else insert R.user_key cr.for_provider.master_username start in
      with_endpoint instance.endpoint
        (if password == "" then named else insert R.password_key password named)
