-- ===== src/Controller/Redis/Published.antt =====
-- The connection details of a Redis instance, key by key.
use provider_alibaba.Base.{String, ◌≡◌, arith, Option, none, some, ◌==◌, eq_iff, if◌then◌else◌}
use provider_alibaba.Base.Dict.{lookup}
use provider_alibaba.Crossplane.{Runtime, IsDocumented}
use provider_alibaba.Apis.Redis.{RedisInstance}
use provider_alibaba.Clients.Redis.{DbInstance}
use provider_alibaba.Controller.Redis.{get_connection_details}

abbrev pub unless_empty : String → Option String
unless_empty s = if s == "" then none else some s

module _ {W : Type 0} (R : Runtime W) (D : IsDocumented R) where
  -- With the documented runtime, whose four keys differ, the connection details of a Redis instance
  -- hold the master user, or the instance id where there is none; the password, if there is one;
  -- and the address and the port of the endpoint, if there is one.
  pub get_connection_details-lookup :
      (password : String) (cr : RedisInstance) (i : DbInstance)
      → let cd = get_connection_details R password cr i in
        let user = cr.for_provider.master_username in
        (lookup R.user_key cd ≡ some (if user == "" then i.id else user))
        × (lookup R.password_key cd ≡ unless_empty password)
        × (lookup R.endpoint_key cd ≡ elim i.endpoint [ none ↦ none | some e ↦ some e.address ])
        × (lookup R.port_key cd ≡ elim i.endpoint [ none ↦ none | some e ↦ some e.port ])
  unfolding get_connection_details
  get_connection_details-lookup password cr i = ground (
    arith,
    eq_iff R.user_key R.password_key,
    eq_iff R.user_key R.endpoint_key,
    eq_iff R.user_key R.port_key,
    eq_iff R.password_key R.user_key,
    eq_iff R.password_key R.endpoint_key,
    eq_iff R.password_key R.port_key,
    eq_iff R.endpoint_key R.port_key,
    eq_iff R.endpoint_key R.user_key,
    eq_iff R.endpoint_key R.password_key,
    eq_iff R.port_key R.user_key,
    eq_iff R.port_key R.password_key,
    eq_iff R.port_key R.endpoint_key,
    eq_iff R.user_key R.user_key,
    eq_iff R.password_key R.password_key,
    eq_iff R.endpoint_key R.endpoint_key,
    eq_iff R.port_key R.port_key,
    D.user-ne-password,
    D.user-ne-endpoint,
    D.user-ne-port,
    D.password-ne-endpoint,
    D.password-ne-port,
    D.endpoint-ne-port,
  )
