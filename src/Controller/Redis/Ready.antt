-- ===== src/Controller/Redis/Ready.antt =====
-- The two steps of pkg/controller/redis/redis_instance.go that make a running instance usable: the
-- connection and the account.
pub mod Frame
use provider_alibaba.Base.{String, ◌<>◌, Bool, true, false, ◌||◌, none, some, ◌==◌, if◌then◌else◌}
use provider_alibaba.Base.Int.{pos, eqb_ℤ}
use provider_alibaba.Base.Decimal.{itoa}
use provider_alibaba.Go.{
  Err, as_sdk_error, M, value, error, pure, fail, attempt, ◌>>=◌, ◌>>◌, Env, get_cr, update_cr,
  call,
}
use provider_alibaba.Crossplane.{Runtime}
use provider_alibaba.Apis.Redis.{RedisInstance}
use provider_alibaba.Clients.Redis.{Client, public_connection_domain}

abbrev pub err_duplicate_connection_port : String
err_duplicate_connection_port = "InvalidConnectionStringOrPort.Duplicate"

abbrev pub err_account_name_duplicate : String
err_account_name_duplicate = "InvalidAccountName.Duplicate"

abbrev pub net_type_exists : String
net_type_exists = "NetTypeExists"

abbrev pub default_redis_port : String
default_redis_port = "6379"

abbrev pub private_connection_domain : String
private_connection_domain = ".redis.rds.aliyuncs.com"

-- `cr.Status.AtProvider.ConnectionReady = true`, and the same for `AccountReady`.
abbrev pub set_connection_ready : RedisInstance → RedisInstance
set_connection_ready cr = record cr {
  at_provider = record cr.at_provider { connection_ready = true };
}

abbrev pub set_account_ready : RedisInstance → RedisInstance
set_account_ready cr = record cr { at_provider = record cr.at_provider { account_ready = true } }

-- `errors.As(err, &sdkerr)` and a test of the code.
abbrev pub has_code : (String → Bool) → Err → Bool
has_code test e = elim (as_sdk_error e) [ some code ↦ test code | none ↦ false ]

module _ {W : Type 0} (c : Client W) where
  unfoldable pub create_private_connection_if_needed : M (Env RedisInstance W) (String × String)
  create_private_connection_if_needed = do
    cr ← get_cr
    let domain = cr.at_provider.db_instance_id <> private_connection_domain
    let port = itoa cr.for_provider.instance_port
    if eqb_ℤ cr.for_provider.instance_port (pos 0)
        then pure (domain, default_redis_port)
        else if cr.at_provider.connection_ready
        then pure (domain, port)
        else do
          made ← attempt (
              call (
                c.modify_db_instance_connection_string cr.at_provider.db_instance_id
                  cr.for_provider.instance_port))
          elim made [
            | value connection_domain ↦
                update_cr set_connection_ready >> pure (connection_domain, port)
            | error e ↦
                if has_code (λ code. code == err_duplicate_connection_port) e
                then update_cr set_connection_ready >> pure (domain, port)
                else fail e
          ]

  unfoldable pub create_public_connection_if_needed : M (Env RedisInstance W) (String × String)
  create_public_connection_if_needed = do
    cr ← get_cr
    let domain = cr.at_provider.db_instance_id <> public_connection_domain
    let port =
        if eqb_ℤ cr.for_provider.instance_port (pos 0)
        then default_redis_port
        else itoa cr.for_provider.instance_port
    if cr.at_provider.connection_ready then pure (domain, "") else do
      made ← attempt (
          call (
            c.allocate_instance_public_connection cr.at_provider.db_instance_id
              cr.for_provider.instance_port))
      elim made [
        | value _ ↦ update_cr set_connection_ready >> pure (domain, port)
        | error e ↦
            if has_code
              (λ code. (code == err_duplicate_connection_port) || (code == net_type_exists)) e
            then update_cr set_connection_ready >> pure (domain, port)
            else fail e
      ]

  unfoldable pub create_connection_if_needed : M (Env RedisInstance W) (String × String)
  create_connection_if_needed = do
    cr ← get_cr
    if cr.for_provider.publicly_accessible
        then create_public_connection_if_needed
        else create_private_connection_if_needed

  unfoldable pub create_account_if_needed : Runtime W → M (Env RedisInstance W) String
  create_account_if_needed R = do
    cr ← get_cr
    if cr.at_provider.account_ready then pure "" else do
      pw ← call R.generate_password
      if cr.for_provider.master_username == "" then pure pw else do
        made ← attempt (
            call
              (c.create_account cr.at_provider.db_instance_id cr.for_provider.master_username pw))
        elim made [
          | value _ ↦ update_cr set_account_ready >> pure pw
          | error e ↦
              if has_code (λ code. code == err_account_name_duplicate) e
              then update_cr set_account_ready >> pure ""
              else fail e
        ]
