-- ===== src/Controller/Redis/Connection.antt =====
-- The connection and the account of a running instance: retries are harmless, and success is
-- remembered.
use provider_alibaba.Base.{String, ◌<>◌, true, false, ◌≡◌, ◌≢◌, ◌⊎◌, arith, some, eq_iff}
use provider_alibaba.Base.Int.{pos, eqb_ℤ_iff}
use provider_alibaba.Base.Decimal.{itoa}
use provider_alibaba.Go.{Env, ok, err, Err, as_sdk_error}
use provider_alibaba.Crossplane.{Runtime}
use provider_alibaba.Apis.Redis.{RedisInstance}
use provider_alibaba.Clients.Redis.{Client}
use provider_alibaba.Controller.Redis.{
  create_private_connection_if_needed, create_public_connection_if_needed,
  create_connection_if_needed, create_account_if_needed, set_connection_ready,
  private_connection_domain, err_duplicate_connection_port,
}

-- A private instance on the default port needs no connection to be made.
abbrev pub NeedsConnection : RedisInstance → Type 0
NeedsConnection cr =
    (cr.for_provider.publicly_accessible ≡ true) ⊎ (cr.for_provider.instance_port ≢ pos 0)

module _ {W : Type 0} (c : Client W) where
  -- Where a Redis instance is public or has a port of its own, and createConnectionIfNeeded
  -- succeeds, the status says afterwards that the connection is ready, and a second call leaves the
  -- resource and the world as they are.
  pub create_connection_if_needed-twice :
      (s : Env RedisInstance W) {r : String × String}
      → NeedsConnection s.cr
      → (create_connection_if_needed c s).0 ≡ ok r
      → let t = (create_connection_if_needed c s).1 in
        (t.cr.at_provider.connection_ready ≡ true) × ((create_connection_if_needed c t).1 ≡ t)
  unfolding create_connection_if_needed create_private_connection_if_needed
      create_public_connection_if_needed
  create_connection_if_needed-twice s needed h =
      ground (arith, eqb_ℤ_iff s.cr.for_provider.instance_port (pos 0))

  -- A failed attempt leaves the resource as it was, so that the next reconciliation tries again.
  pub create_connection_if_needed-failed :
      (s : Env RedisInstance W) {e : Err}
      → (create_connection_if_needed c s).0 ≡ err e
      → (create_connection_if_needed c s).1.cr ≡ s.cr
  unfolding create_connection_if_needed create_private_connection_if_needed
      create_public_connection_if_needed
  create_connection_if_needed-failed s h = ground arith

  -- A private connection that was made before, without an answer, is taken as made.
  pub create_private_connection_if_needed-duplicate :
      (s : Env RedisInstance W) {e : Err} {w : W}
      → s.cr.for_provider.instance_port ≢ pos 0
      → s.cr.at_provider.connection_ready ≡ false
      → c.modify_db_instance_connection_string s.cr.at_provider.db_instance_id
          s.cr.for_provider.instance_port s.world
        ≡ (err e, w)
      → as_sdk_error e ≡ some err_duplicate_connection_port
      → create_private_connection_if_needed c s ≡ (
        ok (
          s.cr.at_provider.db_instance_id <> private_connection_domain,
          itoa s.cr.for_provider.instance_port,
        ),
        record { cr = set_connection_ready s.cr; world = w },
      )
  unfolding create_private_connection_if_needed
  create_private_connection_if_needed-duplicate s port unready failed code =
      ground (arith, eqb_ℤ_iff s.cr.for_provider.instance_port (pos 0))

  -- Where createAccountIfNeeded succeeds for a Redis instance with a user name, a second call
  -- leaves the resource and the world as they are and gives no password.
  pub create_account_if_needed-twice :
      (R : Runtime W) (s : Env RedisInstance W) {pw : String}
      → s.cr.for_provider.master_username ≢ ""
      → (create_account_if_needed c R s).0 ≡ ok pw
      → let t = (create_account_if_needed c R s).1 in create_account_if_needed c R t ≡ (ok "", t)
  unfolding create_account_if_needed
  create_account_if_needed-twice R s named h =
      ground (arith, eq_iff s.cr.for_provider.master_username "")
