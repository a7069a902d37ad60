-- ===== src/Controller/Redis/Change.antt =====
-- What `Create`, `Update` and `Delete` ask of the service, and what they leave in the status.
use provider_alibaba.Base.{String, ◌≡◌, ◌≢◌, arith, none, some, ◌==◌, eq_iff, if◌then◌else◌}
use provider_alibaba.Go.{Env, Outcome, ok, err, panic, wrap}
use provider_alibaba.Crossplane.{
  Runtime, IsDocumented, no_creation, creating, deleting, set_conditions,
}
use provider_alibaba.Crossplane.Answer.{forgiving}
use provider_alibaba.Apis.Redis.{RedisInstance}
use provider_alibaba.Clients.Redis.{Client, is_error_not_found, make_create_db_instance_request}
use provider_alibaba.Controller.Redis.{
  create_cr, delete_cr, err_create_failed, err_delete_failed, get_connection_details,
}

-- The status with an instance id.
abbrev pub with_id : String → RedisInstance → RedisInstance
with_id id cr = record cr { at_provider = record cr.at_provider { db_instance_id = id } }

module _ {W : Type 0} (c : Client W) (R : Runtime W) where
  -- `Create` asks for no second instance while the first is being created: it changes the condition
  -- and nothing else.
  pub create_cr-creating :
      (s : Env RedisInstance W)
      → s.cr.at_provider.db_instance_status ≡ "Creating"
      → create_cr c R s ≡ (ok no_creation, record s { cr = set_conditions creating s.cr })
  unfolding create_cr
  create_cr-creating s h = ground (arith, eq_iff s.cr.at_provider.db_instance_status "Creating")

  -- `Create` of a Redis instance whose status is not Creating makes one request, from the external
  -- name and the parameters. A success records the new id and returns the details of the new
  -- instance; a failure is wrapped, and leaves the id.
  pub create_cr-requested :
      (s : Env RedisInstance W)
      → s.cr.at_provider.db_instance_status ≢ "Creating"
      → let cr = set_conditions creating s.cr in
        let (r, w) =
          c.create_db_instance
            (make_create_db_instance_request s.cr.external_name s.cr.for_provider)
            s.world in
        create_cr c R s ≡ elim r [
          | ok i ↦ (
            ok (record { connection_details = get_connection_details R "" (with_id i.id cr) i }),
            record { cr = with_id i.id cr; world = w },
          )
          | err e ↦ (err (wrap err_create_failed e), record { cr = cr; world = w })
          | panic ↦ (panic, record { cr = cr; world = w })
        ]
  unfolding create_cr
  create_cr-requested s h = ground (arith, eq_iff s.cr.at_provider.db_instance_status "Creating")

  -- With the documented runtime: `Delete` makes no request for a Redis instance that is being
  -- deleted. Otherwise it asks once, by the id of the status, and an instance that is gone already
  -- counts as deleted.
  pub delete_cr_lem :
      IsDocumented R
      → (s : Env RedisInstance W) (r : Outcome (Unit {0})) {w : W}
      → c.delete_db_instance s.cr.at_provider.db_instance_id s.world ≡ (r, w)
      → let cr = set_conditions deleting s.cr in
        delete_cr c R s ≡ (
          if s.cr.at_provider.db_instance_status == "Flushing"
          then (ok tt, record s { cr = cr })
          else (forgiving is_error_not_found err_delete_failed r, record { cr = cr; world = w }))
  unfolding delete_cr is_error_not_found
  delete_cr_lem D s (ok _) asked = ground (arith, D.ignore_rejected is_error_not_found none)
  delete_cr_lem D s (err e) asked = ground (
    arith,
    D.ignore_accepted is_error_not_found (some e),
    D.ignore_rejected is_error_not_found (some e),
  )
  delete_cr_lem D s panic asked = ground arith
