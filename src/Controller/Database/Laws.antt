-- ===== src/Controller/Database/Laws.antt =====
-- What the RDS handlers report, ask for and leave behind.
use provider_alibaba.Base.{
  String, Bool, true, ◌≡◌, ◌≢◌, arith, none, some, ◌∷◌, ◌==◌, eq_iff, if◌then◌else◌,
}
use provider_alibaba.Go.{Env, Outcome, ok, err, panic, Err, wrap, as_sdk_error}
use provider_alibaba.Crossplane.{Runtime, IsDocumented, no_creation, available, unavailable}
use provider_alibaba.Crossplane.Answer.{forgiving}
use provider_alibaba.Apis.Database.{RdsInstance}
use provider_alibaba.Clients.Rds.{
  Client, DbInstance, is_error_not_found, make_create_db_instance_request, generate_observation,
}
use provider_alibaba.Controller.Database.{
  with_id, get_connection_details, create_account_if_needed, observe_status, observe_described,
  observe_cr, create_cr, delete_cr, err_create_failed, err_delete_failed,
  err_account_name_duplicate,
}

abbrev pub with_flag : Bool → RdsInstance → RdsInstance
with_flag ready cr = record cr { at_provider = record cr.at_provider { account_ready = ready } }

module _ {W : Type 0} (c : Client W) (R : Runtime W) where
  -- `Observe` never reads the ready flag of the status of an RDS instance: whatever it is, it
  -- returns the same and leaves the same world.
  pub observe_cr-with_flag :
      (ready : Bool) (cr : RdsInstance) (w : W)
      → let t = observe_cr c R (record { cr = with_flag ready cr; world = w }) in
        let s = observe_cr c R (record { cr = cr; world = w }) in
        (t.0 ≡ s.0) × (t.1.world ≡ s.1.world)
  unfolding observe_cr observe_described
  observe_cr-with_flag ready cr w = ground arith

  -- An observation of a described instance: available exactly when it is running, and otherwise
  -- unavailable, with no account and no password.
  pub observe_cr-idle :
      (s : Env RdsInstance W) {i : DbInstance} {w : W}
      → s.cr.at_provider.db_instance_id ≢ ""
      → c.describe_db_instance s.cr.at_provider.db_instance_id s.world ≡ (ok i, w)
      → i.status ≢ "Running"
      → let cr = record s.cr {
        at_provider = generate_observation i;
        conditions = unavailable ∷ s.cr.conditions;
      } in
        observe_cr c R s ≡ (
          ok (record {
            resource_exists = true;
            resource_up_to_date = true;
            connection_details = get_connection_details c R "" cr i;
          }),
          record { cr = cr; world = w },
        )
  unfolding observe_cr observe_described observe_status generate_observation
  observe_cr-idle s {i} created found idle =
      ground (arith, eq_iff s.cr.at_provider.db_instance_id "", eq_iff i.status "Running")

  -- Where a described RDS instance is running and its account exists already, `Observe` succeeds
  -- without a password, marks the account as ready and the instance as available.
  pub observe_cr-duplicate_account :
      (s : Env RdsInstance W) {i : DbInstance} {pw : String} {e : Err} {w w1 w2 : W}
      → s.cr.at_provider.db_instance_id ≢ ""
      → c.describe_db_instance s.cr.at_provider.db_instance_id s.world ≡ (ok i, w)
      → i.status ≡ "Running"
      → R.generate_password w ≡ (ok pw, w1)
      → c.create_account i.id s.cr.for_provider.master_username pw w1 ≡ (err e, w2)
      → as_sdk_error e ≡ some err_account_name_duplicate
      → let cr = record s.cr {
        at_provider = record {
          db_instance_status = i.status;
          db_instance_id = i.id;
          account_ready = true;
        };
        conditions = available ∷ s.cr.conditions;
      } in
        observe_cr c R s ≡ (
          ok (record {
            resource_exists = true;
            resource_up_to_date = true;
            connection_details = get_connection_details c R "" cr i;
          }),
          record { cr = cr; world = w2 },
        )
  unfolding observe_cr observe_described observe_status create_account_if_needed
      generate_observation
  observe_cr-duplicate_account s {i} created found running generated failed code =
      ground (arith, eq_iff s.cr.at_provider.db_instance_id "", eq_iff i.status "Running")

  -- `Create` asks for no second instance while the first is being created; otherwise it makes one
  -- request, and a success records the new id.
  pub create_cr_lem :
      (s : Env RdsInstance W) (r : Outcome DbInstance) {w : W}
      → c.create_db_instance
          (make_create_db_instance_request s.cr.external_name s.cr.for_provider)
          s.world
        ≡ (r, w)
      → create_cr c R s ≡ (
          if s.cr.at_provider.db_instance_status == "Creating"
          then (ok no_creation, s)
          else elim r [
            | ok i ↦ (
              ok (record {
                connection_details = get_connection_details c R "" (with_id i.id s.cr) i;
              }),
              record { cr = with_id i.id s.cr; world = w },
            )
            | err e ↦ (err (wrap err_create_failed e), record s { world = w })
            | panic ↦ (panic, record s { world = w })
          ])
  unfolding create_cr
  create_cr_lem s (ok i) asked = ground arith
  create_cr_lem s (err e) asked = ground arith
  create_cr_lem s panic asked = ground arith

  -- `Delete` makes no request for an instance that is being deleted. Otherwise it asks once, by the id
  -- of the status, and an instance that is gone already counts as deleted.
  pub delete_cr_lem :
      IsDocumented R
      → (s : Env RdsInstance W) (r : Outcome (Unit {0})) {w : W}
      → c.delete_db_instance s.cr.at_provider.db_instance_id s.world ≡ (r, w)
      → delete_cr c R s ≡ (
          if s.cr.at_provider.db_instance_status == "Deleting"
          then (ok tt, s)
          else (forgiving is_error_not_found err_delete_failed r, record s { world = w }))
  unfolding delete_cr is_error_not_found
  delete_cr_lem D s (ok _) asked = ground (arith, D.ignore_rejected is_error_not_found none)
  delete_cr_lem D s (err e) asked = ground (
    arith,
    D.ignore_accepted is_error_not_found (some e),
    D.ignore_rejected is_error_not_found (some e),
  )
  delete_cr_lem D s panic asked = ground arith
