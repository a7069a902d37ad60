-- ===== src/Controller/Database/Running.antt =====
-- What `Observe` of pkg/controller/database does with an instance that runs: it makes the account.
use provider_alibaba.Base.{
  String, Bool, true, false, ◌≡◌, ◌≢◌, arith, Option, none, some, ◌∷◌, ◌==◌, eq_iff, if◌then◌else◌,
}
use provider_alibaba.Go.{Env, Outcome, ok, err, panic, wrap, as_sdk_error}
use provider_alibaba.Crossplane.{Runtime, ExternalObservation, available}
use provider_alibaba.Apis.Database.{RdsInstance}
use provider_alibaba.Clients.Rds.{Client, DbInstance, generate_observation}
use provider_alibaba.Controller.Database.{
  get_connection_details, create_account_if_needed, observe_status, observe_described, observe_cr,
  err_create_account_failed, err_account_name_duplicate,
}

-- The resource after an instance has been found running.
unfoldable pub running : Bool → DbInstance → RdsInstance → RdsInstance
running ready i cr = record cr {
  at_provider = record {
    db_instance_status = i.status;
    db_instance_id = i.id;
    account_ready = ready;
  };
  conditions = available ∷ cr.conditions;
}

-- The account exists already.
unfoldable pub is_duplicate : Option String → Bool
is_duplicate none = false
is_duplicate (some code) = code == err_account_name_duplicate

module _ {W : Type 0} (c : Client W) (R : Runtime W) where
  -- What `Observe` reports of an instance, with a password or none.
  unfoldable pub observed : String → DbInstance → RdsInstance → ExternalObservation
  observed pw i cr = record {
    resource_exists = true;
    resource_up_to_date = true;
    connection_details = get_connection_details c R pw cr i;
  }

  -- `Observe` of an RDS instance with a recorded id that is described as running, where a password
  -- is made, by what the request for the account comes to: where it succeeds, the details are those
  -- with this password, and where the account exists already, those without one, and in both cases
  -- the instance is available, up to date and marked as having its account; any other error is
  -- wrapped and returned and a panic is passed on, with the instance available and not marked.
  pub observe_cr-running :
      (s : Env RdsInstance W) {i : DbInstance} {pw : String} {w w1 w2 : W} (r : Outcome (Unit {0}))
      → s.cr.at_provider.db_instance_id ≢ ""
      → c.describe_db_instance s.cr.at_provider.db_instance_id s.world ≡ (ok i, w)
      → i.status ≡ "Running"
      → R.generate_password w ≡ (ok pw, w1)
      → c.create_account i.id s.cr.for_provider.master_username pw w1 ≡ (r, w2)
      → observe_cr c R s ≡ elim r [
        | ok _ ↦ (
          ok (observed pw i (running true i s.cr)),
          record { cr = running true i s.cr; world = w2 },
        )
        | err e ↦
            if is_duplicate (as_sdk_error e)
            then (
              ok (observed "" i (running true i s.cr)),
              record { cr = running true i s.cr; world = w2 },
            )
            else (
              err (wrap err_create_account_failed e),
              record { cr = running false i s.cr; world = w2 },
            )
        | panic ↦ (panic, record { cr = running false i s.cr; world = w2 })
      ]
  unfolding observe_cr observe_described observe_status create_account_if_needed
      generate_observation is_duplicate running observed
  observe_cr-running s {i} (ok _) created found runs generated made =
      ground (arith, eq_iff s.cr.at_provider.db_instance_id "", eq_iff i.status "Running")
  observe_cr-running s {i} (err e) created found runs generated made =
      ground (arith, eq_iff s.cr.at_provider.db_instance_id "", eq_iff i.status "Running")
  observe_cr-running s {i} panic created found runs generated made =
      ground (arith, eq_iff s.cr.at_provider.db_instance_id "", eq_iff i.status "Running")
