-- ===== src/Tests/Database.antt =====
-- The RDS theorems at one instance and one service.
use provider_alibaba.Base.{ℕ, suc, true, none, some, [], ◌∷◌, ◌≡◌, refl, arith, eq_iff}
use provider_alibaba.Base.Int.{pos}
use provider_alibaba.Go.{Env, ok, err, client_error, cause, value}
use provider_alibaba.Crossplane.{available}
use provider_alibaba.Apis.Database.{RdsInstance}
use provider_alibaba.Clients.Rds.{Client, DbInstance}
use provider_alibaba.Controller.Database.{observe_cr}
use provider_alibaba.Controller.Database.Running.{
  observe_cr-running, is_duplicate, running, observed,
}
use provider_alibaba.Controller.Database.Connect.{Connector}
use provider_alibaba.Tests.Fixtures.{runtime, kube}

abbrev instance : RdsInstance
instance = record {
  kind = "RDSInstance";
  name = "db";
  external_name = "db";
  provider_config_reference = some "default";
  for_provider = record {
    engine = "mysql";
    engine_version = "8.0";
    db_instance_class = "rds.mysql.c1.large";
    db_instance_storage_in_gb = pos 20;
    security_ip_list = "0.0.0.0/0";
    master_username = "admin";
  };
  at_provider = record {
    db_instance_status = "Creating";
    db_instance_id = "rm-1";
    account_ready = true;
  };
  conditions = [];
}

abbrev found : DbInstance
found = record { id = "rm-1"; engine = "mysql"; status = "Running"; endpoint = none }

-- Every account exists already.
abbrev service : Client ℕ
service = record {
  describe_db_instance = λ id w. (ok found, suc w);
  create_account = λ id user pw w. (err (client_error "InvalidAccountName.Duplicate"), suc w);
  create_db_instance = λ req w. (ok found, suc w);
  delete_db_instance = λ id w. (ok tt, suc w);
}

abbrev start : Env RdsInstance ℕ
start = record { cr = instance; world = 0 }

abbrev seen : RdsInstance
seen = record instance {
  at_provider = record {
    db_instance_status = "Running";
    db_instance_id = "rm-1";
    account_ready = true;
  };
  conditions = available ∷ [];
}

observe_cr-running_example : observe_cr service runtime start ≡ (
  ok (observed service runtime "" found (running true found instance)),
  record { cr = running true found instance; world = 3 },
)
unfolding cause is_duplicate
observe_cr-running_example =
    observe_cr-running service runtime start {i = found} {pw = "pw"} {w = 1} {w1 = 2} {w2 = 3}
      (err (client_error "InvalidAccountName.Duplicate")) (ground (arith, eq_iff "rm-1" "")) refl
      refl refl refl

abbrev connector : Connector ℕ
connector = record { kube = kube; new_rds_client = λ key secret token region. value service }
