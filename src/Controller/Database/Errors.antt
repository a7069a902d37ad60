-- ===== src/Controller/Database/Errors.antt =====
-- The messages of pkg/controller/database/rdsinstance.go.
use provider_alibaba.Base.{String}

abbrev pub err_not_rds_instance : String
err_not_rds_instance = "managed resource is not an RDS instance custom resource"

abbrev pub err_create_rds_client : String
err_create_rds_client = "cannot create RDS client"

abbrev pub err_create_failed : String
err_create_failed = "cannot create RDS instance"

abbrev pub err_create_account_failed : String
err_create_account_failed = "cannot create RDS database account"

abbrev pub err_delete_failed : String
err_delete_failed = "cannot delete RDS instance"

abbrev pub err_describe_failed : String
err_describe_failed = "cannot describe RDS instance"

abbrev pub err_account_name_duplicate : String
err_account_name_duplicate = "InvalidAccountName.Duplicate"
