-- ===== src/Tests/Sls/Resources.antt =====
-- A service and resources for the examples of the SLS controllers.
use provider_alibaba.Base.{String, ℕ, suc, true, false, none, some, [], ◌∷◌}
use provider_alibaba.Base.Int.{pos}
use provider_alibaba.Go.{Env, ok, err, log_error}
use provider_alibaba.Apis.{project}
use provider_alibaba.Apis
use provider_alibaba.Apis.Sls.{LogtailParameters, MachineGroupAttribute}
use provider_alibaba.Clients.Sls.{Client, client}
use provider_alibaba.Clients.Sls.Sdk.{SdkClient, IndexKey}
use provider_alibaba.Clients.Sls.Sdk

-- It knows no project, has one index without keys, and takes every request.
abbrev pub sdk : SdkClient ℕ
sdk = record {
  get_project = λ name w. (err (log_error "ProjectNotExist"), suc w);
  create_project = λ name description w. (ok none, suc w);
  update_project = λ name description w. (ok none, suc w);
  delete_project = λ name w. (ok tt, suc w);
  get_log_store = λ p l w. (ok none, suc w);
  create_log_store_v2 = λ p store w. (ok tt, suc w);
  update_log_store = λ p l ttl shards w. (ok tt, suc w);
  delete_log_store = λ p l w. (ok tt, suc w);
  get_config = λ p name w. (ok none, suc w);
  create_config = λ p config w. (ok tt, suc w);
  update_config = λ p config w. (ok tt, suc w);
  delete_config = λ p name w. (ok tt, suc w);
  get_index = λ p l w. (ok (some (record { keys = [] })), suc w);
  create_index = λ p l index w. (ok tt, suc w);
  delete_index = λ p l w. (ok tt, suc w);
  get_machine_group = λ p name w. (ok none, suc w);
  create_machine_group = λ p g w. (ok tt, suc w);
  delete_machine_group = λ p name w. (ok tt, suc w);
  get_applied_configs = λ p g w. (ok ("other" ∷ []), suc w);
  apply_config_to_machine_group = λ p f g w. (ok tt, suc w);
  remove_config_from_machine_group = λ p f g w. (ok tt, suc w);
}

-- It takes every request and does nothing.
abbrev pub idle : {W : Type 0} → SdkClient W
idle = record {
  get_project = λ name w. (err (log_error "ProjectNotExist"), w);
  create_project = λ name description w. (ok none, w);
  update_project = λ name description w. (ok none, w);
  delete_project = λ name w. (ok tt, w);
  get_log_store = λ p l w. (ok none, w);
  create_log_store_v2 = λ p store w. (ok tt, w);
  update_log_store = λ p l ttl shards w. (ok tt, w);
  delete_log_store = λ p l w. (ok tt, w);
  get_config = λ p name w. (ok none, w);
  create_config = λ p config w. (ok tt, w);
  update_config = λ p config w. (ok tt, w);
  delete_config = λ p name w. (ok tt, w);
  get_index = λ p l w. (ok (some (record { keys = [] })), w);
  create_index = λ p l index w. (ok tt, w);
  delete_index = λ p l w. (ok tt, w);
  get_machine_group = λ p name w. (ok none, w);
  create_machine_group = λ p g w. (ok tt, w);
  delete_machine_group = λ p name w. (ok tt, w);
  get_applied_configs = λ p g w. (ok ("other" ∷ []), w);
  apply_config_to_machine_group = λ p f g w. (ok tt, w);
  remove_config_from_machine_group = λ p f g w. (ok tt, w);
}

abbrev pub service : Client ℕ
service = client sdk

abbrev pub tail_parameters : String → LogtailParameters
tail_parameters log_type = record {
  input_type = some "file";
  input_detail = record {
    log_type = some log_type;
    log_path = some "/var/log";
    file_pattern = some "*.log";
    topic_format = some "none";
    time_format = none;
    preserve = none;
    preserve_depth = none;
    file_encoding = none;
    discard_unmatch = some true;
    max_depth = none;
    tail_existed = none;
    discard_non_utf8 = none;
    delay_skip_bytes = none;
    is_docker_file = none;
    docker_include_label = none;
    docker_exclude_label = none;
    docker_include_env = none;
    docker_exclude_env = none;
    log_begin_regex = none;
    regex = none;
    keys = "content" ∷ [];
  };
  output_type = some "LogService";
  output_detail = record { project_name = "logs"; log_store_name = "access" };
  log_sample = none;
}

abbrev pub text_key : Apis.Sls.IndexKey
text_key = record {
  token = some ("," ∷ []);
  case_sensitive = some true;
  key_type = some "text";
  doc_value = none;
  alias = none;
  chn = none;
}

abbrev pub made_key : IndexKey
made_key = record {
  token = "," ∷ [];
  case_sensitive = true;
  key_type = "text";
  doc_value = false;
  alias = "";
  chn = false;
}

abbrev pub attribute : MachineGroupAttribute
attribute = record { external_name = "e"; topic_name = "t" }

abbrev pub group : Apis.Sls.MachineGroup
group = record {
  kind = "MachineGroup";
  name = "machines";
  external_name = "machines";
  provider_config_reference = some "default";
  for_provider = record {
    project = some "logs";
    logstore = some "access";
    group_type = none;
    machine_id_type = some "ip";
    machine_id_list = some ("10.0.0.1" ∷ []);
    attribute = some attribute;
  };
  at_provider = record { create_time = 0; last_modify_time = 0 };
  conditions = [];
}

abbrev pub found_group : Sdk.MachineGroup
found_group = record {
  name = "machines";
  group_type = "";
  machine_id_type = "ip";
  machine_id_list = "10.0.0.1" ∷ [];
  attribute = attribute;
  create_time = 1;
  last_modify_time = 1;
}

abbrev pub logs : Apis.Sls.Project
logs = record {
  kind = "Project";
  name = "logs";
  external_name = "logs";
  provider_config_reference = some "default";
  for_provider = record { description = "all logs" };
  at_provider = record {
    create_time = "";
    last_modify_time = "";
    owner = "";
    status = "";
    region = "";
  };
  conditions = [];
}

abbrev pub start : Env Apis.Sls.Project ℕ
start = record { cr = logs; world = 0 }

abbrev pub store : Apis.Sls.LogStore
store = record {
  kind = "LogStore";
  name = "access";
  external_name = "access";
  provider_config_reference = some "default";
  for_provider = record {
    project_name = "logs";
    ttl = pos 7;
    shard_count = pos 2;
    auto_split = some true;
    max_split_shard = none;
  };
  at_provider = record { create_time = 0; last_modify_time = 0 };
  conditions = [];
}

abbrev pub index : Apis.Sls.LogstoreIndex
index = record {
  kind = "LogstoreIndex";
  name = "index";
  external_name = "index";
  provider_config_reference = some "default";
  for_provider = record {
    project_name = some "logs";
    logstore_name = some "access";
    keys = ("level", text_key) ∷ [];
  };
  at_provider = tt;
  conditions = [];
}

abbrev pub no_keys : Sdk.Index
no_keys = record { keys = [] }

-- A client that finds an index without keys.
abbrev pub index_service : Client ℕ
index_service = record service { describe_index = λ p l w. (ok (some no_keys), suc w) }

abbrev pub binding : Apis.Sls.MachineGroupBinding
binding = record {
  kind = "MachineGroupBinding";
  name = "binding";
  external_name = "binding";
  provider_config_reference = some "default";
  for_provider = record {
    project_name = some "logs";
    group_name = some "machines";
    config_name = some "tail";
  };
  at_provider = record { configs = [] };
  conditions = [];
}

-- A Logtail that bears a kind with an endpoint.
abbrev pub disguised : Apis.Sls.Logtail
disguised = record {
  kind = "CLB";
  name = "tail";
  external_name = "tail";
  provider_config_reference = some "default";
  for_provider = tail_parameters "common_reg_log";
  at_provider = record { create_time = 0; last_modify_time = 0 };
  conditions = [];
}
