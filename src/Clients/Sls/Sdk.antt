-- ===== src/Clients/Sls/Sdk.antt =====
-- The SDK of pkg/clients/sls: its structures and its calls. A call that gives a structure gives a
-- pointer to it, which is an `Option`; `uint32` times are only copied.
use provider_alibaba.Base.{String, Bool, Option, List, ℕ}
use provider_alibaba.Base.Int.{ℤ}
use provider_alibaba.Base.Dict.{Dict}
use provider_alibaba.Go.{M}
use provider_alibaba.Apis.Sls.{MachineGroupAttribute}

pub record LogProject : Type 0 where
  pub name : String
  pub description : String
  pub status : String
  pub owner : String
  pub region : String
  pub create_time : String
  pub last_modify_time : String
  pub endpoint : String

pub record LogStore : Type 0 where
  pub name : String
  pub ttl : ℤ
  pub shard_count : ℤ
  pub auto_split : Bool
  pub max_split_shard : ℤ
  pub create_time : ℕ
  pub last_modify_time : ℕ

-- `RegexConfigInputDetail`, with the fields of the structure that it embeds.
pub record RegexConfigInputDetail : Type 0 where
  pub log_path : String
  pub file_pattern : String
  pub log_type : String
  pub topic_format : String
  pub preserve : Bool
  pub preserve_depth : ℤ
  pub file_encoding : String
  pub discard_non_utf8 : Bool
  pub max_depth : ℤ
  pub tail_existed : Bool
  pub delay_skip_bytes : ℤ
  pub is_docker_file : Bool
  pub docker_include_env : Dict String
  pub docker_include_label : Dict String
  pub docker_exclude_label : Dict String
  pub docker_exclude_env : Dict String
  pub key : List String
  pub log_begin_regex : String
  pub regex : String

pub record LogConfig : Type 0 where
  pub name : String
  pub input_type : String
  pub input_detail : RegexConfigInputDetail
  pub output_type : String
  -- `OutputDetail.ProjectName` and `OutputDetail.LogStoreName`
  pub project_name : String
  pub log_store_name : String
  pub log_sample : String

pub record IndexKey : Type 0 where
  pub token : List String
  pub case_sensitive : Bool
  pub key_type : String
  pub doc_value : Bool
  pub alias : String
  pub chn : Bool

pub record Index : Type 0 where
  pub keys : Dict IndexKey

pub record MachineGroup : Type 0 where
  pub name : String
  pub group_type : String
  pub machine_id_type : String
  pub machine_id_list : List String
  pub attribute : MachineGroupAttribute
  pub create_time : ℕ
  pub last_modify_time : ℕ

-- `sdk.ClientInterface`, as far as it is called.
pub record SdkClient (W : Type 0) : Type 0 where
  pub get_project : String → M W (Option LogProject)
  pub create_project : String → String → M W (Option LogProject)
  pub update_project : String → String → M W (Option LogProject)
  pub delete_project : String → M W (Unit {0})
  pub get_log_store : String → String → M W (Option LogStore)
  pub create_log_store_v2 : String → LogStore → M W (Unit {0})
  -- the project, the store, the TTL and the number of shards
  pub update_log_store : String → String → ℤ → ℤ → M W (Unit {0})
  pub delete_log_store : String → String → M W (Unit {0})
  pub get_config : String → String → M W (Option LogConfig)
  pub create_config : String → LogConfig → M W (Unit {0})
  pub update_config : String → LogConfig → M W (Unit {0})
  pub delete_config : String → String → M W (Unit {0})
  pub get_index : String → String → M W (Option Index)
  pub create_index : String → String → Index → M W (Unit {0})
  pub delete_index : String → String → M W (Unit {0})
  pub get_machine_group : String → String → M W (Option MachineGroup)
  pub create_machine_group : String → MachineGroup → M W (Unit {0})
  pub delete_machine_group : String → String → M W (Unit {0})
  -- the project and the group
  pub get_applied_configs : String → String → M W (List String)
  -- the project, the config and the group
  pub apply_config_to_machine_group : String → String → String → M W (Unit {0})
  pub remove_config_from_machine_group : String → String → String → M W (Unit {0})

-- `sdk.CreateNormalInterface`: the endpoint, the key, the secret and the token.
abbrev pub Constructor : Type 0 → Type 0
Constructor W = String → String → String → String → SdkClient W
