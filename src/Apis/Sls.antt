-- ===== src/Apis/Sls.antt =====
-- The types of apis/sls/v1alpha1. A pointer is an `Option`; `uint32` times are only copied.
use provider_alibaba.Base.{String, Bool, Option, List, ℕ}
use provider_alibaba.Base.Int.{ℤ}
use provider_alibaba.Base.Dict.{Dict}
use provider_alibaba.Crossplane.{Resource}

pub record ProjectParameters : Type 0 where
  pub description : String

pub record ProjectObservation : Type 0 where
  pub create_time : String
  pub last_modify_time : String
  pub owner : String
  pub status : String
  pub region : String

abbrev pub Project : Type 0
Project = Resource ProjectParameters ProjectObservation

pub record StoreParameters : Type 0 where
  pub project_name : String
  pub ttl : ℤ
  pub shard_count : ℤ
  pub auto_split : Option Bool
  pub max_split_shard : Option ℤ

pub record StoreObservation : Type 0 where
  pub create_time : ℕ
  pub last_modify_time : ℕ

abbrev pub LogStore : Type 0
LogStore = Resource StoreParameters StoreObservation

pub record InputDetail : Type 0 where
  pub log_type : Option String
  pub log_path : Option String
  pub file_pattern : Option String
  pub topic_format : Option String
  pub time_format : Option String
  pub preserve : Option Bool
  pub preserve_depth : Option ℤ
  pub file_encoding : Option String
  pub discard_unmatch : Option Bool
  pub max_depth : Option ℤ
  pub tail_existed : Option Bool
  pub discard_non_utf8 : Option Bool
  pub delay_skip_bytes : Option ℤ
  pub is_docker_file : Option Bool
  pub docker_include_label : Option (Dict String)
  pub docker_exclude_label : Option (Dict String)
  pub docker_include_env : Option (Dict String)
  pub docker_exclude_env : Option (Dict String)
  pub log_begin_regex : Option String
  pub regex : Option String
  pub keys : List String

pub record OutputDetail : Type 0 where
  pub project_name : String
  pub log_store_name : String

pub record LogtailParameters : Type 0 where
  pub input_type : Option String
  pub input_detail : InputDetail
  pub output_type : Option String
  pub output_detail : OutputDetail
  pub log_sample : Option String

pub record LogtailObservation : Type 0 where
  pub create_time : ℕ
  pub last_modify_time : ℕ

abbrev pub Logtail : Type 0
Logtail = Resource LogtailParameters LogtailObservation

pub record IndexKey : Type 0 where
  pub token : Option (List String)
  pub case_sensitive : Option Bool
  pub key_type : Option String
  pub doc_value : Option Bool
  pub alias : Option String
  pub chn : Option Bool

pub record LogstoreIndexParameters : Type 0 where
  pub project_name : Option String
  pub logstore_name : Option String
  pub keys : Dict IndexKey

abbrev pub LogstoreIndexObservation : Type 0
LogstoreIndexObservation = Unit

abbrev pub LogstoreIndex : Type 0
LogstoreIndex = Resource LogstoreIndexParameters LogstoreIndexObservation

-- `sdk.MachinGroupAttribute`, which the API type takes over from the SDK.
pub record MachineGroupAttribute : Type 0 where
  pub external_name : String
  pub topic_name : String

pub record MachineGroupParameters : Type 0 where
  pub project : Option String
  pub logstore : Option String
  pub group_type : Option String
  pub machine_id_type : Option String
  pub machine_id_list : Option (List String)
  pub attribute : Option MachineGroupAttribute

pub record MachineGroupObservation : Type 0 where
  pub create_time : ℕ
  pub last_modify_time : ℕ

abbrev pub MachineGroup : Type 0
MachineGroup = Resource MachineGroupParameters MachineGroupObservation

pub record MachineGroupBindingParameters : Type 0 where
  pub project_name : Option String
  pub group_name : Option String
  pub config_name : Option String

pub record MachineGroupBindingObservation : Type 0 where
  pub configs : List String

abbrev pub MachineGroupBinding : Type 0
MachineGroupBinding = Resource MachineGroupBindingParameters MachineGroupBindingObservation
