-- ===== src/Clients/Sls/Config.antt =====
-- The part of pkg/clients/sls/sls.go on Logtail configs.
use provider_alibaba.Base.{
  String, ◌<>◌, Bool, true, false, Option, none, some, [], ◌==◌, not, ◌||◌, if◌then◌else◌,
}
use provider_alibaba.Base.Int.{pos}
use provider_alibaba.Go.{Err, message, as_log_error_pointer, M, pure, fail, deref, wrap_err, ◌>>=◌}
use provider_alibaba.Apis.Sls.{InputDetail, Logtail, LogtailParameters, LogtailObservation}
use provider_alibaba.Clients.Sls.Sdk.{SdkClient, RegexConfigInputDetail, LogConfig}
use provider_alibaba.Clients.Sls.Project.{
  err_failed_to_get_sls_store, err_failed_to_create_sls_store, err_failed_to_update_sls_store,
  err_failed_to_delete_sls_store,
}

abbrev pub err_code_logtail_not_exist : String
err_code_logtail_not_exist = "ConfigNotExist"

-- `sdk.RegexConfigInputDetail{}`
abbrev pub empty_input_detail : RegexConfigInputDetail
empty_input_detail = record {
  log_path = "";
  file_pattern = "";
  log_type = "";
  topic_format = "";
  preserve = false;
  preserve_depth = pos 0;
  file_encoding = "";
  discard_non_utf8 = false;
  max_depth = pos 0;
  tail_existed = false;
  delay_skip_bytes = pos 0;
  is_docker_file = false;
  docker_include_env = [];
  docker_include_label = [];
  docker_exclude_label = [];
  docker_exclude_env = [];
  key = [];
  log_begin_regex = "";
  regex = "";
}

-- `if p != nil { field = *p }`
abbrev pub or_keep : {A : Type 0} → A → Option A → A
or_keep a none = a
or_keep a (some b) = b

-- The fields that may be left out. `DiscardUnmatch` is written to the field of `DiscardNonUtf8`, which
-- the latter overwrites where it is given.
unfoldable pub with_optional : InputDetail → RegexConfigInputDetail → RegexConfigInputDetail
with_optional in_ d = record d {
  preserve = or_keep d.preserve in_.preserve;
  preserve_depth = or_keep d.preserve_depth in_.preserve_depth;
  file_encoding = or_keep d.file_encoding in_.file_encoding;
  discard_non_utf8 = or_keep (or_keep d.discard_non_utf8 in_.discard_unmatch) in_.discard_non_utf8;
  max_depth = or_keep d.max_depth in_.max_depth;
  tail_existed = or_keep d.tail_existed in_.tail_existed;
  delay_skip_bytes = or_keep d.delay_skip_bytes in_.delay_skip_bytes;
  is_docker_file = or_keep d.is_docker_file in_.is_docker_file;
  docker_include_env = or_keep d.docker_include_env in_.docker_include_env;
  docker_include_label = or_keep d.docker_include_label in_.docker_include_label;
  docker_exclude_label = or_keep d.docker_exclude_label in_.docker_exclude_label;
  docker_exclude_env = or_keep d.docker_exclude_env in_.docker_exclude_env;
  key = in_.keys;
  log_begin_regex = or_keep d.log_begin_regex in_.log_begin_regex;
  regex = or_keep d.regex in_.regex;
}

module _ {S : Type 0} where
  -- The first case of the `switch`.
  abbrev regex_input_detail : InputDetail → M S RegexConfigInputDetail
  regex_input_detail in_ = do
    log_path ← deref in_.log_path
    file_pattern ← deref in_.file_pattern
    log_type ← deref in_.log_type
    topic_format ← deref in_.topic_format
    pure (
        with_optional in_ (record empty_input_detail {
          log_path = log_path;
          file_pattern = file_pattern;
          log_type = log_type;
          topic_format = topic_format;
        }))

  -- `*in.LogType == "common_reg_log"`
  abbrev is_common_reg_log : InputDetail → M S Bool
  is_common_reg_log in_ = do log_type ← deref in_.log_type; pure (log_type == "common_reg_log")

  -- The last case of the `switch`, and what follows where no case holds.
  abbrev other_log_type : InputDetail → M S RegexConfigInputDetail
  other_log_type in_ = do
    log_type ← deref in_.log_type
    if log_type == "common_reg_log"
        then fail (message ("LogType " <> (log_type <> " is not supported")))
        else pure empty_input_detail

  abbrev file_input_detail : InputDetail → M S RegexConfigInputDetail
  file_input_detail in_ = do
    common ← is_common_reg_log in_
    if common then regex_input_detail in_ else other_log_type in_

  -- The `switch` of `CreateConfig`.
  unfoldable pub make_input_detail : LogtailParameters → M S RegexConfigInputDetail
  make_input_detail t = do
    input_type ← deref t.input_type
    if input_type == "file"
        then file_input_detail t.input_detail
        else fail (message ("InputType " <> (input_type <> " is not supported")))

  -- `CreateConfig`, up to the request.
  unfoldable pub make_config : String → LogtailParameters → M S LogConfig
  make_config name t = do
    input_detail ← make_input_detail t
    input_type ← deref t.input_type
    output_type ← deref t.output_type
    pure (record {
      name = name;
      input_type = input_type;
      input_detail = input_detail;
      output_type = output_type;
      project_name = t.output_detail.project_name;
      log_store_name = t.output_detail.log_store_name;
      log_sample = or_keep "" t.log_sample;
    })

-- `GenerateLogtailObservation`
unfoldable pub generate_logtail_observation : Option LogConfig → LogtailObservation
generate_logtail_observation config = record { create_time = 0; last_modify_time = 0 }

module _ {S : Type 0} where
  abbrev matches_config : Logtail → LogConfig → M S Bool
  matches_config cr config = if not (cr.name == config.name) then pure false else (do
    input_type ← deref cr.for_provider.input_type
    if not (input_type == config.input_type) then pure false else do
      output_type ← deref cr.for_provider.output_type
      let out = cr.for_provider.output_detail
      if not (output_type == config.output_type)
          then pure false
          else if not (out.project_name == config.project_name)
              || not (out.log_store_name == config.log_store_name)
          then pure false
          else pure true)

  -- `IsLogtailUpdateToDate`: the name is that of the object, not the external one.
  unfoldable pub is_logtail_update_to_date : Logtail → Option LogConfig → M S Bool
  is_logtail_update_to_date cr none = pure false
  is_logtail_update_to_date cr (some config) = matches_config cr config

unfoldable pub is_logtail_not_found_error : Option Err → Bool
is_logtail_not_found_error none = false
is_logtail_not_found_error (some e) = elim (as_log_error_pointer e) [
  | none ↦ false
  | some code ↦ code == err_code_logtail_not_exist
]

module _ {W : Type 0} (c : SdkClient W) where
  unfoldable pub describe_config : String → String → M W (Option LogConfig)
  describe_config project config =
      wrap_err err_failed_to_get_sls_store (c.get_config project config)

  unfoldable pub create_config : String → LogtailParameters → M W (Unit {0})
  create_config name t = do
    config ← make_config name t
    wrap_err err_failed_to_create_sls_store (c.create_config t.output_detail.project_name config)

  unfoldable pub update_config : String → LogConfig → M W (Unit {0})
  update_config project config =
      wrap_err err_failed_to_update_sls_store (c.update_config project config)

  unfoldable pub delete_config : String → String → M W (Unit {0})
  delete_config project config =
      wrap_err err_failed_to_delete_sls_store (c.delete_config project config)
