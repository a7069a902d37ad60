-- ===== src/Go/Errors.antt =====
-- Go errors, as far as `errors.Is` and `errors.As` can tell them apart.
use provider_alibaba.Base.{String, Bool, true, false, Option, none, some, ◌≡◌, refl}

-- The package variables that the clients compare errors with by `errors.Is`.
pub data Sentinel : Type 0 where
  rds_db_instance_not_found redis_db_instance_not_found : Sentinel

pub data Err : Type 0 where
  -- `errors.New`, `errors.Errorf` and any error that no client inspects
  message : String → Err
  sentinel : Sentinel → Err
  -- `*errors.ServerError` and `*errors.ClientError` of alibaba-cloud-sdk-go, with `ErrorCode()`
  server_error : String → Err
  client_error : String → Err
  -- `*tea.SDKError`, whose `Code` is a pointer
  tea_error : Option String → Err
  -- `oss.ServiceError` of aliyun-oss-go-sdk
  oss_error : String → Err
  -- `sls.Error` of aliyun-log-go-sdk, as a value and behind a pointer: two types for `errors.As`
  log_error : String → Err
  log_error_pointer : String → Err
  -- `errors.Wrap(err, msg)`
  wrap : String → Err → Err

-- `errors.Wrap`, which keeps nil.
abbrev pub wrap_nil : String → Option Err → Option Err
wrap_nil msg none = none
wrap_nil msg (some e) = some (wrap msg e)

-- The error at the end of the chain of `Unwrap` calls. Only a wrapper unwraps, so `errors.Is` and
-- `errors.As` find their target there or not at all.
unfoldable pub cause : Err → Err
cause (wrap _ e) = cause e
cause (message m) = message m
cause (sentinel s) = sentinel s
cause (server_error c) = server_error c
cause (client_error c) = client_error c
cause (tea_error c) = tea_error c
cause (oss_error c) = oss_error c
cause (log_error c) = log_error c
cause (log_error_pointer c) = log_error_pointer c

-- `errors.As(err, &target)` for each type of target: the code that the target then holds.
abbrev pub as_server_error : Err → Option String
as_server_error e = elim (cause e) [ server_error c ↦ some c | _ ↦ none ]

-- The interface `sdkerror.Error`, which server and client errors implement.
abbrev pub as_sdk_error : Err → Option String
as_sdk_error e = elim (cause e) [ server_error c ↦ some c | client_error c ↦ some c | _ ↦ none ]

abbrev pub as_tea_error : Err → Option (Option String)
as_tea_error e = elim (cause e) [ tea_error c ↦ some c | _ ↦ none ]

abbrev pub as_oss_error : Err → Option String
as_oss_error e = elim (cause e) [ oss_error c ↦ some c | _ ↦ none ]

abbrev pub as_log_error : Err → Option String
as_log_error e = elim (cause e) [ log_error c ↦ some c | _ ↦ none ]

abbrev pub as_log_error_pointer : Err → Option String
as_log_error_pointer e = elim (cause e) [ log_error_pointer c ↦ some c | _ ↦ none ]

-- `errors.Is(err, target)` for the two sentinels.
abbrev pub is_rds_sentinel : Err → Bool
is_rds_sentinel e = elim (cause e) [ sentinel rds_db_instance_not_found ↦ true | _ ↦ false ]

abbrev pub is_redis_sentinel : Err → Bool
is_redis_sentinel e = elim (cause e) [ sentinel redis_db_instance_not_found ↦ true | _ ↦ false ]

pub cause-wrap : (msg : String) (e : Err) → cause (wrap msg e) ≡ cause e
unfolding cause
cause-wrap msg e = refl
