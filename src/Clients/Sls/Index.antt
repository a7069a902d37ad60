-- ===== src/Clients/Sls/Index.antt =====
-- pkg/clients/sls/index.go
use provider_alibaba.Base.{
  String, Bool, true, false, Option, none, some, [], ◌∷◌, ◌==◌, not, length, eqb_ℕ, if◌then◌else◌,
}
use provider_alibaba.Base.Dict.{Dict}
use provider_alibaba.Go.{Err, as_log_error_pointer, M, pure, deref, wrap_err, ◌>>=◌}
use provider_alibaba.Apis.Sls.{LogstoreIndex, LogstoreIndexParameters, LogstoreIndexObservation}
use provider_alibaba.Apis
use provider_alibaba.Clients.Sls.Sdk.{SdkClient, Index, IndexKey}
use provider_alibaba.Clients.Sls.Config.{or_keep}

abbrev pub err_code_logstore_index_not_exist : String
err_code_logstore_index_not_exist = "IndexConfigNotExist"

abbrev pub err_create_index : String
err_create_index = "failed to create a Logstore index"

abbrev pub err_delete_index : String
err_delete_index = "failed to delete the Logstore index"

module _ {S : Type 0} where
  -- The body of the loop over the keys.
  unfoldable pub make_key : Apis.Sls.IndexKey → M S IndexKey
  make_key v = do
    token ← deref v.token
    case_sensitive ← deref v.case_sensitive
    key_type ← deref v.key_type
    pure (record {
      token = token;
      case_sensitive = case_sensitive;
      key_type = key_type;
      doc_value = or_keep false v.doc_value;
      alias = or_keep "" v.alias;
      chn = or_keep false v.chn;
    })

  -- The loop. Go goes through the map in any order; whether it panics, and the map that it makes
  -- otherwise, do not depend on the order.
  unfoldable pub make_keys : Dict Apis.Sls.IndexKey → M S (Dict IndexKey)
  make_keys [] = pure []
  make_keys ((name, v) ∷ rest) = do
    key ← make_key v
    keys ← make_keys rest
    pure ((name, key) ∷ keys)

-- `GenerateIndexObservation`
unfoldable pub generate_index_observation : Option Index → LogstoreIndexObservation
generate_index_observation index = tt

-- `IsIndexUpdateToDate`
unfoldable pub is_index_update_to_date : LogstoreIndex → Option Index → Bool
is_index_update_to_date cr none = false
is_index_update_to_date cr (some index) =
    if not (eqb_ℕ (length cr.for_provider.keys) (length index.keys)) then true else true

unfoldable pub is_index_not_found_error : Option Err → Bool
is_index_not_found_error none = false
is_index_not_found_error (some e) = elim (as_log_error_pointer e) [
  | none ↦ false
  | some code ↦ code == err_code_logstore_index_not_exist
]

module _ {W : Type 0} (c : SdkClient W) where
  unfoldable pub describe_index : Option String → Option String → M W (Option Index)
  describe_index project logstore = do
    p ← deref project
    l ← deref logstore
    wrap_err err_code_logstore_index_not_exist (c.get_index p l)

  unfoldable pub create_index : LogstoreIndexParameters → M W (Unit {0})
  create_index param = do
    keys ← make_keys param.keys
    p ← deref param.project_name
    l ← deref param.logstore_name
    wrap_err err_create_index (c.create_index p l (record { keys = keys }))

  -- `UpdateIndex` does nothing.
  abbrev pub update_index : Option String → Option String → Option Index → M W (Unit {0})
  update_index project logstore index = pure tt

  unfoldable pub delete_index : Option String → Option String → M W (Unit {0})
  delete_index project logstore = do
    p ← deref project
    l ← deref logstore
    wrap_err err_delete_index (c.delete_index p l)
