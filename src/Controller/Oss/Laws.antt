-- ===== src/Controller/Oss/Laws.antt =====
-- Theorems on the handlers of pkg/controller/oss/oss_controller.go.
use provider_alibaba.Base.{
  String, ◌<>◌, Bool, true, false, ◌&&◌, not, ◌≡◌, ◌≢◌, refl, arith, some, ◌∷◌, ◌==◌, eq_iff,
  if◌then◌else◌,
}
use provider_alibaba.Go.{Env, Outcome, ok, err, panic, Err, wrap}
use provider_alibaba.Crossplane.{
  ExternalObservation, no_observation, available, creating, deleting, set_conditions,
  set_at_provider,
}
use provider_alibaba.Crossplane.Answer.{forgiving}
use provider_alibaba.Apis.Oss.{Bucket}
use provider_alibaba.Clients.Oss.{
  Client, BucketInfo, is_not_found_error, is_update_to_date, generate_observation,
}
use provider_alibaba.Controller.Oss.{
  observe_cr, observe_described, update_bucket, update_cr_acl, delete_cr, warn_storage_class,
  warn_data_redundancy_type, storage_class_warning, data_redundancy_type_warning,
  err_failed_to_describe_bucket, err_failed_to_delete_bucket, get_connection_details,
}

-- A setting is ignored where it is given and is not the bucket's.
unfoldable pub is_ignored : String → String → Bool
is_ignored wanted found = not (wanted == "") && not (wanted == found)

-- The warnings of the status: the storage class first, then the redundancy type, each where it is
-- ignored.
unfoldable pub warnings : Bool → Bool → String
warnings false false = ""
warnings true false = "" <> storage_class_warning
warnings false true = "" <> data_redundancy_type_warning
warnings true true = ("" <> storage_class_warning) <> data_redundancy_type_warning

unfoldable appended : Bool → String → String → String
appended true text m = m <> text
appended false text m = m

-- What a warning leaves alone.
record Kept (t cr : Bucket) : Type 0 where
  for_provider_kept : t.for_provider ≡ cr.for_provider
  external_name_kept : t.external_name ≡ cr.external_name
  conditions_kept : t.conditions ≡ cr.conditions

warn_storage_class_lem :
    (info : BucketInfo) (cr : Bucket)
    → let t = warn_storage_class info cr in
      Kept t cr
      × (t.at_provider.message
          ≡ appended
              (is_ignored cr.for_provider.storage_class info.storage_class)
              storage_class_warning
              cr.at_provider.message)
unfolding warn_storage_class appended is_ignored
warn_storage_class_lem info cr = ground arith

warn_data_redundancy_type_lem :
    (info : BucketInfo) (cr : Bucket)
    → let t = warn_data_redundancy_type info cr in
      Kept t cr
      × (t.at_provider.message
          ≡ appended
              (is_ignored cr.for_provider.data_redundancy_type info.redundancy_type)
              data_redundancy_type_warning
              cr.at_provider.message)
unfolding warn_data_redundancy_type appended is_ignored
warn_data_redundancy_type_lem info cr = ground arith

appended-warnings :
    (a b : Bool)
    → appended b data_redundancy_type_warning (appended a storage_class_warning "") ≡ warnings a b
unfolding appended warnings
appended-warnings true true = refl
appended-warnings true false = refl
appended-warnings false true = refl
appended-warnings false false = refl

warn-message :
    (info : BucketInfo) (cr : Bucket)
    → cr.at_provider.message ≡ ""
    → let t = warn_data_redundancy_type info (warn_storage_class info cr) in
      Kept t cr
      × (t.at_provider.message
          ≡ warnings
              (is_ignored cr.for_provider.storage_class info.storage_class)
              (is_ignored cr.for_provider.data_redundancy_type info.redundancy_type))
warn-message info cr h = ground (
  arith,
  warn_storage_class_lem info cr,
  warn_data_redundancy_type_lem info (warn_storage_class info cr),
  appended-warnings (is_ignored cr.for_provider.storage_class info.storage_class)
      (is_ignored cr.for_provider.data_redundancy_type info.redundancy_type),
)

module _ {W : Type 0} (c : Client W) where
  -- A failed `Describe` leaves the resource as it was. A missing bucket is reported as absent without
  -- an error; any other error is wrapped and returned.
  pub observe_cr-bucket_undescribed :
      (s : Env Bucket W) {e : Err} {w : W}
      → c.describe s.cr.external_name s.world ≡ (err e, w)
      → observe_cr c s ≡ (
        (if is_not_found_error (some e)
            then ok no_observation
            else err (wrap err_failed_to_describe_bucket e)),
        record s { world = w },
      )
  unfolding observe_cr
  observe_cr-bucket_undescribed s failed = ground arith

  observe_described-reports :
      (info : BucketInfo) (s : Env Bucket W) {o : ExternalObservation}
      → (observe_described c info s).0 ≡ ok o
      → let t = (observe_described c info s).1.cr in
        (o.resource_exists ≡ true)
        × (o.resource_up_to_date ≡ is_update_to_date s.cr info)
        × (t.conditions
            ≡ (if o.resource_up_to_date then available ∷ s.cr.conditions else s.cr.conditions))
        × (t.at_provider.message
            ≡ warnings
                (is_ignored s.cr.for_provider.storage_class info.storage_class)
                (is_ignored s.cr.for_provider.data_redundancy_type info.redundancy_type))
        × (t.for_provider ≡ s.cr.for_provider)
        × (o.connection_details ≡ get_connection_details t)
  unfolding observe_described generate_observation is_update_to_date
  observe_described-reports info s h =
      let cr = set_at_provider (generate_observation info) s.cr in
      ground (arith, warn-message info cr)

  pub observe_cr-found :
      (s : Env Bucket W) {info : BucketInfo} {w : W}
      → c.describe s.cr.external_name s.world ≡ (ok info, w)
      → observe_cr c s ≡ observe_described c info (record s { world = w })
  unfolding observe_cr
  observe_cr-found s found = ground arith

  -- Where a bucket is described and `Observe` succeeds, it reports that the bucket exists, whether
  -- the ACL is as wanted, in the answer and as the condition Available, and the details of the new
  -- status, which holds the warnings of the settings that are given and differ; the wanted state is
  -- left alone.
  pub observe_cr-bucket :
      (s : Env Bucket W) {info : BucketInfo} {w : W} {o : ExternalObservation}
      → c.describe s.cr.external_name s.world ≡ (ok info, w)
      → (observe_cr c s).0 ≡ ok o
      → let t = (observe_cr c s).1.cr in
        (o.resource_exists ≡ true)
        × (o.resource_up_to_date ≡ is_update_to_date s.cr info)
        × (t.conditions
            ≡ (if o.resource_up_to_date then available ∷ s.cr.conditions else s.cr.conditions))
        × (t.at_provider.message
            ≡ warnings
                (is_ignored s.cr.for_provider.storage_class info.storage_class)
                (is_ignored s.cr.for_provider.data_redundancy_type info.redundancy_type))
        × (t.for_provider ≡ s.cr.for_provider)
        × (o.connection_details ≡ get_connection_details t)
  unfolding observe_cr
  observe_cr-bucket s {info} {w} {o} found h =
      ground (arith, observe_described-reports info (record s { world = w }) {o = o})

  pub observe_described-ok :
      (info : BucketInfo) (s : Env Bucket W)
      → (o : ExternalObservation) × ((observe_described c info s).0 ≡ ok o)
  unfolding observe_described
  observe_described-ok info s = (_, refl)

  -- Where no ACL is given for a bucket and the service describes it with one that is neither empty
  -- nor private, `Update` succeeds with no request but `Describe`, and the bucket is not up to
  -- date.
  pub update_bucket-without_acl :
      (s : Env Bucket W) {info : BucketInfo} {w : W}
      → s.cr.for_provider.acl ≡ ""
      → c.describe s.cr.external_name s.world ≡ (ok info, w)
      → info.acl ≢ ""
      → info.acl ≢ "private"
      → (update_bucket c s ≡ (ok tt, record { cr = set_conditions creating s.cr; world = w }))
        × (is_update_to_date s.cr info ≡ false)
  unfolding update_bucket update_cr_acl is_update_to_date
  update_bucket-without_acl s {info} left_out found h hp = ground (
    arith,
    eq_iff s.cr.for_provider.acl "",
    eq_iff s.cr.for_provider.acl info.acl,
    eq_iff info.acl "private",
  )

  -- `Delete` asks once, and a bucket that is gone already counts as deleted.
  pub delete_cr_lem :
      (s : Env Bucket W) (r : Outcome (Unit {0})) {w : W}
      → c.delete s.cr.external_name s.world ≡ (r, w)
      → delete_cr c s ≡ (
        forgiving is_not_found_error err_failed_to_delete_bucket r,
        record { cr = set_conditions deleting s.cr; world = w },
      )
  unfolding delete_cr
  delete_cr_lem s (ok _) asked = ground arith
  delete_cr_lem s (err e) asked = ground arith
  delete_cr_lem s panic asked = ground arith
