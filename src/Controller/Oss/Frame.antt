-- ===== src/Controller/Oss/Frame.antt =====
-- The handlers of pkg/controller/oss write to the status of their resource only.
use provider_alibaba.Base.{arith}
use provider_alibaba.Go.{Env}
use provider_alibaba.Crossplane.Frame.{SameSpec}
use provider_alibaba.Apis.Oss.{Bucket}
use provider_alibaba.Clients.Oss.{Client, BucketInfo}
use provider_alibaba.Controller.Oss.{
  warn_storage_class, warn_data_redundancy_type, observe_described, observe_cr, create_cr,
  update_cr_acl, update_bucket, delete_cr,
}

warn_storage_class-SameSpec :
    (info : BucketInfo) (cr : Bucket) → SameSpec cr (warn_storage_class info cr)
unfolding warn_storage_class
warn_storage_class-SameSpec info cr = ground arith

warn_data_redundancy_type-SameSpec :
    (info : BucketInfo) (cr : Bucket) → SameSpec cr (warn_data_redundancy_type info cr)
unfolding warn_data_redundancy_type
warn_data_redundancy_type-SameSpec info cr = ground arith

module _ {W : Type 0} (c : Client W) where
  described-SameSpec :
      (info : BucketInfo) (s : Env Bucket W) → SameSpec s.cr (observe_described c info s).1.cr
  unfolding observe_described
  described-SameSpec info s =
      grind (arith, warn_storage_class-SameSpec, warn_data_redundancy_type-SameSpec)

  pub observe_cr-SameSpec : (s : Env Bucket W) → SameSpec s.cr (observe_cr c s).1.cr
  unfolding observe_cr
  observe_cr-SameSpec s = grind (arith, described-SameSpec)

  pub create_cr-SameSpec : (s : Env Bucket W) → SameSpec s.cr (create_cr c s).1.cr
  unfolding create_cr
  create_cr-SameSpec s = ground arith

  pub update_bucket-SameSpec : (s : Env Bucket W) → SameSpec s.cr (update_bucket c s).1.cr
  unfolding update_bucket update_cr_acl
  update_bucket-SameSpec s = ground arith

  pub delete_cr-SameSpec : (s : Env Bucket W) → SameSpec s.cr (delete_cr c s).1.cr
  unfolding delete_cr
  delete_cr-SameSpec s = ground arith
