-- ===== src/Apis/Oss.antt =====
-- apis/oss/v1alpha1/oss_types.go. `Profile`, which no code reads, is left out.
use provider_alibaba.Base.{String}
use provider_alibaba.Crossplane.{Resource}

pub record BucketParameter : Type 0 where
  pub acl : String
  pub storage_class : String
  pub data_redundancy_type : String

pub record BucketObservation : Type 0 where
  pub extranet_endpoint : String
  pub intranet_endpoint : String
  pub message : String

abbrev pub Bucket : Type 0
Bucket = Resource BucketParameter BucketObservation
