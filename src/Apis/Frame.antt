-- ===== src/Apis/Frame.antt =====
-- What the user owns of a managed resource, whatever its kind.
use provider_alibaba.Base.{◌≡◌, arith, some}
use provider_alibaba.Crossplane.{Resource}
use provider_alibaba.Crossplane.Frame.{SameSpec, SameSpec-refl}
use provider_alibaba.Apis.{
  Managed, rds_instance, redis_instance, bucket, nas_file_system, nas_mount_target, clb, project,
  log_store, logtail, logstore_index, machine_group, machine_group_binding, foreign, Kind, rds_kind,
  redis_kind, bucket_kind, nas_file_system_kind, nas_mount_target_kind, clb_kind, project_kind,
  log_store_kind, logtail_kind, logstore_index_kind, machine_group_kind, machine_group_binding_kind,
}

-- Two resources of one kind that agree but for their status.
unfoldable pub SameManaged : Managed → Managed → Type 0
SameManaged (rds_instance a) (rds_instance b) = SameSpec a b
SameManaged (redis_instance a) (redis_instance b) = SameSpec a b
SameManaged (bucket a) (bucket b) = SameSpec a b
SameManaged (nas_file_system a) (nas_file_system b) = SameSpec a b
SameManaged (nas_mount_target a) (nas_mount_target b) = SameSpec a b
SameManaged (clb a) (clb b) = SameSpec a b
SameManaged (project a) (project b) = SameSpec a b
SameManaged (log_store a) (log_store b) = SameSpec a b
SameManaged (logtail a) (logtail b) = SameSpec a b
SameManaged (logstore_index a) (logstore_index b) = SameSpec a b
SameManaged (machine_group a) (machine_group b) = SameSpec a b
SameManaged (machine_group_binding a) (machine_group_binding b) = SameSpec a b
SameManaged foreign foreign = Unit
SameManaged _ _ = ⊥

pub SameManaged-refl : (a : Managed) → SameManaged a a
unfolding SameManaged
SameManaged-refl (rds_instance a) = SameSpec-refl a
SameManaged-refl (redis_instance a) = SameSpec-refl a
SameManaged-refl (bucket a) = SameSpec-refl a
SameManaged-refl (nas_file_system a) = SameSpec-refl a
SameManaged-refl (nas_mount_target a) = SameSpec-refl a
SameManaged-refl (clb a) = SameSpec-refl a
SameManaged-refl (project a) = SameSpec-refl a
SameManaged-refl (log_store a) = SameSpec-refl a
SameManaged-refl (logtail a) = SameSpec-refl a
SameManaged-refl (logstore_index a) = SameSpec-refl a
SameManaged-refl (machine_group a) = SameSpec-refl a
SameManaged-refl (machine_group_binding a) = SameSpec-refl a
SameManaged-refl foreign = tt

pub SameManaged-trans : (a b c : Managed) → SameManaged a b → SameManaged b c → SameManaged a c
unfolding SameManaged
SameManaged-trans a b c p q = ground arith

-- The kind's two functions belong together.
pub record Fits {P O : Type 0} (k : Kind (Resource P O)) : Type 0 where
  pub same :
      (a : Managed) {cr t : Resource P O}
      → k.of_managed a ≡ some cr
      → SameSpec cr t
      → SameManaged a (k.to_managed t)

pub rds_kind-Fits : Fits rds_kind
unfolding SameManaged
rds_kind-Fits = record { same = λ a h p. ground arith }

pub redis_kind-Fits : Fits redis_kind
unfolding SameManaged
redis_kind-Fits = record { same = λ a h p. ground arith }

pub bucket_kind-Fits : Fits bucket_kind
unfolding SameManaged
bucket_kind-Fits = record { same = λ a h p. ground arith }

pub nas_file_system_kind-Fits : Fits nas_file_system_kind
unfolding SameManaged
nas_file_system_kind-Fits = record { same = λ a h p. ground arith }

pub nas_mount_target_kind-Fits : Fits nas_mount_target_kind
unfolding SameManaged
nas_mount_target_kind-Fits = record { same = λ a h p. ground arith }

pub clb_kind-Fits : Fits clb_kind
unfolding SameManaged
clb_kind-Fits = record { same = λ a h p. ground arith }

pub project_kind-Fits : Fits project_kind
unfolding SameManaged
project_kind-Fits = record { same = λ a h p. ground arith }

pub log_store_kind-Fits : Fits log_store_kind
unfolding SameManaged
log_store_kind-Fits = record { same = λ a h p. ground arith }

pub logtail_kind-Fits : Fits logtail_kind
unfolding SameManaged
logtail_kind-Fits = record { same = λ a h p. ground arith }

pub logstore_index_kind-Fits : Fits logstore_index_kind
unfolding SameManaged
logstore_index_kind-Fits = record { same = λ a h p. ground arith }

pub machine_group_kind-Fits : Fits machine_group_kind
unfolding SameManaged
machine_group_kind-Fits = record { same = λ a h p. ground arith }

pub machine_group_binding_kind-Fits : Fits machine_group_binding_kind
unfolding SameManaged
machine_group_binding_kind-Fits = record { same = λ a h p. ground arith }
