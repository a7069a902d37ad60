-- ===== src/Clients/Oss/Validation.antt =====
-- The three validations of pkg/clients/oss/oss.go: a parameter, or its default, in the SDK's terms.
use provider_alibaba.Base.{String, ◌<>◌, ◌||◌, ◌==◌, if◌then◌else◌}
use provider_alibaba.Go.{Result, value, error, message}
use provider_alibaba.Clients.Oss.Sdk.{Names}

module _ (N : Names) where
  unfoldable pub validate_oss_acl : String → Result String
  validate_oss_acl s =
      if s == N.acl_public_read
      then value N.acl_public_read
      else if s == N.acl_public_read_write
      then value N.acl_public_read_write
      else if (s == N.acl_private) || (s == "")
      then value N.acl_private
      else error (
          message (
            "bucket ACL "
            <> (s
                <> " is invalid. The ACL could only be public-read-write, public-read, and private")))

  unfoldable pub validate_oss_storage_class : String → Result String
  validate_oss_storage_class s =
      if (s == N.storage_standard) || (s == "")
      then value N.storage_standard
      else if s == N.storage_ia
      then value N.storage_ia
      else if s == N.storage_archive
      then value N.storage_archive
      else if s == N.storage_cold_archive
      then value N.storage_cold_archive
      else error (
          message (
            "bucket StorageClass "
            <> (s
                <> " is invalid. It only supports could be Standard, IA, Archive, and ColdArchive")))

  -- The message prints the result variable, which is still empty, and not the parameter.
  unfoldable pub validate_oss_data_redundancy_type : String → Result String
  validate_oss_data_redundancy_type s =
      if (s == N.redundancy_lrs) || (s == "")
      then value N.redundancy_lrs
      else if s == N.redundancy_zrs
      then value N.redundancy_zrs
      else error (
          message (
            "bucket DataRedundancyType "
            <> ("" <> " is invalid. It only supports could be LRS and ZRS")))
