-- ===== src/Clients/Oss/Laws.antt =====
-- What the client of pkg/clients/oss asks of the SDK for the parameters of a bucket.
use provider_alibaba.Base.{String, ◌≡◌, ◌⊎◌, inl, inr, arith, [], ◌∷◌, ◌==◌, eq_iff, if◌then◌else◌}
use provider_alibaba.Go.{Err, err, value, Result-cases}
use provider_alibaba.Apis.Oss.{BucketParameter}
use provider_alibaba.Clients.Oss.{
  Names, SdkClient, acl, storage_class, redundancy_type, validate_oss_acl,
  validate_oss_storage_class, validate_oss_data_redundancy_type, create,
}

-- The words that Alibaba Cloud documents for the three settings.
pub record IsDocumented (N : Names) : Type 0 where
  pub acl_private : N.acl_private ≡ "private"
  pub acl_public_read : N.acl_public_read ≡ "public-read"
  pub acl_public_read_write : N.acl_public_read_write ≡ "public-read-write"
  pub storage_standard : N.storage_standard ≡ "Standard"
  pub storage_ia : N.storage_ia ≡ "IA"
  pub storage_archive : N.storage_archive ≡ "Archive"
  pub storage_cold_archive : N.storage_cold_archive ≡ "ColdArchive"
  pub redundancy_lrs : N.redundancy_lrs ≡ "LRS"
  pub redundancy_zrs : N.redundancy_zrs ≡ "ZRS"

unfoldable pub IsAcl : String → Type 0
IsAcl s = (s ≡ "private") ⊎ (s ≡ "public-read") ⊎ (s ≡ "public-read-write")

unfoldable pub IsStorageClass : String → Type 0
IsStorageClass s = (s ≡ "Standard") ⊎ (s ≡ "IA") ⊎ (s ≡ "Archive") ⊎ (s ≡ "ColdArchive")

unfoldable pub IsRedundancyType : String → Type 0
IsRedundancyType s = (s ≡ "LRS") ⊎ (s ≡ "ZRS")

-- A setting that is left out stands for a default.
abbrev pub or_default : String → String → String
or_default d s = if s == "" then d else s

module _ (N : Names) (D : IsDocumented N) where
  pub validate_oss_acl-accepted :
      (s : String)
      → IsAcl (or_default "private" s)
      → validate_oss_acl N s ≡ value (or_default "private" s)
  unfolding validate_oss_acl IsAcl
  validate_oss_acl-accepted s h = ground (
    arith,
    eq_iff s N.acl_private,
    eq_iff s N.acl_public_read,
    eq_iff s N.acl_public_read_write,
    eq_iff s "",
    eq_iff "" "public-read",
    eq_iff "" "public-read-write",
    D.acl_private,
    D.acl_public_read,
    D.acl_public_read_write,
  )

  pub validate_oss_storage_class-accepted :
      (s : String)
      → IsStorageClass (or_default "Standard" s)
      → validate_oss_storage_class N s ≡ value (or_default "Standard" s)
  unfolding validate_oss_storage_class IsStorageClass
  validate_oss_storage_class-accepted s h = ground (
    arith,
    eq_iff s N.storage_standard,
    eq_iff s N.storage_ia,
    eq_iff s N.storage_archive,
    eq_iff s N.storage_cold_archive,
    eq_iff s "",
    D.storage_standard,
    D.storage_ia,
    D.storage_archive,
    D.storage_cold_archive,
  )

  pub validate_oss_data_redundancy_type-accepted :
      (s : String)
      → IsRedundancyType (or_default "LRS" s)
      → validate_oss_data_redundancy_type N s ≡ value (or_default "LRS" s)
  unfolding validate_oss_data_redundancy_type IsRedundancyType
  validate_oss_data_redundancy_type-accepted s h = ground (
    arith,
    eq_iff s N.redundancy_lrs,
    eq_iff s N.redundancy_zrs,
    eq_iff s "",
    D.redundancy_lrs,
    D.redundancy_zrs,
  )

  pub validate_oss_acl_sound :
      (s : String) {a : String} → validate_oss_acl N s ≡ value a → IsAcl (or_default "private" s)
  unfolding validate_oss_acl IsAcl
  validate_oss_acl_sound s h = ground (
    arith,
    eq_iff s N.acl_private,
    eq_iff s N.acl_public_read,
    eq_iff s N.acl_public_read_write,
    eq_iff s "",
    D.acl_private,
    D.acl_public_read,
    D.acl_public_read_write,
  )

  pub validate_oss_storage_class_sound :
      (s : String) {a : String}
      → validate_oss_storage_class N s ≡ value a
      → IsStorageClass (or_default "Standard" s)
  unfolding validate_oss_storage_class IsStorageClass
  validate_oss_storage_class_sound s h = ground (
    arith,
    eq_iff s N.storage_standard,
    eq_iff s N.storage_ia,
    eq_iff s N.storage_archive,
    eq_iff s N.storage_cold_archive,
    eq_iff s "",
    D.storage_standard,
    D.storage_ia,
    D.storage_archive,
    D.storage_cold_archive,
  )

  pub validate_oss_data_redundancy_type_sound :
      (s : String) {a : String}
      → validate_oss_data_redundancy_type N s ≡ value a
      → IsRedundancyType (or_default "LRS" s)
  unfolding validate_oss_data_redundancy_type IsRedundancyType
  validate_oss_data_redundancy_type_sound s h = ground (
    arith,
    eq_iff s N.redundancy_lrs,
    eq_iff s N.redundancy_zrs,
    eq_iff s "",
    D.redundancy_lrs,
    D.redundancy_zrs,
  )

  module _ {W : Type 0} (c : SdkClient W) where
    -- With the documented words: where the three settings, each with its default, are among them,
    -- `Create` of a bucket makes one request, which carries all three, and returns its answer.
    pub create-accepted :
        (name : String) (p : BucketParameter) (w : W)
        → IsAcl (or_default "private" p.acl)
        → IsStorageClass (or_default "Standard" p.storage_class)
        → IsRedundancyType (or_default "LRS" p.data_redundancy_type)
        → create N c name p w
          ≡ c.create_bucket name
              (acl (or_default "private" p.acl)
                ∷ storage_class (or_default "Standard" p.storage_class)
                ∷ redundancy_type (or_default "LRS" p.data_redundancy_type)
                ∷ [])
              w
    unfolding create
    create-accepted name p w a s r = ground (
      arith,
      validate_oss_acl-accepted p.acl a,
      validate_oss_storage_class-accepted p.storage_class s,
      validate_oss_data_redundancy_type-accepted p.data_redundancy_type r,
    )

    -- With the documented words: where one of the three settings, each with its default, is none of
    -- its words, `Create` of a bucket returns an error and makes no request.
    pub create-rejected :
        (name : String) (p : BucketParameter) (w : W)
        → ¬ (
            IsAcl (or_default "private" p.acl)
            × IsStorageClass (or_default "Standard" p.storage_class)
            × IsRedundancyType (or_default "LRS" p.data_redundancy_type))
        → (e : Err) × (create N c name p w ≡ (err e, w))
    unfolding create
    create-rejected name p w bad = elim (Result-cases (validate_oss_acl N p.acl)) [
      | inr (e, refused) ↦ (e, ground arith)
      | inl (a, yes_a) ↦ elim (Result-cases (validate_oss_storage_class N p.storage_class)) [
        | inr (e, refused) ↦ (e, ground arith)
        | inl (s, yes_s) ↦
            elim (Result-cases (validate_oss_data_redundancy_type N p.data_redundancy_type)) [
              | inr (e, refused) ↦ (e, ground arith)
              | inl (r, yes_r) ↦ absurd (
                  bad (
                    validate_oss_acl_sound p.acl yes_a,
                    validate_oss_storage_class_sound p.storage_class yes_s,
                    validate_oss_data_redundancy_type_sound p.data_redundancy_type yes_r,
                  ))
            ]
      ]
    ]
