-- ===== src/Clients/Oss/Service.antt =====
-- What the client of pkg/clients/oss relies on of the OSS service: an interface of the SDK's calls and
-- the buckets that the service keeps, and the client's methods seen as operations on those buckets.
use provider_alibaba.Base.{
  String, ◌≡◌, ◌≢◌, inl, inr, arith, Option, none, some, List, [], ◌∷◌, ◌==◌, eq_iff, if◌then◌else◌,
}
use provider_alibaba.Go.{Err, ok, err, value, as_oss_error, Result-cases}
use provider_alibaba.Apis.Oss.{BucketParameter}
use provider_alibaba.Clients.Oss.{
  Names, SdkClient, CreateOption, acl, storage_class, redundancy_type, BucketInfo, create, update,
  validate_oss_acl, validate_oss_storage_class, validate_oss_data_redundancy_type,
}
use provider_alibaba.Clients.Oss.Laws.{
  IsDocumented, or_default, validate_oss_acl-accepted, validate_oss_acl_sound,
  validate_oss_storage_class-accepted, validate_oss_storage_class_sound,
  validate_oss_data_redundancy_type-accepted, validate_oss_data_redundancy_type_sound,
}

-- The buckets of a service, by name.
abbrev pub Buckets : Type 0
Buckets = String → Option BucketInfo

-- The buckets with another one, or none, under a name.
unfoldable pub put_bucket : String → Option BucketInfo → Buckets → Buckets
put_bucket name b buckets other = if other == name then b else buckets other

-- A new bucket, by the options of `CreateBucket`.
unfoldable pub configure : List CreateOption → BucketInfo → BucketInfo
configure [] b = b
configure (acl a ∷ rest) b = configure rest (record b { acl = a })
configure (storage_class s ∷ rest) b = configure rest (record b { storage_class = s })
configure (redundancy_type r ∷ rest) b = configure rest (record b { redundancy_type = r })

-- `view` shows the buckets that a service keeps in its world, and `blank` what a new bucket has of the
-- service itself. Any call may fail; each law is about one kind of answer. No law says what creating a
-- bucket that exists does to it, nor setting the ACL of one that does not.
pub record Keeps {W : Type 0} (c : SdkClient W) : Type 0 where
  pub view : W → Buckets
  pub blank : String → BucketInfo
  pub get_found :
      (n : String) (w : W) {b : BucketInfo} → (c.get_bucket_info n w).0 ≡ ok b → view w n ≡ some b
  pub get_missing :
      (n : String) (w : W) {e : Err}
      → (c.get_bucket_info n w).0 ≡ err e
      → as_oss_error e ≡ some "NoSuchBucket"
      → view w n ≡ none
  pub get_reads : (n : String) (w : W) → view (c.get_bucket_info n w).1 ≡ view w
  pub create_made :
      (n : String) (l : List CreateOption) (w : W)
      → view w n ≡ none
      → (c.create_bucket n l w).0 ≡ ok tt
      → view (c.create_bucket n l w).1 n ≡ some (configure l (blank n))
  pub create_others :
      (n : String) (l : List CreateOption) (w : W) (m : String)
      → m ≢ n
      → view (c.create_bucket n l w).1 m ≡ view w m
  pub acl_set :
      (n : String) (a : String) (w : W) {b : BucketInfo}
      → view w n ≡ some b
      → (c.set_bucket_acl n a w).0 ≡ ok tt
      → view (c.set_bucket_acl n a w).1 n ≡ some (record b { acl = a })
  pub acl_others :
      (n : String) (a : String) (w : W) (m : String)
      → m ≢ n
      → view (c.set_bucket_acl n a w).1 m ≡ view w m
  pub delete_done :
      (n : String) (w : W) → (c.delete_bucket n w).0 ≡ ok tt → view (c.delete_bucket n w).1 n ≡ none
  pub delete_missing :
      (n : String) (w : W) {e : Err}
      → (c.delete_bucket n w).0 ≡ err e
      → as_oss_error e ≡ some "NoSuchBucket"
      → view (c.delete_bucket n w).1 n ≡ none
  pub delete_others :
      (n : String) (w : W) (m : String) → m ≢ n → view (c.delete_bucket n w).1 m ≡ view w m

-- What a bucket that is created with some parameters looks like.
unfoldable pub wanted : BucketParameter → BucketInfo → BucketInfo
wanted p b = record b {
  acl = or_default "private" p.acl;
  storage_class = or_default "Standard" p.storage_class;
  redundancy_type = or_default "LRS" p.data_redundancy_type;
}

module _ (N : Names) (D : IsDocumented N) where
  validate_oss_acl-value :
      (s : String) {a : String}
      → validate_oss_acl N s ≡ value a
      → value a ≡ value (or_default "private" s)
  validate_oss_acl-value s h =
      cc (h, validate_oss_acl-accepted N D s (validate_oss_acl_sound N D s h))

  validate_oss_storage_class-value :
      (s : String) {a : String}
      → validate_oss_storage_class N s ≡ value a
      → value a ≡ value (or_default "Standard" s)
  validate_oss_storage_class-value s h =
      cc (h, validate_oss_storage_class-accepted N D s (validate_oss_storage_class_sound N D s h))

  validate_oss_data_redundancy_type-value :
      (s : String) {a : String}
      → validate_oss_data_redundancy_type N s ≡ value a
      → value a ≡ value (or_default "LRS" s)
  validate_oss_data_redundancy_type-value s h = cc (
    h,
    validate_oss_data_redundancy_type-accepted N D s
        (validate_oss_data_redundancy_type_sound N D s h),
  )

  module _ {W : Type 0} (c : SdkClient W) where
    -- A successful `Create` sent one request, with the three settings that are wanted.
    create-sent :
        (name : String) (p : BucketParameter) (w : W)
        → (create N c name p w).0 ≡ ok tt
        → create N c name p w
          ≡ c.create_bucket name
              (acl (or_default "private" p.acl)
                ∷ storage_class (or_default "Standard" p.storage_class)
                ∷ redundancy_type (or_default "LRS" p.data_redundancy_type)
                ∷ [])
              w
    unfolding create
    create-sent name p w h = elim (Result-cases (validate_oss_acl N p.acl)) [
      | inr (e, refused) ↦ absurd (ground arith)
      | inl (a, ok_a) ↦ elim (Result-cases (validate_oss_storage_class N p.storage_class)) [
        | inr (e, refused) ↦ absurd (ground arith)
        | inl (s, ok_s) ↦
            elim (Result-cases (validate_oss_data_redundancy_type N p.data_redundancy_type)) [
              | inr (e, refused) ↦ absurd (ground arith)
              | inl (r, ok_r) ↦ ground (
                arith,
                validate_oss_acl-value p.acl ok_a,
                validate_oss_storage_class-value p.storage_class ok_s,
                validate_oss_data_redundancy_type-value p.data_redundancy_type ok_r,
              )
            ]
      ]
    ]

    update-sent :
        (name a : String) (w : W)
        → a ≢ ""
        → (update N c name a w).0 ≡ ok tt
        → update N c name a w ≡ c.set_bucket_acl name a w
    unfolding update
    update-sent name a w given h = elim (Result-cases (validate_oss_acl N a)) [
      | inr (e, refused) ↦ absurd (ground arith)
      | inl (b, ok_b) ↦ ground (arith, validate_oss_acl-value a ok_b, eq_iff a "")
    ]

    module _ (K : Keeps c) where
      pub create-made :
          (name : String) (p : BucketParameter) (w : W)
          → K.view w name ≡ none
          → (create N c name p w).0 ≡ ok tt
          → K.view (create N c name p w).1 name ≡ some (wanted p (K.blank name))
      unfolding wanted configure
      create-made name p w absent h = grind (arith, create-sent name p w h, K.create_made)

      pub create-others :
          (name : String) (p : BucketParameter) (w : W) (m : String)
          → m ≢ name
          → K.view (create N c name p w).1 m ≡ K.view w m
      unfolding create
      create-others name p w m other = grind (arith, K.create_others)

      pub update-made :
          (name a : String) (w : W) {b : BucketInfo}
          → K.view w name ≡ some b
          → a ≢ ""
          → (update N c name a w).0 ≡ ok tt
          → K.view (update N c name a w).1 name ≡ some (record b { acl = a })
      update-made name a w {b} found given h =
          grind (arith, update-sent name a w given h, K.acl_set)

      pub update-others :
          (name a : String) (w : W) (m : String)
          → m ≢ name
          → K.view (update N c name a w).1 m ≡ K.view w m
      unfolding update
      update-others name a w m other = grind (arith, K.acl_others)
