-- ===== src/Util/Endpoint.antt =====
-- pkg/util/endpoint.go
pub mod Laws
use provider_alibaba.Base.{String, ◌<>◌, not, ◌&&◌, ◌||◌, Option, none, some, ◌==◌, if◌then◌else◌}
use provider_alibaba.Go.{Result, value, error, message}
use provider_alibaba.Util.Kube.{Kube}

abbrev pub domain : String
domain = "aliyuncs.com"

abbrev pub err_region_not_valid : String
err_region_not_valid = "region is not valid"

abbrev pub err_cloud_resource_not_supported : String
err_cloud_resource_not_supported = "cloud resource is not supported"

-- The kinds, each `reflect.TypeOf(T{}).Name()` in its package.
abbrev pub bucket_kind_name : String
bucket_kind_name = "Bucket"

abbrev pub nas_file_system_kind_name : String
nas_file_system_kind_name = "NASFileSystem"

abbrev pub nas_mount_target_kind_name : String
nas_mount_target_kind_name = "NASMountTarget"

abbrev pub clb_kind_name : String
clb_kind_name = "CLB"

abbrev pub project_kind_name : String
project_kind_name = "Project"

abbrev pub sls_group : String
sls_group = "sls.alibaba.crossplane.io"

module _ {W : Type 0} (K : Kube W) where
  abbrev pub project_group_kind : String
  project_group_kind = K.group_kind sls_group project_kind_name

  -- The `switch` on the kind.
  abbrev pub endpoint_of : String → String → Result String
  endpoint_of kind region =
      if kind == bucket_kind_name
      then value ("http://oss-" <> (region <> ("." <> domain)))
      else if (kind == nas_file_system_kind_name) || (kind == nas_mount_target_kind_name)
      then value ("nas." <> (region <> ("." <> domain)))
      else if kind == clb_kind_name
      then value ("slb." <> domain)
      else if kind == project_group_kind
      then value (region <> (".log." <> domain))
      else error (message err_cloud_resource_not_supported)

  -- `GetEndpoint` on an object that may be nil, given by its kind.
  unfoldable pub get_endpoint : Option String → String → Result String
  get_endpoint none region = error (message err_cloud_resource_not_supported)
  get_endpoint (some kind) region =
      if (region == "") && not (kind == clb_kind_name)
      then error (message err_region_not_valid)
      else endpoint_of kind region
