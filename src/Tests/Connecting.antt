-- ===== src/Tests/Connecting.antt =====
-- The theorems on endpoints and connections at one cluster.
use provider_alibaba.Base.{ℕ, suc, some, [], ◌≡◌, ◌↔◌}
use provider_alibaba.Go.{value, Result, ok, err, message}
use provider_alibaba.Apis.{bucket, bucket_kind}
use provider_alibaba.Apis.Oss.{Bucket}
use provider_alibaba.Util.Kube.{Kube}
use provider_alibaba.Util.Client.{ClientEstablishmentInfo}
use provider_alibaba.Util.Connect.{connect_with}
use provider_alibaba.Util.Connect.Served.{Served, connect_with_iff}
use provider_alibaba.Tests.Fixtures.{kube}

abbrev photos : Bucket
photos = record {
  kind = "Bucket";
  name = "photos";
  external_name = "photos";
  provider_config_reference = some "default";
  for_provider = record { acl = "private"; storage_class = ""; data_redundancy_type = "" };
  at_provider = record { extranet_endpoint = ""; intranet_endpoint = ""; message = "" };
  conditions = [];
}

abbrev info : ClientEstablishmentInfo
info = record {
  access_key_id = "id";
  access_key_secret = "key";
  security_token = "token";
  region = "cn-beijing";
  endpoint = "http://oss-cn-beijing.aliyuncs.com";
}

-- The client is the information that it is made from.
abbrev make : ClientEstablishmentInfo → Result ClientEstablishmentInfo
make i = value i

-- Its tracker refuses every resource.
abbrev untracked : Kube ℕ
untracked = record kube { track = λ mg w. (err (message "no usage"), suc w) }

connect_with_iff_example :
    ((connect_with kube make bucket_kind "not a bucket" "no client" (bucket photos) 0).0 ≡ ok info)
    ↔ Served kube make bucket_kind (bucket photos) 0 info
connect_with_iff_example =
    connect_with_iff kube make bucket_kind "not a bucket" "no client" (bucket photos) 0 info
