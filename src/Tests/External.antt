-- ===== src/Tests/External.antt =====
-- The theorem on histories of any resource, at a bucket that two controllers handle.
use provider_alibaba.Base.{ℕ}
use provider_alibaba.Go.{Env}
use provider_alibaba.Apis.{Managed, bucket}
use provider_alibaba.Apis.Frame.{SameManaged}
use provider_alibaba.Controller.External.{External, oss_external, redis_external, create, observe}
use provider_alibaba.Controller.External.Lifecycle.{Step, Reach, Reach-SameManaged}
use provider_alibaba.Clients.Redis.{client}
use provider_alibaba.Tests.Fixtures.{runtime}
use provider_alibaba.Tests.Oss.{photos, service}
use provider_alibaba.Tests.Redis.{sdk}

abbrev start : Env Managed ℕ
start = record { cr = bucket photos; world = 0 }

abbrev of_buckets : External ℕ
of_buckets = oss_external service

-- It refuses the bucket.
abbrev of_caches : External ℕ
of_caches = redis_external (client sdk) runtime

abbrev second : Env Managed ℕ
second = (create of_buckets start).1

abbrev third : Env Managed ℕ
third = (create of_caches second).1

abbrev fourth : Env Managed ℕ
fourth = (observe of_buckets third).1

abbrev history : Reach start fourth
history =
    Reach.next
      (Reach.next (Reach.next Reach.here (Step.creates of_buckets start))
        (Step.creates of_caches second))
      (Step.observes of_buckets third)

Reach-SameManaged_example : SameManaged start.cr fourth.cr
Reach-SameManaged_example = Reach-SameManaged history
