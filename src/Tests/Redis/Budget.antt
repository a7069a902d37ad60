-- ===== src/Tests/Redis/Budget.antt =====
-- The theorems on the requests and the panics of the Redis handlers, over an SDK that counts its calls.
use provider_alibaba.Base.{ℕ, ◌+◌, ◌≤◌, false, ◌≡◌, refl, arith}
use provider_alibaba.Go.{Env, ok, panics}
use provider_alibaba.Crossplane.{Runtime}
use provider_alibaba.Apis.{Managed, redis_instance}
use provider_alibaba.Clients.Redis.{client}
use provider_alibaba.Controller.Redis.{observe, create, update, delete}
use provider_alibaba.Controller.Redis.Requests.{Counts, handlers_count}
use provider_alibaba.Controller.Redis.Safety.{Returns, handlers_return}
use provider_alibaba.Tests.Fixtures.{runtime}
use provider_alibaba.Tests.Redis.{sdk, instance}

-- It makes passwords with no request.
abbrev offline : Runtime ℕ
offline = record runtime { generate_password = λ w. (ok "pw", w) }

sdk-Counts : Counts sdk offline
sdk-Counts = record {
  requests = λ w. w;
  describe_one = λ req w. omega arith;
  create_one = λ req w. omega arith;
  account_one = λ req w. omega arith;
  delete_one = λ req w. omega arith;
  allocate_one = λ req w. omega arith;
  modify_one = λ req w. omega arith;
  spec_one = λ req w. omega arith;
  password_none = λ w. refl;
}

abbrev start : Env Managed ℕ
start = record { cr = redis_instance instance; world = 0 }

handlers_count_example :
    ((observe (client sdk) offline start).1.world ≤ 0 + 3)
    × ((create (client sdk) offline start).1.world ≤ 0 + 1)
    × ((update (client sdk) offline start).1.world ≤ 0 + 1)
    × ((delete (client sdk) offline start).1.world ≤ 0 + 1)
unfolding sdk-Counts
handlers_count_example = handlers_count sdk offline sdk-Counts start

sdk-Returns : Returns sdk offline
sdk-Returns = record {
  describe_returns = λ req w. refl;
  create_returns = λ req w. refl;
  account_returns = λ req w. refl;
  delete_returns = λ req w. refl;
  allocate_returns = λ req w. refl;
  modify_returns = λ req w. refl;
  spec_returns = λ req w. refl;
  password_returns = λ w. refl;
}

handlers_return_example :
    (panics (observe (client sdk) offline start).0 ≡ false)
    × (panics (create (client sdk) offline start).0 ≡ false)
    × (panics (update (client sdk) offline start).0 ≡ false)
    × (panics (delete (client sdk) offline start).0 ≡ false)
handlers_return_example = handlers_return sdk offline sdk-Returns start
