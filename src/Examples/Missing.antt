-- ===== src/Examples/Missing.antt =====
-- The missing pods of the sample test.
use mathlib.Core.List.Perm
use grpc_test_infra.Base.{List, [], ◌∷◌, returns, ◌≡◌, refl}
use grpc_test_infra.Config.Constants.{server_role}
use grpc_test_infra.Kube.{Pod}
use grpc_test_infra.Status.Missing.{LoadTestMissing, MapOrder, check_missing_pods}
use grpc_test_infra.Status.Missing.Contract.{
  IsOrder, IsNamed, IsMissing, check_missing_pods-IsMissing,
}
use grpc_test_infra.Examples.Fixtures.{test, driver, active, pod_of}

abbrev pub in_order : MapOrder
in_order = record { clients = λ m. m; servers = λ m. m }

pub in_order-IsOrder : IsOrder in_order
in_order-IsOrder = record { clients = λ m. Perm.refl m; servers = λ m. Perm.refl m }

pub test-IsNamed : IsNamed test driver "d"
test-IsNamed = record {
  has_driver = refl;
  named = refl;
  clients = (refl, (refl, tt), (refl, tt, tt));
  servers = (refl, tt, tt);
}

abbrev server_pod : List Pod
server_pod = pod_of server_role "s" (active "run" ∷ []) ∷ []

check_missing_pods-IsMissing_example :
    (m : LoadTestMissing) × (check_missing_pods in_order test server_pod ≡ returns m)
    × IsMissing test driver "d" server_pod m
check_missing_pods-IsMissing_example =
    check_missing_pods-IsMissing in_order test driver "d" server_pod in_order-IsOrder test-IsNamed
