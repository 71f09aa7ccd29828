-- ===== src/KubeHelpers.antt =====
-- kubehelpers/pods.go.
use grpc_test_infra.Base.{String, Option, none, some, List, [], ◌∷◌, ◌==◌, if◌then◌else◌}
use grpc_test_infra.Kube.{Container}

-- The first container of the name.
unfoldable pub container_for_name : String → List Container → Option Container
container_for_name name [] = none
container_for_name name (c ∷ cs) =
    let later = container_for_name name cs in if c.name == name then some c else later

-- Writing through the pointer that `ContainerForName` returns.
unfoldable pub write_container : String → Container → List Container → List Container
write_container name new [] = []
write_container name new (c ∷ cs) =
    let later = write_container name new cs in if c.name == name then new ∷ cs else c ∷ later
