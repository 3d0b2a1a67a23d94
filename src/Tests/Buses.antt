-- ===== src/Tests/Buses.antt =====
-- bus.cpp at concrete inputs.
use nng_examples.Bytes.{Bytes, text}
use nng_examples.Prelude.{List, ◌∷◌, ◌+◌, ◌≡◌, ◌≢◌, [], none, arith}
use nng_examples.Platform.Host.{run, after}
use nng_examples.Tests.Machine.{machine, texts, start}
use nng_examples.Bus
use nng_examples.Bus.Mesh.{dials_of, targets-mesh}
use nng_examples.Bus.Setup.{Joined, setup_bus-Joined}

targets-mesh_example :
    (Bus.targets 4 0 ≢ none)
    × (Bus.targets 4 3 ≢ none)
    × (dials_of 0 (Bus.targets 4 0) ≡ 0)
    × (dials_of 3 (Bus.targets 4 3) ≡ 0)
    × (dials_of 3 (Bus.targets 4 0) + dials_of 0 (Bus.targets 4 3) ≡ 1)
targets-mesh_example = targets-mesh 4 0 3 (omega arith) (omega arith) (omega arith)

setup_bus-Joined_example :
    Joined texts Bus.uris 1 2
      (start []).view
      (run machine (Bus.setup_bus Bus.uris 1 2) (start [])).0
      (after machine (Bus.setup_bus Bus.uris 1 2) (start []))
setup_bus-Joined_example =
    setup_bus-Joined machine (start []) Bus.uris 1 2 (omega arith) (omega arith)

abbrev args : List Bytes
args = text "bus" ∷ text "2" ∷ []
