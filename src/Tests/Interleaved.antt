-- ===== src/Tests/Interleaved.antt =====
-- The theorems on the handlers of errors, at the installation.
use nats_replicator.Prelude.{ℕ, ◌≡◌, ◌⊎◌, some, get_elem?, refl, [], ◌∷◌}
use nats_replicator.Prelude.Assoc.{lookup, contains}
use nats_replicator.Prelude.Outcome.{done}
use nats_replicator.Connector.{connector_id}
use nats_replicator.State.{Server}
use nats_replicator.Server.{connector_error, check_connections, mark_broken, unlock_connectors}
use nats_replicator.Server.Waiting.{waiting, union, only, broken, handlers-refine}
use nats_replicator.Server.Twins.{connector_error_same_id}
use nats_replicator.Tests.Numbers.{nat_float}
use nats_replicator.Tests.Samples.{client, nats_connector, working}

-- ConnectorError for the NATS connector, and a check of both connectors.
handlers-refine_example :
    ((s' : Server) × (connector_error working 1 ≡ done s')
      × (waiting s' ≡ union (waiting working) (only (connector_id nats_connector))))
    × ((t : Server) × (check_connections client working ≡ done t)
        × (waiting t
            ≡ union (waiting working) (broken client working.connections working.connectors)))
handlers-refine_example = handlers-refine client working 1 nats_connector refl refl refl

-- Two connectors of the same id, of which the first has failed.
abbrev twins : Server
twins = record working { connectors = nats_connector ∷ nats_connector ∷ []; need_reconnect = [] }

abbrev one_twin_down : Server
one_twin_down = unlock_connectors (mark_broken twins 0 nats_connector)

connector_error_same_id_example :
    (connector_error one_twin_down 1 ≡ done one_twin_down)
    × ((◌≡◌ {A = ℕ} 0 1) ⊎ (get_elem? one_twin_down.connectors 1 ≡ some nats_connector))
unfolding connector_error contains lookup mark_broken
connector_error_same_id_example =
    connector_error_same_id twins one_twin_down 0 1 nats_connector nats_connector refl refl refl
      refl refl refl
