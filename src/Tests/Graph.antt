-- ===== src/Tests/Graph.antt =====
-- The compiled graph with a scripted model.
use deskfleet_ticketwarden.Action.{raised}
use deskfleet_ticketwarden.Base.{◌≡◌, refl, some, arith}
use deskfleet_ticketwarden.Vocabulary.{Decision}
use deskfleet_ticketwarden.Settings.{defaults}
use deskfleet_ticketwarden.Graph.State.{CaseState}
use deskfleet_ticketwarden.Graph.Engine.{recursion_error, edge, node_action, run_from, run_graph}
use deskfleet_ticketwarden.Graph.Nodes.{
  route_after_review, reviewer, responder, classifier, researcher,
}
use deskfleet_ticketwarden.Graph.Research.{Yields}
use deskfleet_ticketwarden.Graph.Termination.{Returns, run_graph-Returns}
use deskfleet_ticketwarden.Tests.Fixtures.{platform, catalog, scripted, scripted-IsTotal, fresh}

run_graph-Returns_example : Returns (run_graph defaults platform catalog scripted 6 fresh 0)
run_graph-Returns_example =
    run_graph-Returns defaults platform catalog scripted 6 fresh 0 scripted-IsTotal (refl, refl)
      (ground arith)

-- The first draft is rejected and the second approved.
approved_at_second :
    Yields
      (λ (s : CaseState). (s.decision ≡ some Decision.resolved) × (s.iterations ≡ 2))
      (run_graph defaults platform catalog scripted 6 fresh 0)
unfolding run_graph run_from node_action edge classifier researcher responder reviewer
    route_after_review
approved_at_second = (refl, refl)

-- Two reviews take six steps; five are too few.
too_few : (run_graph defaults platform catalog scripted 5 fresh 0).0 ≡ raised recursion_error
unfolding run_graph run_from node_action edge classifier researcher responder reviewer
    route_after_review
too_few = refl
