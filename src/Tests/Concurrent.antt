-- ===== src/Tests/Concurrent.antt =====
-- Two requests at the same time.
use deskfleet_ticketwarden.Routes.Race.{
  Reach, Reach-IsServed, GraphCache, IsServed, miss, build, keep, here, later, reading,
}
use deskfleet_ticketwarden.Tests.Fixtures.{failing}
use deskfleet_ticketwarden.Action.{Result, ok, raised}
use deskfleet_ticketwarden.Service.Cases.{guardrail_entries}
use deskfleet_ticketwarden.Service.Concurrent.Recorded.{Runs-IsTraced, IsTraced}
use deskfleet_ticketwarden.Graph.Nodes.{
  route_after_review, reviewer, responder, researcher, classifier,
}
use deskfleet_ticketwarden.Graph.Engine.{edge, node_action, run_from, run_graph}
use deskfleet_ticketwarden.Costing.{estimate_cost}
use deskfleet_ticketwarden.Usage.{has_usage}
use deskfleet_ticketwarden.Injection.Leak.{detect_prompt_leak}
use deskfleet_ticketwarden.Pii.{redact_pii}
use deskfleet_ticketwarden.Injection.{is_injection}
use deskfleet_ticketwarden.Service.Concurrent.Isolation.{trail-Runs}
use deskfleet_ticketwarden.Service.Concurrent.Sequential.{resolve_case-writes}
use deskfleet_ticketwarden.Service.Concurrent.Counters.{Runs-IsConsistent}
use deskfleet_ticketwarden.Service.Resolve.{
  Invoke, refusal_response, round_latency, account, redact_reply, ResolveResponse, ticket_id,
  resolve_case,
}
use deskfleet_ticketwarden.Service.Concurrent.Trails.{trail}
use deskfleet_ticketwarden.Service.Consistency.{IsConsistent}
use deskfleet_ticketwarden.Base.{inr, inl, some, ◌⊎◌, none, ◌≡◌, refl, List, [], ◌∷◌, ◌++◌}
use deskfleet_ticketwarden.Service.Concurrent.{Write, perform_all, resolve_case_writes}
use deskfleet_ticketwarden.Service.Concurrent.Interleaving.{
  result_of, none_left, right, done, writes_of, one_more, left, Interleaves, Merges, Job, Runs,
}
use deskfleet_ticketwarden.Tests.Fixtures.{environment, moment, graph, request, attack, world}

-- One write of each in turn.
abbrev take_turns : List Write → List Write → List Write
take_turns [] ys = ys
take_turns (x ∷ xs) [] = x ∷ xs
take_turns (x ∷ xs) (y ∷ ys) = x ∷ y ∷ take_turns xs ys

rest_left : (xs : List Write) → Interleaves xs [] xs
rest_left [] = done
rest_left (x ∷ xs) = left (rest_left xs)

rest_right : (ys : List Write) → Interleaves [] ys ys
rest_right [] = done
rest_right (y ∷ ys) = right (rest_right ys)

take_turns-Interleaves : (xs ys : List Write) → Interleaves xs ys (take_turns xs ys)
take_turns-Interleaves [] ys = rest_right ys
take_turns-Interleaves (x ∷ xs) [] = rest_left (x ∷ xs)
take_turns-Interleaves (x ∷ xs) (y ∷ ys) = left (right (take_turns-Interleaves xs ys))

abbrev asking : Job
asking = record { at = moment; invoke = graph; request = request }

abbrev attacking : Job
attacking = record { at = record moment { hex = "ba9876543210" }; invoke = graph; request = attack }

-- In turns, and one after the other.
abbrev in_turns : List Write
in_turns = take_turns (writes_of environment asking) (writes_of environment attacking)

abbrev in_order : List Write
in_order = writes_of environment asking ++ writes_of environment attacking

two_threads : (xs ys zs : List Write) → Interleaves xs ys zs → Merges (xs ∷ ys ∷ []) zs
two_threads xs ys zs way = one_more (one_more none_left (rest_left ys)) way

Runs-in_turns : Runs environment (asking ∷ attacking ∷ []) in_turns
Runs-in_turns = two_threads _ _ _ (take_turns-Interleaves _ _)

resolve_case-writes_run : resolve_case environment moment graph request world ≡ (
  (resolve_case_writes environment moment graph request).0,
  perform_all environment.platform (resolve_case_writes environment moment graph request).1 world,
)
resolve_case-writes_run = resolve_case-writes environment moment graph request world

Runs-IsConsistent_example : IsConsistent (perform_all environment.platform in_turns world)
Runs-IsConsistent_example =
    Runs-IsConsistent environment (asking ∷ attacking ∷ []) in_turns world Runs-in_turns
      (record { events = λ key. refl; calls = λ tool status. refl })

-- The attack is refused while the other request runs.
trail-Runs_example :
    trail (ticket_id environment attacking.at) (perform_all environment.platform in_turns world)
    ≡ trail
        (ticket_id environment attacking.at)
        (resolve_case environment attacking.at attacking.invoke attacking.request world).1
trail-Runs_example =
    trail-Runs environment (asking ∷ []) [] attacking in_turns world (refl, tt) tt Runs-in_turns

-- The response to the question, whichever way the attack is served.
abbrev response : ResolveResponse
response = elim (result_of environment asking) [
  | ok resp ↦ resp
  | raised e ↦ refusal_response environment moment none
]

Runs-IsTraced_example :
    (response.ticket_id ≡ ticket_id environment moment)
    × IsTraced environment
        (guardrail_entries environment moment graph request)
        response
        (trail response.ticket_id (perform_all environment.platform in_turns world))
unfolding resolve_case_writes is_injection redact_pii redact_reply detect_prompt_leak account
    has_usage round_latency estimate_cost run_graph run_from node_action edge classifier researcher
    responder reviewer route_after_review
Runs-IsTraced_example =
    Runs-IsTraced environment [] (attacking ∷ []) asking in_turns world {resp = response} tt
      (refl, tt) Runs-in_turns tt tt refl

-- Two requests that find no graph: both compile one, and the second one's is kept.
abbrev AnyOf : Result Invoke → Type 0
AnyOf r = (r ≡ ok graph) ⊎ (r ≡ ok failing)

abbrev no_graph : GraphCache
no_graph = record { graph = none; stage = λ i. reading }

both_compile : (s : GraphCache) × Reach AnyOf no_graph s × (s.graph ≡ some failing)
both_compile = (
  _,
  later
      (later
        (later
          (later (later (later here (miss 0 refl refl)) (miss 1 refl refl))
            (build 0 refl (inl refl)))
          (keep 0 refl))
        (build 1 refl (inr refl)))
      (keep 1 refl),
  refl,
)

Reach-IsServed_example : IsServed AnyOf no_graph both_compile.0
Reach-IsServed_example = Reach-IsServed AnyOf no_graph both_compile.0 (λ i. refl) both_compile.1
