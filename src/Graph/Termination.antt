-- ===== src/Graph/Termination.antt =====
-- The graph of graph/build.py as a whole: how and when it ends.
use deskfleet_ticketwarden.Base.{
  ℕ, zero, suc, ◌+◌, ◌*◌, ◌≤◌, ℤ, ◌≡◌, refl, String, Option, none, List, arith, inl, inr,
  text_or_empty,
}
use deskfleet_ticketwarden.Settings.{Settings}
use deskfleet_ticketwarden.Platform.{Platform}
use deskfleet_ticketwarden.Action.{Action, Result, ok, continue}
use deskfleet_ticketwarden.Vocabulary.{Category}
use deskfleet_ticketwarden.Catalog.Tables.{Catalog}
use deskfleet_ticketwarden.Graph.State.{Fact, CaseState}
use deskfleet_ticketwarden.Graph.Client.{LlmClient}
use deskfleet_ticketwarden.Graph.Nodes.{
  classifier, researcher, responder, reviewer, category_or_other,
}
use deskfleet_ticketwarden.Graph.Engine.{
  Node, at_classifier, at_researcher, at_responder, at_reviewer, node_action, run_from, run_graph,
}
use deskfleet_ticketwarden.Graph.Research.{Yields}
use deskfleet_ticketwarden.Graph.Loop.{cap, cap_pos, IsOpen, steps_left, node_action-Advances}

-- A case enters the graph without a decision and before any review.
abbrev pub IsNew : CaseState → Type 0
IsNew s = (s.decision ≡ none) × (s.iterations ≡ 0)

IsNew-IsOpen : (bound : ℤ) (s : CaseState) → IsNew s → IsOpen bound s
IsNew-IsOpen bound s (undecided, none_yet) = record {
  undecided = undecided;
  room = omega (arith, cap_pos bound);
}

abbrev pub Returns : {S A : Type 0} → Result A × S → Type 0
Returns {S} {A} r = (a : A) × (s : S) × (r ≡ (ok a, s))

-- A client whose calls never raise.
pub record IsTotal (llm : LlmClient) : Type 0 where
  pub classify : (ticket : String) (m : llm.Model) → Returns (llm.classify ticket m)
  pub plan_research :
      (ticket : String) (c : Category) (order_id : Option String) (m : llm.Model)
      → Returns (llm.plan_research ticket c order_id m)
  pub draft :
      (ticket : String) (c : Category) (facts : List Fact) (feedback : Option String)
      (m : llm.Model)
      → Returns (llm.draft ticket c facts feedback m)
  pub review :
      (ticket draft : String) (facts : List Fact) (m : llm.Model)
      → Returns (llm.review ticket draft facts m)

pub continue-Returns :
    {S A B : Type 0} (r : Result A × S) (f : A → Action S B)
    → Returns r
    → ((a : A) (s : S) → Returns (f a s))
    → Returns (continue r f)
continue-Returns r f (a, s, e) k = rw e (k a s)

-- The property of a returned value, once the value is known.
Yields-elim :
    {S A : Type 0} (Q : A → Type 0) (r : Result A × S) {a : A} {s : S}
    → r ≡ (ok a, s)
    → Yields Q r
    → Q a
Yields-elim Q r e y = rw e at y

module _ (settings : Settings) (P : Platform) (catalog : Catalog) (llm : LlmClient) where
  no_steps :
      (n : Node) (s : CaseState)
      → IsOpen settings.max_review_iterations s
      → steps_left settings P catalog llm n s ≤ 0
      → ⊥
  no_steps at_classifier s live h = omega arith
  no_steps at_researcher s live h = omega arith
  no_steps at_responder s live h = omega (arith, live.room)
  no_steps at_reviewer s live h = omega (arith, live.room)

module _ (settings : Settings) (P : Platform) (catalog : Catalog) (llm : LlmClient)
    (t : IsTotal llm) where
  node_action-Returns :
      (n : Node) (s : CaseState) (m : llm.Model)
      → Returns (node_action settings P catalog llm n s m)
  unfolding node_action classifier researcher responder reviewer
  node_action-Returns at_classifier s m =
      continue-Returns _ _ (t.classify s.ticket m) λ a m'. (_, m', refl)
  node_action-Returns at_researcher s m =
      continue-Returns _ _ (t.plan_research s.ticket (category_or_other s.category) s.order_id m)
        λ a m'. (_, m', refl)
  node_action-Returns at_responder s m =
      continue-Returns _ _
        (t.draft s.ticket (category_or_other s.category) s.facts s.review_feedback m)
        λ a m'. (_, m', refl)
  node_action-Returns at_reviewer s m =
      continue-Returns _ _ (t.review s.ticket (text_or_empty s.draft) s.facts m)
        λ a m'. (_, m', refl)

  run_from-Returns :
      (limit : ℕ) (n : Node) (s : CaseState) (m : llm.Model)
      → IsOpen settings.max_review_iterations s
      → steps_left settings P catalog llm n s ≤ limit
      → Returns (run_from settings P catalog llm limit n s m)
  unfolding run_from
  run_from-Returns zero n s m live enough = absurd (no_steps settings P catalog llm n s live enough)
  run_from-Returns (suc limit) n s m live enough =
      let (s', m', e) = node_action-Returns n s m in
      let step = Yields-elim _ _ e (node_action-Advances settings P catalog llm n s m live) in
      rw e (elim step [
        | inl (ended, _) ↦ rw ended (s', m', refl)
        | inr (k, goes, live', nearer) ↦
            rw goes (run_from-Returns limit k s' m' live' (omega arith))
      ])

-- Two steps and two more for each review that is allowed are enough: with a client that does not
-- raise, the graph run on a new case returns a state within that many steps and never meets the
-- recursion limit.
pub run_graph-Returns :
    (settings : Settings) (P : Platform) (catalog : Catalog) (llm : LlmClient) (limit : ℕ)
    (s : CaseState) (m : llm.Model)
    → IsTotal llm
    → IsNew s
    → 2 + 2 * cap settings.max_review_iterations ≤ limit
    → Returns (run_graph settings P catalog llm limit s m)
unfolding run_graph
run_graph-Returns settings P catalog llm limit s m t new enough =
    run_from-Returns settings P catalog llm t limit at_classifier s m
      (IsNew-IsOpen settings.max_review_iterations s new) (omega (arith, new.1))
