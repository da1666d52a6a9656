-- ===== src/Graph/Loop.antt =====
-- The review loop of graph/nodes.py and graph/edges.py: its bound, and how a case goes through it.
use Prim.Native.Nat.{zero}
use deskfleet_ticketwarden.Graph.Research.{Yields-bind, Yields-then, Yields}
use deskfleet_ticketwarden.Graph.Engine.{
  at_classifier, at_researcher, at_responder, target_of, to_node, to_end, at_reviewer, Node, edge,
  run_from, node_action,
}
use deskfleet_ticketwarden.Base.{
  lt_of_leb, text_or_empty, ◌+◌, ap, ◌-◌, ◌*◌, leb→le, ℕ, suc, ◌≤◌, ◌<◌, ℤ, ◌≡◌, refl, sym, ◌∙◌,
  String, none, some, arith, if◌then◌else◌, Bool-cases, inl, inr, ◌⊎◌, ltb, leb, reaches,
}
use deskfleet_ticketwarden.Settings.{Settings}
use deskfleet_ticketwarden.Platform.{Platform}
use deskfleet_ticketwarden.Vocabulary.{Decision}
use deskfleet_ticketwarden.Catalog.Tables.{Catalog}
use deskfleet_ticketwarden.Graph.State.{CaseState}
use deskfleet_ticketwarden.Graph.Client.{Verdict, LlmClient}
use deskfleet_ticketwarden.Graph.Nodes.{
  category_or_other, reviewer, responder, researcher, classifier, judged_state, Route,
  route_after_review,
}

-- How many reviews there can be: a bound below 1 still allows one.
abbrev pub cap : ℤ → ℕ
cap (ℤ.pos n) = if ltb n 1 then 1 else n
cap (ℤ.negsuc n) = 1

reaches-cap : (k : ℕ) (bound : ℤ) → 1 ≤ k → reaches k bound ≡ leb (cap bound) k
reaches-cap k (ℤ.pos n) h = ground arith
reaches-cap k (ℤ.negsuc n) h = ground arith

pub cap_pos : (bound : ℤ) → 1 ≤ cap bound
cap_pos (ℤ.pos n) = ground arith
cap_pos (ℤ.negsuc n) = omega arith

-- A case that is still under review.
pub record IsOpen (bound : ℤ) (s : CaseState) : Type 0 where
  pub undecided : s.decision ≡ none
  pub room : s.iterations < cap bound

-- How a case leaves the loop: resolved with its feedback cleared, or escalated with a reason once
-- the last review that is allowed has rejected it.
pub record IsClosed (bound : ℤ) (s : CaseState) : Type 0 where
  pub reviewed : 1 ≤ s.iterations
  pub bounded : s.iterations ≤ cap bound
  pub verdict :
      ((s.decision ≡ some Decision.resolved) × (s.review_feedback ≡ none))
      ⊎ ((s.decision ≡ some Decision.escalate)
          × (s.iterations ≡ cap bound)
          × ((reason : String) × (s.escalation_reason ≡ some reason)))

module _ (settings : Settings) (P : Platform) (catalog : Catalog) (llm : LlmClient) where
  -- One review: the case is closed and routed to the end, or stays open with one review more and is
  -- routed back.
  judged_cases :
      (s : CaseState) (v : Verdict)
      → IsOpen settings.max_review_iterations s
      → let s' = judged_state settings P catalog llm s v in
        ((route_after_review settings s' ≡ Route.finish)
          × IsClosed settings.max_review_iterations s')
        ⊎ ((route_after_review settings s' ≡ Route.retry)
            × IsOpen settings.max_review_iterations s'
            × (s'.iterations ≡ suc s.iterations))
  unfolding route_after_review
  judged_cases s v live =
      let bound = settings.max_review_iterations in
      let at_cap = reaches-cap (suc s.iterations) bound (omega arith) in
      elim (Bool-cases v.approved) [
        | inl yes_ ↦ rw yes_ (
            inl (
              refl,
              record {
                reviewed = omega arith;
                bounded = omega (arith, live.room);
                verdict = inl (refl, refl);
              },
            ))
        | inr rejected ↦ elim (Bool-cases (reaches (suc s.iterations) bound)) [
          | inl last ↦
              let full : cap bound ≤ suc s.iterations = leb→le _ _ (sym at_cap ∙ last) in
              rw (rejected, last)
                (inl (
                  rw last refl,
                  record {
                    reviewed = omega arith;
                    bounded = omega (arith, live.room);
                    verdict = inr (refl, omega (arith, live.room), (_, refl));
                  },
                ))
          | inr more ↦
              let left : suc s.iterations < cap bound = lt_of_leb _ _ (sym at_cap ∙ more) in
              rw (rejected, more)
                (inr (
                  rw (live.undecided, more),
                  record { undecided = live.undecided; room = left },
                  refl,
                ))
        ]
      ]

  -- The steps that are left, at most, before a case leaves the graph.
  abbrev pub steps_left : Node → CaseState → ℕ
  steps_left at_reviewer s = 2 * (cap settings.max_review_iterations - s.iterations) - 1
  steps_left at_responder s = 2 * (cap settings.max_review_iterations - s.iterations)
  steps_left at_researcher s = 2 * (cap settings.max_review_iterations - s.iterations) + 1
  steps_left at_classifier s = 2 * (cap settings.max_review_iterations - s.iterations) + 2

  -- What a node returns: a closed case that goes to the end, or an open one that is nearer to it.
  abbrev pub Advances : Node → CaseState → CaseState → Type 0
  Advances n s s' =
      ((edge settings P catalog llm n s' ≡ to_end) × IsClosed settings.max_review_iterations s')
      ⊎ ((k : Node) × (edge settings P catalog llm n s' ≡ to_node k)
          × IsOpen settings.max_review_iterations s'
          × (steps_left k s' < steps_left n s))

  reviewer-Advances :
      (s : CaseState) (v : Verdict)
      → IsOpen settings.max_review_iterations s
      → Advances at_reviewer s (judged_state settings P catalog llm s v)
  unfolding edge
  reviewer-Advances s v live = elim (judged_cases s v live) [
    | inl (finished, closed) ↦ inl (ap target_of finished, closed)
    | inr (again, live', one_more) ↦
        inr
          (at_responder, ap target_of again, live', omega (arith, one_more, live'.room, live.room))
  ]

  pub node_action-Advances :
      (n : Node) (s : CaseState) (m : llm.Model)
      → IsOpen settings.max_review_iterations s
      → Yields (Advances n s) (node_action settings P catalog llm n s m)
  unfolding node_action edge classifier researcher responder reviewer
  node_action-Advances at_classifier s m live = Yields-bind _ (llm.classify s.ticket) _ m λ a m'.
      inr
        (at_researcher, refl, record { undecided = live.undecided; room = live.room }, omega arith)
  node_action-Advances at_researcher s m live =
      Yields-bind _ (llm.plan_research s.ticket (category_or_other s.category) s.order_id) _ m
        λ a m'.
          inr (
            at_responder,
            refl,
            record { undecided = live.undecided; room = live.room },
            omega arith,
          )
  node_action-Advances at_responder s m live =
      Yields-bind _ (llm.draft s.ticket (category_or_other s.category) s.facts s.review_feedback) _
        m
        λ a m'. inr (
          at_reviewer,
          refl,
          record { undecided = live.undecided; room = live.room },
          omega (arith, live.room),
        )
  node_action-Advances at_reviewer s m live =
      Yields-bind _ (llm.review s.ticket (text_or_empty s.draft) s.facts) _ m
        λ v m'. reviewer-Advances s v live

  pub run_from-IsClosed :
      (limit : ℕ) (n : Node) (s : CaseState) (m : llm.Model)
      → IsOpen settings.max_review_iterations s
      → Yields
          (IsClosed settings.max_review_iterations)
          (run_from settings P catalog llm limit n s m)
  unfolding run_from
  run_from-IsClosed zero n s m live = tt
  run_from-IsClosed (suc limit) n s m live =
      Yields-then _ _ (node_action settings P catalog llm n s) _ m (node_action-Advances n s m live)
        λ s' m' step. elim step [
          | inl (ended, closed) ↦ rw ended closed
          | inr (k, goes, live', _) ↦ rw goes (run_from-IsClosed limit k s' m' live')
        ]
