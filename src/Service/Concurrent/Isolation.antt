-- ===== src/Service/Concurrent/Isolation.antt =====
-- A request (`resolve_case` of service.py) among others that run at the same time.
use deskfleet_ticketwarden.Injection.Leak.{detect_prompt_leak}
use deskfleet_ticketwarden.Service.Concurrent.Sequential.{resolve_case-writes}
use deskfleet_ticketwarden.Service.Resolve.{resolve_case}
use mathlib.Core.List.{map-append}
use mathlib.Core.Path.{subst}
use deskfleet_ticketwarden.Base.{
  ◌&&◌, ℕ, Bool, true, false, ◌≡◌, refl, ap, sym, ◌∙◌, String, Option, some, List, [], ◌∷◌, ◌++◌,
  map, filter, All, All-append, str_eq, Bool-cases, inl, inr,
}
use deskfleet_ticketwarden.Service.Effects.{World}
use deskfleet_ticketwarden.Service.Concurrent.{
  round_latency, estimate_cost, account, decision_of, is_resolved, guard_writes, redact_reply,
  final_of, ok, detect_injection, elapsed, new_collector, raised, withhold_writes, refused_state,
  initial_state, finish_writes, redact_pii, Result, ResolveRequest, Decision, persist_writes,
  answer_writes, UsageCollector, refuse_writes, Invoke, call_writes, CaseState, resolve_case_writes,
  status_writes, ToolRecord, ticket_id, Moment, ToolStatus, calls_writes, Environment, Write,
  perform_all,
}
use deskfleet_ticketwarden.Service.Concurrent.Interleaving.{
  Runs, writes_of, Job, done, none_left, right, left, one_more, Interleaves, Merges,
}
use deskfleet_ticketwarden.Service.Concurrent.Trails.{concerns, trail, trail-filter}

-- Writes that do not concern a ticket.
abbrev IsForeign : String → List Write → Type 0
IsForeign id = All (λ (x : Write). concerns id x ≡ false)

module _ (id : String) where
  filter-foreign :
      {xs ys zs : List Write}
      → Interleaves xs ys zs
      → IsForeign id xs
      → filter (concerns id) zs ≡ filter (concerns id) ys
  filter-foreign done foreign = refl
  filter-foreign (left way) foreign = rw foreign.0 (filter-foreign way foreign.1)
  filter-foreign (right {y} way) foreign = elim (Bool-cases (concerns id y)) [
    | inl mine ↦ rw mine (ap (λ rest. y ∷ rest) (filter-foreign way foreign))
    | inr other ↦ rw other (filter-foreign way foreign)
  ]

  Interleaves-sym : {xs ys zs : List Write} → Interleaves xs ys zs → Interleaves ys xs zs
  Interleaves-sym done = done
  Interleaves-sym (left way) = right (Interleaves-sym way)
  Interleaves-sym (right way) = left (Interleaves-sym way)

  Interleaves-IsForeign :
      {xs ys zs : List Write}
      → Interleaves xs ys zs
      → IsForeign id xs
      → IsForeign id ys
      → IsForeign id zs
  Interleaves-IsForeign done one other = tt
  Interleaves-IsForeign (left way) one other = (one.0, Interleaves-IsForeign way one.1 other)
  Interleaves-IsForeign (right way) one other = (other.0, Interleaves-IsForeign way one other.1)

  Merges-IsForeign :
      {threads : List (List Write)} {zs : List Write}
      → Merges threads zs
      → All (IsForeign id) threads
      → IsForeign id zs
  Merges-IsForeign none_left foreign = tt
  Merges-IsForeign (one_more others way) foreign =
      Interleaves-IsForeign way foreign.0 (Merges-IsForeign others foreign.1)

  filter-Merges :
      (before after : List (List Write)) (own : List Write) {zs : List Write}
      → All (IsForeign id) before
      → All (IsForeign id) after
      → Merges (before ++ own ∷ after) zs
      → filter (concerns id) zs ≡ filter (concerns id) own
  filter-Merges [] after own none_before foreign (one_more others way) =
      filter-foreign (Interleaves-sym way) (Merges-IsForeign others foreign)
  filter-Merges (xs ∷ before) after own foreign_before foreign (one_more others way) =
      filter-foreign way foreign_before.0
      ∙ filter-Merges before after own foreign_before.1 foreign others

module _ (id : String) (now : ℕ) (owner : String) (differs : str_eq owner id ≡ false) where
  status_writes-IsForeign :
      (status : ToolStatus) (name : String) → IsForeign id (status_writes now owner status name)
  status_writes-IsForeign ToolStatus.blocked name = (differs, (refl, tt))
  status_writes-IsForeign ToolStatus.sanitized name = (differs, (refl, tt))
  status_writes-IsForeign ToolStatus.ok name = tt
  status_writes-IsForeign ToolStatus.error name = tt

  calls_writes-IsForeign : (calls : List ToolRecord) → IsForeign id (calls_writes now owner calls)
  unfolding calls_writes
  calls_writes-IsForeign [] = tt
  calls_writes-IsForeign (call ∷ calls) =
      All-append (λ (x : Write). concerns id x ≡ false) (call_writes now owner call) _
        (differs, (refl, status_writes-IsForeign call.status call.tool_name))
        (calls_writes-IsForeign calls)

module _ (id : String) (env : Environment) (at : Moment) where
  module _ (differs : str_eq (ticket_id env at) id ≡ false) where
    persist_writes-IsForeign :
        (state : CaseState) (latency cost : ℕ)
        → IsForeign id (persist_writes env at state latency cost)
    persist_writes-IsForeign state latency cost =
        (differs, calls_writes-IsForeign id at.now (ticket_id env at) differs state.tool_calls)

    refuse_writes-IsForeign :
        (ticket : String) (reason : Option String)
        → IsForeign id (refuse_writes env at ticket reason)
    refuse_writes-IsForeign ticket reason =
        All-append (λ (x : Write). concerns id x ≡ false)
          (persist_writes env at (refused_state env at ticket reason) (elapsed env at) 0) _
          (persist_writes-IsForeign (refused_state env at ticket reason) (elapsed env at) 0)
          (differs, (refl, (refl, (refl, tt))))

    withhold_writes-IsForeign :
        (b : Bool) (pattern : Option String) (f : CaseState) (d : Decision)
        → IsForeign id (withhold_writes env at b pattern f d).1
    withhold_writes-IsForeign true pattern f d = (differs, (refl, tt))
    withhold_writes-IsForeign false pattern f d = tt

    finish_writes-IsForeign :
        (k : UsageCollector) (f : CaseState) (counts : Result (ℕ × ℕ × String))
        → IsForeign id (finish_writes env at k f counts).1
    finish_writes-IsForeign k f (raised e) = tt
    finish_writes-IsForeign k f (ok (prompt, completion, source)) =
        let cost =
          estimate_cost env.lower prompt completion env.settings.llm_model
            env.settings.llm_provider in
        let latency = round_latency (elapsed env at) in
        (
          refl,
          All-append (λ (x : Write). concerns id x ≡ false) (persist_writes env at f latency cost) _
              (persist_writes-IsForeign f latency cost) (refl, (refl, (refl, (refl, (refl, tt))))),
        )

    answer_writes-IsForeign :
        (invoke : Invoke) (ticket : String) (order_id : Option String)
        → IsForeign id (answer_writes env at invoke ticket order_id).1
    answer_writes-IsForeign invoke ticket order_id =
        let initial = initial_state (ticket_id env at) ticket order_id in
        let (r, k) = invoke initial new_collector in
        let final = final_of initial r in
        let reply = redact_reply env at final.draft in
        let (is_leak, pattern) = detect_prompt_leak env.platform.unicode reply in
        let (g, events) = guard_writes env at final in
        All-append (λ (x : Write). concerns id x ≡ false) events _
          (withhold_writes-IsForeign (is_leak && is_resolved (decision_of env at final)) pattern
            (record final { draft = reply }) (decision_of env at final))
          (finish_writes-IsForeign k g (account env at k ticket g.draft))

    resolve_case_writes-IsForeign :
        (invoke : Invoke) (request : ResolveRequest)
        → IsForeign id (resolve_case_writes env at invoke request).1
    unfolding resolve_case_writes
    resolve_case_writes-IsForeign invoke request =
        let ticket = redact_pii env.platform.unicode (some request.ticket) in
        let (is_inj, reason) = detect_injection env.platform.unicode ticket in
        elim (Bool-cases is_inj) [
          | inl refused ↦ rw refused (refuse_writes-IsForeign ticket reason)
          | inr passed ↦ rw passed (answer_writes-IsForeign invoke ticket request.order_id)
        ]

module _ (env : Environment) (id : String) where
  -- Requests that were given other tickets.
  abbrev pub IsElsewhere : List Job → Type 0
  IsElsewhere = All (λ (job : Job). str_eq (ticket_id env job.at) id ≡ false)

  IsElsewhere-IsForeign :
      (jobs : List Job) → IsElsewhere jobs → All (IsForeign id) (map (writes_of env) jobs)
  IsElsewhere-IsForeign [] h = tt
  IsElsewhere-IsForeign (job ∷ jobs) h = (
    resolve_case_writes-IsForeign id env job.at h.0 job.invoke job.request,
    IsElsewhere-IsForeign jobs h.1,
  )

-- However the writes of a request are interleaved with those of requests that were given other
-- ticket ids, what is found afterwards under the request's ticket id (the row of the case, its tool
-- calls and its security events, in order) is what would be found if the request had run alone.
pub trail-Runs :
    (env : Environment) (before after : List Job) (job : Job) (writes : List Write) (w : World)
    → IsElsewhere env (ticket_id env job.at) before
    → IsElsewhere env (ticket_id env job.at) after
    → Runs env (before ++ job ∷ after) writes
    → trail (ticket_id env job.at) (perform_all env.platform writes w)
      ≡ trail (ticket_id env job.at) (resolve_case env job.at job.invoke job.request w).1
trail-Runs env before after job writes w earlier later way =
    let id = ticket_id env job.at in
    let threads : Merges
        (map (writes_of env) before ++ writes_of env job ∷ map (writes_of env) after) writes =
      subst (λ t. Merges t writes) (map-append (writes_of env) before (job ∷ after)) way in
    let mine =
      filter-Merges id (map (writes_of env) before) (map (writes_of env) after) (writes_of env job)
        (IsElsewhere-IsForeign env id before earlier) (IsElsewhere-IsForeign env id after later)
        threads in
    trail-filter env.platform id writes w w refl
    ∙ ap (λ xs. trail id (perform_all env.platform xs w)) mine
    ∙ sym (trail-filter env.platform id (writes_of env job) w w refl)
    ∙ ap (λ r. trail id r.1) (sym (resolve_case-writes env job.at job.invoke job.request w))
