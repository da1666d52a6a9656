-- ===== src/Service/Trail.antt =====
-- The audit trail of a case: `tool_calls_for_ticket` (storage/repo.py) behind `resolve_case`
-- (service.py).
use deskfleet_ticketwarden.Base.{
  ◌≡◌, refl, ap, ◌∙◌, Bool, false, List, [], ◌∷◌, ◌++◌, map, filter, All, str_eq, String,
  Bool-cases, inl, inr,
}
use text.Mathlib.TextPositions.{eq_refl}
use deskfleet_ticketwarden.Action.{ok}
use deskfleet_ticketwarden.Platform.{Platform}
use deskfleet_ticketwarden.Registry.{ToolRecord}
use deskfleet_ticketwarden.Storage.{ToolCallRow, tool_calls_for_ticket}
use deskfleet_ticketwarden.Service.Effects.{World}
use deskfleet_ticketwarden.Service.Audit.{CallEntry, call_entry, logged}
use deskfleet_ticketwarden.Service.Resolve.{
  ResolveRequest, ResolveResponse, Environment, Moment, Invoke, ticket_id, resolve_case,
}
use deskfleet_ticketwarden.Service.Outcome.{IsRecorded}
use deskfleet_ticketwarden.Service.Cases.{guardrail_entries, resolve_case-IsRecorded}
use deskfleet_ticketwarden.Service.Branches.{Responds-elim}

filter-map :
    {A B : Type 0} (f : A → B) (p : B → Bool) (xs : List A)
    → map f (filter (λ x. p (f x)) xs) ≡ filter p (map f xs)
filter-map f p [] = refl
filter-map f p (x ∷ xs) = elim (Bool-cases (p (f x))) [
  | inl yes_ ↦ rw yes_ (ap (λ ys. f x ∷ ys) (filter-map f p xs))
  | inr no_ ↦ rw no_ (filter-map f p xs)
]

-- What a filter drops in front of a list, and keeps behind it.
pub filter-skip :
    {A : Type 0} (p : A → Bool) (xs ys : List A)
    → All (λ (x : A). p x ≡ false) xs
    → filter p (xs ++ ys) ≡ filter p ys
filter-skip p [] ys h = refl
filter-skip p (x ∷ xs) ys h = rw h.0 (filter-skip p xs ys h.1)

pub filter-logged :
    (P : Platform) (id : String) (calls : List ToolRecord)
    → filter (λ (e : CallEntry). str_eq e.0 id) (map (logged P id) calls) ≡ map (logged P id) calls
filter-logged P id [] = refl
filter-logged P id (call ∷ calls) =
    rw (eq_refl id) (ap (λ es. logged P id call ∷ es) (filter-logged P id calls))

pub All-call_entry :
    (id : String) (rows : List ToolCallRow)
    → All (λ (r : ToolCallRow). str_eq r.ticket_id id ≡ false) rows
    → All (λ (e : CallEntry). str_eq e.0 id ≡ false) (map call_entry rows)
All-call_entry id [] h = tt
All-call_entry id (r ∷ rows) h = (h.0, All-call_entry id rows h.1)

-- Where no row of the log has the new ticket's id yet, the calls that are found for the ticket
-- afterwards are those of the response, in order, with their arguments, results and statuses.
pub tool_calls_for_ticket-resolve_case :
    (env : Environment) (at : Moment) (invoke : Invoke) (request : ResolveRequest) (w : World)
    {resp : ResolveResponse} {w' : World}
    → All (λ (r : ToolCallRow). str_eq r.ticket_id (ticket_id env at) ≡ false) w.db.tool_calls
    → resolve_case env at invoke request w ≡ (ok resp, w')
    → map call_entry (tool_calls_for_ticket resp.ticket_id w'.db)
      ≡ map (logged env.platform resp.ticket_id) resp.tool_calls
unfolding tool_calls_for_ticket
tool_calls_for_ticket-resolve_case env at invoke request w {resp} {w'} fresh given =
    let recorded : IsRecorded env at (guardrail_entries env at invoke request) w resp w' =
      Responds-elim env at _ (resolve_case env at invoke request w)
        (resolve_case-IsRecorded env at invoke request w) given in
    let mine : CallEntry → Bool = λ e. str_eq e.0 resp.ticket_id in
    let others : All (λ (e : CallEntry). mine e ≡ false) (map call_entry w.db.tool_calls) =
      rw recorded.named (All-call_entry (ticket_id env at) w.db.tool_calls fresh) in
    filter-map call_entry mine w'.db.tool_calls
    ∙ ap (filter mine) recorded.calls
    ∙ filter-skip mine (map call_entry w.db.tool_calls) _ others
    ∙ filter-logged env.platform resp.ticket_id resp.tool_calls
