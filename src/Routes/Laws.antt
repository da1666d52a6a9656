-- ===== src/Routes/Laws.antt =====
-- `POST /resolve` (main.py) over any requests.
use deskfleet_ticketwarden.Service.Outcome.{redacted}
use deskfleet_ticketwarden.Vocabulary.{Decision}
use deskfleet_ticketwarden.Base.{false, if◌then◌else◌, ◌≡◌, String, Option, none, some}
use deskfleet_ticketwarden.Action.{Result}
use deskfleet_ticketwarden.Llm.Provider.{ChatModel}
use deskfleet_ticketwarden.Service.Resolve.{
  Environment, Moment, Invoke, ResolveRequest, ResolveResponse,
}
use deskfleet_ticketwarden.Routes.{
  Reply, has_llm_credentials, is_injection, start, App, replied, post_resolve,
}

-- The graph that is kept is never given up for another.
abbrev pub KeepsGraph : Option Invoke → Option Invoke → Type 0
KeepsGraph none o = Unit
KeepsGraph (some g) o = o ≡ some g

module _ (env : Environment) where
  -- What a request may do to the application; the other routes read it only.
  pub data Serves : App → App → Type 0 where
    started : (app : App) → Serves app (start env app)
    posted :
        (at : Moment) (connect : ChatModel → Result Invoke) (ticket : String)
        (order_id : Option String) (app : App)
        → Serves app (post_resolve env at connect ticket order_id app).1

  pub data Reaches (app : App) : App → Type 0 where
    here : Reaches app app
    then_ : {b c : App} → Reaches app b → Serves b c → Reaches app c

module _ (env : Environment) (at : Moment) (connect : ChatModel → Result Invoke)
    (request : ResolveRequest) (app : App)
    (no_key : has_llm_credentials env.lower env.settings ≡ false)
    (no_graph : app.graph ≡ none) where
  -- What is shown of the answer.
  abbrev Declines : Reply ResolveResponse × App → Type 0
  Declines (r, app') =
      (resp : ResolveResponse) × (r ≡ replied resp)
      × (resp.decision ≡ (
          if is_injection env.platform.unicode (redacted env at request)
          then Decision.refuse
          else Decision.escalate))
      × (resp.reply ≡ none)
      × (app'.graph ≡ none)
