-- ===== src/Console/Api.antt =====
-- What the console asks of the API, and what it makes of an answer (`_api_get`, `_api_post`).
use deskfleet_ticketwarden.Base.{
  ℕ, String, Bool, Option, List, ◌⊎◌, inl, inr, ◌&&◌, ◌==◌, leb, ltb, is_empty, if◌then◌else◌,
}
use deskfleet_ticketwarden.Console.{CaseResult, Script, crash}

-- The rows of `GET /tickets` and `GET /security-events`, and the body of `GET /health`; `none` is a
-- key that is missing, or null where the key is read without a default.
pub record CaseRow : Type 0 where
  pub body : Option String
  pub category : Option String
  pub decision : Option String
  pub reply : Option String
  pub escalation_reason : Option String
  pub iterations : Option ℕ
  pub latency : Option ℕ
  pub cost_usd : Option ℕ
  pub created_at : Option String

pub record EventRow : Type 0 where
  pub ticket_id : Option String
  pub event_type : Option String
  pub detail : Option String
  pub created_at : Option String

-- A key that is missing counts as false.
pub record Health : Type 0 where
  pub llm_configured : Bool
  pub tracing_enabled : Bool

-- What `requests` makes of a request: a response, by its status and its body or the message of the
-- exception that `json()` raises, or the message of an exception without a response.
pub data Answer (A : Type 0) : Type 0 where
  responded : ℕ → A ⊎ String → Answer A
  unreachable : String → Answer A

-- The API at the time of a run.
pub record Api : Type 0 where
  pub url : String
  pub health : Answer Health
  pub resolve : String → Option String → Answer CaseResult
  pub tickets : ℕ → Answer (List CaseRow)
  pub security_events : ℕ → Answer (List EventRow)
  -- the message of `raise_for_status` for a status
  pub status_error : ℕ → String

-- A body and no error, or no body and the text of an error.
pub data Fetched (A : Type 0) : Type 0 where
  got : A → Fetched A
  wrong : String → Fetched A

module _ {A : Type 0} (status_error : ℕ → String) where
  abbrev body_or_error : A ⊎ String → Fetched A
  body_or_error (inl body) = Fetched.got body
  body_or_error (inr e) = Fetched.wrong e

  -- `raise_for_status` raises for the statuses of 400 to 599.
  abbrev checked_body : ℕ → A ⊎ String → Fetched A
  checked_body status body =
      if leb 400 status && ltb status 600
      then Fetched.wrong (status_error status)
      else body_or_error body

  unfoldable pub api_get : Answer A → Fetched A
  api_get (Answer.responded status body) = checked_body status body
  api_get (Answer.unreachable e) = Fetched.wrong e

  unfoldable pub api_post : Answer A → Fetched A
  api_post (Answer.responded status body) =
      if status == 422
      then Fetched.wrong "Validation error: case text is required (max 8,000 characters)."
      else checked_body status body
  api_post (Answer.unreachable e) = Fetched.wrong e

-- `if err: … else: …`. An error without a text passes for none, and the missing body is an exception.
abbrev pub if_error : {A : Type 0} → Fetched A → (String → Script) → (A → Script) → Script
if_error (Fetched.got body) on_error k = k body
if_error (Fetched.wrong e) on_error k = if is_empty e then crash else on_error e
