-- ===== src/Console/Tabs.antt =====
-- The tabs of recent cases and of security events (`render_recent_cases_tab`,
-- `render_security_tab`).
use deskfleet_ticketwarden.Base.{
  ℕ, zero, suc, ◌+◌, String, Bool, true, false, Option, none, some, List, [], ◌∷◌, ◌++◌, ◌<>◌, code,
  ◌==◌, any, is_some, ltb, map, filter, flat_map, is_empty, or_else, show, str_eq, text_or_empty,
  truthy, if◌then◌else◌,
}
use deskfleet_ticketwarden.Console.{Call, Script, rerun, crash, display, ◌>>◌}
use deskfleet_ticketwarden.Console.Styles.{style_of, event_icon, event_label}
use deskfleet_ticketwarden.Console.Api.{Api, CaseRow, EventRow, Fetched, api_get}
use deskfleet_ticketwarden.Console.Result.{Formats, decided, text_or}

-- `text[:n]`
abbrev prefix : ℕ → String → String
prefix zero s = ""
prefix (suc n) String.[] = ""
prefix (suc n) (String.◌∷◌ c s) = String.◌∷◌ c (prefix n s)

abbrev or_none : Option String → String
or_none none = "None"
or_none (some s) = s

-- `**{label}:** {text}`, unless the text is missing or empty
abbrev detail_line : String → Option String → List Call
detail_line label none = []
detail_line label (some text) = Call.write (label <> text) ∷ []

abbrev pub chosen_cases : String → List CaseRow → List CaseRow
chosen_cases decision_filter rows =
    if str_eq decision_filter "All"
    then rows
    else filter (λ (t : CaseRow). decided t.decision decision_filter) rows

module _ (F : Formats) where
  abbrev case_calls : CaseRow → List Call
  case_calls t =
      Call.case_card (style_of (text_or_empty t.decision)) (prefix 90 (text_or_empty t.body))
          (text_or_empty t.created_at)
        ∷ Call.opens_expander "Details"
        ∷ Call.write ("**Decision:** " <> or_none t.decision)
        ∷ Call.write ("**Category:** " <> text_or t.category "n/a")
        ∷ detail_line "**Reply:** " (truthy t.reply)
      ++ detail_line "**Reason:** " (truthy t.escalation_reason)
      ++ Call.caption (
          "Latency: "
          <> F.milliseconds (or_else t.latency 0)
          <> " ms · Cost: $"
          <> F.dollars (or_else t.cost_usd 0)
          <> " · Review passes: "
          <> show (or_else t.iterations 0))
        ∷ Call.closes
        ∷ []

  abbrev pub show_cases : List CaseRow → Script
  show_cases [] =
      display (Call.info "No cases match yet — head to the 💬 Chat tab to create one." ∷ [])
  show_cases (t ∷ rows) = display (flat_map case_calls (t ∷ rows))

  -- Without an error text the rows are `None`, which is no list to filter.
  abbrev pub list_cases : String → Fetched (List CaseRow) → Script
  list_cases decision_filter (Fetched.got rows) = show_cases (chosen_cases decision_filter rows)
  list_cases decision_filter (Fetched.wrong e) =
      if is_empty e
      then (if str_eq decision_filter "All" then show_cases [] else crash)
      else display (Call.error ("Couldn't load cases: " <> e) ∷ [])

  unfoldable pub render_recent_cases_tab : Api → String → ℕ → Bool → Script
  unfolding api_get show
  render_recent_cases_tab api decision_filter limit refresh =
      if refresh
      then rerun
      else list_cases decision_filter (api_get api.status_error (api.tickets limit))

-- `counts`, in the order in which the types first come.
unfoldable pub add_one : String → List (String × ℕ) → List (String × ℕ)
add_one t [] = (t, 1) ∷ []
add_one t ((u, n) ∷ counts) = if str_eq u t then (u, n + 1) ∷ counts else (u, n) ∷ add_one t counts

abbrev pub type_of : EventRow → String
type_of ev = or_else ev.event_type "unknown"

unfoldable pub count_types : List (String × ℕ) → List EventRow → List (String × ℕ)
unfolding add_one
count_types counts [] = counts
count_types counts (ev ∷ events) = count_types (add_one (type_of ev) counts) events

-- Whether a text comes before another one or is the same, by code points.
abbrev text_leb : String → String → Bool
text_leb String.[] t = true
text_leb (String.◌∷◌ c s) String.[] = false
text_leb (String.◌∷◌ c s) (String.◌∷◌ d t) =
    if ltb (code c) (code d) then true else if code c == code d then text_leb s t else false

abbrev insert_text : String → List String → List String
insert_text s [] = s ∷ []
insert_text s (t ∷ ts) = if text_leb s t then s ∷ t ∷ ts else t ∷ insert_text s ts

-- `sorted`
abbrev sort_texts : List String → List String
sort_texts [] = []
sort_texts (s ∷ ts) = insert_text s (sort_texts ts)

-- `ev["event_type"]`
abbrev pub has_type : String → EventRow → Bool
has_type t ev = decided ev.event_type t

abbrev pub untyped : EventRow → Bool
untyped ev = if is_some ev.event_type then false else true

abbrev pub chosen_events : String → List EventRow → List EventRow
chosen_events type_filter events =
    if str_eq type_filter "All" then events else filter (has_type type_filter) events

module _ (title : String → String) where
  abbrev type_name : String → String
  type_name t = if str_eq t "All" then "All types" else event_label title t

  abbrev type_chip : String × ℕ → String
  type_chip (t, n) = event_icon t <> " " <> event_label title t <> ": " <> show n

  abbrev event_call : EventRow → Call
  event_call ev =
      let t = text_or_empty ev.event_type in
      Call.event_card (event_icon t) (event_label title t) (text_or_empty ev.created_at)
        (text_or_empty ev.detail) (text_or_empty ev.ticket_id)

  abbrev pub show_chosen : String → List EventRow → Script
  show_chosen type_filter events =
      if (if str_eq type_filter "All" then false else any untyped events)
      then crash
      else display (map event_call (chosen_events type_filter events))

  abbrev pub show_events : String → List EventRow → Script
  show_events type_filter [] = display (
      Call.info
        "No guardrail events logged yet — try the 🛡\u{fe0f} Injection attempt example in the Chat tab."
      ∷ [])
  show_events type_filter (ev ∷ events) =
      let counts = count_types [] (ev ∷ events) in
      display (
        Call.chips (map type_chip counts)
        ∷ Call.type_options
            (map type_name ("All" ∷ sort_texts (map (λ (c : String × ℕ). c.0) counts)))
        ∷ [])
      >> show_chosen type_filter (ev ∷ events)

  abbrev pub list_events : String → Fetched (List EventRow) → Script
  list_events type_filter (Fetched.got events) = show_events type_filter events
  list_events type_filter (Fetched.wrong e) =
      if is_empty e
      then show_events type_filter []
      else display (Call.error ("Couldn't load security events: " <> e) ∷ [])

  unfoldable pub render_security_tab : Api → String → Script
  unfolding api_get show event_label count_types
  render_security_tab api type_filter =
      list_events type_filter (api_get api.status_error (api.security_events 50))
