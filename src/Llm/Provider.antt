-- ===== src/Llm/Provider.antt =====
-- `build_chat_model`, `_structured_output_method` and the check of `build_llm_client`
-- (graph/llm.py). The SDKs are not part of the repository: what is built is the call of an SDK's
-- constructor.
use deskfleet_ticketwarden.Base.{
  ℕ, String, ◌&&◌, Option, none, some, List, [], ◌∷◌, str_eq, one_of, ◌<>◌, join, truthy,
  text_or_empty, if◌then◌else◌,
}
use deskfleet_ticketwarden.Action.{Result, ok, raised, exception}
use deskfleet_ticketwarden.Settings.{Settings, active_llm_api_key, has_llm_credentials}

-- `ChatOpenAI`, `ChatAnthropic` and `ChatGoogleGenerativeAI` with their keyword arguments.
pub data ChatModel : Type 0 where
  chat_open_ai : (model : String) → ℕ → (base_url : Option String) → (api_key : String) → ChatModel
  chat_anthropic chat_google : (model : String) → ℕ → (api_key : String) → ChatModel

-- `_OPENAI_COMPATIBLE`
abbrev pub openai_compatible : List (String × Option String)
openai_compatible =
    ("openai", none)
    ∷ ("groq", some "https://api.groq.com/openai/v1")
    ∷ ("nvidia", some "https://integrate.api.nvidia.com/v1")
    ∷ ("ollama", none)
    ∷ []

-- `SUPPORTED_PROVIDERS`
abbrev pub supported_providers : List String
supported_providers = "openai" ∷ "groq" ∷ "nvidia" ∷ "ollama" ∷ "anthropic" ∷ "gemini" ∷ []

unfoldable pub default_base_url : String → List (String × Option String) → Option (Option String)
default_base_url provider [] = none
default_base_url provider ((name, url) ∷ rows) =
    if str_eq provider name then some url else default_base_url provider rows

-- `a or b`, where an empty text counts as missing
abbrev pub first_truthy : Option String → Option String → Option String
first_truthy a b = elim (truthy a) [ none ↦ truthy b | some url ↦ some url ]

module _ (lower : String → String) (s : Settings) where
  -- A provider that speaks OpenAI's dialect, with its default address.
  abbrev pub compatible_model : String → Option String → ChatModel
  compatible_model provider default =
      if str_eq provider "ollama"
      then ChatModel.chat_open_ai s.llm_model s.temperature (some s.ollama_base_url) "ollama"
      else ChatModel.chat_open_ai s.llm_model s.temperature (first_truthy s.llm_base_url default)
          (active_llm_api_key lower s)

  abbrev pub native_model : String → Result ChatModel
  native_model provider =
      if str_eq provider "anthropic"
      then ok (ChatModel.chat_anthropic s.llm_model s.temperature (active_llm_api_key lower s))
      else if str_eq provider "gemini"
      then ok (ChatModel.chat_google s.llm_model s.temperature (active_llm_api_key lower s))
      else raised (
          exception (
            "Unsupported LLM_PROVIDER '"
            <> (s.llm_provider <> ("'. Supported: " <> join ", " supported_providers))))

  unfoldable pub build_chat_model : Result ChatModel
  unfolding default_base_url
  build_chat_model =
      let provider = lower s.llm_provider in
      elim (default_base_url provider openai_compatible) [
        | some default ↦ ok (compatible_model provider default)
        | none ↦ native_model provider
      ]

  -- `hostname` is `urlparse(url).hostname`, which refuses some texts.
  unfoldable pub structured_output_method : (String → Result (Option String)) → Result String
  structured_output_method hostname = elim (hostname (text_or_empty s.llm_base_url)) [
    | raised e ↦ raised e
    | ok host ↦
        let is_local =
          str_eq (lower s.llm_provider) "openai"
          && one_of (text_or_empty host) ("localhost" ∷ "127.0.0.1" ∷ []) in
        ok (if is_local then "json_schema" else "function_calling")
  ]

  -- `_KEY_ENV_VARS.get(provider, "the provider API key")`
  abbrev pub key_env_var : String → String
  key_env_var provider =
      if str_eq provider "openai"
      then "OPENAI_API_KEY"
      else if str_eq provider "groq"
      then "GROQ_API_KEY"
      else if str_eq provider "gemini"
      then "GOOGLE_API_KEY"
      else if str_eq provider "nvidia"
      then "NVIDIA_API_KEY"
      else if str_eq provider "anthropic"
      then "ANTHROPIC_API_KEY"
      else if str_eq provider "ollama"
      then "(none — set OLLAMA_BASE_URL if not localhost)"
      else "the provider API key"

  abbrev pub not_configured : String
  not_configured =
      "LLM_PROVIDER='"
      <> (s.llm_provider
          <> ("' selected but "
              <> (key_env_var (lower s.llm_provider)
                  <> (" is not configured. Set it in .env to run the live LLM flow, or inject a fake "
                      <> "LLMClient (as the test suite does)."))))

  -- `build_llm_client`, where `construct` is the SDK's constructor, which may raise
  unfoldable pub build_llm_client : {A : Type 0} → (ChatModel → Result A) → Result A
  unfolding build_chat_model has_llm_credentials
  build_llm_client construct =
      if has_llm_credentials lower s
      then elim build_chat_model [ raised e ↦ raised e | ok model ↦ construct model ]
      else raised (exception not_configured)
