-- ===== src/Settings.antt =====
-- The settings object (apps/api/src/config.py).
use deskfleet_ticketwarden.Base.{
  ℕ, ℤ, String, Bool, false, Option, none, List, [], ◌∷◌, str_eq, one_of, is_empty, not,
  if◌then◌else◌,
}

pub record Settings : Type 0 where
  pub llm_provider : String
  pub llm_model : String
  pub llm_base_url : Option String
  -- in hundredths
  pub temperature : ℕ
  pub openai_api_key : String
  pub groq_api_key : String
  pub google_api_key : String
  pub nvidia_api_key : String
  pub anthropic_api_key : String
  pub ollama_base_url : String
  pub langchain_tracing_v2 : Bool
  pub langchain_api_key : String
  pub langchain_project : String
  pub langchain_endpoint : String
  pub max_review_iterations : ℤ
  pub max_tool_rounds : ℤ
  pub sqlite_path : String
  pub api_host : String
  pub api_port : ℕ
  pub log_level : String
  pub api_url : String

-- The values that hold when neither the environment nor `.env` sets a field.
abbrev pub defaults : Settings
defaults = record {
  llm_provider = "openai";
  llm_model = "gpt-4o-mini";
  llm_base_url = none;
  temperature = 20;
  openai_api_key = "";
  groq_api_key = "";
  google_api_key = "";
  nvidia_api_key = "";
  anthropic_api_key = "";
  ollama_base_url = "http://localhost:11434/v1";
  langchain_tracing_v2 = false;
  langchain_api_key = "";
  langchain_project = "ticketwarden";
  langchain_endpoint = "https://api.smith.langchain.com";
  max_review_iterations = ℤ.pos 2;
  max_tool_rounds = ℤ.pos 3;
  sqlite_path = "./ticketwarden.db";
  api_host = "0.0.0.0";
  api_port = 8080;
  log_level = "INFO";
  api_url = "http://localhost:8080";
}

-- `keys.get(provider, "")`
abbrev pub provider_key : Settings → String → String
provider_key s provider =
    if str_eq provider "openai"
    then s.openai_api_key
    else if str_eq provider "groq"
    then s.groq_api_key
    else if str_eq provider "gemini"
    then s.google_api_key
    else if str_eq provider "nvidia"
    then s.nvidia_api_key
    else if str_eq provider "anthropic"
    then s.anthropic_api_key
    else if str_eq provider "ollama"
    then "local"
    else ""

abbrev pub placeholder_keys : List String
placeholder_keys = "sk-..." ∷ "gsk_..." ∷ "nvapi-..." ∷ "sk-ant-..." ∷ []

-- `lower` stands for `str.lower`.
module _ (lower : String → String) (s : Settings) where
  unfoldable pub active_llm_api_key : String
  active_llm_api_key =
      let key = provider_key s (lower s.llm_provider) in
      if one_of key placeholder_keys then "" else key

  unfoldable pub has_llm_credentials : Bool
  unfolding active_llm_api_key
  has_llm_credentials = not (is_empty active_llm_api_key)
