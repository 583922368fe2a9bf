-- ===== src/Cli/Flags.antt =====
-- The commands of cmd/godxfeed/main.go and their flags, without the texts on how to use them.
pub mod Reads
use godxfeed.Common.{
  Option, none, some, if◌then◌else◌, ℕ, String, Bool, true, false, ◌||◌, List, [], ◌∷◌, ◌++◌,
  exists, ◌==◌, string_eq,
}

-- A string, int, bool or string slice flag, with its Value.
pub data Value : Type 0 where
  text : String → Value
  whole : ℕ → Value
  switch : Bool → Value
  texts : List String → Value

pub record Flag : Type 0 where
  pub name : String
  pub aliases : List String
  pub env_vars : List String
  pub default : Value
  pub required : Bool

abbrev flag : String → List String → List String → Value → Flag
flag name aliases env_vars default = record {
  name = name;
  aliases = aliases;
  env_vars = env_vars;
  default = default;
  required = false;
}

abbrev required_flag : String → List String → List String → Value → Flag
required_flag name aliases env_vars default = record (flag name aliases env_vars default) {
  required = true;
}

pub record Command : Type 0 where
  pub name : String
  pub flags : List Flag

unfoldable pub oauth_flags : List Flag
oauth_flags =
    (flag "tastyworks-endpoint" ("tw" ∷ []) ("TW_API_HOST" ∷ []) (text "api.tastyworks.com"))
    ∷ (flag "tw-oauth-token-url" [] ("TW_OAUTH_TOKEN_URL" ∷ [])
        (text "https://api.tastyworks.com/oauth/token"))
    ∷ (flag "tw-oauth-client-secret" [] ("TW_OAUTH_CLIENT_SECRET" ∷ []) (text ""))
    ∷ (flag "tw-oauth-refresh-token" [] ("TW_OAUTH_REFRESH_TOKEN" ∷ []) (text ""))
    ∷ []

unfoldable pub nats_flags : List Flag
nats_flags =
    (flag "nats-url" [] ("NATS_URL" ∷ []) (text ""))
    ∷ (flag "nats-browser-url" [] ("NATS_BROWSER_URL" ∷ []) (text ""))
    ∷ (flag "nats-nkey-public-key" [] ("NATS_NKEY_PUBLIC_KEY" ∷ []) (text ""))
    ∷ (flag "nats-nkey-seed" [] ("NATS_NKEY_SEED" ∷ []) (text ""))
    ∷ (flag "nats-auth-user" [] ("NATS_AUTH_USER" ∷ []) (text ""))
    ∷ (flag "nats-auth-password" [] ("NATS_AUTH_PASSWORD" ∷ []) (text ""))
    ∷ (flag "nats-godxfeed-user" [] ("NATS_GODXFEED_USER" ∷ []) (text ""))
    ∷ (flag "nats-godxfeed-password" [] ("NATS_GODXFEED_PASSWORD" ∷ []) (text ""))
    ∷ []

unfoldable pub get_bearer_token_command : Command
get_bearer_token_command = record {
  name = "get-bearer-token";
  flags =
      (flag "godxfeed-endpoint" [] ("GODXFEED_ENDPOINT" ∷ []) (text ""))
      ∷ (flag "email" ("e" ∷ []) ("GODXFEED_ADMIN_EMAIL" ∷ []) (text ""))
      ∷ (flag "server-secret" [] ("SERVER_SECRET_KEY" ∷ []) (text ""))
      ∷ (flag "env-file" [] [] (text ""))
      ∷ [];
}

unfoldable pub symbols_command : Command
unfolding oauth_flags
symbols_command = record {
  name = "symbols";
  flags =
      oauth_flags
      ++ ((flag "symbol-type" ("t" ∷ []) [] (text "equities"))
          ∷ (required_flag "symbol" ("s" ∷ []) [] (text ""))
          ∷ []);
}

unfoldable pub option_chain_command : Command
unfolding oauth_flags
option_chain_command = record {
  name = "option-chain";
  flags = oauth_flags ++ ((flag "symbol" ("s" ∷ []) [] (text "SPY")) ∷ []);
}

unfoldable pub http_server_command : Command
unfolding oauth_flags nats_flags
http_server_command = record {
  name = "http-server";
  flags =
      oauth_flags
      ++ (nats_flags
          ++ ((flag "listen-port" ("port" ∷ "p" ∷ []) ("SERVER_PORT" ∷ []) (text ""))
              ∷ (flag "log-level" ("ll" ∷ "l" ∷ []) [] (whole 0))
              ∷ (flag "minimal-setup" [] [] (switch false))
              ∷ (flag "dxfeed-endpoint" ("se" ∷ []) []
                  (text "tasty-openapi-ws.dxfeed.com/realtime"))
              ∷ (flag "dxfeed-url" [] ("DXFEED_URL" ∷ []) (text ""))
              ∷ (flag "max-symbol-count" [] [] (whole 25))
              ∷ (flag "symbols" ("symbol" ∷ "sym" ∷ "s" ∷ []) [] (texts []))
              ∷ (flag "symbol-method" [] [] (text ""))
              ∷ (flag "analytic-sink" [] ("ANALYTIC_SINKS" ∷ []) (texts []))
              ∷ (flag "dev-mode" [] [] (switch false))
              ∷ (flag "anthropic-api-key" [] ("ANTHROPIC_API_KEY" ∷ []) (text ""))
              ∷ (flag "anthropic-model" [] ("ANTHROPIC_MODEL" ∷ []) (text ""))
              ∷ (flag "openai-api-key" [] ("OPENAI_API_KEY" ∷ []) (text ""))
              ∷ (flag "openai-model" [] ("OPENAI_MODEL" ∷ []) (text ""))
              ∷ (flag "gemini-api-key" [] ("GEMINI_API_KEY" ∷ []) (text ""))
              ∷ (flag "gemini-model" [] ("GEMINI_MODEL" ∷ []) (text ""))
              ∷ (flag "llm-default" [] ("LLM_DEFAULT" ∷ []) (text ""))
              ∷ []));
}

unfoldable pub streamer_token_command : Command
unfolding oauth_flags
streamer_token_command = record { name = "get-streamer-token"; flags = oauth_flags }

-- The subcommands, by the command that they stand under.
unfoldable pub app : List (String × List Command)
unfolding get_bearer_token_command streamer_token_command symbols_command option_chain_command
    http_server_command
app =
    ("admin", get_bearer_token_command ∷ streamer_token_command ∷ [])
    ∷ ("data", symbols_command ∷ option_chain_command ∷ [])
    ∷ ("run", http_server_command ∷ [])
    ∷ []

-- Whether a flag has a name, or is known by it.
abbrev pub is_called : String → Flag → Bool
is_called name f = f.name == name || exists (λ a. a == name) f.aliases

-- The flag of a name, and what Context reads of it: Int of an int flag, and so on.
unfoldable pub flag_of : String → List Flag → Option Flag
flag_of name [] = none
flag_of name (f ∷ fs) = let rest = flag_of name fs in if is_called name f then some f else rest

abbrev pub reads_text : Option Flag → Bool
reads_text (some f) = elim f.default [ text s ↦ true | _ ↦ false ]
reads_text none = false

abbrev pub reads_whole : Option Flag → Bool
reads_whole (some f) = elim f.default [ whole n ↦ true | _ ↦ false ]
reads_whole none = false

abbrev pub reads_switch : Option Flag → Bool
reads_switch (some f) = elim f.default [ switch b ↦ true | _ ↦ false ]
reads_switch none = false

abbrev pub reads_texts : Option Flag → Bool
reads_texts (some f) = elim f.default [ texts ss ↦ true | _ ↦ false ]
reads_texts none = false
