-- ===== src/Cli/Tokens.antt =====
-- The two token commands of cmd/godxfeed/admin.go, up to the printing, and upsertEnv on the files of a
-- disk. The HTTP client and encoding/json are parameters.
pub mod Kept
pub mod Issued
use Prim.Native.String.{◌++◌}
use godxfeed.Common.{ℕ, String, Option, none, some, List, [], ◌∷◌, if◌then◌else◌, ◌==◌, string_eq}
use godxfeed.Common.Dict.{Dict, lookup, insert}
use godxfeed.Common.Outcome.{Error, Result, ok, err, wrap, str, ◌>>=◌, context}
use godxfeed.Cli.{Context, oauth_cfg_from_ctx, with_flags}
use godxfeed.EnvFile.{upsert_env, require_flags}
use godxfeed.Oauth.{TokenEndpoint, new_token_provider, access_token}
use godxfeed.Service.Connect.{TokenData}
use godxfeed.StreamerToken.{QuoteTokens, fetch_streamer_token}

-- The files that there are, and what os.ReadFile and os.WriteFile say of a path; reading a file that
-- is not there is no error of `unreadable`.
pub record Disk : Type 0 where
  pub files : Dict String String
  pub unreadable : String → Option Error
  pub unwritable : String → Option Error

abbrev pub content_of : Option String → String
content_of none = ""
content_of (some text) = text

-- upsertEnv. A write that fails is taken to leave the file as it was.
unfoldable pub upsert_env_file : String → String → String → Disk → Disk × Option Error
unfolding upsert_env
upsert_env_file path key value d = elim (d.unreadable path) [
  | some e ↦ (d, some (wrap "read %s: %w" (str path ∷ []) e))
  | none ↦ elim (d.unwritable path) [
    | some e ↦ (d, some e)
    | none ↦
        let content = content_of (lookup path d.files) in
        (record d { files = insert path (upsert_env key value content) d.files }, none)
  ]
]

-- What new_bearer_token meets: NewRequest; Do at a URL with the user and the password, and ReadAll;
-- Unmarshal of the field `token`.
pub record Issuer : Type 0 where
  pub build : String → Option Error
  pub post : String → String → String → Result String
  pub parse : String → Result String

-- The request of new_bearer_token.
unfoldable pub ask_token : Issuer → Context → Result String
ask_token w ctx =
    let url = ctx.string "godxfeed-endpoint" ++ "/token" in
    elim (w.build url) [
      | some e ↦ err e
      | none ↦ w.post url (ctx.string "email") (ctx.string "server-secret")
    ]

abbrev written : Disk × Option Error → Disk × Result String
written (d, none) = (d, ok "")
written (d, some e) = (d, err e)

-- What is printed, or written to the file.
unfoldable pub keep_token : Context → Disk → String → String → Disk × Result String
keep_token ctx d body token =
    let path = ctx.string "env-file" in
    if path == ""
    then (d, ok (body ++ "\n"))
    else written (upsert_env_file path "AUTH_TOKEN" token d)

unfoldable pub new_bearer_token : Issuer → Context → Disk → Disk × Result String
unfolding require_flags ask_token keep_token
new_bearer_token w ctx d =
    elim (require_flags ctx.string ("godxfeed-endpoint" ∷ "email" ∷ "server-secret" ∷ [])) [
      | some e ↦ (d, err e)
      | none ↦ elim (ask_token w ctx) [
        | err e ↦ (d, err e)
        | ok body ↦ elim (w.parse body) [
          | err e ↦ (d, err (wrap "failed to parse token response: %w" [] e))
          | ok token ↦ keep_token ctx d body token
        ]
      ]
    ]

-- get_streamer_token; `marshal` is json.Marshal, and the times are those at which AccessToken reads
-- its clock.
unfoldable pub get_streamer_token :
    TokenEndpoint → ℕ → ℕ → ℕ → QuoteTokens → (TokenData → Result String) → Context → Result String
unfolding require_flags oauth_cfg_from_ctx new_token_provider access_token fetch_streamer_token
get_streamer_token endpoint now now' now'' w marshal ctx =
    elim (require_flags ctx.string (
      "tastyworks-endpoint" ∷ "tw-oauth-token-url" ∷ "tw-oauth-client-secret"
      ∷ "tw-oauth-refresh-token" ∷ [])) [
        | some e ↦ err e
        | none ↦
            context (wrap "oauth config: %w" []) (new_token_provider (oauth_cfg_from_ctx ctx))
            >>= λ tp.
                fetch_streamer_token w ("https://" ++ ctx.string "tastyworks-endpoint")
                  (access_token endpoint now now' now'' tp).1
                >>= λ td. marshal td >>= λ text. ok (text ++ "\n")
      ]
