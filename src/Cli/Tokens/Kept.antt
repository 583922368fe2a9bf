-- ===== src/Cli/Tokens/Kept.antt =====
-- The env file after upsertEnv has written the token to it.
use Prim.Native.String.{◌++◌}
use godxfeed.Common.{
  String, ◌≡◌, refl, ap, ◌∙◌, false, Option, none, some, ◌==◌, string_eq, ==_refl,
}
use godxfeed.Common.Dict.{lookup, insert, lookup-insert}
use godxfeed.Common.Outcome.{ok}
use godxfeed.Common.Text.{split}
use godxfeed.Cli.{Context}
use godxfeed.Cli.Tokens.{Disk, content_of, upsert_env_file, keep_token}
use godxfeed.EnvFile.{upsert_env}
use godxfeed.EnvFile.Lines.{IsLine, setting, upsert_env_sets}

-- The line of the file at a path that sets the token.
abbrev pub token_line : Disk → String → Option String
token_line d path = setting "AUTH_TOKEN=" (split 10 (content_of (lookup path d.files)))

upsert_env_file_eq :
    (path key value : String) (d : Disk)
    → d.unreadable path ≡ none
    → d.unwritable path ≡ none
    → upsert_env_file path key value d ≡ (
      record d {
        files = insert path (upsert_env key value (content_of (lookup path d.files))) d.files;
      },
      none,
    )
unfolding upsert_env_file
upsert_env_file_eq path key value d r w = rw (r, upsert_env_file, w) refl

keep_token_eq :
    (ctx : Context) (d : Disk) (body value : String)
    → (ctx.string "env-file" == "") ≡ false
    → d.unreadable (ctx.string "env-file") ≡ none
    → d.unwritable (ctx.string "env-file") ≡ none
    → keep_token ctx d body value ≡ (
      record d {
        files =
            insert
              (ctx.string "env-file")
              (upsert_env "AUTH_TOKEN" value (content_of (lookup (ctx.string "env-file") d.files)))
              d.files;
      },
      ok "",
    )
unfolding keep_token
keep_token_eq ctx d body value named r w =
    rw (named, upsert_env_file_eq (ctx.string "env-file") "AUTH_TOKEN" value d r w) refl

token_line_written :
    (path value : String) (d : Disk)
    → IsLine value
    → token_line
        (record d {
          files =
              insert path
                (upsert_env "AUTH_TOKEN" value (content_of (lookup path d.files)))
                d.files;
        })
        path
      ≡ some ("AUTH_TOKEN=" ++ value)
token_line_written path value d line =
    let content = content_of (lookup path d.files) in
    let written : lookup path (insert path (upsert_env "AUTH_TOKEN" value content) d.files)
        ≡ some (upsert_env "AUTH_TOKEN" value content) =
      rw (lookup-insert path path (upsert_env "AUTH_TOKEN" value content) d.files, ==_refl path)
        refl in
    ap (λ found. setting "AUTH_TOKEN=" (split 10 (content_of found))) written
    ∙ (upsert_env_sets "AUTH_TOKEN" value "" content key_IsLine line).0
  where
    key_IsLine : IsLine "AUTH_TOKEN"
    key_IsLine = (refl, (refl, (refl, (refl, (refl, (refl, (refl, (refl, (refl, (refl, tt))))))))))

-- Where the command has a token and a file to keep it in.
pub keep_token_sets :
    (ctx : Context) (d : Disk) (body value : String)
    → (ctx.string "env-file" == "") ≡ false
    → d.unreadable (ctx.string "env-file") ≡ none
    → d.unwritable (ctx.string "env-file") ≡ none
    → IsLine value
    → ((keep_token ctx d body value).1 ≡ ok "")
      × (token_line (keep_token ctx d body value).0 (ctx.string "env-file")
          ≡ some ("AUTH_TOKEN=" ++ value))
keep_token_sets ctx d body value named r w line =
    rw (keep_token_eq ctx d body value named r w)
      (refl, token_line_written (ctx.string "env-file") value d line)
