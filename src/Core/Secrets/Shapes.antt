-- ===== src/Core/Secrets/Shapes.antt =====
-- crates/clippo-core/src/secrets/shapes.rs: provider-token shapes. Whether a pattern matches is the
-- `regex` crate's answer.
use clippo.Prelude.{List, [], ◌∷◌, Option, find?}
use clippo.Prelude.Text.{Text, codes}
use clippo.Core.Host.{Host}

pub data Shape : Type 0 where
  open_ai_api_key git_hub_token aws_access_key_id slack_token jwt : Shape
  private_key_block database_url_password : Shape

abbrev all_shapes : List Shape
all_shapes =
    open_ai_api_key ∷ git_hub_token ∷ aws_access_key_id ∷ slack_token ∷ jwt ∷ private_key_block
    ∷ database_url_password ∷ []

unfoldable pub name : Shape → Text
name open_ai_api_key = codes "openai-api-key"
name git_hub_token = codes "github-token"
name aws_access_key_id = codes "aws-access-key-id"
name slack_token = codes "slack-token"
name jwt = codes "jwt"
name private_key_block = codes "private-key-block"
name database_url_password = codes "database-url-password"

unfoldable pub pattern_of : Shape → Text
pattern_of open_ai_api_key = codes "\\bsk-(?:proj-[A-Za-z0-9_-]{20}|[A-Za-z0-9]{16})"
pattern_of git_hub_token = codes "\\b(?:gh[pousr]_[A-Za-z0-9]{20}|github_pat_[A-Za-z0-9_]{20})"
pattern_of aws_access_key_id = codes "\\b(?:AKIA|ASIA)[0-9A-Z]{16}\\b"
pattern_of slack_token = codes "\\bxox[baprs]-[A-Za-z0-9-]{10}"
pattern_of jwt = codes "\\beyJ[A-Za-z0-9_=-]+\\.[A-Za-z0-9_=-]+\\.[A-Za-z0-9_=-]*"
pattern_of private_key_block = codes "-----BEGIN [A-Z0-9 ]*PRIVATE KEY-----"
pattern_of database_url_password =
    codes
      "(?i)\\b(?:postgres|postgresql|mysql|mariadb|mongodb(?:\\+srv)?|redis|rediss|amqp)://[^\\s:/@]+:[^\\s:/@]+@"

unfoldable pub matched : Host → Text → Option Shape
matched host value = find? (λ shape. host.is_match (pattern_of shape) value) all_shapes
