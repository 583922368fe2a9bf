-- ===== src/Subject.antt =====
-- The NATS subject of an (event, symbol) pair: `SubjectFor` of service/ingress.go, and the lookup
-- endpoint of http/handlers_streaming.go that builds the same subject for a browser.
pub mod Scheme
use godxfeed.Common.{String, Bool, true, false, if◌then◌else◌, ◌==◌, string_eq}
use Prim.Native.String.{◌++◌}
use godxfeed.Common.Text.{Unicode, to_lower}

unfoldable pub subject_for : ⦃u : Unicode⦄ → String → String → String
subject_for event symbol = "godxfeed." ++ to_lower event ++ "." ++ symbol
