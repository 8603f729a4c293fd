-- ===== src/Tests/Http.antt =====
-- The theorems on requests at concrete inputs.
use gorb.Prelude.{Text_eq, ◌≡◌, refl, false, some}
use gorb.Prelude.Map.{lookup}
use gorb.Prelude.Text.{to_lower, split}
use gorb.Ipvs
use gorb.Core.Options
use gorb.Core.Store.{unmarshal_service}
use gorb.Core.Context.Services.{create_service}
use gorb.Http.{Request, put_service, serve}
use gorb.Http.Failures.{succeeded, serve_unchanged}
use gorb.Tests.Fixtures.{accepting, fixed, web, web_body, serving}

abbrev again : Request
again = put_service web (some web_body)

refused : succeeded (serve accepting 5 again serving).0 ≡ false
unfolding serve create_service lookup unmarshal_service Options.fill_service Ipvs.valid_protocol
    to_lower split Ipvs.valid_flag
refused = refl

serve_unchanged_example : (serve accepting 5 again serving).1.ctx ≡ serving.ctx
serve_unchanged_example = serve_unchanged accepting 5 again serving refl refused
