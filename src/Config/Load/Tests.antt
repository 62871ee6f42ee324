-- ===== src/Config/Load/Tests.antt =====
-- Loading the defaults, a file and an invalid environment.
use xyllo.Base.{
  Bytes, codes, ◌==◌, true, Option, none, some, [], ◌≡◌, ◌↔◌, ◌⊎◌, refl, if◌then◌else◌, ◌<◌, length,
}
use xyllo.Config.{Config}
use xyllo.Config.Load.{
  defaults, validate, load, load_file, apply_environment, ok, err, invalid, missing_api_key,
}
use xyllo.Config.Load.Validation.{IsValid, validate_iff}
use xyllo.Config.Load.Results.{IsOverridden, load-ok, valid-builds}
use xyllo.Middleware.{Chain, World}
use xyllo.Metrics.{nop}
use xyllo.Batcher
use xyllo.Batcher.{Batcher}
use xyllo.Dispatcher
use xyllo.Dispatcher.{Dispatcher}
use xyllo.Dlq.{Dlq}

abbrev no_files : Bytes → Option Bytes
no_files path = none

abbrev secret : Bytes → Bytes
secret name = if name == codes "XYLLO_JWT_SECRET" then codes "s3" else []

-- A decoder that knows one document, which asks for API keys.
abbrev decoder : Bytes → Config → Option Config
decoder text base =
    if text == codes "mode: apikey"
    then some (record base { auth = record base.auth { auth_mode = codes "apikey" } })
    else none

abbrev one_file : Bytes → Option Bytes
one_file path = if path == codes "x.yaml" then some (codes "mode: apikey") else none

abbrev with_secret : Config
with_secret = record defaults { auth = record defaults.auth { jwt_secret = codes "s3" } }

defaults_load : load no_files secret decoder [] ≡ ok with_secret
unfolding load load_file apply_environment validate ◌==◌
defaults_load = refl

no_key :
    load one_file secret decoder (codes "x.yaml") ≡ err (invalid (missing_api_key (codes "apikey")))
unfolding load load_file apply_environment validate ◌==◌
no_key = refl

validate_iff_example : (validate defaults ≡ none) ↔ IsValid defaults
validate_iff_example = validate_iff defaults

load-ok_example :
    IsValid with_secret
    × ((base : Config) × (((◌≡◌ {A = Bytes} [] []) × (base ≡ defaults))
          ⊎ ((bytes : Bytes) × (no_files [] ≡ some bytes) × (decoder bytes defaults ≡ some base)))
        × IsOverridden secret base with_secret)
load-ok_example = load-ok no_files secret decoder [] with_secret defaults_load

abbrev chain : Chain
chain = record { handlers = [] }

abbrev dlq : Dlq
dlq = record { cfg = defaults.dlq; is_open = true; written = []; logged = [] }

abbrev world : World
world = record {
  now = 0;
  limiter = record { cfg = defaults.rate_limit; buckets = [] };
  metrics = nop;
}

defaults-valid : validate defaults ≡ none
unfolding validate ◌==◌
defaults-valid = refl

valid-builds_example :
    (b : Batcher) × (d : Dispatcher) × (Batcher.new defaults.batcher ≡ some b)
    × (Dispatcher.new defaults.dispatcher chain b dlq world ≡ some d)
    × (0 < d.capacity)
    × (0 < length d.workers)
valid-builds_example = valid-builds defaults chain dlq world defaults-valid
