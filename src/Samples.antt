-- ===== src/Samples.antt =====
-- Data for the tests of several parts: a server with room for one payload, whose requests carry an
-- API key, and a consumer of one region.
use xyllo.Base.{Bytes, codes, ◌==◌, true, false, pos, none, [], ◌∷◌, if◌then◌else◌}
use xyllo.Config.{RedisConfig}
use xyllo.Metrics.{recording}
use xyllo.Dispatcher.{Dispatcher, idle}
use xyllo.Translator.{new_registry}
use xyllo.Auth.{JwtLibrary}
use xyllo.Ingestor.{Server, Request, Chance, ingest}
use xyllo.RedisStore.{Message, text}
use xyllo.StreamIngestor.{Draw}

abbrev pub unknown_error : Bytes → Bytes
unknown_error raw = codes "unexpected end of JSON input"

abbrev pub dispatcher : Dispatcher
dispatcher = record {
  cfg = record { workers = pos 1; buffer_size = pos 1 };
  chain = record { handlers = [] };
  batcher = record {
    cfg = record { max_size = pos 2; flush_interval = pos 1 };
    buf = [];
    exported = [];
    ticking = true;
  };
  dlq = record {
    cfg = record { backend = codes "file"; target = codes "dlq.log" };
    is_open = true;
    written = [];
    logged = [];
  };
  buf = [];
  capacity = 1;
  closed = false;
  workers = idle ∷ [];
  world = record {
    now = 0;
    limiter = record {
      cfg = record { enabled = false; requests_per_second = pos 1; burst_size = pos 1 };
      buckets = [];
    };
    metrics = recording [];
  };
}

abbrev pub server : Server
server = record {
  auth = record {
    auth_mode = codes "apikey";
    api_key = codes "k";
    jwt_secret = [];
    jwt_issuer = [];
  };
  disp = dispatcher;
  reg = new_registry unknown_error;
  pool = record { source = []; content = [] } ∷ [];
}

abbrev pub chance : Chance
chance = record {
  now = 1700000000000000001;
  later = 1700000000000000002;
  uuid = codes "u-1";
  choice = 0;
}

abbrev pub header : Bytes → Bytes
header name =
    if name == codes "X-API-Key"
    then codes "k"
    else if name == codes "X-Source-ID"
    then codes "web"
    else []

abbrev pub click : Request
click = record {
  route = ingest;
  header = header;
  body = codes "{\"event_type\":\"click\",\"body\": {}}";
}

abbrev pub no_tokens : JwtLibrary
no_tokens = record {
  Token = Bytes;
  decode = λ text. none;
  is_hmac = λ t. true;
  verifies = λ key t. false;
  is_map = λ t. true;
  issuer = λ t. [];
}

abbrev pub redis : RedisConfig
redis = record {
  enabled = true;
  addr = codes "redis:6379";
  password = [];
  db = pos 0;
  stream_prefix = codes "xyllo";
  consumer_group = codes "g";
  consumer_name = codes "c";
  regions = codes "eu" ∷ [];
  read_batch_size = pos 10;
  read_block_ms = pos 100;
}

abbrev pub draw : Draw
draw = record { now = 1700000000000000001; later = 1700000000000000002; uuid = codes "u-1" }

abbrev pub message : Bytes → Message
message id = record {
  id = id;
  values = (codes "data", text (codes "{\"event_type\":\"click\",\"body\": {}}")) ∷ [];
}
