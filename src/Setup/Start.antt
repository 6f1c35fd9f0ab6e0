-- ===== src/Setup/Start.antt =====
-- server/main.go with config.Init, repository.Init, and the start of the two servers (server/http and
-- server/grpc): what the process needs to start, and what it runs when it ends.
pub mod Needs
use identity_mservice.Base.{
  Bytes, ℤ, pos, ◌&&◌, codes, ◌==◌, not, ◌||◌, if◌then◌else◌, Bool, true, false, Option, none, some,
  [], ◌∷◌, ◌++◌, List,
}
use identity_mservice.Base.Decimal.{format_int}
use identity_mservice.Model.{Error}
use identity_mservice.Backend.{Backend, Reply, reply, fault}
use identity_mservice.Events.Producer.{KafkaProducer, KafkaConfig, build_producer}
use identity_mservice.Proxy.Oauth.{SingpassConfig}
use identity_mservice.Setup.Log.{env_name, log_service_name}
use identity_mservice.Setup.Cors.{SystemConfig, CorsConfig, cors_config}
use identity_mservice.Setup.Redis.{RedisOptions, init as init_redis}
use identity_mservice.Setup.Telemetry.{Installed, init as init_telemetry}

pub record LogConfig : Type 0 where
  pub level : Bytes
  pub file_path : Bytes

pub record HttpConfig : Type 0 where
  pub host : Bytes
  pub port : ℤ

pub record GrpcConfig : Type 0 where
  pub host : Bytes
  pub port : ℤ
  pub connect_timeout : ℤ
  pub max_pool_size : ℤ

-- Conf; a section that the file lacks is a nil pointer.
pub record Conf : Type 0 where
  pub grpc : Option GrpcConfig
  pub log : Option LogConfig
  pub http : Option HttpConfig
  pub system : Option SystemConfig
  pub singpass : Option SingpassConfig
  pub kafka : Option KafkaConfig

-- What starting asks of the file system, of the libraries and of the servers they connect to.
pub record Machine : Type 0 where
  -- viper: the file as read, and as a Conf
  pub read_in_config : Reply Bytes
  pub unmarshal_config : Bytes → Reply Conf
  -- zapcore.Level.UnmarshalText accepts the text
  pub is_level : Bytes → Bool
  pub getwd : Reply Bytes
  -- filepath.Join of two parts, filepath.Dir
  pub join : Bytes → Bytes → Bytes
  pub dir : Bytes → Bytes
  pub mkdir_all : Bytes → Reply (Unit {0})
  pub open_file : Bytes → Reply (Unit {0})
  pub open_mysql : Bytes → Reply (Unit {0})
  pub auto_migrate : Reply (Unit {0})
  pub ping_redis : RedisOptions → Bool
  pub trace_exporter : Bool
  pub metric_exporter : Bool
  pub new_kafka_client : KafkaConfig → Bool
  -- cors.New, which panics at a configuration that it does not accept
  pub new_cors : CorsConfig → Reply (Unit {0})
  -- net.Listen, and the part of gin's Run before it waits for connections, each at an address
  pub listen : Bytes → Reply (Unit {0})
  pub run_http : Bytes → Reply (Unit {0})

-- What stops the process: a panic, or Fatalf, which exits with status 1.
pub data Stop : Type 0 where
  panicking fatal : Stop

-- A step of the start goes on, or stops the process with a text.
pub data Boot (A : Type 0) : Type 0 where
  up : A → Boot A
  down : Stop → Bytes → Boot A

infixl 5 ◌>>=◌ ◌>>◌
abbrev ◌>>=◌ : {A B : Type 0} → Boot A → (A → Boot B) → Boot B
up a >>= f = f a
down stop m >>= f = down stop m

abbrev ◌>>◌ : {B : Type 0} → Boot (Unit {0}) → Boot B → Boot B
m >> n = m >>= λ _. n

abbrev or_panic : {A : Type 0} → Bytes → Reply A → Boot A
or_panic text (reply a) = up a
or_panic text (fault m) = down panicking (text ++ m)

abbrev or_fatal : {A : Type 0} → Bytes → Reply A → Boot A
or_fatal text (reply a) = up a
or_fatal text (fault m) = down fatal (text ++ m)

abbrev pub nil_dereference : Bytes
nil_dereference = codes "runtime error: invalid memory address or nil pointer dereference"

abbrev or_nil : {A : Type 0} → Option A → Boot A
or_nil none = down panicking nil_dereference
or_nil (some a) = up a

-- Where the lines of the log go: to the standard output, or to a file and to the standard output.
pub data LogTarget : Type 0 where
  stdout : LogTarget
  file_and_stdout : Bytes → LogTarget

abbrev pub file_path_of : Option LogConfig → Bytes
file_path_of none = []
file_path_of (some log) = log.file_path

abbrev level_of : Option LogConfig → Bytes
level_of none = []
level_of (some log) = log.level

module _ (m : Machine) where
  -- config.Init
  unfoldable pub init_config : Boot Conf
  init_config = do raw ← or_panic [] m.read_in_config; or_panic [] (m.unmarshal_config raw)

  -- getLogLevel: the text of the level
  unfoldable pub get_log_level : Option LogConfig → Bytes
  get_log_level log =
      if not (level_of log == []) && m.is_level (level_of log) then level_of log else codes "info"

  open_log : Bytes → Boot LogTarget
  open_log file_path = do
    cwd ← or_panic (codes "failed to get current working directory: ") m.getwd
    or_panic (codes "failed to create directories: ") (m.mkdir_all (m.dir (m.join cwd file_path)))
    or_panic [] (m.open_file (m.join cwd file_path))
    up (file_and_stdout (m.join cwd file_path))

  -- getLogWriter, and the tee of InitLogger
  unfoldable pub get_log_writer : Option LogConfig → Boot LogTarget
  unfolding open_log
  get_log_writer log = if file_path_of log == [] then up stdout else open_log (file_path_of log)

  -- repository.Init
  unfoldable pub init_repository : Bytes → Boot (Unit {0})
  init_repository dsn =
      if dsn == []
      then down panicking (codes "MYSQL_DSN is not set")
      else do or_panic [] (m.open_mysql dsn); or_panic [] m.auto_migrate

-- The fields that InitLogger puts into every line.
pub record Logger : Type 0 where
  pub target : LogTarget
  pub level : Bytes
  pub service : Bytes
  pub env : Bytes

-- InitLogger
unfoldable pub init_logger : (b : Backend) → Machine → Option LogConfig → Boot Logger
init_logger b m log = do
  target ← get_log_writer m log
  up (record {
    target = target;
    level = get_log_level m log;
    service = log_service_name b;
    env = env_name b;
  })

-- fmt.Sprintf("%s:%d", host, port)
unfoldable pub address : Bytes → ℤ → Bytes
address host port = host ++ b':' ∷ format_int port

-- The process once the two servers are started.
pub record Running : Type 0 where
  pub conf : Conf
  pub logger : Logger
  pub redis : Option RedisOptions
  pub telemetry : Installed
  pub producer : KafkaProducer
  pub grpc_address : Bytes
  pub http_address : Bytes

running : Backend → Machine → Conf → Logger → GrpcConfig → HttpConfig → Running
running b m conf logger grpc http = record {
  conf = conf;
  logger = logger;
  redis = init_redis b m.ping_redis;
  telemetry = init_telemetry b m.trace_exporter m.metric_exporter;
  producer = build_producer conf.kafka m.new_kafka_client;
  grpc_address = address grpc.host grpc.port;
  http_address = address http.host http.port;
}

-- main behind the configuration, up to the wait for a signal. The two servers start in goroutines,
-- in some order; a panic or a Fatalf there ends the process as one in main does.
start_services : Backend → Machine → Conf → Boot Running
start_services b m conf = do
  logger ← init_logger b m conf.log
  init_repository m (b.getenv (codes "MYSQL_DSN"))
  grpc ← or_nil conf.grpc
  or_fatal (codes "Failed to listen: ") (m.listen (address grpc.host grpc.port))
  or_panic [] (m.new_cors (cors_config conf.system))
  http ← or_nil conf.http
  or_fatal (codes "Failed to run server: ") (m.run_http (address http.host http.port))
  up (running b m conf logger grpc http)

unfoldable pub main : Backend → Machine → Boot Running
unfolding start_services running init_config init_logger init_repository address
main b m = do conf ← init_config m; start_services b m conf

-- What ends a running process: a signal, or a server that serves no longer, whose Fatalf ends
-- the process at once, so that the line below it and the deferred calls of main never run.
pub data End : Type 0 where
  signalled : End
  grpc_failed http_failed : Bytes → End

-- Whether the exporters are shut down, and with which exit status the process ends.
pub record Ended : Type 0 where
  pub telemetry_shut : Bool
  pub status : ℤ

unfoldable pub finish : End → Ended
finish signalled = record { telemetry_shut = true; status = pos 0 }
finish (grpc_failed m) = record { telemetry_shut = false; status = pos 1 }
finish (http_failed m) = record { telemetry_shut = false; status = pos 1 }
