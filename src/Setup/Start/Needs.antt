-- ===== src/Setup/Start/Needs.antt =====
-- What the process needs to start.
use identity_mservice.Base.{
  Bytes, codes, ◌==◌, eq_iff, Bool-cases, Option, Option-cases, some, false, [], ◌∙◌, ap, ◌≡◌, ◌≢◌,
  ◌↔◌, ◌⊎◌, inl, inr, refl, arith,
}
use identity_mservice.Backend.{Backend, reply}
use identity_mservice.Action.{Reply-cases}
use identity_mservice.Setup.Log.{env_name, log_service_name}
use identity_mservice.Setup.Cors.{cors_config}
use identity_mservice.Setup.Start.{
  Machine, Conf, LogConfig, GrpcConfig, HttpConfig, Boot, up, down, Stop, address, LogTarget,
  stdout, file_and_stdout, file_path_of, init_config, open_log, get_log_writer, init_repository,
  init_logger, Logger, get_log_level, Running, running, start_services, main,
}

Boot-cases :
    {A : Type 0} (r : Boot A) → ((a : A) × (r ≡ up a)) ⊎ ((s : Stop) × (x : Bytes) × (r ≡ down s x))
Boot-cases (up a) = inl (a, refl)
Boot-cases (down s x) = inr (s, x, refl)

module _ (b : Backend) (m : Machine) where
  -- The directory of the log file can be made, and the file opened.
  pub record CanLog (file_path : Bytes) : Type 0 where
    pub cwd : Bytes
    pub working : m.getwd ≡ reply cwd
    pub made : m.mkdir_all (m.dir (m.join cwd file_path)) ≡ reply tt
    pub opened : m.open_file (m.join cwd file_path) ≡ reply tt

  pub record CanServe (conf : Conf) : Type 0 where
    pub log : (file_path_of conf.log ≡ []) ⊎ CanLog (file_path_of conf.log)
    pub dsn : b.getenv (codes "MYSQL_DSN") ≢ []
    pub mysql : m.open_mysql (b.getenv (codes "MYSQL_DSN")) ≡ reply tt
    pub migrated : m.auto_migrate ≡ reply tt
    pub grpc : GrpcConfig
    pub grpc_section : conf.grpc ≡ some grpc
    pub grpc_listens : m.listen (address grpc.host grpc.port) ≡ reply tt
    pub cors : m.new_cors (cors_config conf.system) ≡ reply tt
    pub http : HttpConfig
    pub http_section : conf.http ≡ some http
    pub http_runs : m.run_http (address http.host http.port) ≡ reply tt

  -- A configuration is read and decoded, and it can be served.
  abbrev pub CanStart : Type 0
  CanStart =
      (conf : Conf) × (raw : Bytes) × (m.read_in_config ≡ reply raw)
      × (m.unmarshal_config raw ≡ reply conf)
      × CanServe conf

  open_log-eq-up :
      (file_path : Bytes) (t : LogTarget) → open_log m file_path ≡ up t → CanLog file_path
  unfolding open_log
  open_log-eq-up file_path t h = elim (Reply-cases m.getwd) [
    | inr (x, e) ↦ cc (rw e at h)
    | inl (cwd, e) ↦ elim (Reply-cases (m.mkdir_all (m.dir (m.join cwd file_path)))) [
      | inr (x, f) ↦ cc (rw (e, f) at h)
      | inl (made, f) ↦ elim (Reply-cases (m.open_file (m.join cwd file_path))) [
        | inr (x, g) ↦ cc (rw (e, f, g) at h)
        | inl (opened, g) ↦ record { cwd = cwd; working = e; made = f; opened = g }
      ]
    ]
  ]

  get_log_writer-eq-up :
      (log : Option LogConfig) (t : LogTarget)
      → get_log_writer m log ≡ up t
      → (file_path_of log ≡ []) ⊎ CanLog (file_path_of log)
  unfolding get_log_writer
  get_log_writer-eq-up log t h = elim (Bool-cases (file_path_of log == [])) [
    | inl blank ↦ inl ((eq_iff (file_path_of log) []).0 blank)
    | inr given ↦ inr (open_log-eq-up (file_path_of log) t (rw given at h))
  ]

  init_repository-eq-up :
      (dsn : Bytes)
      → init_repository m dsn ≡ up tt
      → (dsn ≢ []) × (m.open_mysql dsn ≡ reply tt) × (m.auto_migrate ≡ reply tt)
  unfolding init_repository
  init_repository-eq-up dsn h = elim (Bool-cases (dsn == [])) [
    | inl blank ↦ cc (rw blank at h)
    | inr given ↦ elim (Reply-cases (m.open_mysql dsn)) [
      | inr (x, e) ↦ cc (rw (given, e) at h)
      | inl (opened, e) ↦ elim (Reply-cases m.auto_migrate) [
        | inr (x, f) ↦ cc (rw (given, e, f) at h)
        | inl (migrated, f) ↦ (ground (arith, eq_iff dsn []), e, f)
      ]
    ]
  ]

  init_config-eq-up :
      (conf : Conf)
      → init_config m ≡ up conf
      → (raw : Bytes) × (m.read_in_config ≡ reply raw) × (m.unmarshal_config raw ≡ reply conf)
  unfolding init_config
  init_config-eq-up conf h = elim (Reply-cases m.read_in_config) [
    | inr (x, e) ↦ cc (rw e at h)
    | inl (raw, e) ↦ elim (Reply-cases (m.unmarshal_config raw)) [
      | inr (x, f) ↦ cc (rw (e, f) at h)
      | inl (other, f) ↦
          let same : up other ≡ up conf = rw (e, f) at h in
          let same' : other ≡ conf = cc same in (raw, e, f ∙ ap reply same')
    ]
  ]

  init_config_up :
      (conf : Conf) (raw : Bytes)
      → m.read_in_config ≡ reply raw
      → m.unmarshal_config raw ≡ reply conf
      → init_config m ≡ up conf
  unfolding init_config
  init_config_up conf raw read decoded = rw (read, decoded) refl

  start_services-CanServe :
      (conf : Conf) (r : Running) → start_services b m conf ≡ up r → CanServe conf
  unfolding start_services init_logger
  start_services-CanServe conf r h =
      let dsn = b.getenv (codes "MYSQL_DSN") in
      elim (Boot-cases (get_log_writer m conf.log)) [
        | inr (s, x, g) ↦ cc (rw g at h)
        | inl (target, g) ↦ elim (Boot-cases (init_repository m dsn)) [
          | inr (s, x, k) ↦ cc (rw (g, k) at h)
          | inl (done, k) ↦ elim (Option-cases conf.grpc) [
            | inl missing ↦ cc (rw (g, k, missing) at h)
            | inr (grpc, l) ↦ elim (Reply-cases (m.listen (address grpc.host grpc.port))) [
              | inr (x, i) ↦ cc (rw (g, k, l, i) at h)
              | inl (listening, i) ↦ elim (Reply-cases (m.new_cors (cors_config conf.system))) [
                | inr (x, q) ↦ cc (rw (g, k, l, i, q) at h)
                | inl (passing, q) ↦ elim (Option-cases conf.http) [
                  | inl missing ↦ cc (rw (g, k, l, i, q, missing) at h)
                  | inr (http, n) ↦ elim (Reply-cases (m.run_http (address http.host http.port))) [
                    | inr (x, j) ↦ cc (rw (g, k, l, i, q, n, j) at h)
                    | inl (runs, j) ↦
                        let (given, mysql, migrated) = init_repository-eq-up dsn k in
                        record {
                          log = get_log_writer-eq-up conf.log target g;
                          dsn = given;
                          mysql = mysql;
                          migrated = migrated;
                          grpc = grpc;
                          grpc_section = l;
                          grpc_listens = i;
                          cors = q;
                          http = http;
                          http_section = n;
                          http_runs = j;
                        }
                  ]
                ]
              ]
            ]
          ]
        ]
      ]

  get_log_writer_up :
      (log : Option LogConfig)
      → (file_path_of log ≡ []) ⊎ CanLog (file_path_of log)
      → (t : LogTarget) × (get_log_writer m log ≡ up t)
  unfolding get_log_writer open_log
  get_log_writer_up log (inl blank) = (stdout, rw ((eq_iff (file_path_of log) []).1 blank) refl)
  get_log_writer_up log (inr c) = elim (Bool-cases (file_path_of log == [])) [
    | inl blank ↦ (stdout, rw blank refl)
    | inr given ↦ (
      file_and_stdout (m.join c.cwd (file_path_of log)),
      rw (given, c.working, c.made, c.opened) refl,
    )
  ]

  init_repository_up :
      (dsn : Bytes)
      → dsn ≢ []
      → m.open_mysql dsn ≡ reply tt
      → m.auto_migrate ≡ reply tt
      → init_repository m dsn ≡ up tt
  unfolding init_repository
  init_repository_up dsn n opened migrated =
      let given : (dsn == []) ≡ false = ground (arith, eq_iff dsn []) in
      rw (given, opened, migrated) refl

  init_logger_up :
      (log : Option LogConfig) (target : LogTarget)
      → get_log_writer m log ≡ up target
      → (logger : Logger) × (init_logger b m log ≡ up logger)
  unfolding init_logger
  init_logger_up log target opened = (
    record {
      target = target;
      level = get_log_level m log;
      service = log_service_name b;
      env = env_name b;
    },
    rw opened refl,
  )

  start_services_up :
      (conf : Conf) → CanServe conf → (r : Running) × (start_services b m conf ≡ up r)
  unfolding start_services
  start_services_up conf c =
      let (target, opened) = get_log_writer_up conf.log c.log in
      let (logger, logs) = init_logger_up conf.log target opened in
      (
        running b m conf logger c.grpc c.http,
        rw
            (
              logs,
              init_repository_up (b.getenv (codes "MYSQL_DSN")) c.dsn c.mysql c.migrated,
              c.grpc_section,
              c.grpc_listens,
              c.cors,
              c.http_section,
              c.http_runs,
            )
            refl,
      )

  -- The main function reaches the wait for a signal with both servers started exactly when the
  -- configuration file can be read and decoded, a log file, where one is configured, can be opened
  -- in its directory, MYSQL_DSN is set, the database can be opened and migrated, the configuration
  -- has the section grpc and its address can be listened at, package cors accepts the allowed
  -- origins, and the configuration has the section http and gin can run at its address: whatever
  -- is the case with Redis, with the exporters and with Kafka.
  pub main-up_iff : ((r : Running) × (main b m ≡ up r)) ↔ CanStart
  unfolding main
  main-up_iff = (
    λ (r, h). elim (Boot-cases (init_config m)) [
      | inr (s, x, e) ↦ cc (rw e at h)
      | inl (conf, e) ↦
          let (raw, read, decoded) = init_config-eq-up conf e in
          (conf, raw, read, decoded, start_services-CanServe conf r (rw e at h))
    ],
    λ (conf, raw, read, decoded, c).
        let (r, e) = start_services_up conf c in (r, rw (init_config_up conf raw read decoded) e),
  )
