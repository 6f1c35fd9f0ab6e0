-- ===== src/Setup/Providers/Ready.antt =====
-- What Init of server/telemetry/init.go leaves behind, whatever fails on the way.
use identity_mservice.Base.{
  Bytes, codes, if◌then◌else◌, Bool, true, false, Option, none, some, [], ◌∷◌, ◌≡◌, ◌≢◌, ◌↔◌, ◌⊎◌,
  inl, inr, refl, subst,
}
use identity_mservice.Backend.{Backend, Reply, reply, fault}
use identity_mservice.Setup.Sampler.{Floats, sampling_ratio}
use identity_mservice.Setup.Telemetry.{Installed, local_tracer, exporting, init, shutdown_error}
use identity_mservice.Setup.Providers.{
  Sdk, Otel, TracerProvider, MeterProvider, Shutdown, always_sample, parent_based, trace_context,
  baggage, new_resource, or_empty, install_local_tracer_provider, init_tracer, init_metrics,
  metered, with_runtime, start_runtime_metrics, export, init_providers, of_meter, shut_down, write,
}

abbrev pub is_reply : {A : Type 0} → Reply A → Bool
is_reply (reply a) = true
is_reply (fault m) = false

abbrev pub made_or_empty : (sdk : Sdk) → Reply sdk.Resource → sdk.Resource
made_or_empty sdk (reply res) = res
made_or_empty sdk (fault m) = sdk.empty

module _ {f : Floats} {sdk : Sdk} where
  abbrev pub is_metered : Option (MeterProvider f sdk) → Bool
  is_metered none = false
  is_metered (some mp) = true

  abbrev pub kind : TracerProvider f sdk → Option (MeterProvider f sdk) → Installed
  kind tp mp = if tp.batched then exporting (is_metered mp) else local_tracer

  abbrev pub IsOf : sdk.Resource → Option (MeterProvider f sdk) → Type 0
  IsOf res none = Unit {0}
  IsOf res (some mp) = mp.resource ≡ res

  -- The globals and the shutdown function after Init.
  pub record Ready (b : Backend) (i : Installed) (res : sdk.Resource) (otel : Otel f sdk)
      (s : Shutdown f sdk) : Type 0 where
    pub propagators : otel.propagators ≡ trace_context ∷ baggage ∷ []
    pub installed : kind s.tracer s.meter ≡ i
    -- the function closes the providers that are set
    pub tracer : otel.tracer ≡ some s.tracer
    pub meter : otel.meter ≡ s.meter
    -- a tracer that does not export keeps all spans
    pub sampler :
        s.tracer.sampler
        ≡ (if s.tracer.batched then parent_based (sampling_ratio f b) else always_sample)
    pub traces_of : s.tracer.resource ≡ res
    pub metrics_of : IsOf res s.meter
    -- the runtime is measured only where a meter exports it
    pub runtime : otel.runtime ≢ none → otel.meter ≢ none
    -- and it returns nil exactly when the ones that there are do
    pub closed :
        (meter_failed tracer_failed : Option Bytes)
        → (shut_down s meter_failed tracer_failed ≡ none)
          ↔ ((tracer_failed ≡ none) × ((s.meter ≡ none) ⊎ (meter_failed ≡ none)))

  shutdown_error_iff :
      (mp : Option (MeterProvider f sdk)) (m t : Option Bytes)
      → (shutdown_error (of_meter mp m) t ≡ none) ↔ ((t ≡ none) × ((mp ≡ none) ⊎ (m ≡ none)))
  unfolding shutdown_error
  shutdown_error_iff none m t = (λ e. (e, inl refl), λ h. h.0)
  shutdown_error_iff (some mp) none t = (λ e. (e, inr refl), λ h. h.0)
  shutdown_error_iff (some mp) (some m) t =
      (λ e. cc e, λ h. elim h.1 [ inl e ↦ cc e | inr e ↦ cc e ])

  shut_down_iff :
      (s : Shutdown f sdk) (m t : Option Bytes)
      → (shut_down s m t ≡ none) ↔ ((t ≡ none) × ((s.meter ≡ none) ⊎ (m ≡ none)))
  unfolding shut_down
  shut_down_iff s m t = shutdown_error_iff s.meter m t

  pub record Fresh (otel : Otel f sdk) : Type 0 where
    pub propagators : otel.propagators ≡ trace_context ∷ baggage ∷ []
    pub meter : otel.meter ≡ none
    pub runtime : otel.runtime ≡ none

  install_local-Ready :
      (b : Backend) (res : sdk.Resource) (otel : Otel f sdk)
      → Fresh otel
      → let (o, s) = install_local_tracer_provider res otel in Ready b local_tracer res o s
  unfolding install_local_tracer_provider
  install_local-Ready b res otel fresh = record {
    propagators = fresh.propagators;
    installed = refl;
    tracer = refl;
    meter = fresh.meter;
    sampler = refl;
    traces_of = refl;
    metrics_of = tt;
    runtime = λ n. absurd (n fresh.runtime);
    closed = shut_down_iff _;
  }

  -- Once there is an exporter of traces.
  export-Ready :
      (b : Backend) (res : sdk.Resource) (otel : Otel f sdk)
      → Fresh otel
      → (metrics started : Reply (Unit {0}))
      → let tp : TracerProvider f sdk = record {
        sampler = parent_based (sampling_ratio f b);
        batched = true;
        resource = res;
      } in
        let (made, set) = init_metrics metrics res (record otel { tracer = some tp }) in
        let (mp, noted) = metered made set in
        Ready b
          (exporting (is_reply metrics))
          res
          (write (codes "OpenTelemetry export initialized") (with_runtime mp started noted))
          (record { tracer = tp; meter = mp })
  unfolding init_metrics with_runtime start_runtime_metrics
  export-Ready b res otel fresh (fault m) started = record {
    propagators = fresh.propagators;
    installed = refl;
    tracer = refl;
    meter = fresh.meter;
    sampler = refl;
    traces_of = refl;
    metrics_of = tt;
    runtime = λ n. absurd (n fresh.runtime);
    closed = shut_down_iff _;
  }
  export-Ready b res otel fresh (reply exp) (fault m) = record {
    propagators = fresh.propagators;
    installed = refl;
    tracer = refl;
    meter = refl;
    sampler = refl;
    traces_of = refl;
    metrics_of = refl;
    runtime = λ n. cc;
    closed = shut_down_iff _;
  }
  export-Ready b res otel fresh (reply exp) (reply done) = record {
    propagators = fresh.propagators;
    installed = refl;
    tracer = refl;
    meter = refl;
    sampler = refl;
    traces_of = refl;
    metrics_of = refl;
    runtime = λ n. cc;
    closed = shut_down_iff _;
  }

  or_empty-Fresh :
      (r : Reply sdk.Resource) (otel : Otel f sdk) → Fresh otel → Fresh (or_empty r otel).1
  or_empty-Fresh (reply res) otel fresh = fresh
  or_empty-Fresh (fault m) otel fresh = record {
    propagators = fresh.propagators;
    meter = fresh.meter;
    runtime = fresh.runtime;
  }

  if_exported :
      (b : Backend) (res : sdk.Resource) (otel : Otel f sdk)
      → Fresh otel
      → (traces : Reply (Unit {0}))
      → let (traced, set) = init_tracer traces b res otel in
        let (o, s) = export traced res set in
        Ready b
          (if is_reply traces then exporting (is_reply sdk.metric_exporter) else local_tracer)
          res
          o
          s
  unfolding export init_tracer
  if_exported b res otel fresh (reply exp) =
      export-Ready b res otel fresh sdk.metric_exporter sdk.start_runtime
  if_exported b res otel fresh (fault m) =
      install_local-Ready b res _
        (record { propagators = fresh.propagators; meter = fresh.meter; runtime = fresh.runtime })

  -- The tests of Init, whatever they say.
  tested-Ready :
      (b : Backend) (res : sdk.Resource) (otel : Otel f sdk) (message : Bytes)
      → Fresh otel
      → (absent unsupported : Bool)
      → let (o, s) =
          if absent
          then install_local_tracer_provider res (write message otel)
          else if unsupported
          then install_local_tracer_provider res
              (write (codes "unsupported OTLP protocol, telemetry export disabled") otel)
          else let (traced, set) = init_tracer sdk.trace_exporter b res otel in
            export traced res set in
        Ready b
          (if absent
            then local_tracer
            else if unsupported
            then local_tracer
            else if is_reply sdk.trace_exporter
            then exporting (is_reply sdk.metric_exporter)
            else local_tracer)
          res
          o
          s
  tested-Ready b res otel message fresh true unsupported =
      install_local-Ready b res _
        (record { propagators = fresh.propagators; meter = fresh.meter; runtime = fresh.runtime })
  tested-Ready b res otel message fresh false true =
      install_local-Ready b res _
        (record { propagators = fresh.propagators; meter = fresh.meter; runtime = fresh.runtime })
  tested-Ready b res otel message fresh false false =
      if_exported b res otel fresh sdk.trace_exporter

  or_empty-made :
      (r : Reply sdk.Resource) (otel : Otel f sdk) → (or_empty r otel).0 ≡ made_or_empty sdk r
  or_empty-made (reply res) otel = refl
  or_empty-made (fault m) otel = refl

  -- Where no meter provider is set and no runtime metrics run before: Init, whatever fails on its
  -- way, sets the two propagators and a tracer provider, of the kind that Setup.Telemetry.init
  -- gives for the environment and the exporters that can be made: one that exports, with the
  -- sampling ratio, or one that keeps all spans for the log. A meter provider is set only beside
  -- one that exports, and the runtime is measured only where there is a meter provider. Both
  -- providers have the resource that newResource gives, or the empty one where it fails. The
  -- function that Init returns closes the providers that are set, and returns nil exactly when the
  -- Shutdown of the tracer provider and that of a meter provider, if there is one, do.
  pub init_providers-Ready :
      (b : Backend) (otel : Otel f sdk)
      → otel.meter ≡ none
      → otel.runtime ≡ none
      → let (o, s) = init_providers b otel in
        Ready b
          (init b (is_reply sdk.trace_exporter) (is_reply sdk.metric_exporter))
          (made_or_empty sdk (new_resource sdk b))
          o
          s
  unfolding init_providers init
  init_providers-Ready b otel m r =
      let begun = record otel { propagators = trace_context ∷ baggage ∷ [] } in
      let made = or_empty (new_resource sdk b) begun in
      let fresh : Fresh made.1 =
        or_empty-Fresh (new_resource sdk b) begun
          (record { propagators = refl; meter = m; runtime = r }) in
      subst
        (λ (res : sdk.Resource).
          Ready b (init b (is_reply sdk.trace_exporter) (is_reply sdk.metric_exporter)) res
            (init_providers b otel).0 (init_providers b otel).1)
        (or_empty-made (new_resource sdk b) begun) (tested-Ready b made.0 made.1 _ fresh _ _)
