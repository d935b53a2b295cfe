-- ===== src/Commands/Check.antt =====
-- What `check` of core/src/commands.rs finds, and the start of the router after it.
use fogros2_sgc.Base.{
  ℕ, ◌≡◌, refl, sym, ap, subst, ◌∙◌, ◌↔◌, Bool, true, false, List, [], ◌∷◌, ◌++◌,
}
use fogros2_sgc.Text.{Text, codes}
use fogros2_sgc.Redis.{test_redis_connection, Env}
use fogros2_sgc.Commands.{
  router_loaded, start_with, serves, check, router, check_loaded, check_routing, file_report,
  returns, verdict, error_of, secret_path, secret_report, test_signaling_server, validation_errors,
  Host, Report, errors_of,
}
use fogros2_sgc.Config.Valid.{append-none, IsAccepted, validate_iff}
use fogros2_sgc.Config.{validate, AppConfig, get_redis_url, ok_if_none}
use fogros2_sgc.Base.Exec.{map_error}
use fogros2_sgc.Base.Result.{err, ok, Result}
use fogros2_sgc.Commands.Reach.{
  Answers, Takes, Takes-test_signaling_server, connected_world, test_redis_connection-Answers,
  test_signaling_server-Takes,
}

validation_errors-none : (r : Result (List Text) (Unit {0})) → r ≡ ok tt → validation_errors r ≡ []
validation_errors-none r e = ap validation_errors e

ok_if_none-validation :
    (es : List Text) → (validation_errors (ok_if_none es) ≡ []) → ok_if_none es ≡ ok tt
ok_if_none-validation [] e = refl
ok_if_none-validation (x ∷ es) e = absurd (cc)

error_of-none : (what : Text) (r : Result Text (Unit {0})) → (error_of what r ≡ []) ↔ (r ≡ ok tt)
error_of-none what (ok tt) = (λ e. refl, λ e. refl)
error_of-none what (err e) = (λ h. absurd (cc), λ h. absurd (cc))

verdict-returns : (es : List Text) → (verdict es ≡ returns) ↔ (es ≡ [])
verdict-returns [] = (λ e. refl, λ e. refl)
verdict-returns (x ∷ es) = (λ h. absurd (cc), λ h. absurd (cc))

errors_of-none :
    (config : AppConfig) (secret : Report) (signaling routing : Result Text (Unit {0}))
    → (errors_of config secret signaling routing ≡ [])
      ↔ ((validate config ≡ ok tt) × (secret.errors ≡ []) × (signaling ≡ ok tt) × (routing ≡ ok tt))
unfolding validate
errors_of-none config secret signaling routing = (
  λ e.
      let (a, rest) = (append-none _ _).0 e in
      let (b, rest2) = (append-none _ _).0 rest in
      let (c, d) = (append-none _ _).0 rest2 in
      (
        ok_if_none-validation _ a,
        b,
        (error_of-none (codes "Cannot connect to signaling server " ++ config.signaling_server)
              signaling).0
            c,
        (error_of-none (codes "Cannot connect to routing server " ++ config.routing_server)
              routing).0
            d,
      ),
  λ h. (append-none _ _).1 (
    validation_errors-none _ h.0,
    (append-none _ _).1 (
      h.1,
      (append-none _ _).1 (
        (error_of-none (codes "Cannot connect to signaling server " ++ config.signaling_server)
              signaling).1
            h.2,
        (error_of-none (codes "Cannot connect to routing server " ++ config.routing_server)
              routing).1
            h.3,
      ),
    ),
  ),
)

file_report-none :
    (name : Text) (found : Bool) (meta : Result Text ℕ)
    → ((file_report name found meta).errors ≡ []) ↔ ((found ≡ true) × (n : ℕ) × (meta ≡ ok n))
unfolding file_report
file_report-none name false meta = (λ e. absurd (cc), λ h. absurd (cc (h.0)))
file_report-none name true (err e) = (λ h. absurd (cc), λ h. absurd (cc (h.2)))
file_report-none name true (ok n) = (λ e. (refl, n, refl), λ h. refl)

module _ (env : Env) (host : Host env) where
  open env use {World}

  -- The tests of `check` pass.
  record TestsPass (config : AppConfig) (w : World) : Type 0 where
    pub again : AppConfig
    pub secret_len : ℕ
    pub accepted : IsAccepted config
    pub secret : host.exists (secret_path config.group_secret) w ≡ true
    pub readable : host.metadata_len (secret_path config.group_secret) w ≡ ok secret_len
    pub signaling : (test_signaling_server env host config.signaling_server w).0 ≡ ok tt
    pub loaded_again :
        host.fetch (test_signaling_server env host config.signaling_server w).1 ≡ ok again
    pub routing :
        (map_error env.error_text
          (test_redis_connection env (get_redis_url again))
          (test_signaling_server env host config.signaling_server w).1).0
        ≡ ok tt

  check_routing-returns :
      (config : AppConfig) (secret : Report) (signaling : Result Text (Unit {0}))
      (r : Result Text AppConfig) (w : World)
      → ((check_routing env host config secret signaling r w).1 ≡ returns) ↔ (
          (again : AppConfig) × (r ≡ ok again)
          × (errors_of config secret signaling
                (map_error env.error_text (test_redis_connection env (get_redis_url again)) w).0
              ≡ []))
  unfolding check_routing
  check_routing-returns config secret signaling (err e) w =
      (λ h. absurd (cc), λ h. absurd (cc (h.1)))
  check_routing-returns config secret signaling (ok again) w = (
    λ h. (again, refl, (verdict-returns _).0 h),
    λ h.
        let same : h.0 ≡ again = cc (h.1) in
        (verdict-returns _).1 (
          subst
            (λ a.
              errors_of config secret signaling
                (map_error env.error_text (test_redis_connection env (get_redis_url a)) w).0
              ≡ [])
            same h.2),
  )

  check_loaded-TestsPass :
      (config : AppConfig) (w : World)
      → TestsPass config w
      → (check_loaded env host (ok config) w).1 ≡ returns
  unfolding check_loaded secret_report
  check_loaded-TestsPass config w p =
      (check_routing-returns config (secret_report env host config w) _ _ _).1 (
        p.again,
        p.loaded_again,
        (errors_of-none config (secret_report env host config w) _ _).1 (
          (validate_iff config).1 p.accepted,
          (file_report-none config.group_secret _ _).1 (p.secret, p.secret_len, p.readable),
          p.signaling,
          p.routing,
        ),
      )

  check_loaded-returns :
      (r : Result Text AppConfig) (w : World)
      → ((check_loaded env host r w).1 ≡ returns)
        ↔ ((config : AppConfig) × (r ≡ ok config) × TestsPass config w)
  unfolding check_loaded secret_report
  check_loaded-returns (err e) w = (λ h. absurd (cc), λ h. absurd (cc (h.1)))
  check_loaded-returns (ok config) w = (
    λ h.
        let (again, found, none_found) =
          (check_routing-returns config (secret_report env host config w) _ _ _).0 h in
        let (good, secret, signaling, routing) =
          (errors_of-none config (secret_report env host config w) _ _).0 none_found in
        let (there, n, readable) = (file_report-none config.group_secret _ _).0 secret in
        (
          config,
          refl,
          record {
            again = again;
            secret_len = n;
            accepted = (validate_iff config).0 good;
            secret = there;
            readable = readable;
            signaling = signaling;
            loaded_again = found;
            routing = routing;
          },
        ),
    λ h.
        let same : h.0 ≡ config = cc (h.1) in
        check_loaded-TestsPass config w (subst (λ c. TestsPass c w) same h.2),
  )

  check-TestsPass :
      (w : World)
      → ((check env host w).1 ≡ returns)
        ↔ ((config : AppConfig) × (host.fetch w ≡ ok config) × TestsPass config w)
  unfolding check
  check-TestsPass w = check_loaded-returns (host.fetch w) w

  -- What a configuration and a world have to be for `check` to pass.
  pub record Passes (config : AppConfig) (w : World) : Type 0 where
    pub accepted : IsAccepted config
    pub secret : host.exists (secret_path config.group_secret) w ≡ true
    pub secret_len : ℕ
    pub readable : host.metadata_len (secret_path config.group_secret) w ≡ ok secret_len
    pub signaling : Takes env host config.signaling_server w
    pub again : AppConfig
    pub loaded_again :
        host.fetch (connected_world env host config.signaling_server w signaling) ≡ ok again
    pub redis :
        Answers env host
          (get_redis_url again)
          (connected_world env host config.signaling_server w signaling)

  TestsPass-Passes : (config : AppConfig) (w : World) → TestsPass config w → Passes config w
  TestsPass-Passes config w p =
      let t = test_signaling_server-Takes env host config.signaling_server w p.signaling in
      let moved = (Takes-test_signaling_server env host config.signaling_server w t).1 in
      record {
        accepted = p.accepted;
        secret = p.secret;
        secret_len = p.secret_len;
        readable = p.readable;
        signaling = t;
        again = p.again;
        loaded_again = subst (λ v. host.fetch v ≡ ok p.again) moved p.loaded_again;
        redis = (test_redis_connection-Answers env host (get_redis_url p.again) _).0 (
            subst
              (λ v.
                (map_error env.error_text (test_redis_connection env (get_redis_url p.again)) v).0
                ≡ ok tt)
              moved p.routing);
      }

  Passes-TestsPass : (config : AppConfig) (w : World) → Passes config w → TestsPass config w
  Passes-TestsPass config w p =
      let (up, moved) =
        Takes-test_signaling_server env host config.signaling_server w p.signaling in
      record {
        again = p.again;
        secret_len = p.secret_len;
        accepted = p.accepted;
        secret = p.secret;
        readable = p.readable;
        signaling = up;
        loaded_again = subst (λ v. host.fetch v ≡ ok p.again) (sym moved) p.loaded_again;
        routing =
            subst
              (λ v.
                (map_error env.error_text (test_redis_connection env (get_redis_url p.again)) v).0
                ≡ ok tt)
              (sym moved)
              ((test_redis_connection-Answers env host (get_redis_url p.again) _).1 p.redis);
      }

  -- `check` passes exactly if the configuration loads and is accepted by `validate`, with or without
  -- topics, the file of the group secret exists and its length can be read, the host and port of the
  -- signaling server resolve and the first address takes a connection, and, with the configuration as it
  -- is fetched after that, Redis takes a connection and answers a ping.
  pub check_iff :
      (w : World)
      → ((check env host w).1 ≡ returns)
        ↔ ((config : AppConfig) × (host.fetch w ≡ ok config) × Passes config w)
  check_iff w = (
    λ h.
        let (config, loaded, p) = (check-TestsPass w).0 h in
        (config, loaded, TestsPass-Passes config w p),
    λ h. (check-TestsPass w).1 (h.0, h.1, Passes-TestsPass h.0 w h.2),
  )

  start_with-serves :
      (r : Result (List Text) (Unit {0})) (found : Bool)
      → r ≡ ok tt
      → found ≡ true
      → start_with r found ≡ serves
  start_with-serves r found e f = ap (λ x. start_with x found) e ∙ ap (start_with (ok tt)) f

  -- If `check` passes, the router comes up on the same world.
  pub check-router : (w : World) → (check env host w).1 ≡ returns → router env host w ≡ serves
  unfolding router
  check-router w h =
      let (config, loaded, p) = (check-TestsPass w).0 h in
      ap (λ r. router_loaded env host r w) loaded
      ∙ start_with-serves _ _ ((validate_iff config).1 p.accepted) p.secret
