-- ===== src/Config/Validation/Load.antt =====
-- config.go, loadConfigFromReader behind the decoders: the defaults.
use large_model_proxy.Base.{◌≡◌, ◌≢◌, refl, Bool, List, [], ◌∷◌, Option, none, some, arith, All}
use large_model_proxy.Config.{Config, ServiceConfig, LogLevel, unset, debug, normal}
use large_model_proxy.Config.Url.{Library}
use large_model_proxy.Config.Validation.{
  Issue, loaded, finish, with_defaults, with_log_level, or_normal, or_true, load_config,
}
use large_model_proxy.Config.Validation.Sound.{IsValid, validate_config-IsValid}

or_normal-set : (l : LogLevel) → or_normal l ≢ unset
or_normal-set unset h = ground (arith, h)
or_normal-set debug h = ground (arith, h)
or_normal-set normal h = ground (arith, h)

or_true-set : (o : Option Bool) → or_true o ≢ none
or_true-set none h = ground (arith, h)
or_true-set (some b) h = ground (arith, h)

with_defaults-set :
    (ss : List ServiceConfig)
    → All (λ s. s.consider_stopped_on_process_exit ≢ none) (with_defaults ss)
unfolding with_defaults
with_defaults-set [] = tt
with_defaults-set (s ∷ ss) = (or_true-set s.consider_stopped_on_process_exit, with_defaults-set ss)

-- The fields that the program follows as pointers are set, and the log level is one of the two.
pub record IsComplete (c : Config) : Type 0 where
  pub log_level_set : c.log_level ≢ unset
  pub output_set : c.output_service_logs ≢ none
  pub exit_set : All (λ s. s.consider_stopped_on_process_exit ≢ none) c.services

finish-IsComplete :
    (c d : Config) (issues : List Issue)
    → c.log_level ≢ unset
    → finish c issues ≡ loaded d
    → (issues ≡ []) × IsComplete d
finish-IsComplete c d (i ∷ issues) l h = ground (arith, h)
finish-IsComplete c d [] l h = (
  refl,
  let q : d ≡ record c {
    output_service_logs = or_true c.output_service_logs;
    services = with_defaults c.services;
  } =
        cc h in
      rw q (record {
        log_level_set = l;
        output_set = or_true-set c.output_service_logs;
        exit_set = with_defaults-set c.services;
      }),
)

-- A configuration that was loaded passed every check of validateConfig, the log level's default
-- filled in, and has a log level, a choice for the services' logs and, for each service, for the
-- exit of its process.
pub load_config-IsComplete :
    (lib : Library) (decoded c : Config)
    → load_config lib decoded ≡ loaded c
    → IsValid lib (with_log_level decoded) × IsComplete c
unfolding load_config
load_config-IsComplete lib decoded c h =
    let (clean, complete) =
      finish-IsComplete (with_log_level decoded) c _ (or_normal-set decoded.log_level) h in
    (validate_config-IsValid lib (with_log_level decoded) clean, complete)
