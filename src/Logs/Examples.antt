-- ===== src/Logs/Examples.antt =====
-- The default configuration.
use goddd.Logs.{new_default_config, set_service, set_dir, setup_slog}
use goddd.Common.Text.{same, codes, Bytes}
use goddd.Common.{◌≡◌, [], ◌++◌, ◌∷◌, refl}

abbrev joined : Bytes → Bytes → Bytes
joined a b = a ++ (b'/' ∷ b)

default_writer :
    (setup_slog (λ s. s) joined (set_service [] (codes "a") [] new_default_config)).attributes
    ≡ (codes "service_name", codes "a") ∷ []
unfolding setup_slog same set_service
default_writer = refl

crash_file_elsewhere :
    (setup_slog (λ s. s) joined (set_dir [] new_default_config)).crash_file ≡ codes "/crash.log"
unfolding setup_slog set_dir
crash_file_elsewhere = refl
