-- ===== src/Config/Examples.antt =====
-- A test of internal/config/config.go.
use ideas.Base.{◌≡◌, refl, none}
use ideas.Config.Default.{default_config}
use ideas.Config.Validate.{validate}

-- The default configuration is valid.
validate-default_config : validate default_config ≡ none
unfolding validate
validate-default_config = refl
