-- ===== src/Config/Tests.antt =====
-- Runs of internal/config/config.go, and its theorem at a concrete input.
use yuclase.Base.{◌≡◌, refl, bytes_eq, []}
use yuclase.Base.Int64.{pos}
use yuclase.Base.Bytes.{codes}
use yuclase.Base.Exec.{ok}
use yuclase.Config.{Config}
use yuclase.Config.Size.{parse_size, without_suffix}
use yuclase.Base.Text.{trim_space, to_upper, parse_int, parse_digits}
use yuclase.Config.Load.{
  World, load_config, defaults, load_from_env, parse_and_validate, parse_into, validate,
  set_segment_bytes, set_write_bytes, set_read_bytes, set_sync, set_cleanup,
}
use yuclase.Config.Valid.{IsValid, load_config-IsValid}

megabytes : parse_size (codes " 100mb ") ≡ ok (pos 104857600)
unfolding parse_size trim_space to_upper without_suffix parse_int parse_digits bytes_eq
megabytes = refl

-- The product is 2 ^ 64, which wraps to 0 and passes the test for an overflow.
wrapped_size : parse_size (codes "17179869184GB") ≡ ok (pos 0)
unfolding parse_size trim_space to_upper without_suffix parse_int parse_digits bytes_eq
wrapped_size = refl

-- Every duration is one second, and there is neither a file nor an environment.
abbrev world : World
world = record {
  read_file = λ path. ok [];
  unmarshal_yaml = λ bytes c. ok c;
  getenv = λ name. [];
  parse_duration = λ t. ok (pos 1000000000);
}

abbrev loaded_config : Config
loaded_config = set_cleanup (pos 1000000000) (
    set_sync (pos 1000000000) (
      set_read_bytes (pos 65536)
        (set_write_bytes (pos 65536) (set_segment_bytes (pos 104857600) defaults))))

default_sizes : load_config world [] ≡ ok loaded_config
unfolding load_config load_from_env parse_and_validate parse_into parse_size trim_space to_upper
    without_suffix parse_int parse_digits bytes_eq validate defaults
default_sizes = refl

config_example : IsValid loaded_config
config_example = load_config-IsValid world [] loaded_config default_sizes
