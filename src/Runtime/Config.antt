-- ===== src/Runtime/Config.antt =====
-- crates/nexus-move-runtime/src/config.rs
use nexus_move.Prelude.{ℕ}

pub record VmConfig : Type 0 where
  pub max_binary_size : ℕ
  pub call_base_gas : ℕ
  pub publish_base_gas : ℕ
  pub publish_per_byte_gas : ℕ
  pub read_per_byte_gas : ℕ
  pub write_per_byte_gas : ℕ

-- `VmConfig::default`
abbrev pub default_config : VmConfig
default_config = record {
  max_binary_size = 524288;
  call_base_gas = 5000;
  publish_base_gas = 10000;
  publish_per_byte_gas = 1;
  read_per_byte_gas = 1;
  write_per_byte_gas = 5;
}

-- `VmConfig::for_testing`
abbrev pub testing_config : VmConfig
testing_config = record {
  max_binary_size = 65536;
  call_base_gas = 1000;
  publish_base_gas = 2000;
  publish_per_byte_gas = 1;
  read_per_byte_gas = 1;
  write_per_byte_gas = 5;
}
