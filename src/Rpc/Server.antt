-- ===== src/Rpc/Server.antt =====
-- The RPC server (crates/rpc/src/server.rs): its configuration and the methods that it serves. The HTTP
-- server that `start` builds and the logging are left out.
use bunzo.Prelude.{ℕ, ◌*◌, ◌+◌, ◌^◌}
use bunzo.Types.Chain.{ChainSpec}
use bunzo.Pool.Store.{OperationPool}
use bunzo.Pool.Reputation.{Float}
use bunzo.Pool.Validation.{Validator}
use bunzo.Rpc.Eth.{EthApi}
use bunzo.Rpc.Eth

-- An address is its IPv4 number and its port.
pub record RpcServerConfig : Type 0 where
  pub addr : ℕ × ℕ
  pub max_connections : ℕ
  pub max_request_body_size : ℕ

abbrev pub default_config : RpcServerConfig
default_config = record {
  addr = (127 * 2 ^ 24 + 1, 3000);
  max_connections = 100;
  max_request_body_size = 10 * 1024 * 1024;
}

module _ (fl : Float) where
  pub record RpcServer : Type 0 where
    pub config : RpcServerConfig
    pub eth_api : EthApi fl

  -- The providers are arguments of the methods that ask them.
  unfoldable pub with_providers :
      RpcServerConfig → ChainSpec → OperationPool → Validator fl → RpcServer
  with_providers config chain_spec op_pool validator = record {
    config = config;
    eth_api = Eth.with_providers fl chain_spec op_pool validator;
  }
