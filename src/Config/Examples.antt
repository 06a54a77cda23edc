-- ===== src/Config/Examples.antt =====
-- The default configuration with a node id, and a tenant.
use piko.Prelude.{ℕ, false, [], ◌∷◌, ltb, refl, same}
use piko.Prelude.Int.{pos, is_zero}
use piko.Auth.Config
use piko.Auth.Config.{is_given}
use piko.Config.{TlsConfig, Fractions, ServerConfig, validate, is_level}
use piko.Config.Valid.{IsValid, validate-IsValid}

-- Fractions in thousandths.
abbrev thousandths : Fractions ℕ
thousandths = record { is_negative = λ n. false; exceeds_one = ltb 1000 }

abbrev no_tls : TlsConfig
no_tls = record { cert = ""; key = ""; client_cas = "" }

abbrev config : ServerConfig ℕ
config = record {
  proxy = record {
    bind_addr = ":8000";
    access_log = record {
      level = "info";
      request_headers = record { block_list = []; allow_list = [] };
      response_headers = record { block_list = []; allow_list = [] };
      disable = false;
    };
    tls = no_tls;
  };
  upstream = record {
    bind_addr = ":8001";
    rebalance = record { threshold = 0; shed_rate = 5; min_conns = 50 };
    tls = no_tls;
    tenants =
        record {
          id = "one";
          auth = record {
            hmac_secret_key = "secret";
            rsa_public_key = "";
            ecdsa_public_key = "";
            audience = "";
            issuer = "";
            disable_disconnect_on_expiry = false;
            endpoints_claim = [];
            require_endpoints = false;
            jwks_endpoint = "";
          };
        }
        ∷ [];
  };
  max_window_size = 262144;
  admin = record { bind_addr = ":8002"; tls = no_tls };
  cluster = record {
    node_id = "a";
    join_timeout = pos 60000000000;
    gossip = record {
      bind_addr = ":8003";
      advertise_addr = "";
      interval = pos 100000000;
      max_packet_size = pos 1400;
    };
  };
  log = record { level = "info"; subsystems = [] };
  grace_period = pos 60000000000;
}

validate-IsValid_example : IsValid thousandths config
unfolding validate is_level is_zero is_given same Config.enabled
validate-IsValid_example = validate-IsValid thousandths config refl
