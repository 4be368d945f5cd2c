-- ===== src/Vps/Connect.antt =====
-- `BuildDSN` and `NewClientFromStoreConfig` of internal/vpsmysql/client.go: how the commands open
-- the VPS with the stored configuration. The driver's rendering of its configuration is a
-- parameter, as are the errors it meets when it opens a DSN.
use gateway_login.Base.{
  ℕ, ◌*◌, Bool, true, Option, none, some, ◌++◌, Text, codes, is_empty, Result, err, map_err, ◌>>=◌,
  if◌then◌else◌, ℤ,
}
use gateway_login.Decimal.{itoa}
use gateway_login.Crypto.{Cipher, base64_to_key}
use gateway_login.Stored.{VpsConfig, get_decrypted_password}
use gateway_login.Vps.{Client, new_client}

-- The fields of the driver's `mysql.Config` that the program sets; the timeout in nanoseconds.
pub record MysqlConfig : Type 0 where
  pub user : Text
  pub passwd : Text
  pub net : Text
  pub addr : Text
  pub db_name : Text
  pub parse_time : Bool
  pub read_timeout : ℕ
  pub loc : Text

-- `FormatDSN`, and the errors of `sql.Open` and `PingContext` on a DSN.
pub record Driver : Type 0 where
  pub format_dsn : MysqlConfig → Text
  pub opening : Text → Option Text
  pub pinging : Text → Option Text

module _ (d : Driver) where
  unfoldable pub build_dsn : Text → ℤ → Text → Text → Text → Text
  unfolding itoa
  build_dsn host port database user password = d.format_dsn (record {
    user = user;
    passwd = password;
    net = codes "tcp";
    addr = host ++ codes ":" ++ itoa port;
    db_name = database;
    parse_time = true;
    read_timeout = 30 * 1000000000;
    loc = codes "UTC";
  })

  abbrev pub open_dsn : Text → ℤ → Result Text Client
  open_dsn dsn batch_size = new_client (d.opening dsn) (d.pinging dsn) batch_size

  -- The argument `masterKey` is not used.
  unfoldable pub new_client_from_store_config :
      Cipher → Option VpsConfig → Text → ℤ → Result Text Client
  new_client_from_store_config c none master_b64 batch_size = err (codes "nil vps config")
  new_client_from_store_config c (some cfg) master_b64 batch_size =
      if is_empty master_b64 then err (codes "empty master key") else (do
        mk ← map_err (λ e. codes "decode master key: " ++ e) (base64_to_key c master_b64)
        pw ← map_err (λ e. codes "decrypt vps password: " ++ e) (get_decrypted_password c mk cfg)
        open_dsn (build_dsn cfg.host cfg.port cfg.database cfg.username pw) batch_size)
