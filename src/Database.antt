-- ===== src/Database.antt =====
-- The connections of the process: internal/pkg/database (application.go, init.go, mysql/mysql.go,
-- redis/redis.go), and the choice of the configuration's file in cmd/api/main.go. The reading of a
-- file, yaml, gorm and the client of Redis are parameters.
mod Laws
mod Tests
use easymail.Base.{
  ◌⊎◌, inl, inr, Bool, true, false, Option, none, some, List, Bytes, codes, if◌then◌else◌,
}
use easymail.Base.Int.{ℤ}

-- `App`.
pub record App : Type 0 where
  pub name : Bytes
  pub family : Bytes
  pub listen : Bytes
  pub enable : Bool
  pub parameter : List (Bytes × Bytes)

-- `NetworkDNSConfig`.
pub record NetworkDnsConfig : Type 0 where
  pub name_server : Bytes

-- `NetworkConfig`.
pub record NetworkConfig : Type 0 where
  pub dns : NetworkDnsConfig

-- `FeatureIPConfig`.
pub record FeatureIpConfig : Type 0 where
  pub region : Bool
  pub region_city_mmdb : Bytes

-- `FeatureConfig`.
pub record FeatureConfig : Type 0 where
  pub ip : FeatureIpConfig

-- `PostfixExecuteConfig`.
pub record PostfixExecuteConfig : Type 0 where
  pub postconf : Bytes
  pub postqueue : Bytes
  pub postcat : Bytes
  pub postsuper : Bytes
  pub postmap : Bytes
  pub postfix_command : Bytes

-- `PostfixLogConfig`.
pub record PostfixLogConfig : Type 0 where
  pub mail : Bytes

-- `PostfixSyncConfig`.
pub record PostfixSyncConfig : Type 0 where
  pub virtual_mailbox_domains : Bytes

-- `PostfixConfig`.
pub record PostfixConfig : Type 0 where
  pub execute : PostfixExecuteConfig
  pub log : PostfixLogConfig
  pub sync : PostfixSyncConfig

-- `StorageConfig`.
pub record StorageConfig : Type 0 where
  pub root : Bytes
  pub data_place : Bytes

-- `LMTPConfig`.
pub record LmtpConfig : Type 0 where
  pub storage : StorageConfig

-- `SessionTraceConfig`.
pub record SessionTraceConfig : Type 0 where
  pub enabled : Bool
  pub sink : Bytes
  pub file_path : Bytes
  pub queue_size : ℤ

-- `ObservabilityConfig`.
pub record ObservabilityConfig : Type 0 where
  pub session_trace : SessionTraceConfig

-- `AppConfig`.
pub record AppConfig : Type 0 where
  pub mysql : Bytes
  pub redis : Bytes
  pub log_file : Bytes
  pub init_db : Bool
  pub network : NetworkConfig
  pub feature : FeatureConfig
  pub postfix : PostfixConfig
  pub lmtp : LmtpConfig
  pub observability : ObservabilityConfig
  pub apps : List App

-- What is not in the repository: the reading of a file, yaml from the zero configuration, the opening
-- of a database, which returns a pointer beside its error, and a new client.
pub record World (E Handle Client : Type 0) : Type 0 where
  pub read_file : Bytes → E ⊎ Bytes
  pub unmarshal : Bytes → E ⊎ AppConfig
  pub open_mysql : Bytes → Option Handle × Option E
  pub new_client : Bytes → Client

-- The errors of `Initialize`, with what they wrap.
pub data InitError (E : Type 0) : Type 0 where
  read_app_config_failed connect_mysql_failed : E → InitError E

-- The variables of the package: whether `initOnce` has run, `initErr`, `db` and `rc`.
pub record Connections (E Handle Client : Type 0) : Type 0 where
  pub initialized : Bool
  pub init_err : Option (InitError E)
  pub db : Option Handle
  pub rc : Option Client

module _ {E Handle Client : Type 0} (w : World E Handle Client) where
  -- `ReadAppConfig(filename)`.
  unfoldable pub read_app_config : Bytes → E ⊎ AppConfig
  read_app_config filename = elim (w.read_file filename) [
    | inl e ↦ inl e
    | inr data_read ↦ w.unmarshal data_read
  ]

  -- `initMySQL(dsn)`: the variable takes the pointer on either outcome.
  unfoldable pub init_mysql :
      Bytes → Connections E Handle Client → Connections E Handle Client × Option E
  init_mysql dsn c = (record c { db = (w.open_mysql dsn).0 }, (w.open_mysql dsn).1)

  -- `initRedis(dsn)`.
  unfoldable pub init_redis : Bytes → Connections E Handle Client → Connections E Handle Client
  init_redis dsn c = record c { rc = some (w.new_client dsn) }

  -- The end of the function that runs once, behind the connection to MySQL.
  unfoldable pub after_mysql :
      AppConfig → Connections E Handle Client × Option E → Connections E Handle Client
  unfolding init_redis
  after_mysql a (c, some e) = record c { init_err = some (connect_mysql_failed e) }
  after_mysql a (c, none) = init_redis (a.redis) c

  -- The function that runs once.
  unfoldable pub connect : Bytes → Connections E Handle Client → Connections E Handle Client
  unfolding init_mysql
  connect config_path c = elim (read_app_config config_path) [
    | inl e ↦ record c { init_err = some (read_app_config_failed e) }
    | inr a ↦ after_mysql a (init_mysql (a.mysql) c)
  ]

  -- `Initialize(configPath)`: the variables and the result.
  unfoldable pub initialize :
      Bytes → Connections E Handle Client → Connections E Handle Client × Option (InitError E)
  initialize config_path c =
      if c.initialized
      then (c, c.init_err)
      else (let d = connect config_path (record c { initialized = true }) in (d, d.init_err))

-- `GetDB()`.
unfoldable pub get_db : {E Handle Client : Type 0} → Connections E Handle Client → Option Handle
get_db c = c.db

-- `GetRedisClient()`.
unfoldable pub get_redis_client :
    {E Handle Client : Type 0} → Connections E Handle Client → Option Client
get_redis_client c = c.rc

-- The file that `main` reads its configuration from, by the files that `os.Stat` finds.
unfoldable pub config_path : (Bytes → Bool) → Bytes
config_path is_there =
    if is_there (codes "easymail.yaml")
    then codes "easymail.yaml"
    else if is_there (codes "configs/easymail.yaml")
    then codes "configs/easymail.yaml"
    else codes "cmd/easymail/easymail.yaml"
