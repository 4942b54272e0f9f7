-- ===== src/Database/Tests.antt =====
-- A process that starts with a sound configuration, and with none.
use easymail.Base.{
  ℕ, ◌≡◌, refl, inl, inr, true, false, none, some, [], ◌∷◌, Bytes, codes, same, if◌then◌else◌,
}
use easymail.Base.Int.{pos}
use easymail.Database.{
  AppConfig, World, Connections, InitError, connect_mysql_failed, initialize, config_path,
}
use easymail.Database.Laws.{Settles, initialize-Settles}

abbrev settings : Bytes → AppConfig
settings dsn = record {
  mysql = dsn;
  redis = codes "localhost:6379";
  log_file = codes "easymail.log";
  init_db = true;
  network = record { dns = record { name_server = codes "8.8.8.8" } };
  feature = record { ip = record { region = false; region_city_mmdb = [] } };
  postfix = record {
    execute = record {
      postconf = [];
      postqueue = [];
      postcat = [];
      postsuper = [];
      postmap = [];
      postfix_command = [];
    };
    log = record { mail = [] };
    sync = record { virtual_mailbox_domains = [] };
  };
  lmtp = record { storage = record { root = codes "./storage"; data_place = codes "./data" } };
  observability = record {
    session_trace = record { enabled = false; sink = []; file_path = []; queue_size = pos 0 };
  };
  apps = [];
}

-- A file's content is the name of its database, and only the database db answers.
abbrev host : World ℕ Bytes Bytes
host = record {
  read_file = λ p. if same p (codes "none") then inl 2 else inr p;
  unmarshal = λ s. inr (settings s);
  open_mysql = λ dsn. if same dsn (codes "db") then (some dsn, none) else (none, some 7);
  new_client = λ dsn. dsn;
}

abbrev fresh_start : Connections ℕ Bytes Bytes
fresh_start = record { initialized = false; init_err = none; db = none; rc = none }

initialize-Settles_example :
    Settles host
      (codes "off")
      (codes "db" ∷ [])
      fresh_start
      (initialize host (codes "off") fresh_start)
initialize-Settles_example =
    initialize-Settles host (codes "off") (codes "db" ∷ []) fresh_start refl refl

database_is_off : (initialize host (codes "off") fresh_start).1 ≡ some (connect_mysql_failed 7)
unfolding initialize easymail.Database.connect easymail.Database.read_app_config
    easymail.Database.init_mysql easymail.Database.after_mysql
database_is_off = refl

legacy_path : config_path (λ p. false) ≡ codes "cmd/easymail/easymail.yaml"
unfolding config_path
legacy_path = refl
