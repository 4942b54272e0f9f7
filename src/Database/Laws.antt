-- ===== src/Database/Laws.antt =====
-- What `Initialize` leaves in the variables of the package, however often it is called.
use easymail.Base.{
  ◌≡◌, ◌≢◌, arith, refl, sym, ◌∙◌, subst, if◌then◌else◌, ◌⊎◌, inl, inr, true, false, Option, none,
  some, List, [], ◌∷◌, Bytes,
}
use easymail.Database.{
  World, InitError, read_app_config_failed, Connections, AppConfig, read_app_config, init_mysql,
  init_redis, after_mysql, connect, initialize, get_db, get_redis_client,
}

module _ {E Handle Client : Type 0} (w : World E Handle Client) where
  -- The calls, one behind the other: the variables and the results.
  unfoldable pub initialize_all :
      List Bytes
      → Connections E Handle Client
      → Connections E Handle Client × List (Option (InitError E))
  initialize_all [] c = (c, [])
  initialize_all (p ∷ ps) c =
      let d = initialize w p c in let rest = initialize_all ps (d.0) in (rest.0, d.1 ∷ rest.1)

  -- Every result is this one.
  abbrev pub Same : Option (InitError E) → List (Option (InitError E)) → Type 0
  Same r [] = Unit
  Same r (x ∷ xs) = (x ≡ r) × Same r xs

  -- The variables fit a result: without an error there is a client of Redis, and the database is the
  -- one that was opened without an error.
  abbrev pub IsConnected : Bytes → Connections E Handle Client → Type 0
  IsConnected p d =
      (a : AppConfig) × (read_app_config w p ≡ inr a)
      × ((w.open_mysql (a.mysql)).1 ≡ none)
      × (get_db d ≡ (w.open_mysql (a.mysql)).0)
      × (get_redis_client d ≡ some (w.new_client (a.redis)))

  -- What the function that runs once leaves: it has an error and no new client, or everything is
  -- connected.
  abbrev pub Connects : Bytes → Connections E Handle Client → Connections E Handle Client → Type 0
  Connects p c d =
      (d.initialized ≡ c.initialized)
      × (((d.init_err ≢ none) × (get_redis_client d ≡ c.rc))
          ⊎ ((d.init_err ≡ c.init_err) × IsConnected p d))

  after_mysql-Connects :
      (p : Bytes) (a : AppConfig) (c : Connections E Handle Client) (e : Option E)
      → read_app_config w p ≡ inr a
      → (w.open_mysql (a.mysql)).1 ≡ e
      → Connects p c (after_mysql w a (record c { db = (w.open_mysql (a.mysql)).0 }, e))
  unfolding after_mysql init_redis get_db get_redis_client
  after_mysql-Connects p a c (some e) r m = (refl, inl ((ground arith), refl))
  after_mysql-Connects p a c none r m = (refl, inr (refl, (a, r, m, refl, refl)))

  connect-Connects :
      (p : Bytes) (c : Connections E Handle Client) (r : E ⊎ AppConfig)
      → read_app_config w p ≡ r
      → Connects p c (elim r [
        | inl e ↦ record c { init_err = some (read_app_config_failed e) }
        | inr a ↦ after_mysql w a (init_mysql w (a.mysql) c)
      ])
  unfolding init_mysql get_redis_client
  connect-Connects p c (inl e) h = (refl, inl ((ground arith), refl))
  connect-Connects p c (inr a) h = after_mysql-Connects p a c _ h refl

  -- A call behind the first changes nothing and has its result.
  initialize_again :
      (ps : List Bytes) (d : Connections E Handle Client)
      → d.initialized ≡ true
      → ((initialize_all ps d).0 ≡ d) × Same (d.init_err) ((initialize_all ps d).1)
  unfolding initialize_all initialize
  initialize_again [] d h = (refl, tt)
  initialize_again (p ∷ ps) d h = ground (arith, h, initialize_again ps d h)

  -- What a first call and the calls behind it leave.
  abbrev pub Settles :
      Bytes
      → List Bytes
      → Connections E Handle Client
      → Connections E Handle Client × Option (InitError E)
      → Type 0
  Settles p ps c (d, e) =
      ((initialize_all ps d).0 ≡ d)
      × Same e ((initialize_all ps d).1)
      × (((e ≢ none) × (get_redis_client d ≡ c.rc)) ⊎ ((e ≡ none) × IsConnected p d))

  Connects-Settles :
      (p : Bytes) (ps : List Bytes) (c d : Connections E Handle Client)
      → c.init_err ≡ none
      → Connects p (record c { initialized = true }) d
      → Settles p ps c (d, d.init_err)
  Connects-Settles p ps c d h (i, inl (e, r)) =
      let (a, b) = initialize_again ps d i in (a, b, inl (e, r))
  Connects-Settles p ps c d h (i, inr (e, k)) =
      let (a, b) = initialize_again ps d i in (a, b, inr (e ∙ h, k))

  -- Before any call, a call of `Initialize` either has an error and makes no client of Redis, or has
  -- read the configuration and has opened its database and its client. Every call behind it, with
  -- whatever path, changes nothing and has the result of the first.
  pub initialize-Settles :
      (p : Bytes) (ps : List Bytes) (c : Connections E Handle Client)
      → c.initialized ≡ false
      → c.init_err ≡ none
      → Settles p ps c (initialize w p c)
  unfolding initialize connect
  initialize-Settles p ps c h k =
      let start = record c { initialized = true } in
      let d = connect w p start in
      subst (λ b. Settles p ps c (if b then (c, c.init_err) else (d, d.init_err))) (sym h)
        (Connects-Settles p ps c d k (connect-Connects p start _ refl))
