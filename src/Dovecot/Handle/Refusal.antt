-- ===== src/Dovecot/Handle/Refusal.antt =====
-- What a refusal says behind an earlier success on the same connection.
use easymail.Base.{
  refl, inr, ◌≡◌, inl, ap, ap₂, sym, subst, ◌∙◌, Bool, true, false, List, [], ◌∷◌, ◌++◌, map, Bytes,
  codes, Dict, insert, erase,
}
use easymail.Trace.Async.{Value, text, flag}
use easymail.Trace.Util.{mask_email}
use easymail.Dovecot.Request.{attempt, request}
use easymail.Dovecot.Handle.{
  Session, Conn, note, data_line, send_line, send_data, refuse, settle, try_login, answer, serve,
}
use easymail.Dovecot.Handle.Safety.{Among, IsReply, insert_user, ok_line, note-keeps}
use easymail.Text.{join}
use easymail.Model.Gorm.{Has}

module _ (authenticate : Bytes → Bytes → Bool) (order : Dict Bytes → List (Bytes × Bytes))
    (traced : Bool) where
  settle_refused :
      (user password old : Bytes) (c : Conn)
      → authenticate user password ≡ false
      → c.reply ≡ (codes "user", old) ∷ []
      → let c' = settle authenticate (λ _. false) order traced user password c in
        let m : Dict Bytes =
          (codes "user", old) ∷ (codes "error", codes "invalid username or password") ∷ [] in
        (c'.reply ≡ m)
        × (c'.out
            ≡ c.out ++ data_line authenticate (λ _. false) order traced false c.session.id m ∷ [])
  unfolding settle refuse send_data send_line
  settle_refused user password old c wrong r =
      let msg = codes "invalid username or password" in
      let shown : Dict Value =
        (codes "user", text (mask_email user))
        ∷ (codes "ok", flag false)
        ∷ (codes "reason", text (codes "invalid_credentials"))
        ∷ [] in
      let refused = refuse authenticate (λ _. false) order traced msg c in
      let (same_reply, same_out, same_session) =
        note-keeps traced (codes "auth_result") shown refused in
      let chosen : settle authenticate (λ _. false) order traced user password c
          ≡ note traced (codes "auth_result") shown refused =
        rw (wrong, settle) in
      (
        ap (λ (d : Conn). d.reply) chosen ∙ same_reply ∙ ap (insert (codes "error") msg) r,
        ap (λ (d : Conn). d.out) chosen
            ∙ same_out
            ∙ ap
                (λ m.
                  c.out
                  ++ data_line authenticate (λ _. false) order traced false c.session.id m ∷ [])
                (ap (insert (codes "error") msg) r),
      )

  settle_accepted :
      (user password : Bytes) (c : Conn)
      → authenticate user password ≡ true
      → IsReply c.reply
      → let c' = settle authenticate (λ _. false) order traced user password c in
        let m : Dict Bytes = (codes "user", user) ∷ [] in
        (c'.reply ≡ m)
        × (c'.out
            ≡ c.out ++ data_line authenticate (λ _. false) order traced true c.session.id m ∷ [])
  unfolding settle send_data send_line
  settle_accepted user password c right r =
      let shown : Dict Value =
        (codes "user", text (mask_email user)) ∷ (codes "ok", flag true) ∷ [] in
      let told =
        send_data authenticate (λ _. false) order traced true
          (record c {
            session = record (c.session) { done = true };
            reply = insert (codes "user") user (erase (codes "error") c.reply);
          }) in
      let (same_reply, same_out, same_session) =
        note-keeps traced (codes "auth_result") shown told in
      let chosen : settle authenticate (λ _. false) order traced user password c
          ≡ note traced (codes "auth_result") shown told =
        rw (right, settle) in
      let one = insert_user user c.reply r in
      (
        ap (λ (d : Conn). d.reply) chosen ∙ same_reply ∙ one,
        ap (λ (d : Conn). d.out) chosen
            ∙ same_out
            ∙ ap
                (λ m.
                  c.out
                  ++ data_line authenticate (λ _. false) order traced true c.session.id m ∷ [])
                one,
      )

  -- One line that is an attempt, by what `settle` makes of it.
  answer_attempt :
      (line id service user password : Bytes) (c : Conn)
      → request line ≡ attempt id service user password
      → answer authenticate (λ _. false) order traced (request line) c
        ≡ settle authenticate
            (λ _. false)
            order
            traced
            user
            password
            (note traced
              (codes "auth_attempt")
              ((codes "user", text (mask_email user)) ∷ (codes "service", text service) ∷ [])
              (record c { session = record (c.session) { id = id; username = user } }))
  unfolding answer try_login
  answer_attempt line id service user password c q =
      ap (λ a. answer authenticate (λ _. false) order traced a c) q

  answered_ok :
      (line id service user password : Bytes) (c : Conn)
      → request line ≡ attempt id service user password
      → authenticate user password ≡ true
      → IsReply c.reply
      → let c' = answer authenticate (λ _. false) order traced (request line) c in
        let m : Dict Bytes = (codes "user", user) ∷ [] in
        (c'.reply ≡ m)
        × (c'.out ≡ c.out ++ data_line authenticate (λ _. false) order traced true id m ∷ [])
  answered_ok line id service user password c q right r =
      let named = record c { session = record (c.session) { id = id; username = user } } in
      let fields : Dict Value =
        (codes "user", text (mask_email user)) ∷ (codes "service", text service) ∷ [] in
      let (same_reply, same_out, same_session) =
        note-keeps traced (codes "auth_attempt") fields named in
      let (reply, out) =
        settle_accepted user password (note traced (codes "auth_attempt") fields named) right
          (subst IsReply (sym same_reply) r) in
      let asked = answer_attempt line id service user password c q in
      (
        ap (λ (d : Conn). d.reply) asked ∙ reply,
        ap (λ (d : Conn). d.out) asked
            ∙ out
            ∙ ap₂
                (λ o (s : Session).
                  o
                  ++ data_line authenticate (λ _. false) order traced true s.id
                      ((codes "user", user) ∷ [])
                    ∷ [])
                same_out same_session,
      )

  answered_fail :
      (line id service user password old : Bytes) (c : Conn)
      → request line ≡ attempt id service user password
      → authenticate user password ≡ false
      → c.reply ≡ (codes "user", old) ∷ []
      → let c' = answer authenticate (λ _. false) order traced (request line) c in
        let m : Dict Bytes =
          (codes "user", old) ∷ (codes "error", codes "invalid username or password") ∷ [] in
        c'.out ≡ c.out ++ data_line authenticate (λ _. false) order traced false id m ∷ []
  answered_fail line id service user password old c q wrong r =
      let named = record c { session = record (c.session) { id = id; username = user } } in
      let fields : Dict Value =
        (codes "user", text (mask_email user)) ∷ (codes "service", text service) ∷ [] in
      let (same_reply, same_out, same_session) =
        note-keeps traced (codes "auth_attempt") fields named in
      let (_, out) =
        settle_refused user password old (note traced (codes "auth_attempt") fields named) wrong
          (same_reply ∙ r) in
      ap (λ (d : Conn). d.out) (answer_attempt line id service user password c q)
      ∙ out
      ∙ ap₂
          (λ o (s : Session).
            o
            ++ data_line authenticate (λ _. false) order traced false s.id
                ((codes "user", old) ∷ (codes "error", codes "invalid username or password") ∷ [])
              ∷ [])
          same_out same_session

  -- The field of an entry of the reply, as it is sent.
  abbrev field : Bytes × Bytes → Bytes
  field e = e.0 ++ b'=' ∷ e.1

  field-Among : (e : Bytes × Bytes) (m : Dict Bytes) → Has e m → Among (field e) (map field m)
  field-Among e [] h = h
  field-Among e (x ∷ m) (inl p) = inl (ap field p)
  field-Among e (x ∷ m) (inr h) = inr (field-Among e m h)

  -- An attempt that is accepted and one that is refused behind it on the same connection, on a
  -- socket whose writes succeed: the first is answered by the OK with its identifier and user, and
  -- the second by a FAIL with its own identifier, which still names the user of the first among its
  -- fields. Before them the map of the reply has no keys but `error` and `user`, as a new one has
  -- none; a range over a map of one entry is that entry, and one over any map has every entry.
  pub refusal_names_old_user :
      ((e : Bytes × Bytes) → order (e ∷ []) ≡ e ∷ [])
      → ((e : Bytes × Bytes) (m : Dict Bytes) → Has e m → Has e (order m))
      → (line id service old secret line' id' service' user password : Bytes) (c : Conn)
      → request line ≡ attempt id service old secret
      → request line' ≡ attempt id' service' user password
      → authenticate old secret ≡ true
      → authenticate user password ≡ false
      → IsReply c.reply
      → (fields : List Bytes) × Among (codes "user=" ++ old) fields
        × ((serve authenticate (λ _. false) order traced (line ∷ line' ∷ []) c).out
            ≡ (c.out ++ (codes "OK\t" ++ (id ++ (codes "\tuser=" ++ old))) ∷ [])
              ++ join (9 ∷ []) (codes "FAIL" ∷ id' ∷ fields) ∷ [])
  unfolding serve data_line
  refusal_names_old_user order_one order_keeps line id service old secret line' id' service' user
        password c q q' right wrong r =
      let m : Dict Bytes =
        (codes "user", old) ∷ (codes "error", codes "invalid username or password") ∷ [] in
      let c1 = answer authenticate (λ _. false) order traced (request line) c in
      let (reply, out) = answered_ok line id service old secret c q right r in
      let out' = answered_fail line' id' service' user password old c1 q' wrong reply in
      (
        map field (order m),
        field-Among (codes "user", old) (order m) (order_keeps (codes "user", old) m (inl refl)),
        out'
            ∙ ap (λ o. o ++ data_line authenticate (λ _. false) order traced false id' m ∷ [])
                (out
                  ∙ ap (λ l. c.out ++ l ∷ [])
                      (ok_line authenticate (λ _. false) order traced order_one id old)),
      )
