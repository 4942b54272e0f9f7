-- ===== src/Dovecot/Handle/Whole.antt =====
-- A whole connection.
use easymail.Base.{
  ℕ, Option, if◌then◌else◌, refl, ◌⊎◌, inr, ◌≤◌, ◌≡◌, inl, ap, sym, subst, ◌∙◌, Bool, true, false,
  List, [], ◌∷◌, ◌++◌, map, Bytes, codes, Dict, erase, length, All,
}
use easymail.Trace.Async.{text}
use easymail.Dovecot.Handle.{
  Failure, Session, Conn, Greeted, ready, rejected, exhausted, new_session, greet, greeting,
  send_all, note, serve, converse, handle,
}
use easymail.Dovecot.Handle.Safety.{Explained, serve-Explained, note-keeps}

-- What the socket has been given, by how the handshake ended.
abbrev pub Talked :
    (Bytes → Bytes → Bool) → Bytes → Bytes → Session → List Bytes → List Bytes → Type 0
Talked authenticate pid count s rest out =
    (new : List Bytes) × (out ≡ map (λ l. l.1) (greeting pid count s.cookie) ++ new)
    × All (Explained authenticate rest) new
    × (length new ≤ length rest)

abbrev pub Said :
    (Bytes → Bytes → Bool) → Bytes → Bytes → (ℕ → Bool) → Greeted → List Bytes → Type 0
Said authenticate pid count read_fails (ready s rest) out =
    ((read_fails (length rest) ≡ true) × (out ≡ []))
    ⊎ ((read_fails (length rest) ≡ false) × Talked authenticate pid count s rest out)
Said authenticate pid count read_fails (rejected e s) out = out ≡ []
Said authenticate pid count read_fails (exhausted s) out = out ≡ []

module _ (authenticate : Bytes → Bytes → Bool) (order : Dict Bytes → List (Bytes × Bytes))
    (traced : Bool) (order_one : (e : Bytes × Bytes) → order (e ∷ []) ≡ e ∷ []) where
  -- The conversation behind a greeting that is written whole.
  talk-Said :
      (pid count : Bytes) (s : Session) (rest : List Bytes) (c : Conn)
      → c.out ≡ []
      → c.reply ≡ []
      → Talked authenticate pid count s rest
          (serve authenticate
            (λ _. false)
            order
            traced
            rest
            (record c { out = (send_all (λ _. false) (greeting pid count s.cookie) c.out).1 })).out
  talk-Said pid count s rest c o r =
      let grown =
        serve-Explained authenticate (λ _. false) order traced order_one rest
          (record c { out = (send_all (λ _. false) (greeting pid count s.cookie) c.out).1 })
          (inl (ap (erase (codes "error")) r)) in
      (
        grown.new,
        grown.out
            ∙ unfold send_all in
              ap (λ t. (send_all (λ _. false) (greeting pid count s.cookie) t).1 ++ grown.new) o,
        grown.why,
        grown.few,
      )

  if_out :
      (x y : Conn × Option Failure) (b : Bool)
      → x.0.out ≡ []
      → y.0.out ≡ []
      → (if b then x else y).0.out ≡ []
  if_out x y true h k = h
  if_out x y false h k = k

  -- The branches of the test of the scanner's error.
  unless_read-Said :
      (b : Bool) (pid count : Bytes) (s : Session) (rest : List Bytes) (x y : Conn × Option Failure)
      → x.0.out ≡ []
      → Talked authenticate pid count s rest (y.0.out)
      → ((b ≡ true) × ((if b then x else y).0.out ≡ []))
        ⊎ ((b ≡ false) × Talked authenticate pid count s rest ((if b then x else y).0.out))
  unless_read-Said true pid count s rest x y h k = inl (refl, h)
  unless_read-Said false pid count s rest x y h k = inr (refl, k)

  converse-Said :
      (pid count : Bytes) (read_fails : ℕ → Bool) (g : Greeted) (c : Conn)
      → c.out ≡ []
      → c.reply ≡ []
      → Said authenticate pid count read_fails g
          (converse authenticate (λ _. false) order traced pid count read_fails g c).0.out
  unfolding converse
  converse-Said pid count read_fails (rejected e s) c o r = o
  converse-Said pid count read_fails (exhausted s) c o r =
      if_out _ _ (read_fails 0) o
        ((note-keeps traced (codes "handshake_failed") [] (record c { session = s })).1 ∙ o)
  converse-Said pid count read_fails (ready s rest) c o r =
      let kept =
        note-keeps traced (codes "handshake_ok") ((codes "cpid", text s.cpid) ∷ [])
          (record c { session = s }) in
      unless_read-Said (read_fails (length rest)) pid count s rest _ _ o (
        talk-Said pid count s rest
          (note traced (codes "handshake_ok") ((codes "cpid", text s.cpid) ∷ [])
            (record c { session = s }))
          (kept.1 ∙ o) (kept.0 ∙ r))

  -- On a socket whose writes succeed, a connection is told nothing until its handshake is complete,
  -- and nothing at all when the scanner has an error by then, as behind a last line that was cut off.
  -- Else it is told the six lines of the greeting in their order, and behind them at most one reply to
  -- each further line, each a FAIL or the OK for an attempt among those lines whose user name and
  -- password the identity service accepts. A range over a map of one entry is that entry.
  pub handle-Said :
      (pid count cookie : Bytes) (lines : List Bytes) (read_fails : ℕ → Bool) (close_fails : Bool)
      → Said authenticate pid count read_fails
          (greet (new_session cookie) lines)
          (handle authenticate
            (λ _. false)
            order
            traced
            pid
            count
            cookie
            lines
            read_fails
            close_fails).0.out
  unfolding handle
  handle-Said pid count cookie lines read_fails close_fails =
      let c : Conn = record { session = new_session cookie; reply = []; out = []; events = [] } in
      let first = note-keeps traced (codes "connect") [] c in
      let g = greet (new_session cookie) lines in
      let body =
        converse authenticate (λ _. false) order traced pid count read_fails g
          (note traced (codes "connect") [] c) in
      subst (Said authenticate pid count read_fails g)
        (sym (note-keeps traced (codes "disconnect") [] (body.0)).1)
        (converse-Said pid count read_fails g (note traced (codes "connect") [] c) (first.1)
          (first.0))
