-- ===== src/Dovecot/Handle/Login.antt =====
-- The server over the authentication service and the tables: what stands behind an OK.
use easymail.Base.{
  ℕ, ◌≡◌, ◌⊎◌, inl, inr, refl, ap, sym, subst, ◌∙◌, Bool, true, false, Option, none, some, List, [],
  ◌∷◌, ◌++◌, map, Bytes, codes, Dict, All, All-append, ◌≤◌, length,
}
use easymail.Text.{split, has_prefix, trim_space, to_lower}
use easymail.Model.Gorm.{IsQuery}
use easymail.Model.Tables.{Account, Tables, Database}
use easymail.Model.Account.Laws.{Listed}
use easymail.Auth
use easymail.Auth.{Outcome, accepted, invalid_credential, crashed, authenticate}
use easymail.Auth.Store.{account_auth_repository, login_sound}
use easymail.Dovecot.Request.{attempt, request}
use easymail.Dovecot.Handle.{
  Failure, Session, greet_line, Greeted, ready, rejected, exhausted, new_session, greet, greeting,
  handle,
}
use easymail.Dovecot.Handle.Safety.{Among, Explained}
use easymail.Dovecot.Handle.Whole.{Said, handle-Said}

-- Whether an answer has no error; a panic of the service ends the process, and nothing is written.
abbrev pub is_accepted : Outcome → Bool
is_accepted (accepted a) = true
is_accepted invalid_credential = false
is_accepted crashed = false

-- The service over the repository, as the server asks it.
unfoldable pub asked : Database → (Bytes → Bytes → Bool) → Tables → Bytes → Bytes → Bool
asked db verify t user password =
    is_accepted (authenticate (account_auth_repository db verify t) user password)

accepted_lem : (o : Outcome) → is_accepted o ≡ true → (a : Auth.Account) × (o ≡ accepted a)
accepted_lem (accepted a) e = (a, refl)
accepted_lem invalid_credential e = absurd (cc e)
accepted_lem crashed e = absurd (cc e)

-- What follows a line of the handshake.
left_lines : {s t : Session} {xs ys : List Bytes} → ready s xs ≡ ready t ys → xs ≡ ys
left_lines e = cc e

abbrev go_on :
    (e : Option Failure) (done : Bool) (s : Session) (lines : List Bytes) (later : Greeted)
    → Greeted
go_on e done s lines later = elim e [
  | some f ↦ rejected f s
  | none ↦ elim done [ true ↦ ready s lines | false ↦ later ]
]

go_on-Among :
    (x : Bytes) (e : Option Failure) (done : Bool) (s t : Session) (lines rest : List Bytes)
    (later : Greeted)
    → (later ≡ ready t rest → Among x rest → Among x lines)
    → go_on e done s lines later ≡ ready t rest
    → Among x rest
    → Among x lines
go_on-Among x (some e) done s t lines rest later h k m = absurd (cc k)
go_on-Among x none true s t lines rest later h k m = subst (Among x) (sym (left_lines k)) m
go_on-Among x none false s t lines rest later h k m = h k m

greet_nothing : (s : Session) → greet s [] ≡ exhausted s
unfolding greet
greet_nothing s = refl

greet-go_on :
    (s : Session) (line : Bytes) (lines : List Bytes)
    → greet s (line ∷ lines) ≡ (
        let (e, s') = greet_line s (split b'\t' line) in
        go_on e s'.handshake_ok s' lines (greet s' lines))
unfolding greet
greet-go_on s line lines = refl

-- The lines behind the handshake are among the lines.
greet-Among :
    (x : Bytes) (s t : Session) (lines rest : List Bytes)
    → greet s lines ≡ ready t rest
    → Among x rest
    → Among x lines
greet-Among x s t [] rest e m = absurd (cc (greet_nothing s, e))
greet-Among x s t (line ∷ lines) rest e m =
    let (f, s') = greet_line s (split b'\t' line) in
    inr (
      go_on-Among x f s'.handshake_ok s' t lines rest (greet s' lines)
        (greet-Among x s' t lines rest) (sym (greet-go_on s line lines) ∙ e) m)

-- The line is no OK, or it is the OK for an attempt among the lines `read`, with a user whose address
-- the database finds an account for in the tables that is active and not deleted, in a domain of them,
-- and with a password of at least six bytes that passes the comparison with that account's hash.
abbrev pub Backed : Database → (Bytes → Bytes → Bool) → Tables → List Bytes → Bytes → Type 0
Backed db verify t read line =
    (has_prefix line (codes "OK\t") ≡ false)
    ⊎ ((asked id service user password : Bytes) × (a : Account) × Among asked read
        × (request asked ≡ attempt id service user password)
        × (line ≡ codes "OK\t" ++ (id ++ (codes "\tuser=" ++ user)))
        × Listed db t (to_lower (trim_space user)) a
        × (verify a.password password ≡ true)
        × (6 ≤ length password))

module _ (db : Database) (accounts : IsQuery db.accounts) (domains : IsQuery db.domains)
    (verify : Bytes → Bytes → Bool) (t : Tables)
    (empty : (password : Bytes) → verify [] password ≡ false) where
  Explained-Backed :
      (read all : List Bytes) (line : Bytes)
      → ((x : Bytes) → Among x read → Among x all)
      → Explained (asked db verify t) read line
      → Backed db verify t all line
  unfolding asked
  Explained-Backed read all line sub (inl (rest, e)) =
      inl (ap (λ l. has_prefix l (codes "OK\t")) e ∙ unfold has_prefix in refl)
  Explained-Backed read all line sub (inr (sent, id, service, user, password, m, q, success, e)) =
      let (view, taken) = accepted_lem _ success in
      let (long, (a, listed, passes, _)) =
        login_sound db accounts domains verify t user password view (empty password) taken in
      inr (sent, id, service, user, password, a, sub sent m, q, e, listed, passes, long)

  All-Backed :
      (read all new : List Bytes)
      → ((x : Bytes) → Among x read → Among x all)
      → All (Explained (asked db verify t) read) new
      → All (Backed db verify t all) new
  All-Backed read all [] sub h = tt
  All-Backed read all (l ∷ new) sub (h, hs) =
      (Explained-Backed read all l sub h, All-Backed read all new sub hs)

  greeting-Backed :
      (all : List Bytes) (pid count cookie : Bytes)
      → All (Backed db verify t all) (map (λ l. l.1) (greeting pid count cookie))
  unfolding has_prefix
  greeting-Backed all pid count cookie =
      (inl refl, (inl refl, (inl refl, (inl refl, (inl refl, (inl refl, tt))))))

  Said-Backed :
      (pid count : Bytes) (read_fails : ℕ → Bool) (s : Session) (lines : List Bytes) (g : Greeted)
      (out : List Bytes)
      → greet s lines ≡ g
      → Said (asked db verify t) pid count read_fails g out
      → All (Backed db verify t lines) out
  Said-Backed pid count read_fails s lines (ready s' rest) out q (inl (_, e)) =
      subst (All (Backed db verify t lines)) (sym e) tt
  Said-Backed pid count read_fails s lines (ready s' rest) out q (inr (_, (new, e, why, _))) =
      subst (All (Backed db verify t lines)) (sym e) (
        All-append (Backed db verify t lines) (map (λ l. l.1) (greeting pid count s'.cookie)) new
          (greeting-Backed lines pid count s'.cookie)
          (All-Backed rest lines new (λ x. greet-Among x s s' lines rest q) why))
  Said-Backed pid count read_fails s lines (rejected f s') out q e =
      subst (All (Backed db verify t lines)) (sym e) tt
  Said-Backed pid count read_fails s lines (exhausted s') out q e =
      subst (All (Backed db verify t lines)) (sym e) tt

  -- From the socket to the tables: when the server asks the authentication service over the database,
  -- then on a socket whose writes succeed, whatever lines a client sends, every line that the server
  -- writes is no OK, or it is the OK for an attempt among these lines, with its identifier and user:
  -- the trimmed user name in lower case has two parts around an `@` which the database compares as equal
  -- to the names of an account in the tables that is active and not deleted, and of its domain in the
  -- tables, and the attempt's password has at least six bytes and
  -- passes the comparison with that account's hash. A query without an error has found a row that
  -- passes its test, one that fails leaves its destination, no password passes an empty hash, and a
  -- range over a map of one entry is that entry.
  pub handle-Backed :
      (order : Dict Bytes → List (Bytes × Bytes)) (traced : Bool)
      (order_one : (e : Bytes × Bytes) → order (e ∷ []) ≡ e ∷ []) (pid count cookie : Bytes)
      (lines : List Bytes) (read_fails : ℕ → Bool) (close_fails : Bool)
      → All
          (Backed db verify t lines)
          (handle
            (asked db verify t)
            (λ _. false)
            order
            traced
            pid
            count
            cookie
            lines
            read_fails
            close_fails).0.out
  handle-Backed order traced order_one pid count cookie lines read_fails close_fails =
      Said-Backed pid count read_fails (new_session cookie) lines (greet (new_session cookie) lines)
        _ refl
        (handle-Said (asked db verify t) order traced order_one pid count cookie lines read_fails
          close_fails)
