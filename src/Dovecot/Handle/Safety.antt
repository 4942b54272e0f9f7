-- ===== src/Dovecot/Handle/Safety.antt =====
-- What a connection may say: an OK comes from accepted credentials only.
use easymail.Base.{
  ℕ, ◌≤◌, ◌≡◌, ◌⊎◌, inl, inr, refl, ap, sym, subst, ◌∙◌, Bool, true, false, List, [], ◌∷◌, ◌++◌,
  append_assoc, append-nil, arith, Bytes, codes, same_iff, Dict, insert, erase, if◌then◌else◌,
  length, length-append, All, All-append,
}
use easymail.Trace.Async.{Value, text}
use easymail.Trace.Util.{mask_email}
use easymail.Dovecot.Request.{Request, refused, refused_as, ignored, attempt, request}
use easymail.Dovecot.Handle.{
  Session, Conn, note, send_line, data_line, send_data, refuse, settle, try_login, answer, serve,
}

-- The text is one of the list.
abbrev pub Among : Bytes → List Bytes → Type 0
Among x [] = ⊥
Among x (y ∷ ys) = (x ≡ y) ⊎ Among x ys

-- Only the keys that the loop uses: without its error, the map is empty or holds the user.
abbrev pub IsReply : Dict Bytes → Type 0
IsReply m =
    (erase (codes "error") m ≡ [])
    ⊎ ((u : Bytes) × (erase (codes "error") m ≡ (codes "user", u) ∷ []))

erase-insert : (k v : Bytes) (m : Dict Bytes) → erase k (insert k v m) ≡ erase k m
erase-insert k v [] = ground (arith, same_iff k k)
erase-insert k v ((j, w) ∷ m) = ground (arith, same_iff k k, same_iff j k, erase-insert k v m)

pub insert_user :
    (u : Bytes) (m : Dict Bytes)
    → IsReply m
    → insert (codes "user") u (erase (codes "error") m) ≡ (codes "user", u) ∷ []
insert_user u m (inl e) = rw e
insert_user u m (inr (w, e)) = rw e

-- Why a line may be written while the lines `read` are served: it is a FAIL, or it is the OK for an
-- attempt that was among the lines and that the identity service accepts.
abbrev pub Explained : (Bytes → Bytes → Bool) → List Bytes → Bytes → Type 0
Explained authenticate read line =
    ((rest : Bytes) × (line ≡ codes "FAIL\t" ++ rest))
    ⊎ ((asked id service user password : Bytes) × Among asked read
        × (request asked ≡ attempt id service user password)
        × (authenticate user password ≡ true)
        × (line ≡ codes "OK\t" ++ (id ++ (codes "\tuser=" ++ user))))

-- What serving some lines adds to a connection: at most `n` lines, each with its reason.
pub record Grown (P : Bytes → Type 0) (n : ℕ) (before after : Conn) : Type 0 where
  pub reply : IsReply after.reply
  pub new : List Bytes
  pub out : after.out ≡ before.out ++ new
  pub why : All P new
  pub few : length new ≤ n

abbrev IsFail : Bytes → Type 0
IsFail line = (rest : Bytes) × (line ≡ codes "FAIL\t" ++ rest)

Grown-still :
    (P : Bytes → Type 0) (n : ℕ) (b a : Conn) → IsReply a.reply → a.out ≡ b.out → Grown P n b a
Grown-still P n b a r e = record {
  reply = r;
  new = [];
  out = e ∙ sym (append-nil b.out);
  why = tt;
  few = omega arith;
}

Grown-line :
    (P : Bytes → Type 0) (b a : Conn) (line : Bytes)
    → IsReply a.reply
    → a.out ≡ b.out ++ line ∷ []
    → P line
    → Grown P 1 b a
Grown-line P b a line r e p = record {
  reply = r;
  new = line ∷ [];
  out = e;
  why = (p, tt);
  few = omega arith;
}

Grown-note :
    (P : Bytes → Type 0) (n : ℕ) (b c : Conn) (traced : Bool) (stage : Bytes) (fields : Dict Value)
    → Grown P n b c
    → Grown P n b (note traced stage fields c)
unfolding note
Grown-note P n b c false stage fields g = g
Grown-note P n b c true stage fields g = record {
  reply = g.reply;
  new = g.new;
  out = g.out;
  why = g.why;
  few = g.few;
}

pub note-keeps :
    (traced : Bool) (stage : Bytes) (fields : Dict Value) (c : Conn)
    → ((note traced stage fields c).reply ≡ c.reply)
      × ((note traced stage fields c).out ≡ c.out)
      × ((note traced stage fields c).session ≡ c.session)
unfolding note
note-keeps true stage fields c = (refl, refl, refl)
note-keeps false stage fields c = (refl, refl, refl)

-- A line is added unless its write fails.
Grown-pick :
    (P : Bytes → Type 0) (b c : Conn) (line : Bytes) (broken : Bool)
    → IsReply c.reply
    → c.out ≡ b.out
    → P line
    → Grown P 1 b (if broken then c else record c { out = c.out ++ line ∷ [] })
Grown-pick P b c line true r e p = Grown-still P 1 b c r e
Grown-pick P b c line false r e p =
    Grown-line P b (record c { out = c.out ++ line ∷ [] }) line r (ap (λ o. o ++ line ∷ []) e) p

Grown-if :
    (P : Bytes → Type 0) (n : ℕ) (b x y : Conn) (t : Bool)
    → (t ≡ true → Grown P n b x)
    → (t ≡ false → Grown P n b y)
    → Grown P n b (if t then x else y)
Grown-if P n b x y true f g = f refl
Grown-if P n b x y false f g = g refl

refuse-IsReply : (msg : Bytes) (m : Dict Bytes) → IsReply m → IsReply (insert (codes "error") msg m)
refuse-IsReply msg m (inl e) = inl (erase-insert (codes "error") msg m ∙ e)
refuse-IsReply msg m (inr (u, e)) = inr (u, erase-insert (codes "error") msg m ∙ e)

module _ (authenticate : Bytes → Bytes → Bool) (fails : ℕ → Bool)
    (order : Dict Bytes → List (Bytes × Bytes)) (traced : Bool)
    (order_one : (e : Bytes × Bytes) → order (e ∷ []) ≡ e ∷ []) where
  fail_line :
      (id : Bytes) (m : Dict Bytes)
      → (rest : Bytes) × (data_line authenticate fails order traced false id m
          ≡ codes "FAIL\t" ++ rest)
  unfolding data_line
  fail_line id m = (_, refl)

  pub ok_line :
      (id u : Bytes)
      → data_line authenticate fails order traced true id ((codes "user", u) ∷ [])
        ≡ codes "OK\t" ++ (id ++ (codes "\tuser=" ++ u))
  unfolding data_line
  ok_line id u = rw (order_one (codes "user", u))

  refuse-Grown :
      (P : Bytes → Type 0) (msg : Bytes) (b c : Conn)
      → ((line : Bytes) → IsFail line → P line)
      → IsReply c.reply
      → c.out ≡ b.out
      → Grown P 1 b (refuse authenticate fails order traced msg c)
  unfolding refuse send_data send_line
  refuse-Grown P msg b c why r e =
      Grown-pick P b (record c { reply = insert (codes "error") msg c.reply }) _
        (fails (length c.out)) (refuse-IsReply msg c.reply r) e
        (why _ (fail_line c.session.id (insert (codes "error") msg c.reply)))

  accept-Grown :
      (P : Bytes → Type 0) (user : Bytes) (b c : Conn)
      → P (codes "OK\t" ++ (c.session.id ++ (codes "\tuser=" ++ user)))
      → IsReply c.reply
      → c.out ≡ b.out
      → Grown P 1 b (
          send_data authenticate fails order traced true
            (record c { reply = insert (codes "user") user (erase (codes "error") c.reply) }))
  unfolding send_data send_line
  accept-Grown P user b c why r e =
      Grown-pick P b
        (record c { reply = insert (codes "user") user (erase (codes "error") c.reply) }) _
        (fails (length c.out)) (inr (user, rw (insert_user user c.reply r))) e
        (rw (insert_user user c.reply r, ok_line c.session.id user) why)

  settle-Grown :
      (P : Bytes → Type 0) (user password : Bytes) (b c : Conn)
      → IsReply c.reply
      → c.out ≡ b.out
      → ((line : Bytes) → IsFail line → P line)
      → (authenticate user password ≡ true
          → P (codes "OK\t" ++ (c.session.id ++ (codes "\tuser=" ++ user))))
      → Grown P 1 b (settle authenticate fails order traced user password c)
  unfolding settle
  settle-Grown P user password b c r e why ok =
      Grown-if P 1 b _ _ (authenticate user password)
        (λ yea. Grown-note P 1 b _ traced _ _ (
          accept-Grown P user b (record c { session = record (c.session) { done = true } }) (ok yea)
            r e))
        (λ nay. Grown-note P 1 b _ traced _ _ (refuse-Grown P _ b c why r e))

  -- An attempt adds its line.
  try_login-Grown :
      (P : Bytes → Type 0) (id service user password : Bytes) (c : Conn)
      → IsReply c.reply
      → ((line : Bytes) → IsFail line → P line)
      → (authenticate user password ≡ true → P (codes "OK\t" ++ (id ++ (codes "\tuser=" ++ user))))
      → Grown P 1 c (try_login authenticate fails order traced id service user password c)
  unfolding try_login
  try_login-Grown P id service user password c r why ok =
      let named = record c { session = record (c.session) { id = id; username = user } } in
      let stage = codes "auth_attempt" in
      let fields : Dict Value =
        (codes "user", text (mask_email user)) ∷ (codes "service", text service) ∷ [] in
      let (same_reply, same_out, same_session) = note-keeps traced stage fields named in
      settle-Grown P user password c (note traced stage fields named)
        (subst IsReply (sym same_reply) r) same_out why
        (λ yea.
          subst (λ (s : Session). P (codes "OK\t" ++ (s.id ++ (codes "\tuser=" ++ user))))
            (sym same_session) (ok yea))

  -- Answering a request adds at most one line, and an OK only for an accepted attempt.
  answer-Grown :
      (P : Bytes → Type 0) (q : Request) (c : Conn)
      → IsReply c.reply
      → ((line : Bytes) → IsFail line → P line)
      → ((id service user password : Bytes)
          → q ≡ attempt id service user password
          → authenticate user password ≡ true
          → P (codes "OK\t" ++ (id ++ (codes "\tuser=" ++ user))))
      → Grown P 1 c (answer authenticate fails order traced q c)
  unfolding answer try_login
  answer-Grown P (refused msg) c r why ok = refuse-Grown P msg c c why r refl
  answer-Grown P (refused_as id msg) c r why ok =
      refuse-Grown P msg c (record c { session = record (c.session) { id = id } }) why r refl
  answer-Grown P ignored c r why ok = Grown-still P 1 c c r refl
  answer-Grown P (attempt id service user password) c r why ok =
      try_login-Grown P id service user password c r why (ok id service user password refl)

  Explained-weaken :
      (y : Bytes) (ys : List Bytes) (line : Bytes)
      → Explained authenticate ys line
      → Explained authenticate (y ∷ ys) line
  Explained-weaken y ys line (inl f) = inl f
  Explained-weaken y ys line (inr (asked, id, s, u, p, m, q, a, e)) =
      inr (asked, id, s, u, p, inr m, q, a, e)

  All-weaken :
      (y : Bytes) (ys new : List Bytes)
      → All (Explained authenticate ys) new
      → All (Explained authenticate (y ∷ ys)) new
  All-weaken y ys [] h = tt
  All-weaken y ys (l ∷ new) h = (Explained-weaken y ys l h.0, All-weaken y ys new h.1)

  -- Whatever lines a client sends behind the greeting, and whatever writes fail: each line that the
  -- loop writes is a FAIL, or the OK for an attempt among these lines whose user name and password
  -- the identity service accepts, and names that attempt's identifier and user. There are at most as
  -- many replies as lines. The map of the reply starts with no keys but `error` and `user`, and the
  -- range over a map of one entry is that entry.
  pub serve-Explained :
      (lines : List Bytes) (c : Conn)
      → IsReply c.reply
      → Grown
          (Explained authenticate lines)
          (length lines)
          c
          (serve authenticate fails order traced lines c)
  unfolding serve
  serve-Explained [] c r = Grown-still _ 0 c c r refl
  serve-Explained (line ∷ lines) c r =
      let first =
        answer-Grown (Explained authenticate (line ∷ lines)) (request line) c r (λ l f. inl f)
          (λ id s u p q a. inr (line, id, s, u, p, inl refl, q, a, refl)) in
      let later =
        serve-Explained lines (answer authenticate fails order traced (request line) c)
          (first.reply) in
      record {
        reply = later.reply;
        new = first.new ++ later.new;
        out =
            later.out
            ∙ ap (λ o. o ++ later.new) (first.out)
            ∙ append_assoc (c.out) (first.new) (later.new);
        why =
            All-append (Explained authenticate (line ∷ lines)) (first.new) (later.new) (first.why)
              (All-weaken line lines (later.new) (later.why));
        few = omega (arith, first.few, later.few, length-append (first.new) (later.new));
      }
