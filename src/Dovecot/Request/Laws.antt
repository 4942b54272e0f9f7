-- ===== src/Dovecot/Request/Laws.antt =====
-- Which lines are attempts, and what they attempt.
use easymail.Base.{
  ℕ, ◌≡◌, ◌≢◌, refl, ap, ◌∙◌, [], ◌∷◌, ◌++◌, arith, Bytes, codes, Dict, insert, All, All-append,
  Lacks,
}
use easymail.Text.{split_two, split_three, join}
use easymail.Text.Laws.{split-join, cut-append, split_two-append}
use easymail.Dovecot.Base64.{encode, decode-encode, IsByte, encode-Lacks_tab}
use easymail.Dovecot.Request.{
  attempt, request, request_pair, request_resp, request_params, request_fields, set_param, params,
}

-- The line by which a client asks for `user`, with an authorisation identity that may be empty.
abbrev pub auth_line : Bytes → Bytes → Bytes → Bytes → Bytes → Bytes
auth_line id service authzid user password = join (9 ∷ []) (
    codes "AUTH"
    ∷ id
    ∷ codes "PLAIN"
    ∷ (codes "service=" ++ service)
    ∷ (codes "resp=" ++ encode (authzid ++ 0 ∷ (user ++ 0 ∷ password)))
    ∷ [])

set_param-append :
    (m : Dict Bytes) (k v : Bytes)
    → Lacks b'=' k
    → set_param m (split_two b'=' (k ++ b'=' ∷ v)) ≡ insert k v m
unfolding set_param
set_param-append m k v h = rw (split_two-append b'=' k v h)

split_three-append :
    (sep : ℕ) (a b c : Bytes)
    → Lacks sep a
    → Lacks sep b
    → split_three sep (a ++ sep ∷ (b ++ sep ∷ c)) ≡ a ∷ b ∷ c ∷ []
unfolding split_three
split_three-append sep a b c ha hb =
    rw (cut-append sep a (b ++ sep ∷ c) ha, split_three)
      (ap (λ t. a ∷ t) (split_two-append sep b c hb))

-- A line in the client's form is read as the attempt that it spells, if the identifier and the
-- service hold no tab, the identities no NUL, and the response consists of bytes. The password may
-- hold any bytes.
pub request-auth_line :
    (id service authzid user password : Bytes)
    → Lacks 9 id
    → Lacks 9 service
    → Lacks 0 authzid
    → Lacks 0 user
    → All IsByte (authzid ++ 0 ∷ (user ++ 0 ∷ password))
    → request (auth_line id service authzid user password) ≡ attempt id service user password
unfolding request
request-auth_line id service authzid user password hid hservice hz hu bytes =
    ap (request_fields (auth_line id service authzid user password)) (
      split-join 9 (codes "AUTH")
        (id
          ∷ codes "PLAIN"
          ∷ (codes "service=" ++ service)
          ∷ (codes "resp=" ++ encode (authzid ++ 0 ∷ (user ++ 0 ∷ password)))
          ∷ [])
        (
          omega arith,
          (
            hid,
            (
              omega arith,
              (
                All-append (λ c. c ≢ 9) (codes "service=") service (omega arith) hservice,
                (
                  All-append (λ c. c ≢ 9) (codes "resp=") _ (omega arith)
                      (encode-Lacks_tab (authzid ++ 0 ∷ (user ++ 0 ∷ password))),
                  tt,
                ),
              ),
            ),
          ),
        ))
    ∙ read_params
  where
    resp : Bytes
    resp = encode (authzid ++ 0 ∷ (user ++ 0 ∷ password))

    two_params :
        params [] ((codes "service=" ++ service) ∷ (codes "resp=" ++ resp) ∷ [])
        ≡ insert (codes "resp") resp (insert (codes "service") service [])
    two_params =
        unfold params in
        (ap (λ m. set_param m (split_two b'=' (codes "resp=" ++ resp)))
            (set_param-append [] (codes "service") service (omega arith))
          ∙ set_param-append (insert (codes "service") service []) (codes "resp") resp
              (omega arith))

    read_params :
        request_params id (params [] ((codes "service=" ++ service) ∷ (codes "resp=" ++ resp) ∷ []))
        ≡ attempt id service user password
    read_params =
        ap (request_params id) two_params
        ∙ unfold request_params in
          (ap (request_resp id service)
              (decode-encode (authzid ++ 0 ∷ (user ++ 0 ∷ password)) bytes)
            ∙ unfold request_resp in
              (ap (request_pair id service) (split_three-append 0 authzid user password hz hu)
                ∙ unfold request_pair in refl))
