-- ===== src/Dovecot/Request/Sound.antt =====
-- What a line holds that is read as an attempt.
use easymail.Base.{
  ℕ, ◌≡◌, refl, ap, ap₂, ◌∙◌, Option, none, some, List, [], ◌∷◌, ◌++◌, arith, Bytes, codes, same,
  same_iff, Dict, lookup, Lacks, Bool-cases, Option-cases, inl, inr,
}
use easymail.Text.{split, cut, split_two, split_three}
use easymail.Text.Laws.{cut_sound}
use easymail.Dovecot.Base64.{decode_string}
use easymail.Dovecot.Request.{
  attempt, request, request_pair, request_resp, request_params, request_args, request_fields,
  params,
}

-- The two bytes that separate a response's parts, and what the parts are.
abbrev pub Splits : Bytes → Bytes → Bytes → Bytes → Type 0
Splits b z u p = (b ≡ z ++ 0 ∷ (u ++ 0 ∷ p)) × Lacks 0 z × Lacks 0 u

split_two-cut : (sep : ℕ) (s a b : Bytes) → split_two sep s ≡ a ∷ b ∷ [] → cut sep s ≡ some (a, b)
unfolding split_two
split_two-cut sep s a b h = ground arith

split_three-cut :
    (sep : ℕ) (s z u p : Bytes)
    → split_three sep s ≡ z ∷ u ∷ p ∷ []
    → (rest : Bytes) × (cut sep s ≡ some (z, rest)) × (split_two sep rest ≡ u ∷ p ∷ [])
unfolding split_three
split_three-cut sep s z u p h = elim (Option-cases (cut sep s)) [
  | inl e ↦ absurd (ground arith)
  | inr (c, e) ↦ (c.1, ground arith, ground arith)
]

split_three_sound : (s z u p : Bytes) → split_three 0 s ≡ z ∷ u ∷ p ∷ [] → Splits s z u p
split_three_sound s z u p h =
    let (rest, first, second) = split_three-cut 0 s z u p h in
    let (e, hz) = cut_sound 0 s z rest first in
    let (e', hu) = cut_sound 0 rest u p (split_two-cut 0 rest u p second) in
    (e ∙ ap (λ t. z ++ 0 ∷ t) e', hz, hu)

pair_sound :
    (id service : Bytes) (parts : List Bytes) (id' service' user password : Bytes)
    → request_pair id service parts ≡ attempt id' service' user password
    → (z : Bytes) × (parts ≡ z ∷ user ∷ password ∷ []) × (id ≡ id') × (service ≡ service')
unfolding request_pair
pair_sound id service [] id' service' user password h = absurd (cc)
pair_sound id service (z ∷ []) id' service' user password h = absurd (cc)
pair_sound id service (z ∷ u ∷ []) id' service' user password h = absurd (cc)
pair_sound id service (z ∷ u ∷ p ∷ []) id' service' user password h =
    (z, ground arith, ground arith, ground arith)
pair_sound id service (z ∷ u ∷ p ∷ q ∷ rest) id' service' user password h = absurd (cc)

resp_sound :
    (id service : Bytes) (decoded : Option Bytes) (id' service' user password : Bytes)
    → request_resp id service decoded ≡ attempt id' service' user password
    → (b z : Bytes) × (decoded ≡ some b)
      × Splits b z user password
      × (id ≡ id')
      × (service ≡ service')
unfolding request_resp
resp_sound id service none id' service' user password h = absurd (cc)
resp_sound id service (some b) id' service' user password h =
    let (z, e, same_id, same_service) =
      pair_sound id service (split_three 0 b) id' service' user password h in
    (b, z, refl, split_three_sound b z user password e, same_id, same_service)

-- What the parameters of an attempt are.
abbrev pub Holds : Dict Bytes → Bytes → Bytes → Bytes → Type 0
Holds m service user password =
    (r b z : Bytes) × (lookup (codes "service") m ≡ some service)
    × (lookup (codes "resp") m ≡ some r)
    × (decode_string r ≡ some b)
    × Splits b z user password

params_sound :
    (id : Bytes) (m : Dict Bytes) (id' service' user password : Bytes)
    → request_params id m ≡ attempt id' service' user password
    → Holds m service' user password × (id ≡ id')
unfolding request_params
params_sound id m id' service' user password h = elim (Option-cases (lookup (codes "service") m)) [
  | inl e ↦ absurd (ground arith)
  | inr (service, e) ↦ elim (Option-cases (lookup (codes "resp") m)) [
    | inl k ↦ absurd (ground arith)
    | inr (r, k) ↦
        let (b, z, d, parts, same_id, same_service) =
          resp_sound id service (decode_string r) id' service' user password (ground arith) in
        ((r, b, z, e ∙ ap some same_service, k, d, parts), same_id)
  ]
]

args_sound :
    (id mech : Bytes) (ps : List Bytes) (id' service' user password : Bytes)
    → request_args id mech ps ≡ attempt id' service' user password
    → (mech ≡ codes "PLAIN") × Holds (params [] ps) service' user password × (id ≡ id')
unfolding request_args
args_sound id mech [] id' service' user password h = absurd (cc)
args_sound id mech (p ∷ []) id' service' user password h = absurd (cc)
args_sound id mech (p ∷ q ∷ ps) id' service' user password h =
    elim (Bool-cases (same mech (codes "PLAIN"))) [
      | inl e ↦
          let (holds, same_id) =
            params_sound id (params [] (p ∷ q ∷ ps)) id' service' user password (ground arith) in
          ((same_iff mech (codes "PLAIN")).0 e, holds, same_id)
      | inr e ↦ absurd (ground arith)
    ]

fields_sound :
    (line : Bytes) (fields : List Bytes) (id service user password : Bytes)
    → request_fields line fields ≡ attempt id service user password
    → (ps : List Bytes) × (fields ≡ codes "AUTH" ∷ id ∷ codes "PLAIN" ∷ ps)
      × Holds (params [] ps) service user password
unfolding request_fields
fields_sound line [] id service user password h = absurd (cc)
fields_sound line (a ∷ []) id service user password h = absurd (cc)
fields_sound line (a ∷ b ∷ []) id service user password h = absurd (cc)
fields_sound line (cmd ∷ a ∷ b ∷ rest) id service user password h =
    elim (Bool-cases (same cmd (codes "AUTH"))) [
      | inl e ↦
          let (mech, holds, same_id) =
            args_sound a b rest id service user password (ground arith) in
          (
            rest,
            ap₂ (λ c m. c ∷ a ∷ m ∷ rest) ((same_iff cmd (codes "AUTH")).0 e) mech
                ∙ ap (λ i. codes "AUTH" ∷ i ∷ codes "PLAIN" ∷ rest) same_id,
            holds,
          )
      | inr e ↦ absurd (ground arith)
    ]

-- A line is read as an attempt only if it is an AUTH line for the mechanism PLAIN with the attempt's
-- identifier, whose parameters hold the service and a response that decodes to an authorisation
-- identity, the user name and the password, each but the last ended by its first NUL.
pub request_sound :
    (line id service user password : Bytes)
    → request line ≡ attempt id service user password
    → (ps : List Bytes) × (split 9 line ≡ codes "AUTH" ∷ id ∷ codes "PLAIN" ∷ ps)
      × Holds (params [] ps) service user password
unfolding request
request_sound line id service user password h =
    fields_sound line (split 9 line) id service user password h
