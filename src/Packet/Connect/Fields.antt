-- ===== src/Packet/Connect/Fields.antt =====
-- The payload of CONNECT as a list of fields, and what the getters find in it.
use tjiftjaf.Prelude.{
  ℕ, zero, suc, ◌+◌, ◌≡◌, refl, sym, ap, ◌∙◌, List, [], ◌∷◌, ◌++◌, length, All, get_elem?, Option,
  none, some, Bool, true, false, if◌then◌else◌, append-nil, Option-cases, inl, inr,
}
use tjiftjaf.Result.{ok}
use tjiftjaf.Rust.{Bytes, IsU16}
use tjiftjaf.Rust.Utf8.{IsStr, from_utf8_ok}
use tjiftjaf.Decode.{variable_length_n}
use tjiftjaf.Decode.Field.{
  variable_length_n-encode, variable_length_n-zero, utf8-bytes, bytes-encode, encode_same,
}
use tjiftjaf.Encode
use tjiftjaf.Kinds.{QoS}
use tjiftjaf.Frame.{try_payload}
use tjiftjaf.Packet.ConnectFlags
use tjiftjaf.Packet.ConnectFlags.{Flags}
use tjiftjaf.Packet.Connect
use tjiftjaf.Packet.Connect.{Will, UnverifiedConnect, unverified_frame}
use tjiftjaf.Packet.Connect.Build.{optional, credentials_of}

abbrev pub IsSmall : Bytes → Type 0
IsSmall field = IsU16 (length field)

abbrev pub encode_fields : List Bytes → Bytes
encode_fields [] = []
encode_fields (f ∷ fs) = Encode.bytes f ++ encode_fields fs

variable_length_n-fields :
    (fs : List Bytes) (n : ℕ) (f : Bytes)
    → All IsSmall fs
    → get_elem? fs n ≡ some f
    → variable_length_n n (encode_fields fs) ≡ ok (f, length f + 2)
variable_length_n-fields [] n f small e = cc
variable_length_n-fields (g ∷ fs) zero f small e =
    let same : g ≡ f = cc in
    variable_length_n-zero g (encode_fields fs) small.0
    ∙ ap (λ (x : Bytes). ok (x, length x + 2)) same
variable_length_n-fields (g ∷ fs) (suc n) f small e =
    variable_length_n-encode n g (encode_fields fs) small.0
    ∙ variable_length_n-fields fs n f small.1 e

abbrev pub listed : Option Bytes → List Bytes → List Bytes
listed none fs = fs
listed (some f) fs = f ∷ fs

-- The fields of a payload: a password follows a username only.
abbrev pub credentials : Option Bytes → Option Bytes → List Bytes
credentials none password = []
credentials (some username) password = username ∷ listed password []

abbrev pub fields :
    (client_id : Bytes) (topic message username password : Option Bytes) → List Bytes
fields client_id topic message username password =
    client_id ∷ listed topic (listed message (credentials username password))

credentials_lem : (u p : Option Bytes) → credentials_of u p ≡ encode_fields (credentials u p)
credentials_lem none p = refl
credentials_lem (some u) none = rw (encode_same u)
credentials_lem (some u) (some p) = rw (encode_same u, append-nil (Encode.bytes p))

optional-listed :
    (o : Option Bytes) (rest : Bytes) (fs : List Bytes)
    → rest ≡ encode_fields fs
    → optional Encode.bytes o ++ rest ≡ encode_fields (listed o fs)
optional-listed none rest fs e = e
optional-listed (some f) rest fs e = ap (λ (l : Bytes). Encode.bytes f ++ l) e

optional_same : (o : Option Bytes) → optional Encode.utf8 o ≡ optional Encode.bytes o
optional_same none = refl
optional_same (some f) = encode_same f

pub payload_lem :
    (c : Bytes) (topic message username password : Option Bytes)
    → Encode.utf8 c
        ++ (optional Encode.utf8 topic
            ++ (optional Encode.bytes message ++ credentials_of username password))
      ≡ encode_fields (fields c topic message username password)
payload_lem c topic message username password =
    rw (encode_same c, optional_same topic)
      (ap (λ (l : Bytes). Encode.bytes c ++ l)
        (optional-listed topic _ _
          (optional-listed message _ _ (credentials_lem username password))))

abbrev pub is_some : Option Bytes → Bool
is_some none = false
is_some (some f) = true

abbrev pub OptStr : Option Bytes → Type 0
OptStr none = Unit
OptStr (some s) = IsStr s

-- What `will` is to return.
abbrev pub will_of : Option Bytes → Option Bytes → Bool → QoS → Option Will
will_of (some topic) (some message) retain qos =
    some (record { topic = topic; message = message; retain = retain; qos = qos })
will_of _ _ retain qos = none

-- A packet with the payload of the fields and with flags that say which of them are there.
module _ (p : UnverifiedConnect) (c : Bytes) (topic message username password : Option Bytes)
    (f : Flags) (qos : QoS)
    (payload_is : try_payload p ≡ ok (encode_fields (fields c topic message username password)))
    (flags_are : Connect.try_connect_flags p ≡ ok f)
    (small : All IsSmall (fields c topic message username password))
    (will_shown : ConnectFlags.will_flag f ≡ is_some topic)
    (will_paired : is_some message ≡ is_some topic)
    (username_shown : ConnectFlags.username f ≡ is_some username)
    (password_shown : ConnectFlags.password f ≡ is_some password) where
  abbrev all : List Bytes
  all = fields c topic message username password

  field_at :
      (n : ℕ) (x : Bytes)
      → get_elem? all n ≡ some x
      → variable_length_n n (encode_fields all) ≡ ok (x, length x + 2)
  field_at n x e = variable_length_n-fields all n x small e

  pub try_client_id-fields : IsStr c → Connect.try_client_id p ≡ ok c
  unfolding Connect.try_client_id
  try_client_id-fields str =
      let rest : Bytes =
        encode_fields (listed topic (listed message (credentials username password))) in
      rw (payload_is, utf8-bytes (encode_fields all) c _ (bytes-encode c rest small.0) str)

  will_at :
      (t m : Bytes)
      → topic ≡ some t
      → message ≡ some m
      → IsStr t
      → ConnectFlags.will_qos f ≡ ok qos
      → Connect.try_will p ≡ ok (will_of (some t) (some m) (ConnectFlags.will_retain f) qos)
  unfolding Connect.try_will
  will_at t m et em str q =
      let shown : ConnectFlags.will_flag f ≡ true = will_shown ∙ ap is_some et in
      rw (
        flags_are,
        shown,
        payload_is,
        field_at 1 t (rw et),
        from_utf8_ok t str,
        field_at 2 m (rw (et, em)),
        q,
      )

  no_will_at : topic ≡ none → Connect.try_will p ≡ ok none
  unfolding Connect.try_will
  no_will_at et =
      let shown : ConnectFlags.will_flag f ≡ false = will_shown ∙ ap is_some et in
      rw (flags_are, shown)

  no_message : topic ≡ none → message ≡ none
  no_message et = elim (Option-cases message) [
    | inl em ↦ em
    | inr (m, em) ↦ cc (will_paired, ap is_some et, ap is_some em)
  ]

  paired_message : (t : Bytes) → topic ≡ some t → (m : Bytes) × (message ≡ some m)
  paired_message t et = elim (Option-cases message) [
    | inl em ↦ cc (will_paired, ap is_some et, ap is_some em)
    | inr found ↦ found
  ]

  pub try_will-fields :
      OptStr topic
      → ConnectFlags.will_qos f ≡ ok qos
      → Connect.try_will p ≡ ok (will_of topic message (ConnectFlags.will_retain f) qos)
  try_will-fields str q = elim (Option-cases topic) [
    | inl et ↦ no_will_at et ∙ rw et
    | inr (t, et) ↦
        let (m, em) = paired_message t et in will_at t m et em (rw et at str) q ∙ rw (et, em)
  ]

  username_at :
      (n : ℕ) (u : Bytes)
      → username ≡ some u
      → (if ConnectFlags.will_flag f then 3 else 1) ≡ n
      → get_elem? all n ≡ some u
      → IsStr u
      → Connect.try_username p ≡ ok (some u)
  unfolding Connect.try_username
  username_at n u eu en e str =
      let shown : ConnectFlags.username f ≡ true = username_shown ∙ ap is_some eu in
      rw (flags_are, shown, payload_is, en, field_at n u e, from_utf8_ok u str)

  pub try_username-fields :
      OptStr username → (username ≡ none → password ≡ none) → Connect.try_username p ≡ ok username
  unfolding Connect.try_username
  try_username-fields str only = elim (Option-cases username) [
    | inl eu ↦
        let shown : ConnectFlags.username f ≡ false = username_shown ∙ ap is_some eu in
        let hidden : ConnectFlags.password f ≡ false = password_shown ∙ ap is_some (only eu) in
        rw (flags_are, shown, hidden, eu)
    | inr (u, eu) ↦ elim (Option-cases topic) [
      | inl et ↦
          username_at 1 u eu (rw (will_shown ∙ ap is_some et)) (rw (et, no_message et, eu))
            (rw eu at str)
          ∙ ap ok (sym eu)
      | inr (t, et) ↦
          let (m, em) = paired_message t et in
          username_at 3 u eu (rw (will_shown ∙ ap is_some et)) (rw (et, em, eu)) (rw eu at str)
          ∙ ap ok (sym eu)
    ]
  ]

  password_at :
      (n : ℕ) (w : Bytes)
      → password ≡ some w
      → (if ConnectFlags.will_flag f then 4 else 2) ≡ n
      → get_elem? all n ≡ some w
      → Connect.try_password p ≡ ok (some w)
  unfolding Connect.try_password
  password_at n w ew en e =
      let shown : ConnectFlags.password f ≡ true = password_shown ∙ ap is_some ew in
      rw (flags_are, shown, payload_is, en, field_at n w e)

  pub try_password-fields :
      (username ≡ none → password ≡ none) → Connect.try_password p ≡ ok password
  unfolding Connect.try_password
  try_password-fields only = elim (Option-cases password) [
    | inl ew ↦
        let hidden : ConnectFlags.password f ≡ false = password_shown ∙ ap is_some ew in
        rw (flags_are, hidden, ew)
    | inr (w, ew) ↦ elim (Option-cases username) [
      | inl eu ↦ cc (only eu)
      | inr (u, eu) ↦ elim (Option-cases topic) [
        | inl et ↦
            password_at 2 w ew (rw (will_shown ∙ ap is_some et)) (rw (et, no_message et, eu, ew))
            ∙ ap ok (sym ew)
        | inr (t, et) ↦
            let (m, em) = paired_message t et in
            password_at 4 w ew (rw (will_shown ∙ ap is_some et)) (rw (et, em, eu, ew))
            ∙ ap ok (sym ew)
      ]
    ]
  ]
