-- ===== src/Packet/Connect/Codec.antt =====
-- CONNECT: what a consistent builder makes is accepted and read back.
use tjiftjaf.Prelude.{
  ℕ, ◌+◌, ◌*◌, ◌%◌, ◌≤◌, ◌≡◌, refl, ap, ◌∙◌, arith, [], ◌++◌, length, All, none, some, Bool, true,
  false, not, ◌&&◌,
}
use tjiftjaf.Result.{ok, panic, unwrap}
use tjiftjaf.Rust.{Bytes, IsU16, slice, slice_from, bytes_eq}
use tjiftjaf.Rust.Utf8.{IsStr, is_utf8, from_utf8}
use tjiftjaf.Decode
use tjiftjaf.Decode.Field.{u16-to_be_bytes, utf8-bytes, bytes-encode}
use tjiftjaf.Kinds.{
  connect, decode_packet_type, packet_type_eq, packet_type_try_from, packet_type_code, QoS,
}
use tjiftjaf.Frame.{try_payload}
use tjiftjaf.Frame.Layout.{
  max_body, frame, remaining_length-parts, try_header-fixed_header, try_offset-fixed_header,
}
use tjiftjaf.Frame.Payload.{try_payload-frame, slice-frame}
use tjiftjaf.Frame.Checks.{check_length-frame}
use tjiftjaf.Packet.ConnectFlags
use tjiftjaf.Packet.ConnectFlags.{Flags}
use tjiftjaf.Packet.Connect
use tjiftjaf.Packet.Connect.{Connect, UnverifiedConnect, unverified_frame}
use tjiftjaf.Packet.Connect.Build
use tjiftjaf.Packet.Connect.Build.{Builder, built_flags, variable_header_of, payload_of}
use tjiftjaf.Packet.Connect.Consistent.{Consistent}
use tjiftjaf.Packet.Connect.Fields.{
  is_some, IsSmall, OptStr, fields, encode_fields, payload_lem, will_of, try_client_id-fields,
  try_will-fields, try_username-fields, try_password-fields,
}

-- What `build` can encode: strings that are strings, fields and a keep alive interval of 16
-- bits, and a body that fits the remaining length.
pub record Fits (b : Builder) : Type 0 where
  pub client_id_str : IsStr b.client_id
  pub topic_str : OptStr b.will_topic
  pub username_str : OptStr b.username
  pub small : All IsSmall (fields b.client_id b.will_topic b.will_message b.username b.password)
  pub keep_alive_small : IsU16 b.keep_alive
  pub body_small : length (variable_header_of b ++ payload_of b) ≤ max_body

-- A password stands with a username only.
abbrev pub Authed : Builder → Type 0
Authed b = b.username ≡ none → b.password ≡ none

module _ (b : Builder) (qos : QoS) (c : Consistent b qos) (fit : Fits b) where
  abbrev variable : Bytes
  variable = variable_header_of b

  abbrev body : Bytes
  body = variable ++ payload_of b

  abbrev first : ℕ
  first = packet_type_code connect * 16

  abbrev unverified : UnverifiedConnect
  unverified = record { inner = frame first body }

  abbrev built : Connect
  built = record { inner = unverified }

  variable-built : Connect.try_variable_header unverified ≡ ok variable
  unfolding Connect.try_variable_header
  variable-built =
      rw (try_offset-fixed_header first (length body) body fit.body_small)
        (slice-frame first variable (payload_of b) _ _ refl refl)

  payload-built :
      try_payload unverified
      ≡ ok (encode_fields (fields b.client_id b.will_topic b.will_message b.username b.password))
  payload-built =
      try_payload-frame unverified first variable (payload_of b) fit.body_small refl variable-built
      ∙ ap ok (payload_lem b.client_id b.will_topic b.will_message b.username b.password)

  flags-built : Connect.try_connect_flags unverified ≡ ok (built_flags b)
  unfolding Connect.try_connect_flags
  flags-built = rw variable-built

  keep_alive-built : Connect.try_keep_alive unverified ≡ ok b.keep_alive
  unfolding Connect.try_keep_alive slice_from
  keep_alive-built = rw variable-built (u16-to_be_bytes b.keep_alive [] fit.keep_alive_small)

  reserved : (built_flags b).bits % 2 ≡ 0
  reserved = ground (arith, c.reserved)

  variable_header-built : Connect.verify_variable_header unverified ≡ ok tt
  unfolding Connect.verify_variable_header Decode.utf8 Decode.bytes slice is_utf8 from_utf8 bytes_eq
  variable_header-built = rw (variable-built, reserved)

  header-built : Connect.verify_header unverified ≡ ok tt
  unfolding Connect.verify_header decode_packet_type packet_type_eq packet_type_code
      packet_type_try_from
  header-built =
      rw (try_header-fixed_header first (length body) body fit.body_small)
        (check_length-frame first body fit.body_small)

  will_shown-built : ConnectFlags.will_flag (built_flags b) ≡ ConnectFlags.will_flag b.flags
  will_shown-built = ground arith

  username_shown-built : ConnectFlags.username (built_flags b) ≡ ConnectFlags.username b.flags
  username_shown-built = ground arith

  password_shown-built : ConnectFlags.password (built_flags b) ≡ ConnectFlags.password b.flags
  password_shown-built = ground arith

  retain-built : ConnectFlags.will_retain (built_flags b) ≡ ConnectFlags.will_retain b.flags
  retain-built = ground arith

  qos-built : ConnectFlags.will_qos (built_flags b) ≡ ConnectFlags.will_qos b.flags
  unfolding ConnectFlags.will_qos
  qos-built = ground arith

  client_id-built : Connect.try_client_id unverified ≡ ok b.client_id
  client_id-built =
      try_client_id-fields unverified b.client_id b.will_topic b.will_message b.username b.password
        (built_flags b) qos payload-built flags-built fit.small (will_shown-built ∙ c.will_shown)
        c.will_paired (username_shown-built ∙ c.username_shown)
        (password_shown-built ∙ c.password_shown) fit.client_id_str

  will-built :
      Connect.try_will unverified
      ≡ ok (will_of b.will_topic b.will_message (ConnectFlags.will_retain b.flags) qos)
  will-built =
      try_will-fields unverified b.client_id b.will_topic b.will_message b.username b.password
        (built_flags b) qos payload-built flags-built fit.small (will_shown-built ∙ c.will_shown)
        c.will_paired (username_shown-built ∙ c.username_shown)
        (password_shown-built ∙ c.password_shown) fit.topic_str (qos-built ∙ c.qos_shown)
      ∙ ap (λ (r : Bool). ok (will_of b.will_topic b.will_message r qos)) retain-built

  username-built : Authed b → Connect.try_username unverified ≡ ok b.username
  username-built needs =
      try_username-fields unverified b.client_id b.will_topic b.will_message b.username b.password
        (built_flags b) qos payload-built flags-built fit.small (will_shown-built ∙ c.will_shown)
        c.will_paired (username_shown-built ∙ c.username_shown)
        (password_shown-built ∙ c.password_shown) fit.username_str needs

  password-built : Authed b → Connect.try_password unverified ≡ ok b.password
  password-built needs =
      try_password-fields unverified b.client_id b.will_topic b.will_message b.username b.password
        (built_flags b) qos payload-built flags-built fit.small (will_shown-built ∙ c.will_shown)
        c.will_paired (username_shown-built ∙ c.username_shown)
        (password_shown-built ∙ c.password_shown) needs

  clean-built :
      (Connect.is_empty b.client_id && not (ConnectFlags.clean_session (built_flags b))) ≡ false
  clean-built = ground arith

  utf8-payload :
      Decode.utf8
        (encode_fields (fields b.client_id b.will_topic b.will_message b.username b.password))
      ≡ ok (b.client_id, length b.client_id + 2)
  utf8-payload =
      utf8-bytes _ b.client_id _ (bytes-encode b.client_id _ fit.small.0) fit.client_id_str

  payload_checked : Authed b → Connect.verify_payload unverified ≡ ok tt
  unfolding Connect.verify_payload
  payload_checked needs = rw (
    payload-built,
    utf8-payload,
    flags-built,
    clean-built,
    will-built,
    username-built needs,
    password-built needs,
  )

  verify-built : Authed b → Connect.verify unverified ≡ ok built
  unfolding Connect.verify
  verify-built needs = rw (header-built, variable_header-built, payload_checked needs)

  build-built : Authed b → Build.build b ≡ ok built
  unfolding Build.build
  build-built needs =
      rw (remaining_length-parts variable (payload_of b) fit.body_small)
        (ap unwrap (verify-built needs))

  username_panics :
      (w : Bytes)
      → b.username ≡ none
      → b.password ≡ some w
      → Connect.try_username unverified ≡ panic
  unfolding Connect.try_username
  username_panics w eu ew =
      let hidden : ConnectFlags.username (built_flags b) ≡ false =
        username_shown-built ∙ c.username_shown ∙ ap is_some eu in
      let shown : ConnectFlags.password (built_flags b) ≡ true =
        password_shown-built ∙ c.password_shown ∙ ap is_some ew in
      rw (flags-built, hidden, shown)

  verify_panics :
      (w : Bytes) → b.username ≡ none → b.password ≡ some w → Connect.verify unverified ≡ panic
  unfolding Connect.verify Connect.verify_payload
  verify_panics w eu ew = rw (
    header-built,
    variable_header-built,
    payload-built,
    utf8-payload,
    flags-built,
    clean-built,
    will-built,
    username_panics w eu ew,
  )

-- The getters of a packet return what its builder was given.
pub record ShowsConnect (b : Builder) (qos : QoS) (p : Connect) : Type 0 where
  pub client_id_is : Connect.client_id p ≡ ok b.client_id
  pub keep_alive_is : Connect.keep_alive p ≡ ok b.keep_alive
  pub username_is : Connect.username p ≡ ok b.username
  pub password_is : Connect.password p ≡ ok b.password
  pub will_is :
      Connect.will p
      ≡ ok (will_of b.will_topic b.will_message (ConnectFlags.will_retain b.flags) qos)
  pub flags_are : Connect.flags p ≡ ok (built_flags b)

-- A consistent builder whose settings fit, with a username if it has a password, makes a
-- packet; the packet decodes to itself, and its getters return the settings of the builder.
pub build_connect :
    (b : Builder) (qos : QoS)
    → Consistent b qos
    → Fits b
    → Authed b
    → (p : Connect) × (Build.build b ≡ ok p)
      × (Connect.try_from (Connect.into_bytes p) ≡ ok p)
      × ShowsConnect b qos p
unfolding Connect.try_from
build_connect b qos c fit needs = (
  built b qos c fit,
  build-built b qos c fit needs,
  verify-built b qos c fit needs,
  record {
    client_id_is = ap unwrap (client_id-built b qos c fit);
    keep_alive_is = ap unwrap (keep_alive-built b qos c fit);
    username_is = ap unwrap (username-built b qos c fit needs);
    password_is = ap unwrap (password-built b qos c fit needs);
    will_is = ap unwrap (will-built b qos c fit);
    flags_are = ap unwrap (flags-built b qos c fit);
  },
)

-- A consistent builder whose settings fit, with a password and no username, panics: `build` runs
-- into the `todo!` of `username` while it checks what it built.
pub build_password_alone :
    (b : Builder) (qos : QoS) (w : Bytes)
    → Consistent b qos
    → Fits b
    → b.username ≡ none
    → b.password ≡ some w
    → Build.build b ≡ panic
unfolding Build.build
build_password_alone b qos w c fit eu ew =
    rw (remaining_length-parts (variable_header_of b) (payload_of b) fit.body_small)
      (ap unwrap (verify_panics b qos c fit w eu ew))
