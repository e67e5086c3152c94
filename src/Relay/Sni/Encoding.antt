-- ===== src/Relay/Sni/Encoding.antt =====
-- What a TLS client sends, after RFC 8446 and RFC 6066: the specification of `parse_client_hello`.
use ntwire.Base.{
  ℕ, zero, suc, ◌+◌, ◌*◌, ◌/◌, ◌%◌, ◌≤◌, ◌<◌, ◌≡◌, refl, sym, ◌≢◌, true, List, [], ◌∷◌, ◌++◌, arith,
  length, drop, length-append, take-length-append, drop-length-append, leb, ◌==◌, if◌then◌else◌,
}
use ntwire.Base.{ok}
use ntwire.Relay.Sni.{
  compression_methods, cipher_suites, Bytes, HelloError, skip_length_prefixed, normalize_sni,
  parse_names, parse_server_name_extension, parse_extensions, parse_extension_block,
  parse_client_hello,
}

-- length-prefixed bytes
abbrev pub sized : Bytes → Bytes → Bytes
sized s rest = (length s) / 256 ∷ (length s) % 256 ∷ (s ++ rest)

abbrev pub sized_byte : Bytes → Bytes → Bytes
sized_byte s rest = length s ∷ (s ++ rest)

-- entries of the name list: a type and a name
abbrev pub names : List (ℕ × Bytes) → Bytes → Bytes
names [] rest = rest
names ((t, s) ∷ es) rest = t ∷ sized s (names es rest)

-- extensions: a type and a body
abbrev pub extensions : List (ℕ × Bytes) → Bytes → Bytes
extensions [] rest = rest
extensions ((t, s) ∷ es) rest = t / 256 ∷ t % 256 ∷ sized s (extensions es rest)

-- A ClientHello that names a host. Before the host stand name entries of reserved types and
-- extensions of other types; what follows the host and its extension is free.
pub record Hello : Type 0 where
  pub opening : Bytes  -- legacy_version and random
  pub session_id : Bytes
  pub suites : Bytes
  pub methods : Bytes
  pub others : List (ℕ × Bytes)
  pub reserved : List (ℕ × Bytes)
  pub host : Bytes
  pub more_names : Bytes
  pub more_extensions : Bytes

abbrev pub name_list : Hello → Bytes
name_list h = names h.reserved (0 ∷ sized h.host h.more_names)

abbrev pub server_name : Hello → Bytes
server_name h = sized (name_list h) []

abbrev pub extension_list : Hello → Bytes
extension_list h = extensions h.others (0 ∷ 0 ∷ sized (server_name h) h.more_extensions)

abbrev pub encode : Hello → Bytes
encode h =
    h.opening
    ++ sized_byte h.session_id (sized h.suites (sized_byte h.methods (sized (extension_list h) [])))

-- Other types, and no empty condition on their bodies.
abbrev pub AllOther : List (ℕ × Bytes) → Type 0
AllOther [] = Unit
AllOther ((t, s) ∷ es) = (t ≢ 0) × AllOther es

pub record IsWellFormed (h : Hello) : Type 0 where
  pub opening_34 : length h.opening ≡ 34
  pub others_other : AllOther h.others
  pub reserved_other : AllOther h.reserved

u16_value : (n : ℕ) → n / 256 * 256 + n % 256 ≡ n
u16_value n = omega arith

length-names-le : (es : List (ℕ × Bytes)) (rest : Bytes) → length rest ≤ length (names es rest)
length-names-le [] rest = omega arith
length-names-le ((t, s) ∷ es) rest =
    omega (arith, length-names-le es rest, length-append s (names es rest))

module _ (to_lower : Bytes → Bytes) where
  parse_names_step :
      (fuel t : ℕ) (s rest : Bytes)
      → parse_names to_lower (suc fuel) (t ∷ sized s rest)
        ≡ (if t == 0 then ok (normalize_sni to_lower s) else parse_names to_lower fuel rest)
  unfolding parse_names
  parse_names_step fuel t s rest =
      rw (u16_value (length s), take-length-append s rest, drop-length-append s rest)
        (ground (arith, length-append s rest))

  parse_names_encoded :
      (fuel : ℕ) (es : List (ℕ × Bytes)) (host rest : Bytes)
      → AllOther es
      → length (names es (0 ∷ sized host rest)) < fuel
      → parse_names to_lower fuel (names es (0 ∷ sized host rest))
        ≡ ok (normalize_sni to_lower host)
  parse_names_encoded zero es host rest a f = absurd (omega arith)
  parse_names_encoded (suc fuel) [] host rest a f = rw (parse_names_step fuel 0 host rest) refl
  parse_names_encoded (suc fuel) ((t, s) ∷ es) host rest (ne, a) f =
      rw (parse_names_step fuel t s (names es (0 ∷ sized host rest))) (
        ground (
          arith,
          parse_names_encoded fuel es host rest a,
          length-append s (names es (0 ∷ sized host rest)),
        ))

  parse_server_name_encoded :
      (h : Hello)
      → IsWellFormed h
      → parse_server_name_extension to_lower (server_name h) ≡ ok (normalize_sni to_lower h.host)
  unfolding parse_server_name_extension
  parse_server_name_encoded h w =
      rw (u16_value (length (name_list h)), take-length-append (name_list h) [])
        (ground (
          arith,
          length-append (name_list h) [],
          parse_names_encoded (suc (length (name_list h ++ []))) h.reserved h.host h.more_names
              w.reserved_other,
        ))

  parse_extensions_step :
      (fuel t : ℕ) (s rest : Bytes)
      → parse_extensions to_lower (suc fuel) (t / 256 ∷ t % 256 ∷ sized s rest) ≡ (
          if t == 0
          then parse_server_name_extension to_lower s
          else parse_extensions to_lower fuel rest)
  unfolding parse_extensions
  parse_extensions_step fuel t s rest =
      rw (u16_value (length s), u16_value t, take-length-append s rest, drop-length-append s rest)
        (ground (arith, length-append s rest))

  parse_extensions_encoded :
      (fuel : ℕ) (es : List (ℕ × Bytes)) (body rest : Bytes)
      → AllOther es
      → length (extensions es (0 ∷ 0 ∷ sized body rest)) < fuel
      → parse_extensions to_lower fuel (extensions es (0 ∷ 0 ∷ sized body rest))
        ≡ parse_server_name_extension to_lower body
  parse_extensions_encoded zero es body rest a f = absurd (omega arith)
  parse_extensions_encoded (suc fuel) [] body rest a f = parse_extensions_step fuel 0 body rest
  parse_extensions_encoded (suc fuel) ((t, s) ∷ es) body rest (ne, a) f =
      rw (parse_extensions_step fuel t s (extensions es (0 ∷ 0 ∷ sized body rest))) (
        ground (
          arith,
          parse_extensions_encoded fuel es body rest a,
          length-append s (extensions es (0 ∷ 0 ∷ sized body rest)),
        ))

  parse_extension_block_encoded :
      (h : Hello)
      → IsWellFormed h
      → parse_extension_block to_lower (sized (extension_list h) [])
        ≡ ok (normalize_sni to_lower h.host)
  unfolding parse_extension_block
  parse_extension_block_encoded h w =
      rw (u16_value (length (extension_list h)), take-length-append (extension_list h) [])
        (ground (
          arith,
          length-append (extension_list h) [],
          parse_server_name_encoded h w,
          parse_extensions_encoded (suc (length (extension_list h ++ []))) h.others (server_name h)
              h.more_extensions w.others_other,
        ))

skip_byte :
    (s rest : Bytes) (e : HelloError) → skip_length_prefixed (sized_byte s rest) 1 e ≡ ok rest
unfolding skip_length_prefixed
skip_byte s rest e =
    let value : 0 * 256 + length s ≡ length s = omega arith in
    rw (value, drop-length-append s rest) (ground (arith, length-append s rest))

skip_u16 : (s rest : Bytes) (e : HelloError) → skip_length_prefixed (sized s rest) 2 e ≡ ok rest
unfolding skip_length_prefixed
skip_u16 s rest e =
    let value : (0 * 256 + length s / 256) * 256 + length s % 256 ≡ length s = omega arith in
    rw (value, drop-length-append s rest) (ground (arith, length-append s rest))

drop-opening : (s rest : Bytes) (n : ℕ) → length s ≡ n → drop n (s ++ rest) ≡ rest
drop-opening s rest n e = rw (sym e) (drop-length-append s rest)

leb-opening : (s rest : Bytes) (n : ℕ) → length s ≡ n → leb n (length (s ++ rest)) ≡ true
leb-opening s rest n e = ground (arith, length-append s rest)

-- The host that a well-formed ClientHello names is what the relay routes by, in its normal form:
-- whatever the session, cipher suites and compression methods are, after other extensions and
-- reserved name entries, and whatever follows.
pub parse_client_hello-encode :
    (to_lower : Bytes → Bytes) (h : Hello)
    → IsWellFormed h
    → parse_client_hello to_lower (encode h) ≡ ok (normalize_sni to_lower h.host)
unfolding parse_client_hello
parse_client_hello-encode to_lower h w =
    let extension_block = sized (extension_list h) [] in
    let compression = sized_byte h.methods extension_block in
    let suites = sized h.suites compression in
    let session = sized_byte h.session_id suites in
    rw
      (
        leb-opening h.opening session 34 w.opening_34,
        drop-opening h.opening session 34 w.opening_34,
        skip_byte h.session_id suites HelloError.session_id,
        skip_u16 h.suites compression cipher_suites,
        skip_byte h.methods extension_block compression_methods,
      )
      (parse_extension_block_encoded to_lower h w)
