-- ===== src/Relay/Sni/Fragments.antt =====
-- A ClientHello that is fragmented over TLS records, read by `peekClientHello` of pkg/relay/sni.go.
use ntwire.Base.{
  Result, ℕ, zero, suc, ◌+◌, ◌*◌, ◌/◌, ◌%◌, ◌≤◌, ◌<◌, ◌≡◌, refl, sym, ap, ◌∙◌, List, [], ◌∷◌, ◌++◌,
  append_assoc, append-nil, arith, length, take, length-append, take-length-append,
  drop-length-append,
}
use ntwire.Base.{ok, append_assoc, append-nil}
use ntwire.Relay.Sni.{Bytes, normalize_sni}
use ntwire.Relay.Sni.Encoding.{Hello, encode, IsWellFormed, parse_client_hello-encode}
use ntwire.Relay.Sni.Peek.{
  PeekError, Peeked, peeked, inspect, peek_from, peek_client_hello, max_client_hello_records,
  max_client_hello_bytes,
}

-- a handshake record
abbrev pub tls_record : Bytes → Bytes → Bytes
tls_record f rest = 22 ∷ 3 ∷ 1 ∷ length f / 256 ∷ length f % 256 ∷ (f ++ rest)

abbrev pub tls_records : List Bytes → Bytes → Bytes
tls_records [] rest = rest
tls_records (f ∷ fs) rest = tls_record f (tls_records fs rest)

abbrev pub join : List Bytes → Bytes
join [] = []
join (f ∷ fs) = f ++ join fs

abbrev pub NoneEmpty : List Bytes → Type 0
NoneEmpty [] = Unit
NoneEmpty (f ∷ fs) = (0 < length f) × NoneEmpty fs

-- the handshake message that carries the hello: its type and a three-byte length
abbrev pub message : Hello → Bytes
message h =
    1
    ∷ length (encode h) / 65536
    ∷ length (encode h) / 256 % 256
    ∷ length (encode h) % 256
    ∷ encode h

abbrev pub found : (Bytes → Bytes) → Hello → Bytes → Bytes → Peeked
found to_lower h raw unread = record {
  sni = normalize_sni to_lower h.host;
  raw = raw;
  unread = unread;
}

tls_records-append :
    (fs : List Bytes) (rest : Bytes) → tls_records fs [] ++ rest ≡ tls_records fs rest
tls_records-append [] rest = refl
tls_records-append (f ∷ fs) rest =
    ap (λ t. 22 ∷ 3 ∷ 1 ∷ length f / 256 ∷ length f % 256 ∷ t)
      (append_assoc f (tls_records fs []) rest ∙ ap (λ t. f ++ t) (tls_records-append fs rest))

u24_value : (n : ℕ) → (n / 65536 * 256 + n / 256 % 256) * 256 + n % 256 ≡ n
u24_value n = omega arith

take-all : (s : Bytes) → take (length s) s ≡ s
take-all s = ap (λ t. take (length s) t) (sym (append-nil s)) ∙ take-length-append s []

module _ (to_lower : Bytes → Bytes) where
  peek_record :
      (fuel n : ℕ) (f rest buf msg : Bytes)
      → suc n ≤ max_client_hello_records
      → length buf + 5 + length f ≤ max_client_hello_bytes
      → peek_from to_lower (suc fuel) (tls_record f rest) buf msg n
        ≡ inspect to_lower
            (msg ++ f)
            (buf ++ tls_record f [])
            rest
            (peek_from to_lower fuel rest (buf ++ tls_record f []) (msg ++ f) (suc n))
  unfolding peek_from
  peek_record fuel n f rest buf msg few small =
      let value : length f / 256 * 256 + length f % 256 ≡ length f = omega arith in
      rw (value, take-length-append f rest, drop-length-append f rest, append-nil f)
        (ground (arith, length-append f rest))

  inspect_whole :
      (h : Hello) (raw unread : Bytes) (later : Result PeekError Peeked)
      → IsWellFormed h
      → inspect to_lower (message h) raw unread later ≡ ok (found to_lower h raw unread)
  unfolding inspect peeked
  inspect_whole h raw unread later w =
      rw
        (u24_value (length (encode h)), take-all (encode h), parse_client_hello-encode to_lower h w)
        (ground arith)

  inspect_part :
      (h : Hello) (m more raw unread : Bytes) (later : Result PeekError Peeked)
      → m ++ more ≡ message h
      → 0 < length more
      → inspect to_lower m raw unread later ≡ later
  unfolding inspect
  inspect_part h [] more raw unread later e lt = refl
  inspect_part h (a ∷ []) more raw unread later e lt = refl
  inspect_part h (a ∷ b ∷ []) more raw unread later e lt = refl
  inspect_part h (a ∷ b ∷ c ∷ []) more raw unread later e lt = refl
  inspect_part h (kind ∷ hi ∷ mid ∷ lo ∷ body) more raw unread later e lt =
      let lengths : length body + length more ≡ length (encode h) =
        omega (arith, length-append body more, ap length e) in
      let value = u24_value (length (encode h)) in grind (arith, e, lengths, value)

  peek_records :
      (h : Hello) (fuel n : ℕ) (f : Bytes) (fs : List Bytes) (rest buf msg : Bytes)
      → IsWellFormed h
      → NoneEmpty fs
      → msg ++ (f ++ join fs) ≡ message h
      → length fs ≤ fuel
      → suc n + length fs ≤ max_client_hello_records
      → length buf + length (tls_records (f ∷ fs) []) ≤ max_client_hello_bytes
      → peek_from to_lower (suc fuel) (tls_records (f ∷ fs) rest) buf msg n
        ≡ ok (found to_lower h (buf ++ tls_records (f ∷ fs) []) rest)
  peek_records h fuel n f [] rest buf msg w ne e le few small =
      peek_record fuel n f rest buf msg (omega arith) (omega (arith, length-append f []))
      ∙ ap
          (λ m.
            inspect to_lower m (buf ++ tls_record f []) rest
              (peek_from to_lower fuel rest (buf ++ tls_record f []) (msg ++ f) (suc n)))
          (ap (λ t. msg ++ t) (sym (append-nil f)) ∙ e)
      ∙ inspect_whole h _ rest _ w
  peek_records h zero n f (g ∷ fs) rest buf msg w ne e le few small = absurd (omega arith)
  peek_records h (suc fuel) n f (g ∷ fs) rest buf msg w (ne, nes) e le few small =
      peek_record (suc fuel) n f (tls_records (g ∷ fs) rest) buf msg (omega arith)
        (omega (arith, length-append f (tls_records (g ∷ fs) [])))
      ∙ inspect_part h (msg ++ f) (g ++ join fs) _ _ _ (append_assoc msg f (g ++ join fs) ∙ e)
          (omega (arith, length-append g (join fs)))
      ∙ peek_records h fuel (suc n) g fs rest (buf ++ tls_record f []) (msg ++ f) w nes
          (append_assoc msg f (g ++ join fs) ∙ e) (omega arith) (omega arith)
          (omega (
            arith,
            length-append buf (tls_record f []),
            length-append f [],
            length-append f (tls_records (g ∷ fs) []),
          ))
      ∙ ap (λ t. ok (found to_lower h t rest))
          (append_assoc buf (tls_record f []) _
            ∙ ap (λ t. buf ++ (22 ∷ 3 ∷ 1 ∷ length f / 256 ∷ length f % 256 ∷ t))
                (append_assoc f [] _))

-- A client hello of at most four records and 16384 bytes is read whole, however its message is cut
-- into fragments that are not empty: the result is its host in normal form, its records for replay, and what follows
-- them is left unread.
pub peek_client_hello-tls_records :
    (to_lower : Bytes → Bytes) (h : Hello) (f : Bytes) (fs : List Bytes) (rest : Bytes)
    → IsWellFormed h
    → NoneEmpty fs
    → f ++ join fs ≡ message h
    → suc (length fs) ≤ max_client_hello_records
    → length (tls_records (f ∷ fs) []) ≤ max_client_hello_bytes
    → peek_client_hello to_lower (tls_records (f ∷ fs) rest)
      ≡ ok (found to_lower h (tls_records (f ∷ fs) []) rest)
unfolding peek_client_hello
peek_client_hello-tls_records to_lower h f fs rest w ne e few small =
    peek_records to_lower h 4 0 f fs rest [] [] w ne e (omega arith) (omega arith)
      (omega (arith, small))
