-- ===== src/Tests/Hellos.antt =====
-- A ClientHello for the host "a." over two TLS records.
use ntwire.Base.{◌≡◌, refl, [], ◌∷◌, arith, take, drop}
use ntwire.Base.{ok}
use ntwire.Relay.Sni.{Bytes, normalize_sni, parse_client_hello}
use ntwire.Relay.Sni.Encoding.{Hello, encode, IsWellFormed, parse_client_hello-encode}
use ntwire.Relay.Sni.Peek.{peek_client_hello}
use ntwire.Relay.Sni.Replay.{IsFinal, peek_client_hello-IsFinal}
use ntwire.Relay.Sni.Fragments.{message, tls_records, found, peek_client_hello-tls_records}

abbrev hello : Hello
hello = record {
  opening =
      3 ∷ 3 ∷ 0 ∷ 0 ∷ 0 ∷ 0 ∷ 0 ∷ 0 ∷ 0 ∷ 0 ∷ 0 ∷ 0 ∷ 0 ∷ 0 ∷ 0 ∷ 0 ∷ 0 ∷ 0 ∷ 0 ∷ 0 ∷ 0 ∷ 0 ∷ 0 ∷ 0
      ∷ 0 ∷ 0 ∷ 0 ∷ 0 ∷ 0 ∷ 0 ∷ 0 ∷ 0 ∷ 0 ∷ 0 ∷ [];
  session_id = 9 ∷ [];
  suites = 19 ∷ 1 ∷ [];
  methods = 0 ∷ [];
  others = (16, 1 ∷ []) ∷ [];
  reserved = [];
  host = 97 ∷ 46 ∷ [];
  more_names = [];
  more_extensions = [];
}

hello-IsWellFormed : IsWellFormed hello
hello-IsWellFormed = record {
  opening_34 = refl;
  others_other = (omega arith, tt);
  reserved_other = tt;
}

abbrev lower : Bytes → Bytes
lower s = s

parse_client_hello-encode_example :
    parse_client_hello lower (encode hello) ≡ ok (normalize_sni lower (97 ∷ 46 ∷ []))
parse_client_hello-encode_example = parse_client_hello-encode lower hello hello-IsWellFormed

peek_client_hello-tls_records_example :
    peek_client_hello lower
      (tls_records (take 20 (message hello) ∷ drop 20 (message hello) ∷ []) (7 ∷ []))
    ≡ ok (
        found lower hello
          (tls_records (take 20 (message hello) ∷ drop 20 (message hello) ∷ []) [])
          (7 ∷ []))
peek_client_hello-tls_records_example =
    peek_client_hello-tls_records lower hello (take 20 (message hello))
      (drop 20 (message hello) ∷ []) (7 ∷ []) hello-IsWellFormed (omega arith, tt) refl
      (omega arith) (omega arith)

peek_client_hello-IsFinal_example : IsFinal (peek_client_hello lower (22 ∷ 3 ∷ 1 ∷ 0 ∷ 0 ∷ []))
peek_client_hello-IsFinal_example = peek_client_hello-IsFinal lower (22 ∷ 3 ∷ 1 ∷ 0 ∷ 0 ∷ [])
