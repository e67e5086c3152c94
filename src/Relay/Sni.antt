-- ===== src/Relay/Sni.antt =====
-- The server name of a TLS ClientHello, pkg/relay/sni.go. Bytes are numbers below 256, so that
-- `n<<8 | b` is `n * 256 + b`. `to_lower` stands for Go's strings.ToLower.
pub mod Peek
pub mod Encoding
pub mod Replay
pub mod Fragments
use ntwire.Base.{
  Result, min, max, ℕ, zero, suc, ◌+◌, ◌-◌, ◌*◌, ◌/◌, ◌%◌, ◌^◌, ◌≤◌, ◌<◌, String, ◌≡◌, refl, sym,
  ap, subst, ◌∙◌, ◌≢◌, ◌↔◌, ◌⊎◌, inl, inr, ite, Bool, true, false, not, ◌&&◌, ◌||◌, Option, none,
  some, Memᴰ, List, [], ◌∷◌, ◌++◌, map, arith, dec_lt, dec_le, ℕ_discrete, length, take, drop,
  length-append, take-append-drop, length-take, length-drop, take-length-append, drop-length-append,
  count, count-append, bit, Memᴰ-append_right, Map, tally, lookup, delete, insert, lookup-delete,
  lookup-insert, get_or, has, IsMap, delete-IsMap, insert-IsMap, delete_absent, tally-delete,
  length-delete, tally-insert_absent, tally-insert_present, bit-has-le, lookup-head,
  tally-delete-le, length-delete-le, length-insert-le, tally-insert-le, tally_all,
  length-insert_absent, length-le-insert, ◌>>=◌, ◌>>◌, guard, ltb, leb, ◌==◌, if◌then◌else◌,
  Bool-cases, Option-cases, string_discrete, test,
}
use ntwire.Base.{ok, err}

abbrev pub Bytes : Type 0
Bytes = List ℕ

-- The errors by what was being read. `unfinished` is none of the program's: the loops here take
-- fuel, and it is never the result with the fuel that they get.
pub data HelloError : Type 0 where
  hello_too_short session_id cipher_suites compression_methods extensions_length extensions_body
        extension_header extension_body server_name_extension server_name_list server_name_entry
        server_name_host unfinished :
      HelloError

-- the loop that reads a big-endian length
abbrev pub be : ℕ → Bytes → ℕ
be n [] = n
be n (b ∷ bs) = be (n * 256 + b) bs

unfoldable pub skip_length_prefixed : Bytes → ℕ → HelloError → Result HelloError Bytes
skip_length_prefixed b prefix_len e = do
  guard (leb prefix_len (length b)) e
  guard (leb (be 0 (take prefix_len b)) (length (drop prefix_len b))) e
  ok (drop (be 0 (take prefix_len b)) (drop prefix_len b))

module _ (to_lower : Bytes → Bytes) where
  -- strings.TrimSuffix(s, ".")
  unfoldable pub trim_dot : Bytes → Bytes
  trim_dot [] = []
  trim_dot (c ∷ []) = if c == b'.' then [] else c ∷ []
  trim_dot (c ∷ d ∷ s) = c ∷ trim_dot (d ∷ s)

  abbrev pub normalize_sni : Bytes → Bytes
  normalize_sni s = trim_dot (to_lower s)

  -- the loop of `parseServerNameExtension` over the name list
  unfoldable pub parse_names : ℕ → Bytes → Result HelloError Bytes
  parse_names zero data_ = err unfinished
  parse_names (suc fuel) [] = ok []
  parse_names (suc fuel) (a ∷ []) = err server_name_entry
  parse_names (suc fuel) (a ∷ b ∷ []) = err server_name_entry
  parse_names (suc fuel) (name_type ∷ hi ∷ lo ∷ rest) =
      let later = parse_names fuel (drop (hi * 256 + lo) rest) in
      if ltb (length rest) (hi * 256 + lo)
      then err server_name_host
      else if name_type == 0
      then ok (normalize_sni (take (hi * 256 + lo) rest))
      else later

  unfoldable pub parse_server_name_extension : Bytes → Result HelloError Bytes
  parse_server_name_extension [] = err server_name_extension
  parse_server_name_extension (a ∷ []) = err server_name_extension
  parse_server_name_extension (hi ∷ lo ∷ rest) =
      if ltb (length rest) (hi * 256 + lo)
      then err server_name_list
      else parse_names (suc (length rest)) (take (hi * 256 + lo) rest)

  -- the loop of `parseClientHelloServerName` over the extensions
  unfoldable pub parse_extensions : ℕ → Bytes → Result HelloError Bytes
  parse_extensions zero exts = err unfinished
  parse_extensions (suc fuel) [] = ok []
  parse_extensions (suc fuel) (a ∷ []) = err extension_header
  parse_extensions (suc fuel) (a ∷ b ∷ []) = err extension_header
  parse_extensions (suc fuel) (a ∷ b ∷ c ∷ []) = err extension_header
  parse_extensions (suc fuel) (t1 ∷ t2 ∷ hi ∷ lo ∷ rest) =
      let later = parse_extensions fuel (drop (hi * 256 + lo) rest) in
      if ltb (length rest) (hi * 256 + lo)
      then err extension_body
      else if t1 * 256 + t2 == 0
      then parse_server_name_extension (take (hi * 256 + lo) rest)
      else later

  unfoldable pub parse_extension_block : Bytes → Result HelloError Bytes
  parse_extension_block [] = ok []
  parse_extension_block (a ∷ []) = err extensions_length
  parse_extension_block (hi ∷ lo ∷ rest) =
      if ltb (length rest) (hi * 256 + lo)
      then err extensions_body
      else parse_extensions (suc (length rest)) (take (hi * 256 + lo) rest)

  unfoldable pub parse_client_hello : Bytes → Result HelloError Bytes
  unfolding skip_length_prefixed
  parse_client_hello b = do
    guard (leb 34 (length b)) hello_too_short
    after_id ← skip_length_prefixed (drop 34 b) 1 session_id
    after_suites ← skip_length_prefixed after_id 2 cipher_suites
    after_methods ← skip_length_prefixed after_suites 1 compression_methods
    parse_extension_block after_methods
