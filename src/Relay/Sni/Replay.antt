-- ===== src/Relay/Sni/Replay.antt =====
-- What `peekClientHello` of pkg/relay/sni.go reads is what it returns for replay.
use ntwire.Base.{
  Result, ℕ, zero, suc, ◌+◌, ◌*◌, ◌≤◌, ◌<◌, ◌≡◌, refl, ap, subst, ◌∙◌, ◌≢◌, ◌⊎◌, inl, inr, Bool,
  true, false, not, [], ◌∷◌, ◌++◌, arith, length, take, drop, length-append, take-append-drop,
  length-take, length-drop, ◌>>=◌, ltb, leb, ◌==◌, if◌then◌else◌, Bool-cases,
}
use ntwire.Base.{ok, err, append_assoc}
use ntwire.Relay.Sni.{
  compression_methods, cipher_suites, session_id, Bytes, HelloError, unfinished, be,
  skip_length_prefixed, parse_names, parse_server_name_extension, parse_extensions,
  parse_extension_block, parse_client_hello,
}
use ntwire.Relay.Sni.Peek.{
  PeekError, Peeked, endless, bad_hello, not_client_hello, not_handshake, too_many_records,
  too_large, record_payload, peeked, inspect, peek_from, peek_client_hello,
  max_client_hello_records, max_client_hello_bytes,
}

-- A result that replays all of `input` that was read, within the limit.
abbrev pub Replays : Bytes → Result PeekError Peeked → Type 0
Replays input (err e) = Unit
Replays input (ok p) = (p.raw ++ p.unread ≡ input) × (length p.raw ≤ max_client_hello_bytes)

-- Not the result of a loop that ran out of fuel.
abbrev pub IsFinal : Result PeekError Peeked → Type 0
IsFinal r = (r ≢ err endless) × (r ≢ err (bad_hello unfinished))

if◌-Replays :
    (input : Bytes) (c : Bool) (r s : Result PeekError Peeked)
    → Replays input r
    → Replays input s
    → Replays input (if c then r else s)
if◌-Replays input true r s x y = x
if◌-Replays input false r s x y = y

if◌-IsFinal :
    (c : Bool) (r s : Result PeekError Peeked)
    → IsFinal r
    → IsFinal s
    → IsFinal (if c then r else s)
if◌-IsFinal true r s x y = x
if◌-IsFinal false r s x y = y

if_false-IsFinal :
    (c : Bool) (r s : Result PeekError Peeked)
    → IsFinal r
    → (c ≡ false → IsFinal s)
    → IsFinal (if c then r else s)
if_false-IsFinal true r s x y = x
if_false-IsFinal false r s x y = y refl

-- A branch that is taken under a test.
if_false-Replays :
    (input : Bytes) (c : Bool) (r s : Result PeekError Peeked)
    → Replays input r
    → (c ≡ false → Replays input s)
    → Replays input (if c then r else s)
if_false-Replays input true r s x y = x
if_false-Replays input false r s x y = y refl

skip_length_prefixed-cases :
    (b : Bytes) (n : ℕ) (e : HelloError)
    → ((rest : Bytes) × (skip_length_prefixed b n e ≡ ok rest))
      ⊎ (skip_length_prefixed b n e ≡ err e)
unfolding skip_length_prefixed
skip_length_prefixed-cases b n e = elim (Bool-cases (leb n (length b))) [
  | inl yes_ ↦ elim (Bool-cases (leb (be 0 (take n b)) (length (drop n b)))) [
    | inl fits ↦ inl (drop (be 0 (take n b)) (drop n b), rw (yes_, fits) refl)
    | inr long ↦ inr (rw (yes_, long) refl)
  ]
  | inr no_ ↦ inr (rw no_ refl)
]

-- A chain of a read that has its own error and a parser that finishes finishes.
finishes-chain :
    (b : Bytes) (n : ℕ) (e : HelloError) (k : Bytes → Result HelloError Bytes)
    → e ≢ unfinished
    → ((rest : Bytes) → k rest ≢ err unfinished)
    → (skip_length_prefixed b n e >>= k) ≢ err unfinished
finishes-chain b n e k ne f = elim (skip_length_prefixed-cases b n e) [
  | inl read ↦ rw (read.1) (f (read.0))
  | inr failed ↦ rw failed (grind arith)
]

module _ (to_lower : Bytes → Bytes) where
  peeked-Replays :
      (input raw unread : Bytes) (r : Result HelloError Bytes)
      → raw ++ unread ≡ input
      → length raw ≤ max_client_hello_bytes
      → Replays input (peeked to_lower raw unread r)
  unfolding peeked
  peeked-Replays input raw unread (err x) e le = tt
  peeked-Replays input raw unread (ok sni) e le = (e, le)

  inspect-Replays :
      (input msg raw unread : Bytes) (later : Result PeekError Peeked)
      → raw ++ unread ≡ input
      → length raw ≤ max_client_hello_bytes
      → Replays input later
      → Replays input (inspect to_lower msg raw unread later)
  unfolding inspect
  inspect-Replays input [] raw unread later e le r = r
  inspect-Replays input (a ∷ []) raw unread later e le r = r
  inspect-Replays input (a ∷ b ∷ []) raw unread later e le r = r
  inspect-Replays input (a ∷ b ∷ c ∷ []) raw unread later e le r = r
  inspect-Replays input (kind ∷ hi ∷ mid ∷ lo ∷ body) raw unread later e le r =
      let msg_len = (hi * 256 + mid) * 256 + lo in
      if◌-Replays input (not (kind == 1)) (err not_client_hello) _ tt (
        if◌-Replays input (ltb (length body) msg_len) later _ r
          (peeked-Replays input raw unread (parse_client_hello to_lower (take msg_len body)) e le))

  peek_from-Replays :
      (fuel : ℕ) (input buf msg : Bytes) (records : ℕ)
      → Replays (buf ++ input) (peek_from to_lower fuel input buf msg records)
  unfolding peek_from
  peek_from-Replays zero input buf msg records = tt
  peek_from-Replays (suc fuel) [] buf msg records = tt
  peek_from-Replays (suc fuel) (a ∷ []) buf msg records = tt
  peek_from-Replays (suc fuel) (a ∷ b ∷ []) buf msg records = tt
  peek_from-Replays (suc fuel) (a ∷ b ∷ c ∷ []) buf msg records = tt
  peek_from-Replays (suc fuel) (a ∷ b ∷ c ∷ d ∷ []) buf msg records = tt
  peek_from-Replays (suc fuel) (kind ∷ v1 ∷ v2 ∷ hi ∷ lo ∷ rest) buf msg records =
      let size = hi * 256 + lo in
      let raw = buf ++ (kind ∷ v1 ∷ v2 ∷ hi ∷ lo ∷ take size rest) in
      let input = buf ++ (kind ∷ v1 ∷ v2 ∷ hi ∷ lo ∷ rest) in
      let whole : raw ++ drop size rest ≡ input =
        append_assoc buf _ _
        ∙ ap (λ t. buf ++ (kind ∷ v1 ∷ v2 ∷ hi ∷ lo ∷ t)) (take-append-drop size rest) in
      let next =
        peek_from to_lower fuel (drop size rest) raw (msg ++ take size rest) (suc records) in
      let later =
        peek_from-Replays fuel (drop size rest) raw (msg ++ take size rest) (suc records) in
      if◌-Replays input (not (kind == 22)) _ _ tt (
        if◌-Replays input (ltb max_client_hello_records (suc records)) _ _ tt (
          if_false-Replays input (ltb max_client_hello_bytes (length buf + 5 + size)) _ _ tt
            (λ fits. if◌-Replays input (ltb (length rest) size) _ _ tt (
              inspect-Replays input _ raw _ _ whole
                (ground (
                  arith,
                  length-append buf (kind ∷ v1 ∷ v2 ∷ hi ∷ lo ∷ take size rest),
                  length-take size rest,
                ))
                (subst (λ i. Replays i next) whole later)))))

  parse_names-finishes :
      (fuel : ℕ) (b : Bytes) → length b < fuel → parse_names to_lower fuel b ≢ err unfinished
  unfolding parse_names
  parse_names-finishes zero b lt = absurd (omega arith)
  parse_names-finishes (suc fuel) [] lt = grind arith
  parse_names-finishes (suc fuel) (a ∷ []) lt = grind arith
  parse_names-finishes (suc fuel) (a ∷ b ∷ []) lt = grind arith
  parse_names-finishes (suc fuel) (a ∷ hi ∷ lo ∷ rest) lt = ground (
    arith,
    parse_names-finishes fuel (drop (hi * 256 + lo) rest),
    length-drop (hi * 256 + lo) rest,
  )

  parse_server_name_extension-finishes :
      (b : Bytes) → parse_server_name_extension to_lower b ≢ err unfinished
  unfolding parse_server_name_extension
  parse_server_name_extension-finishes [] = grind arith
  parse_server_name_extension-finishes (a ∷ []) = grind arith
  parse_server_name_extension-finishes (hi ∷ lo ∷ rest) = ground (
    arith,
    parse_names-finishes (suc (length rest)) (take (hi * 256 + lo) rest),
    length-take (hi * 256 + lo) rest,
  )

  parse_extensions-finishes :
      (fuel : ℕ) (b : Bytes) → length b < fuel → parse_extensions to_lower fuel b ≢ err unfinished
  unfolding parse_extensions
  parse_extensions-finishes zero b lt = absurd (omega arith)
  parse_extensions-finishes (suc fuel) [] lt = grind arith
  parse_extensions-finishes (suc fuel) (a ∷ []) lt = grind arith
  parse_extensions-finishes (suc fuel) (a ∷ b ∷ []) lt = grind arith
  parse_extensions-finishes (suc fuel) (a ∷ b ∷ c ∷ []) lt = grind arith
  parse_extensions-finishes (suc fuel) (a ∷ b ∷ hi ∷ lo ∷ rest) lt = ground (
    arith,
    parse_extensions-finishes fuel (drop (hi * 256 + lo) rest),
    parse_server_name_extension-finishes (take (hi * 256 + lo) rest),
    length-drop (hi * 256 + lo) rest,
  )

  parse_extension_block-finishes : (b : Bytes) → parse_extension_block to_lower b ≢ err unfinished
  unfolding parse_extension_block
  parse_extension_block-finishes [] = grind arith
  parse_extension_block-finishes (a ∷ []) = grind arith
  parse_extension_block-finishes (hi ∷ lo ∷ rest) = ground (
    arith,
    parse_extensions-finishes (suc (length rest)) (take (hi * 256 + lo) rest),
    length-take (hi * 256 + lo) rest,
  )

  parse_client_hello-finishes : (b : Bytes) → parse_client_hello to_lower b ≢ err unfinished
  unfolding parse_client_hello
  parse_client_hello-finishes b =
      let chain : (n : ℕ) (e : HelloError)
          → e ≢ unfinished
          → (k : Bytes → Result HelloError Bytes) → ((s : Bytes) → k s ≢ err unfinished)
          → (s : Bytes) → (skip_length_prefixed s n e >>= k) ≢ err unfinished =
        λ n e ne k f s. finishes-chain s n e k ne f in
      elim (Bool-cases (leb 34 (length b))) [
        | inl yes_ ↦ rw yes_ (
            chain 1 session_id (grind arith) _
              (chain 2 cipher_suites (grind arith) _
                (chain 1 compression_methods (grind arith) _ parse_extension_block-finishes))
              (drop 34 b))
        | inr no_ ↦ rw no_ (grind arith)
      ]

  peeked-IsFinal :
      (raw unread : Bytes) (r : Result HelloError Bytes)
      → r ≢ err unfinished
      → IsFinal (peeked to_lower raw unread r)
  unfolding peeked
  peeked-IsFinal raw unread (err x) ne = grind arith
  peeked-IsFinal raw unread (ok sni) ne = grind arith

  inspect-IsFinal :
      (msg raw unread : Bytes) (later : Result PeekError Peeked)
      → IsFinal later
      → IsFinal (inspect to_lower msg raw unread later)
  unfolding inspect peeked
  inspect-IsFinal [] raw unread later f = f
  inspect-IsFinal (a ∷ []) raw unread later f = f
  inspect-IsFinal (a ∷ b ∷ []) raw unread later f = f
  inspect-IsFinal (a ∷ b ∷ c ∷ []) raw unread later f = f
  inspect-IsFinal (kind ∷ hi ∷ mid ∷ lo ∷ body) raw unread later f =
      let msg_len = (hi * 256 + mid) * 256 + lo in
      if◌-IsFinal (not (kind == 1)) (err not_client_hello) _ (grind arith) (
        if◌-IsFinal (ltb (length body) msg_len) later _ f
          (peeked-IsFinal raw unread _ (parse_client_hello-finishes (take msg_len body))))

  peek_from-IsFinal :
      (fuel records : ℕ) (input buf msg : Bytes)
      → max_client_hello_records < records + fuel
      → records ≤ max_client_hello_records
      → IsFinal (peek_from to_lower fuel input buf msg records)
  unfolding peek_from
  peek_from-IsFinal zero records input buf msg lt le = absurd (omega arith)
  peek_from-IsFinal (suc fuel) records [] buf msg lt le = grind arith
  peek_from-IsFinal (suc fuel) records (a ∷ []) buf msg lt le = grind arith
  peek_from-IsFinal (suc fuel) records (a ∷ b ∷ []) buf msg lt le = grind arith
  peek_from-IsFinal (suc fuel) records (a ∷ b ∷ c ∷ []) buf msg lt le = grind arith
  peek_from-IsFinal (suc fuel) records (a ∷ b ∷ c ∷ d ∷ []) buf msg lt le = grind arith
  peek_from-IsFinal (suc fuel) records (kind ∷ v1 ∷ v2 ∷ hi ∷ lo ∷ rest) buf msg lt le =
      let size = hi * 256 + lo in
      let raw = buf ++ (kind ∷ v1 ∷ v2 ∷ hi ∷ lo ∷ take size rest) in
      if◌-IsFinal (not (kind == 22)) (err not_handshake) _ (grind arith) (
        if_false-IsFinal (ltb max_client_hello_records (suc records)) (err too_many_records) _
          (grind arith)
          (λ few.
            if◌-IsFinal (ltb max_client_hello_bytes (length buf + 5 + size)) (err too_large) _
              (grind arith)
              (if◌-IsFinal (ltb (length rest) size) (err record_payload) _ (grind arith) (
                inspect-IsFinal _ raw _ _ (
                  peek_from-IsFinal fuel (suc records) (drop size rest) raw (msg ++ take size rest)
                    (omega arith) (ground arith))))))

-- Whatever the reader delivers, `peek_client_hello` returns: neither its loop over records nor the
-- loops of the parser over extensions and names run out of the fuel that they are given.
pub peek_client_hello-IsFinal :
    (to_lower : Bytes → Bytes) (input : Bytes) → IsFinal (peek_client_hello to_lower input)
unfolding peek_client_hello
peek_client_hello-IsFinal to_lower input =
    peek_from-IsFinal to_lower 5 0 input [] [] (omega arith) (omega arith)

-- What `peek_client_hello` hands on for replay, followed by what the reader still holds, is what
-- the client sent, byte for byte, and it is at most 16384 bytes long.
pub peek_client_hello-Replays :
    (to_lower : Bytes → Bytes) (input : Bytes) → Replays input (peek_client_hello to_lower input)
unfolding peek_client_hello
peek_client_hello-Replays to_lower input = peek_from-Replays to_lower 5 input [] [] 0
