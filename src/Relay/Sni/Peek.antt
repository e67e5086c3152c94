-- ===== src/Relay/Sni/Peek.antt =====
-- Reading a ClientHello off a connection, `peekClientHello` of pkg/relay/sni.go. The reader is the
-- bytes that arrive before it fails: `io.ReadFull` errs when fewer are left than it asks for. Every
-- turn of the loop counts a record, so that five turns are enough: the fifth errs.
use ntwire.Base.{
  Result, ℕ, zero, suc, ◌+◌, ◌*◌, not, [], ◌∷◌, ◌++◌, length, take, drop, ltb, ◌==◌, if◌then◌else◌,
}
use ntwire.Base.{ok, err}
use ntwire.Relay.Sni.{Bytes, HelloError, parse_client_hello}

-- `endless` is none of the program's: it stands for a loop that goes on.
pub data PeekError : Type 0 where
  record_header not_handshake too_many_records too_large record_payload not_client_hello endless :
      PeekError
  bad_hello : HelloError → PeekError

pub record Peeked : Type 0 where
  pub sni : Bytes
  pub raw : Bytes
  pub unread : Bytes  -- what the reader still holds

abbrev pub max_client_hello_records : ℕ
max_client_hello_records = 4

abbrev pub max_client_hello_bytes : ℕ
max_client_hello_bytes = 16384

module _ (to_lower : Bytes → Bytes) where
  -- the result of the parser with the bytes that are replayed
  unfoldable pub peeked : Bytes → Bytes → Result HelloError Bytes → Result PeekError Peeked
  peeked raw unread (err e) = err (bad_hello e)
  peeked raw unread (ok sni) = ok (record { sni = sni; raw = raw; unread = unread })

  -- the part of the loop after a record was read: `later` is what the next turn gives
  unfoldable pub inspect : Bytes → Bytes → Bytes → Result PeekError Peeked → Result PeekError Peeked
  inspect [] raw unread later = later
  inspect (a ∷ []) raw unread later = later
  inspect (a ∷ b ∷ []) raw unread later = later
  inspect (a ∷ b ∷ c ∷ []) raw unread later = later
  inspect (kind ∷ hi ∷ mid ∷ lo ∷ body) raw unread later =
      let msg_len = (hi * 256 + mid) * 256 + lo in
      if not (kind == 1)
      then err not_client_hello
      else if ltb (length body) msg_len
      then later
      else peeked raw unread (parse_client_hello to_lower (take msg_len body))

  unfoldable pub peek_from : ℕ → Bytes → Bytes → Bytes → ℕ → Result PeekError Peeked
  peek_from zero input buf msg records = err endless
  peek_from (suc fuel) [] buf msg records = err record_header
  peek_from (suc fuel) (a ∷ []) buf msg records = err record_header
  peek_from (suc fuel) (a ∷ b ∷ []) buf msg records = err record_header
  peek_from (suc fuel) (a ∷ b ∷ c ∷ []) buf msg records = err record_header
  peek_from (suc fuel) (a ∷ b ∷ c ∷ d ∷ []) buf msg records = err record_header
  peek_from (suc fuel) (kind ∷ v1 ∷ v2 ∷ hi ∷ lo ∷ rest) buf msg records =
      let size = hi * 256 + lo in
      let payload = take size rest in
      let raw = buf ++ (kind ∷ v1 ∷ v2 ∷ hi ∷ lo ∷ payload) in
      let later = peek_from fuel (drop size rest) raw (msg ++ payload) (suc records) in
      if not (kind == 22)
      then err not_handshake
      else if ltb max_client_hello_records (suc records)
      then err too_many_records
      else if ltb max_client_hello_bytes (length buf + 5 + size)
      then err too_large
      else if ltb (length rest) size
      then err record_payload
      else inspect (msg ++ payload) raw (drop size rest) later

  unfoldable pub peek_client_hello : Bytes → Result PeekError Peeked
  peek_client_hello input = peek_from 5 input [] [] 0
